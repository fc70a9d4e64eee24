-- ===== src/CacheSim/Trace.antt =====
-- The runs of csim.c over a trace: each set of the cache against the accesses that fall into it.
use native.Mathlib.Nat.{mod-lt, one-le-pow}
use computer_systems_project.Base.{
  ℕ, suc, ◌+◌, ◌/◌, ◌^◌, ◌<◌, ◌≤◌, ◌≡◌, sym, ap, ◌∙◌, refl, subst, none, some, List, [], ◌∷◌, arith,
  length, get_elem?, get_or, set, ◌==◌, if◌then◌else◌, get_elem?-eq-get_or, ==_self, ℕ_discrete,
  length-set, get_elem?-set_self, get_elem?-set_ne, length-replicate, get_elem?-replicate,
  lt-length_of_get_elem?,
}
use computer_systems_project.CacheSim.{
  CacheLine, Stats, Access, TraceLines, tag_of, set_index, create_cache, access_set, access_data,
  process_lines,
}
use computer_systems_project.CacheSim.Recency.{Tracks, replicate-Tracks}
use computer_systems_project.CacheSim.Recency.Access.{Serves, access_set-Serves}

-- The accesses before the first line that cannot be read.
unfoldable pub accesses : TraceLines → List Access
accesses [] = []
accesses (none ∷ ls) = []
accesses (some a ∷ ls) = a ∷ accesses ls

-- The history of the set `i`, newest first: the tags of the accesses that fall into it, in front of
-- an earlier history.
unfoldable pub history : (s b i : ℕ) → List Access → List ℕ → List ℕ
history s b i [] h = h
history s b i (a ∷ rest) h =
    history s b i rest (if set_index s b a.address == i then tag_of s b a.address ∷ h else h)

-- The cache has its `2 ^ s` sets, each of `n` lines, and each tracks its own history.
pub record CacheTracks (n s : ℕ) (h : ℕ → List ℕ) (c : List (List CacheLine)) : Type 0 where
  pub sets : length c ≡ 2 ^ s
  pub tracks : (i : ℕ) (ls : List CacheLine) → get_elem? c i ≡ some ls → Tracks n (h i) ls

pub create_cache-CacheTracks : (n s : ℕ) → CacheTracks n s (λ i. []) (create_cache s n)
unfolding create_cache
create_cache-CacheTracks n s = record {
  sets = length-replicate (2 ^ s) _;
  tracks = λ i ls at.
      subst (Tracks n []) (sym (get_elem?-replicate (2 ^ s) i _ at)) (replicate-Tracks n);
}

pub set_index-lt : (s b address : ℕ) → set_index s b address < 2 ^ s
unfolding set_index
set_index-lt s b address = mod-lt (address / 2 ^ b) (one-le-pow s 2 (omega arith))

-- The histories after an access.
abbrev pub push : (s b : ℕ) → Access → (ℕ → List ℕ) → ℕ → List ℕ
push s b a h i = if set_index s b a.address == i then tag_of s b a.address ∷ h i else h i

module _ (s b : ℕ) {n : ℕ} (a : Access) {h : ℕ → List ℕ} {c : List (List CacheLine)} (st : Stats)
    (pos : 0 < n) (short : (i : ℕ) → suc (length (h i)) < 2 ^ 64) (tr : CacheTracks n s h c) where
  abbrev pub index : ℕ
  index = set_index s b a.address

  abbrev pub here : List CacheLine
  here = get_or c index []

  pub here_at : get_elem? c index ≡ some here
  here_at = get_elem?-eq-get_or c index [] (omega (arith, set_index-lt s b a.address, tr.sets))

  here-Serves :
      let (ls', st', o) = access_set b (tag_of s b a.address) a.operation here st in
      Serves n (h index) (tag_of s b a.address) here ls' o
  here-Serves =
      access_set-Serves b (tag_of s b a.address) a.operation st (tr.tracks index here here_at) pos
        (short index)

  abbrev pub next : List CacheLine
  next = (access_set b (tag_of s b a.address) a.operation here st).0

  pub access_data_stats :
      (access_data s b a.address a.operation c st).1
      ≡ (access_set b (tag_of s b a.address) a.operation here st).1
  unfolding access_data
  access_data_stats = refl

  pub access_data_cache : (access_data s b a.address a.operation c st).0 ≡ set c index next
  unfolding access_data
  access_data_cache = refl

  next-Tracks : Tracks n (push s b a h index) next
  next-Tracks = subst (λ x. Tracks n x next) (ground (arith, ==_self index)) here-Serves.tracks

  set-Tracks :
      (i : ℕ) (ls : List CacheLine)
      → get_elem? (set c index next) i ≡ some ls
      → Tracks n (push s b a h i) ls
  set-Tracks i ls at = elim (ℕ_discrete index i) [
    | yes same ↦
        let found : some next ≡ some ls =
          sym (get_elem?-set_self c index next (lt-length_of_get_elem? c index here_at))
          ∙ ap (get_elem? (set c index next)) same
          ∙ at in
        let e : next ≡ ls = cc in
        subst (λ x. Tracks n (push s b a h x) ls) same
          (subst (Tracks n (push s b a h index)) e next-Tracks)
    | no other ↦
        let old = tr.tracks i ls (sym (get_elem?-set_ne c next other) ∙ at) in
        subst (λ x. Tracks n x ls) (ground arith) old
  ]

  pub access_data-CacheTracks :
      CacheTracks n s (push s b a h) (access_data s b a.address a.operation c st).0
  access_data-CacheTracks =
      subst (CacheTracks n s (push s b a h)) (sym access_data_cache)
        (record { sets = length-set c index next ∙ tr.sets; tracks = set-Tracks })

pub length-push :
    (s b : ℕ) (a : Access) (h : ℕ → List ℕ) (i : ℕ) → length (push s b a h i) ≤ suc (length (h i))
length-push s b a h i = ground arith

process_lines-CacheTracks :
    (s b : ℕ) {n : ℕ} (ls : TraceLines) (h : ℕ → List ℕ) (c : List (List CacheLine)) (st : Stats)
    → 0 < n
    → ((i : ℕ) → suc (length (h i) + length ls) < 2 ^ 64)
    → CacheTracks n s h c
    → CacheTracks n s (λ i. history s b i (accesses ls) (h i)) (process_lines s b ls c st).1
unfolding process_lines history accesses
process_lines-CacheTracks s b [] h c st pos short tr = tr
process_lines-CacheTracks s b (none ∷ ls) h c st pos short tr = tr
process_lines-CacheTracks s b (some a ∷ ls) h c st pos short tr =
    process_lines-CacheTracks s b ls (push s b a h) (access_data s b a.address a.operation c st).0
      (access_data s b a.address a.operation c st).1 pos
      (λ i. omega (arith, short i, length-push s b a h i))
      (access_data-CacheTracks s b a st pos (λ i. omega (arith, short i)) tr)

-- After a run of csim.c over a trace of fewer than 2 ^ 64 - 1 lines, on a cache with at least one line in
-- each set, every set tracks the tags of the accesses that fall into it: it has its number of lines,
-- the counter of a valid line is how many of these accesses ago its tag was last used, no tag stands in
-- two valid lines, a line that is not valid is clean, and a tag that was used and stands in no valid
-- line was last used before those of all lines, which are valid.
pub run-CacheTracks :
    (s b n : ℕ) (ls : TraceLines) (st : Stats)
    → 0 < n
    → suc (length ls) < 2 ^ 64
    → CacheTracks n s
        (λ i. history s b i (accesses ls) [])
        (process_lines s b ls (create_cache s n) st).1
run-CacheTracks s b n ls st pos short =
    process_lines-CacheTracks s b ls (λ i. []) (create_cache s n) st pos (λ i. omega arith)
      (create_cache-CacheTracks n s)
