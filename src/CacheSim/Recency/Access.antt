-- ===== src/CacheSim/Recency/Access.antt =====
-- `access_data` of csim.c on one set: hits, misses and evictions against the history of the set.
use computer_systems_project.Base.{
  ℕ, suc, ◌^◌, ◌<◌, ◌≡◌, ◌≢◌, sym, ap, ◌∙◌, refl, subst, true, false, Option, none, some, List, ◌∷◌,
  map, arith, length, get_elem?, get_or, get_elem?-eq-get_or, ℕ_discrete,
}
use computer_systems_project.CacheSim.{
  CacheLine, blank, Stats, Outcome, hit, miss, miss_eviction, touch, fill, replace, tick, scan,
  max_lru, access_found, access_set,
}
use computer_systems_project.CacheSim.Scan.{
  Hit, scan-Hit, scan_missed, Empty, scan-Empty, scan_full, IsMaxLru, max_lru-IsMaxLru,
}
use computer_systems_project.CacheSim.Recency.{Holds, Cached, Tracks}
use computer_systems_project.CacheSim.Recency.Step.{
  after, Installs, after-Tracks, kept-Cached, kept-lt, written-Cached, not-Cached_evicted,
}

-- Every block of `ls` but `v` is in `ls'`.
abbrev Keeps : (ls ls' : List CacheLine) → (ℕ → Type 0) → Type 0
Keeps ls ls' P = (u : ℕ) → Cached ls u → P u → Cached ls' u

abbrev pub AllValid : List CacheLine → Type 0
AllValid ls = (j : ℕ) (l : CacheLine) → get_elem? ls j ≡ some l → l.valid ≡ true

-- What an access of the block `t` does to a set of lines, by the outcome that it reports.
pub data Served (t : ℕ) (ls ls' : List CacheLine) : Outcome → Type 0 where
  found : Cached ls t → Keeps ls ls' (λ u. Unit {0}) → Served t ls ls' hit
  filled :
      (i : ℕ) (l : CacheLine)
      → ¬ Cached ls t
      → get_elem? ls i ≡ some l
      → l.valid ≡ false
      → Keeps ls ls' (λ u. Unit {0})
      → Served t ls ls' miss
  evicted :
      (i : ℕ) (v : CacheLine)
      → ¬ Cached ls t
      → AllValid ls
      → Holds ls i v
      → ((j : ℕ) (l : CacheLine) → Holds ls j l → i ≢ j → l.lru < v.lru)
      → ¬ Cached ls' v.tag
      → Keeps ls ls' (λ u. v.tag ≢ u)
      → Served t ls ls' miss_eviction

-- The new state and the outcome together.
pub record Serves (n : ℕ) (h : List ℕ) (t : ℕ) (ls ls' : List CacheLine) (o : Outcome)
    : Type 0 where
  pub tracks : Tracks n (t ∷ h) ls'
  pub served : Served t ls ls' o

line_eq :
    (ls : List CacheLine) {i j : ℕ} {l m : CacheLine}
    → get_elem? ls i ≡ some l
    → get_elem? ls j ≡ some m
    → i ≡ j
    → l ≡ m
line_eq ls {l} {m} at at' e = let same : some l ≡ some m = sym at ∙ ap (get_elem? ls) e ∙ at' in cc

module _ (b t operation : ℕ) {n : ℕ} {h : List ℕ} {ls : List CacheLine} (st : Stats)
    (tr : Tracks n h ls) (pos : 0 < n) (short : suc (length h) < 2 ^ 64) where
  pub touch-Installs : (k : ℕ) → Hit t 0 k ls → Installs h ls t k (touch operation)
  unfolding touch
  touch-Installs k line_hit = record {
    old = line_hit.line;
    at = at;
    valid = line_hit.valid;
    tag = line_hit.same_tag;
    fresh = refl;
    others = λ j l holds away same. away (
        tr.distinct k j line_hit.line l (record { at = at; valid = line_hit.valid }) holds
          (line_hit.same_tag ∙ sym same));
    victim = λ v other. absurd (other line_hit.same_tag);
    short = short;
  }
    where
      at : get_elem? ls k ≡ some line_hit.line
      at =
          let e : k ≡ line_hit.offset = omega (arith, line_hit.index) in
          ap (get_elem? ls) e ∙ line_hit.at

  pub fill-Installs :
      (k : ℕ)
      → Empty 0 k ls
      → ((j : ℕ) (l : CacheLine) → Holds ls j l → l.tag ≢ t)
      → Installs h ls t k (fill t operation)
  unfolding fill
  fill-Installs k empty missed = record {
    old = empty.line;
    at = let e : k ≡ empty.offset = omega (arith, empty.index) in ap (get_elem? ls) e ∙ empty.at;
    valid = refl;
    tag = refl;
    fresh = refl;
    others = λ j l holds away. missed j l holds;
    victim = λ v other. ground (arith, empty.invalid);
    short = short;
  }

  pub replace-Installs :
      ((j : ℕ) (l : CacheLine) → Holds ls j l → l.tag ≢ t)
      → AllValid ls
      → Installs h ls t (max_lru ls) (replace t operation)
  unfolding replace
  replace-Installs missed full = record {
    old = get_or ls (max_lru ls) blank;
    at = get_elem?-eq-get_or ls (max_lru ls) blank greatest.in_range;
    valid = refl;
    tag = refl;
    fresh = refl;
    others = λ j l holds away. missed j l holds;
    victim = λ v other j l at. (full j l at, greatest.greatest j l at);
    short = short;
  }
    where
      greatest : IsMaxLru ls (max_lru ls)
      greatest = max_lru-IsMaxLru ls (omega (arith, tr.size))

  pub missed_of_scan :
      (e : Option ℕ)
      → scan t 0 none ls ≡ (none, e)
      → (j : ℕ) (l : CacheLine) → Holds ls j l
      → l.tag ≢ t
  missed_of_scan e h j l holds = scan_missed t 0 none e ls h j l holds.at holds.valid

  pub not-Cached_of_missed : ((j : ℕ) (l : CacheLine) → Holds ls j l → l.tag ≢ t) → ¬ Cached ls t
  not-Cached_of_missed missed c = missed c.index c.line c.holds c.same_tag

  -- The block of the hit is written back to its line; every other line is kept.
  hit_keeps :
      (k : ℕ) (line_hit : Hit t 0 k ls) → Keeps ls (after ls k (touch operation)) (λ u. Unit {0})
  unfolding touch-Installs
  hit_keeps k line_hit u c _ = elim (ℕ_discrete k c.index) [
    | yes here ↦
        let same : t ≡ u =
          sym line_hit.same_tag
          ∙ ap (λ x. x.tag) (line_eq ls ins.at c.holds.at here)
          ∙ c.same_tag in
        subst (Cached (after ls k (touch operation))) same (written-Cached tr ins)
    | no away ↦ kept-Cached tr ins u c away
  ]
    where
      ins : Installs h ls t k (touch operation)
      ins = touch-Installs k line_hit

  fill_keeps :
      (k : ℕ) (empty : Empty 0 k ls) (missed : (j : ℕ) (l : CacheLine) → Holds ls j l → l.tag ≢ t)
      → Keeps ls (after ls k (fill t operation)) (λ u. Unit {0})
  unfolding fill-Installs
  fill_keeps k empty missed u c _ =
      kept-Cached tr ins u c
        λ here. ground (arith, line_eq ls ins.at c.holds.at here, empty.invalid, c.holds.valid)
    where
      ins : Installs h ls t k (fill t operation)
      ins = fill-Installs k empty missed

  module _ (missed : (j : ℕ) (l : CacheLine) → Holds ls j l → l.tag ≢ t) (full : AllValid ls) where
    abbrev victim : CacheLine
    victim = get_or ls (max_lru ls) blank

    victim-Holds : Holds ls (max_lru ls) victim
    unfolding replace-Installs
    victim-Holds =
        let at = (replace-Installs missed full).at in
        record { at = at; valid = full (max_lru ls) victim at }

    -- The victim is the one line with the greatest counter.
    victim_oldest : (j : ℕ) (l : CacheLine) → Holds ls j l → max_lru ls ≢ j → l.lru < victim.lru
    unfolding replace-Installs
    victim_oldest j l holds away =
        kept-lt tr ins victim.tag victim.lru (tr.aged (max_lru ls) victim victim-Holds) j l holds
          (ins.victim victim-Holds.valid (missed (max_lru ls) victim victim-Holds) j l holds.at).1
          (λ same. away (tr.distinct (max_lru ls) j victim l victim-Holds holds (sym same)))
      where
        ins : Installs h ls t (max_lru ls) (replace t operation)
        ins = replace-Installs missed full

    victim_gone : ¬ Cached (after ls (max_lru ls) (replace t operation)) victim.tag
    unfolding replace-Installs
    victim_gone =
        not-Cached_evicted tr (replace-Installs missed full) victim-Holds.valid
          (missed (max_lru ls) victim victim-Holds)

    replace_keeps : Keeps ls (after ls (max_lru ls) (replace t operation)) (λ u. victim.tag ≢ u)
    replace_keeps u c other =
        kept-Cached tr (replace-Installs missed full) u c
          λ here. other (ap (λ x. x.tag) (line_eq ls victim-Holds.at c.holds.at here) ∙ c.same_tag)

  access_found-Serves :
      (r : Option ℕ × Option ℕ)
      → scan t 0 none ls ≡ r
      → let (ls', st', o) = access_found b t operation r ls st in Serves n h t ls (map tick ls') o
  unfolding access_found
  access_found-Serves (some k, e) at =
      let line_hit = scan-Hit t 0 none e k ls at in
      let place : k ≡ line_hit.offset = omega (arith, line_hit.index) in
      record {
        tracks = after-Tracks tr (touch-Installs k line_hit);
        served =
            found
              (record {
                index = line_hit.offset;
                line = line_hit.line;
                holds = record { at = line_hit.at; valid = line_hit.valid };
                same_tag = line_hit.same_tag;
              })
              (hit_keeps k line_hit);
      }
  access_found-Serves (none, some k) at =
      let missed = missed_of_scan (some k) at in
      let empty = scan-Empty t 0 k ls at in
      record {
        tracks = after-Tracks tr (fill-Installs k empty missed);
        served =
            filled empty.offset empty.line (not-Cached_of_missed missed) empty.at empty.invalid
              (fill_keeps k empty missed);
      }
  access_found-Serves (none, none) at =
      let missed = missed_of_scan none at in
      let full = scan_full t 0 ls at in
      record {
        tracks = after-Tracks tr (replace-Installs missed full);
        served =
            evicted (max_lru ls) (victim missed full) (not-Cached_of_missed missed) full
              (victim-Holds missed full) (victim_oldest missed full) (victim_gone missed full)
              (replace_keeps missed full);
      }

  -- On a set of at least one line that tracks a history of fewer than 2 ^ 64 - 1 accesses, an access
  -- of the block `t` leaves a set that tracks the history with `t` in front. A hit means that the
  -- block was there, and every block stays. A miss means that it was not and that a line was empty,
  -- and every block stays. A miss with an eviction means that it was not and that no line was empty;
  -- the block that leaves had the strictly greatest counter, which in a set that tracks its history
  -- is the number of accesses since its last one, and every other block stays.
  pub access_set-Serves :
      let (ls', st', o) = access_set b t operation ls st in Serves n h t ls ls' o
  unfolding access_set
  access_set-Serves = access_found-Serves (scan t 0 none ls) refl
