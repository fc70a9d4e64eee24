-- ===== src/CacheSim/Scan.antt =====
-- What the two loops over the lines of a set find: `scan` and `max_lru` of csim.c's access_data.
use computer_systems_project.Base.{
  ℕ, zero, suc, ◌+◌, ◌<◌, ◌≤◌, ◌≡◌, ◌≢◌, refl, true, false, ◌&&◌, inl, inr, Option, none, some,
  List, [], ◌∷◌, ap, arith, length, get_elem?, ltb, ◌==◌, Bool-cases, get_elem?-eq-get_or,
  lt-length_of_get_elem?, sym, ◌∙◌, dec_lt, tests,
}
use computer_systems_project.CacheSim.{
  CacheLine, blank, next_empty, scan, lru_at, max_lru_loop, max_lru,
}

-- The loop that started at index `i` stopped at index `k` with a line of the tag.
pub record Hit (tag i k : ℕ) (ls : List CacheLine) : Type 0 where
  pub offset : ℕ
  pub line : CacheLine
  pub index : k ≡ i + offset
  pub at : get_elem? ls offset ≡ some line
  pub valid : line.valid ≡ true
  pub same_tag : line.tag ≡ tag

pub record Empty (i k : ℕ) (ls : List CacheLine) : Type 0 where
  pub offset : ℕ
  pub line : CacheLine
  pub index : k ≡ i + offset
  pub at : get_elem? ls offset ≡ some line
  pub invalid : line.valid ≡ false

module _ (k : ℕ) (ls : List CacheLine) where
  pub Hit-at : {tag : ℕ} (h : Hit tag 0 k ls) → get_elem? ls k ≡ some h.line
  Hit-at h = let e : k ≡ h.offset = omega (arith, h.index) in ap (get_elem? ls) e ∙ h.at

  pub Empty-at : (h : Empty 0 k ls) → get_elem? ls k ≡ some h.line
  Empty-at h = let e : k ≡ h.offset = omega (arith, h.index) in ap (get_elem? ls) e ∙ h.at

Hit-cons :
    (tag i k : ℕ) (l : CacheLine) (ls : List CacheLine)
    → Hit tag (i + 1) k ls
    → Hit tag i k (l ∷ ls)
Hit-cons tag i k l ls h = record {
  offset = suc h.offset;
  line = h.line;
  index = omega arith;
  at = h.at;
  valid = h.valid;
  same_tag = h.same_tag;
}

Empty-cons :
    (i k : ℕ) (l : CacheLine) (ls : List CacheLine) → Empty (i + 1) k ls → Empty i k (l ∷ ls)
Empty-cons i k l ls h = record {
  offset = suc h.offset;
  line = h.line;
  index = omega arith;
  at = h.at;
  invalid = h.invalid;
}

pub scan-Hit :
    (tag i : ℕ) (e e' : Option ℕ) (k : ℕ) (ls : List CacheLine)
    → scan tag i e ls ≡ (some k, e')
    → Hit tag i k ls
unfolding scan
scan-Hit tag i e e' k [] h = cc
scan-Hit tag i e e' k (l ∷ ls) h = elim (Bool-cases (l.valid && l.tag == tag)) [
  | inl hit ↦ record {
    offset = 0;
    line = l;
    index = ground arith;
    at = refl;
    valid = ground arith;
    same_tag = ground arith;
  }
  | inr next ↦
      Hit-cons tag i k l ls (scan-Hit tag (i + 1) (next_empty i e l) e' k ls (ground arith))
]

-- Without a hit no valid line has the tag.
pub scan_missed :
    (tag i : ℕ) (e e' : Option ℕ) (ls : List CacheLine)
    → scan tag i e ls ≡ (none, e')
    → (j : ℕ) (l : CacheLine) → get_elem? ls j ≡ some l
    → l.valid ≡ true
    → l.tag ≢ tag
unfolding scan
scan_missed tag i e e' [] h j l at v = cc
scan_missed tag i e e' (x ∷ ls) h zero l at v = ground arith
scan_missed tag i e e' (x ∷ ls) h (suc j) l at v =
    scan_missed tag (i + 1) (next_empty i e x) e' ls (ground arith) j l at v

-- Once an empty line is found the loop keeps it.
pub scan_keeps :
    (tag i k : ℕ) (e' : Option ℕ) (ls : List CacheLine)
    → scan tag i (some k) ls ≡ (none, e')
    → e' ≡ some k
unfolding scan
scan_keeps tag i k e' [] h = cc
scan_keeps tag i k e' (x ∷ ls) h = scan_keeps tag (i + 1) k e' ls (ground arith)

-- Without a hit the loop ends with an empty line if there is one.
pub scan-Empty :
    (tag i k : ℕ) (ls : List CacheLine) → scan tag i none ls ≡ (none, some k) → Empty i k ls
unfolding scan
scan-Empty tag i k [] h = cc
scan-Empty tag i k (l ∷ ls) h = elim (Bool-cases l.valid) [
  | inl full ↦ Empty-cons i k l ls (scan-Empty tag (i + 1) k ls (ground arith))
  | inr free ↦ record {
    offset = 0;
    line = l;
    index = ground (arith, scan_keeps tag (i + 1) i (some k) ls);
    at = refl;
    invalid = free;
  }
]

pub scan_full :
    (tag i : ℕ) (ls : List CacheLine)
    → scan tag i none ls ≡ (none, none)
    → (j : ℕ) (l : CacheLine) → get_elem? ls j ≡ some l
    → l.valid ≡ true
unfolding scan
scan_full tag i [] h j l at = cc
scan_full tag i (x ∷ ls) h zero l at = elim (Bool-cases x.valid) [
  | inl full ↦ ground arith
  | inr free ↦ ground (arith, scan_keeps tag (i + 1) i none ls)
]
scan_full tag i (x ∷ ls) h (suc j) l at = elim (Bool-cases x.valid) [
  | inl full ↦ scan_full tag (i + 1) ls (ground arith) j l at
  | inr free ↦ ground (arith, scan_keeps tag (i + 1) i none ls)
]

-- `lru` bounds every counter of the set before index `i`.
abbrev MaxBelow : List CacheLine → (i best : ℕ) → Type 0
MaxBelow ls i best =
    (j : ℕ) (l : CacheLine) → j < i → get_elem? ls j ≡ some l → l.lru ≤ lru_at ls best

MaxBelow-suc :
    (ls : List CacheLine) (i best best' : ℕ) (x : CacheLine)
    → MaxBelow ls i best
    → get_elem? ls i ≡ some x
    → x.lru ≤ lru_at ls best'
    → lru_at ls best ≤ lru_at ls best'
    → MaxBelow ls (i + 1) best'
MaxBelow-suc ls i best best' x below at here more j l lt at' = elim (dec_lt j i) [
  | yes p ↦ omega (arith, below j l p at')
  | no p ↦ let e : get_elem? ls i ≡ some l = ap (get_elem? ls) (omega arith) ∙ at' in ground arith
]

lru_at_lem :
    (ls : List CacheLine) (i : ℕ) {x : CacheLine} → get_elem? ls i ≡ some x → lru_at ls i ≡ x.lru
lru_at_lem ls i at = ground (arith, get_elem?-eq-get_or ls i blank (lt-length_of_get_elem? ls i at))

pub record IsMaxLru (ls : List CacheLine) (k : ℕ) : Type 0 where
  pub in_range : k < length ls
  pub greatest : (j : ℕ) (l : CacheLine) → get_elem? ls j ≡ some l → l.lru ≤ lru_at ls k

max_lru_loop-IsMaxLru :
    (all : List CacheLine) (i best : ℕ) (rest : List CacheLine)
    → ((j : ℕ) → get_elem? rest j ≡ get_elem? all (i + j))
    → i + length rest ≡ length all
    → best < length all
    → MaxBelow all i best
    → IsMaxLru all (max_lru_loop all i best rest)
unfolding max_lru_loop
max_lru_loop-IsMaxLru all i best [] same size range below = record {
  in_range = range;
  greatest = λ j l at. below j l (omega (arith, lt-length_of_get_elem? all j at)) at;
}
max_lru_loop-IsMaxLru all i best (x ∷ rest) same size range below =
    elim (Bool-cases (ltb (lru_at all best) x.lru)) [
      | inl more ↦ rw more (
          max_lru_loop-IsMaxLru all (i + 1) i rest shift (omega arith) (omega arith) (
            MaxBelow-suc all i best i x below here (omega (arith, lru_at_lem all i here))
              (omega (tests, lru_at_lem all i here))))
      | inr less ↦ rw less (
          max_lru_loop-IsMaxLru all (i + 1) best rest shift (omega arith) range
            (MaxBelow-suc all i best best x below here (omega tests) (omega arith)))
    ]
  where
    shift : (j : ℕ) → get_elem? rest j ≡ get_elem? all (i + 1 + j)
    shift j = same (suc j) ∙ ap (get_elem? all) (omega arith)

    here : get_elem? all i ≡ some x
    here = ap (get_elem? all) (omega arith) ∙ sym (same 0)

-- In a set with at least one line `max_lru` is the index of a line with the greatest counter.
pub max_lru-IsMaxLru : (ls : List CacheLine) → 0 < length ls → IsMaxLru ls (max_lru ls)
unfolding max_lru
max_lru-IsMaxLru [] h = absurd (omega arith)
max_lru-IsMaxLru (x ∷ ls) h =
    max_lru_loop-IsMaxLru (x ∷ ls) 1 0 ls
      (λ j. let e : suc j ≡ 1 + j = omega arith in ap (get_elem? (x ∷ ls)) e) (omega arith)
      (omega arith) first
  where
    first : MaxBelow (x ∷ ls) 1 0
    first zero l lt at = ground arith
    first (suc j) l lt at = absurd (omega arith)
