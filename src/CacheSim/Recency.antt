-- ===== src/CacheSim/Recency.antt =====
-- The least-recently-used policy of csim.c against the history of the accesses of one set.
pub mod Access
pub mod Dirty
pub mod Step
use mathlib.Core.Option
use computer_systems_project.Base.{
  ℕ, suc, ◌<◌, ◌≤◌, ◌≡◌, sym, ap, ◌∙◌, true, false, ◌⊎◌, inl, inr, Option, none, some, List, [],
  ◌∷◌, arith, length, get_elem?, replicate, ◌==◌, if◌then◌else◌, Option-cases, length-replicate,
  get_elem?-replicate,
}
use computer_systems_project.CacheSim.{CacheLine, blank}

-- How many accesses ago a tag was last used: 1 for the latest access. The history is newest first.
abbrev pub age : ℕ → List ℕ → Option ℕ
age t [] = none
age t (u ∷ h) = if u == t then some 1 else Option.map suc (age t h)

pub age-le-length : (t : ℕ) (h : List ℕ) {a : ℕ} → age t h ≡ some a → a ≤ length h
age-le-length t [] e = cc
age-le-length t (u ∷ h) e = elim (Option-cases (age t h)) [
  | inl never ↦ ground arith
  | inr (a, before) ↦ ground (arith, age-le-length t h before)
]

pub age_pos : (t : ℕ) (h : List ℕ) {a : ℕ} → age t h ≡ some a → 0 < a
age_pos t [] e = cc
age_pos t (u ∷ h) e = elim (Option-cases (age t h)) [
  | inl never ↦ ground arith
  | inr (a, before) ↦ ground (arith, age_pos t h before)
]

-- Two tags of one age are one.
pub age_inj : (t u : ℕ) (h : List ℕ) {a : ℕ} → age t h ≡ some a → age u h ≡ some a → t ≡ u
age_inj t u [] e f = cc
age_inj t u (v ∷ h) e f = elim (Option-cases (age t h)) [
  | inl never ↦ elim (Option-cases (age u h)) [
    | inl never' ↦ ground arith
    | inr (b, before) ↦ ground (arith, age_pos u h before)
  ]
  | inr (a, before) ↦ elim (Option-cases (age u h)) [
    | inl never ↦ ground (arith, age_pos t h before)
    | inr (b, before') ↦ ground (
      arith,
      age_pos t h before,
      age_pos u h before',
      λ (same : a ≡ b). age_inj t u h before (before' ∙ ap some (sym same)),
    )
  ]
]

-- The line at an index, valid.
pub record Holds (ls : List CacheLine) (j : ℕ) (l : CacheLine) : Type 0 where
  pub at : get_elem? ls j ≡ some l
  pub valid : l.valid ≡ true

pub record Cached (ls : List CacheLine) (t : ℕ) : Type 0 where
  pub index : ℕ
  pub line : CacheLine
  pub holds : Holds ls index line
  pub same_tag : line.tag ≡ t

abbrev pub AllNewer : List CacheLine → ℕ → Type 0
AllNewer ls a = (j : ℕ) (l : CacheLine) → get_elem? ls j ≡ some l → (l.valid ≡ true) × (l.lru < a)

-- What a set of `n` lines is after the accesses of `h`: each counter is the age of its block, no
-- block stands in two lines, an empty line is clean, and a block that was used and is no longer
-- there is older than every line.
pub record Tracks (n : ℕ) (h : List ℕ) (ls : List CacheLine) : Type 0 where
  pub size : length ls ≡ n
  pub aged : (j : ℕ) (l : CacheLine) → Holds ls j l → age l.tag h ≡ some l.lru
  pub distinct : (i j : ℕ) (l m : CacheLine) → Holds ls i l → Holds ls j m → l.tag ≡ m.tag → i ≡ j
  pub clean : (j : ℕ) (l : CacheLine) → get_elem? ls j ≡ some l → l.valid ≡ false → l.dirty ≡ false
  pub recent : (t a : ℕ) → age t h ≡ some a → Cached ls t ⊎ AllNewer ls a

-- A new cache tracks the empty history.
pub replicate-Tracks : (n : ℕ) → Tracks n [] (replicate n blank)
replicate-Tracks n = record {
  size = length-replicate n blank;
  aged = λ j l e. ground (arith, get_elem?-replicate n j blank e.at);
  distinct = λ i j l m e f same. ground (arith, get_elem?-replicate n i blank e.at);
  clean = λ j l at free. ground (arith, get_elem?-replicate n j blank at);
  recent = λ t a e. cc;
}
