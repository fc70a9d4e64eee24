-- ===== src/Mm/Layout/Combine.antt =====
-- `coalesce_block` as a whole.
use mathlib.Core.List.{append_assoc}
use computer_systems_project.Base.{
  ℕ, ◌+◌, ◌<◌, ◌≡◌, refl, sym, ap, subst, ◌∙◌, inl, inr, Bool, true, false, not, Bool-cases, List,
  [], ◌∷◌, ◌++◌,
}
use computer_systems_project.Mm.Alloc.{coalesce_block}
use computer_systems_project.Mm.Lists.{Heap}
use computer_systems_project.Mm.Layout.{Block, end_of, alloc_after, count_listed, Sound}
use computer_systems_project.Mm.Layout.Blocks.{end_of-append}
use computer_systems_project.Mm.Layout.Merge.{Tidy, pending}
use computer_systems_project.Mm.Layout.Coalesce.{Coalesced}
use computer_systems_project.Mm.Layout.Cases.{next_alloc, case_1-Coalesced}
use computer_systems_project.Mm.Layout.Joins.{case_2-Coalesced, case_3-Coalesced, case_4-Coalesced}

-- The last block of a list.
record Last (front : List Block) : Type 0 where
  before : List Block
  last : Block
  parts : front ≡ before ++ last ∷ []
  free : last.alloc ≡ false

Last-free : (pa : Bool) (front : List Block) → pa ≡ true → alloc_after pa front ≡ false → Last front
Last-free pa [] e f = cc
Last-free pa (b ∷ []) e f = record { before = []; last = b; parts = refl; free = f }
Last-free pa (b ∷ c ∷ cs) e f =
    let l = Last-free true (c ∷ cs) refl f in
    record { before = b ∷ l.before; last = l.last; parts = ap (λ t. b ∷ t) l.parts; free = l.free }

-- In a tidy list the block before a free one is allocated.
Tidy-last :
    (pa : Bool) (front : List Block) (f : Block)
    → Tidy pa (front ++ f ∷ [])
    → f.alloc ≡ false
    → Tidy pa front × (f.listed ≡ true) × (alloc_after pa front ≡ true)
Tidy-last pa [] f t free =
    (tt, t.0 ∙ ap not free, elim (Bool-cases pa) [ inl e ↦ e | inr e ↦ let used = t.1 e in cc ])
Tidy-last pa (b ∷ bs) f t free =
    let r = Tidy-last b.alloc bs f t.2 free in ((t.0, t.1, r.0), r.1, r.2)

Tidy-after : (ds : List Block) → Tidy true ds → next_alloc ds ≡ true → Tidy false ds
Tidy-after [] t e = tt
Tidy-after (d ∷ ds) t e = (t.0, (λ f. e), t.2)

Tidy-behind : (d : Block) (ds : List Block) → Tidy d.alloc ds → d.alloc ≡ false → Tidy false ds
Tidy-behind d ds t free = subst (λ a. Tidy a ds) free t

module _ (rounds : ℕ) (h : Heap) (p n : ℕ) where
  abbrev b : Block
  b = pending n false

  behind_used :
      (front rest : List Block) (lists : ℕ → List ℕ)
      → Sound h p (front ++ b ∷ rest) lists
      → Tidy true front
      → Tidy true rest
      → count_listed (front ++ b ∷ rest) < rounds
      → alloc_after true front ≡ true
      → Coalesced h p n (front ++ b ∷ rest) (coalesce_block rounds (end_of p front) h)
  behind_used front [] lists s tf tr enough full =
      case_1-Coalesced rounds h p n front [] lists s tf tr full refl
  behind_used front (d ∷ ds) lists s tf tr enough full = elim (Bool-cases d.alloc) [
    | inl used ↦ case_1-Coalesced rounds h p n front (d ∷ ds) lists s tf tr full used
    | inr free ↦
        case_2-Coalesced rounds h p n front ds d lists s tf (Tidy-behind d ds tr.2 free) full free
          (tr.0 ∙ ap not free) enough
  ]

  behind_free :
      (front rest : List Block) (f : Block) (lists : ℕ → List ℕ)
      → Sound h p (front ++ f ∷ b ∷ rest) lists
      → Tidy true (front ++ f ∷ [])
      → Tidy true rest
      → count_listed (front ++ f ∷ b ∷ rest) < rounds
      → f.alloc ≡ false
      → Coalesced h p n (front ++ f ∷ b ∷ rest) (coalesce_block rounds (end_of p front + f.size) h)
  behind_free front [] f lists s tf tr enough free =
      let t = Tidy-last true front f tf free in
      case_3-Coalesced rounds h p n front [] f lists s free t.0 tt t.2 refl t.1 enough
  behind_free front (d ∷ ds) f lists s tf tr enough free =
      let t = Tidy-last true front f tf free in
      elim (Bool-cases d.alloc) [
        | inl used ↦
            case_3-Coalesced rounds h p n front (d ∷ ds) f lists s free t.0
              (Tidy-after (d ∷ ds) tr used) t.2 used t.1 enough
        | inr open' ↦
            case_4-Coalesced rounds h p n front ds f d lists s free t.0
              (Tidy-behind d ds tr.2 open') t.2 open' t.1 (tr.0 ∙ ap not open') enough
      ]

  pub coalesce_block-Coalesced :
      (front rest : List Block) (lists : ℕ → List ℕ)
      → Sound h p (front ++ b ∷ rest) lists
      → Tidy true front
      → Tidy true rest
      → count_listed (front ++ b ∷ rest) < rounds
      → Coalesced h p n (front ++ b ∷ rest) (coalesce_block rounds (end_of p front) h)
  coalesce_block-Coalesced front rest lists s tf tr enough =
      elim (Bool-cases (alloc_after true front)) [
        | inl full ↦ behind_used front rest lists s tf tr enough full
        | inr free ↦
            let l = Last-free true front refl free in
            let assoc =
              ap (λ t. t ++ b ∷ rest) l.parts ∙ append_assoc l.before (l.last ∷ []) (b ∷ rest) in
            let place : end_of p front ≡ end_of p l.before + l.last.size =
              ap (end_of p) l.parts ∙ end_of-append p l.before (l.last ∷ []) in
            let r =
              behind_free l.before rest l.last lists (subst (λ t. Sound h p t lists) assoc s)
                (subst (λ t. Tidy true t) l.parts tf) tr
                (subst (λ t. count_listed t < rounds) assoc enough) l.free in
            subst (λ t. Coalesced h p n t (coalesce_block rounds (end_of p front) h)) (sym assoc)
              (subst
                (λ t. Coalesced h p n (l.before ++ l.last ∷ b ∷ rest) (coalesce_block rounds t h))
                (sym place) r)
      ]
