-- ===== src/Mm/Contract/Entry.antt =====
-- From an entry of the list of allocated blocks to its block.
use computer_systems_project.Base.{
  ℕ, ◌+◌, ◌≡◌, refl, sym, ap, subst, ◌∙◌, inl, inr, Bool, true, not, if◌then◌else◌, Bool-cases,
  List, [], ◌∷◌, ◌++◌,
}
use computer_systems_project.Mm.Layout.{Block, end_of}
use computer_systems_project.Mm.Layout.Merge.{allocated, Tidy, pending}

-- The block that an entry of the list of allocated blocks is about.
pub record Entry (p : ℕ) (bs : List Block) (x n : ℕ) (l r : List (ℕ × ℕ)) : Type 0 where
  pub front : List Block
  pub rest : List Block
  pub parts : bs ≡ front ++ pending n true ∷ rest
  pub place : x ≡ end_of p front
  pub lefts : allocated p front ≡ l
  pub rights : allocated (end_of p front + n) rest ≡ r

pub Tidy-parts :
    (pa : Bool) (front rest : List Block) (b : Block)
    → Tidy pa (front ++ b ∷ rest)
    → Tidy pa front × (b.listed ≡ not b.alloc) × Tidy b.alloc rest
Tidy-parts pa [] rest b t = (tt, t.0, t.2)
Tidy-parts pa (c ∷ cs) rest b t =
    let r = Tidy-parts c.alloc cs rest b t.2 in ((t.0, t.1, r.0), r.1, r.2)

is_pending : (b : Block) → b.alloc ≡ true → b.listed ≡ not b.alloc → b ≡ pending b.size true
is_pending b used off =
    ap (λ (t : Bool). record { size = b.size; alloc = t; listed = b.listed }) used
    ∙ ap (λ (t : Bool). record { size = b.size; alloc = true; listed = t }) (off ∙ ap not used)

pub Entry-of :
    (p : ℕ) (pa : Bool) (bs : List Block) (x n : ℕ) (l r : List (ℕ × ℕ))
    → Tidy pa bs
    → allocated p bs ≡ l ++ (x, n) ∷ r
    → Entry p bs x n l r
Entry-of p pa [] x n [] r t e = cc
Entry-of p pa [] x n (z ∷ l) r t e = cc
Entry-of p pa (b ∷ bs) x n l r t e = elim (Bool-cases b.alloc) [
  | inl used ↦
      at_used (Entry-of (p + b.size) b.alloc bs x n) l
        (subst
          (λ (a : Bool).
            (if a then (p, b.size) ∷ allocated (p + b.size) bs else allocated (p + b.size) bs)
            ≡ l ++ (x, n) ∷ r)
          used e)
        used
  | inr open' ↦
      let d = Entry-of (p + b.size) b.alloc bs x n l r t.2 (
        subst
          (λ (a : Bool).
            (if a then (p, b.size) ∷ allocated (p + b.size) bs else allocated (p + b.size) bs)
            ≡ l ++ (x, n) ∷ r)
          open' e) in
      record {
        front = b ∷ d.front;
        rest = d.rest;
        parts = ap (λ t. b ∷ t) d.parts;
        place = d.place;
        lefts =
            ap
              (λ (a : Bool).
                if a
                then (p, b.size) ∷ allocated (p + b.size) d.front
                else allocated (p + b.size) d.front)
              open'
            ∙ d.lefts;
        rights = d.rights;
      }
]
  where
    at_used :
        ((l r : List (ℕ × ℕ))
          → Tidy b.alloc bs
          → allocated (p + b.size) bs ≡ l ++ (x, n) ∷ r
          → Entry (p + b.size) bs x n l r)
        → (l : List (ℕ × ℕ)) → (p, b.size) ∷ allocated (p + b.size) bs ≡ l ++ (x, n) ∷ r
        → b.alloc ≡ true
        → Entry p (b ∷ bs) x n l r
    at_used ih [] f used =
        let ex : x ≡ p = cc in
        let en : b.size ≡ n = cc in
        let er : allocated (p + b.size) bs ≡ r = cc in
        record {
          front = [];
          rest = bs;
          parts = ap (λ t. t ∷ bs) (is_pending b used t.0) ∙ ap (λ k. pending k true ∷ bs) en;
          place = ex;
          lefts = refl;
          rights = ap (λ k. allocated (p + k) bs) (sym en) ∙ er;
        }
    at_used ih (z ∷ l) f used =
        let ez : (p, b.size) ≡ z = cc in
        let er : allocated (p + b.size) bs ≡ l ++ (x, n) ∷ r = cc in
        let d = ih l r t.2 er in
        let el : allocated p (b ∷ d.front) ≡ (p, b.size) ∷ allocated (p + b.size) d.front =
          ap
            (λ (a : Bool).
              if a
              then (p, b.size) ∷ allocated (p + b.size) d.front
              else allocated (p + b.size) d.front)
            used in
        record {
          front = b ∷ d.front;
          rest = d.rest;
          parts = ap (λ t. b ∷ t) d.parts;
          place = d.place;
          lefts = el ∙ ap (λ t. (p, b.size) ∷ t) d.lefts ∙ ap (λ t. t ∷ l) ez;
          rights = d.rights;
        }
