-- ===== src/Mm/Layout/Outside.antt =====
-- Blocks and words outside a part of the heap that holds no allocated block.
use computer_systems_project.Base.{
  ℕ, ◌+◌, ◌<◌, ◌≡◌, refl, sym, ap, subst, ◌∙◌, ◌⊎◌, inl, inr, true, false, List, [], ◌∷◌, ◌++◌,
  arith,
}
use computer_systems_project.Mm.Layout.{Block, end_of, At, count_listed}
use computer_systems_project.Mm.Layout.Blocks.{At-left, At-right, At-split, At-within}
use computer_systems_project.Mm.Layout.Frame.{UsedAt}

abbrev pub Unlisted : List Block → Type 0
Unlisted [] = Unit
Unlisted (b ∷ bs) = (b.listed ≡ false) × Unlisted bs

abbrev pub Unused : List Block → Type 0
Unused [] = Unit
Unused (b ∷ bs) = (b.alloc ≡ false) × Unused bs

At-Unlisted :
    (p : ℕ) (bs : List Block) (x : ℕ) (a : Block) → Unlisted bs → At p bs x a → a.listed ≡ false
At-Unlisted p [] x a u h = absurd h
At-Unlisted p (b ∷ bs) x a u (inl e) = ap (λ (t : Block). t.listed) e.1 ∙ u.0
At-Unlisted p (b ∷ bs) x a u (inr h) = At-Unlisted (p + b.size) bs x a u.1 h

At-Unused :
    (p : ℕ) (bs : List Block) (x : ℕ) (a : Block) → Unused bs → At p bs x a → a.alloc ≡ false
At-Unused p [] x a u h = absurd h
At-Unused p (b ∷ bs) x a u (inl e) = ap (λ (t : Block). t.alloc) e.1 ∙ u.0
At-Unused p (b ∷ bs) x a u (inr h) = At-Unused (p + b.size) bs x a u.1 h

pub count_listed-Unlisted : (bs : List Block) → Unlisted bs → count_listed bs ≡ 0
count_listed-Unlisted [] u = refl
count_listed-Unlisted (b ∷ bs) u = rw u.0 (omega (arith, count_listed-Unlisted bs u.1))

-- What stands in front of the part and behind it.
pub At-outer :
    (p : ℕ) (front old news rest : List Block) (x : ℕ) (a : Block)
    → end_of (end_of p front) news ≡ end_of (end_of p front) old
    → (At p front x a ⊎ At (end_of (end_of p front) old) rest x a)
    → At p (front ++ (news ++ rest)) x a
At-outer p front old news rest x a e (inl h) = At-left p front (news ++ rest) x a h
At-outer p front old news rest x a e (inr h) =
    At-right p front (news ++ rest) x a
      (At-right (end_of p front) news rest x a (subst (λ r. At r rest x a) (sym e) h))

pub At-listed :
    (p : ℕ) (front old rest : List Block) (x : ℕ) (a : Block)
    → Unlisted old
    → a.listed ≡ true
    → At p (front ++ (old ++ rest)) x a
    → At p front x a ⊎ At (end_of (end_of p front) old) rest x a
At-listed p front old rest x a u on h = elim (At-split p front (old ++ rest) x a h) [
  | inl l ↦ inl l
  | inr m ↦ elim (At-split (end_of p front) old rest x a m) [
    | inl o ↦ let off = At-Unlisted (end_of p front) old x a u o in cc
    | inr r ↦ inr r
  ]
]

At-used :
    (p : ℕ) (front old rest : List Block) (x : ℕ) (a : Block)
    → Unused old
    → a.alloc ≡ true
    → At p (front ++ (old ++ rest)) x a
    → At p front x a ⊎ At (end_of (end_of p front) old) rest x a
At-used p front old rest x a u on h = elim (At-split p front (old ++ rest) x a h) [
  | inl l ↦ inl l
  | inr m ↦ elim (At-split (end_of p front) old rest x a m) [
    | inl o ↦ let off = At-Unused (end_of p front) old x a u o in cc
    | inr r ↦ inr r
  ]
]

-- A word of an allocated block lies outside a part without allocated blocks, and stays in such a block.
pub used-outside :
    (p : ℕ) (front old rest : List Block) (y : ℕ)
    → Unused old
    → UsedAt p (front ++ (old ++ rest)) y
    → (y < end_of p front) ⊎ (end_of (end_of p front) old < y)
used-outside p front old rest y u k =
    let behind = k.behind in
    let before = k.before in
    elim (At-used p front old rest k.x k.a u k.used k.at) [
      | inl l ↦ let w = At-within p front k.x k.a l in inl (omega (arith, w.1, before))
      | inr r ↦
          let w = At-within (end_of (end_of p front) old) rest k.x k.a r in
          inr (omega (arith, w.0, behind))
    ]

pub used-stays :
    (p : ℕ) (front old news rest : List Block) (y : ℕ)
    → Unused old
    → end_of (end_of p front) news ≡ end_of (end_of p front) old
    → UsedAt p (front ++ (old ++ rest)) y
    → UsedAt p (front ++ (news ++ rest)) y
used-stays p front old news rest y u e k =
    let o = At-used p front old rest k.x k.a u k.used k.at in
    record {
      x = k.x;
      a = k.a;
      at = At-outer p front old news rest k.x k.a e o;
      used = k.used;
      behind = k.behind;
      before = k.before;
    }
