-- ===== src/Mm/Layout/Blocks.antt =====
-- Where the blocks of a list stand.
use computer_systems_project.Base.{
  ℕ, ◌+◌, ◌-◌, ◌*◌, ◌%◌, ◌<◌, ◌≤◌, ◌≡◌, ◌≢◌, refl, sym, ap, subst, ◌∙◌, ◌⊎◌, inl, inr, Bool, false,
  ◌==◌, if◌then◌else◌, List, [], ◌∷◌, ◌++◌, arith,
}
use computer_systems_project.Mm.{Memory, min_block_size, extract_size}
use computer_systems_project.Mm.Words.{Says}
use computer_systems_project.Mm.Layout.{
  Block, end_of, min_after, alloc_after, Holds, Part, At, count_listed,
}

pub end_of-append : (p : ℕ) (xs ys : List Block) → end_of p (xs ++ ys) ≡ end_of (end_of p xs) ys
end_of-append p [] ys = refl
end_of-append p (b ∷ bs) ys = end_of-append (p + b.size) bs ys

pub min_after-append :
    (pm : Bool) (xs ys : List Block) → min_after pm (xs ++ ys) ≡ min_after (min_after pm xs) ys
min_after-append pm [] ys = refl
min_after-append pm (b ∷ bs) ys = min_after-append (b.size == min_block_size) bs ys

pub alloc_after-append :
    (pa : Bool) (xs ys : List Block)
    → alloc_after pa (xs ++ ys) ≡ alloc_after (alloc_after pa xs) ys
alloc_after-append pa [] ys = refl
alloc_after-append pa (b ∷ bs) ys = alloc_after-append b.alloc bs ys

pub end_of-ge : (p : ℕ) (bs : List Block) → p ≤ end_of p bs
end_of-ge p [] = omega arith
end_of-ge p (b ∷ bs) = omega (arith, end_of-ge (p + b.size) bs)

pub Part-split :
    (mem : Memory) (p : ℕ) (pm pa : Bool) (xs ys : List Block)
    → Part mem p pm pa (xs ++ ys)
    → Part mem p pm pa xs × Part mem (end_of p xs) (min_after pm xs) (alloc_after pa xs) ys
Part-split mem p pm pa [] ys h = (tt, h)
Part-split mem p pm pa (b ∷ bs) ys h =
    let r = Part-split mem (p + b.size) (b.size == min_block_size) b.alloc bs ys h.1 in
    ((h.0, r.0), r.1)

pub Part-join :
    (mem : Memory) (p : ℕ) (pm pa : Bool) (xs ys : List Block)
    → Part mem p pm pa xs
    → Part mem (end_of p xs) (min_after pm xs) (alloc_after pa xs) ys
    → Part mem p pm pa (xs ++ ys)
Part-join mem p pm pa [] ys h k = k
Part-join mem p pm pa (b ∷ bs) ys h k =
    (h.0, Part-join mem (p + b.size) (b.size == min_block_size) b.alloc bs ys h.1 k)

-- Positions in a list that is put together.
pub At-left : (p : ℕ) (xs ys : List Block) (x : ℕ) (a : Block) → At p xs x a → At p (xs ++ ys) x a
At-left p [] ys x a h = absurd h
At-left p (b ∷ bs) ys x a (inl e) = inl e
At-left p (b ∷ bs) ys x a (inr h) = inr (At-left (p + b.size) bs ys x a h)

pub At-right :
    (p : ℕ) (xs ys : List Block) (x : ℕ) (a : Block) → At (end_of p xs) ys x a → At p (xs ++ ys) x a
At-right p [] ys x a h = h
At-right p (b ∷ bs) ys x a h = inr (At-right (p + b.size) bs ys x a h)

pub At-split :
    (p : ℕ) (xs ys : List Block) (x : ℕ) (a : Block)
    → At p (xs ++ ys) x a
    → At p xs x a ⊎ At (end_of p xs) ys x a
At-split p [] ys x a h = inr h
At-split p (b ∷ bs) ys x a (inl e) = inl (inl e)
At-split p (b ∷ bs) ys x a (inr h) = elim (At-split (p + b.size) bs ys x a h) [
  | inl l ↦ inl (inr l)
  | inr r ↦ inr r
]

pub At-middle : (p : ℕ) (xs ys : List Block) (b : Block) → At p (xs ++ b ∷ ys) (end_of p xs) b
At-middle p xs ys b = At-right p xs (b ∷ ys) (end_of p xs) b (inl (refl, refl))

-- A block lies between the first address and the end.
pub At-within :
    (p : ℕ) (bs : List Block) (x : ℕ) (a : Block)
    → At p bs x a
    → (p ≤ x) × (x + a.size ≤ end_of p bs)
At-within p [] x a h = absurd h
At-within p (b ∷ bs) x a (inl e) =
    let here : a.size ≡ b.size = ap (λ (t : Block). t.size) e.1 in
    (omega (arith, e.0), omega (arith, e.0, here, end_of-ge (p + b.size) bs))
At-within p (b ∷ bs) x a (inr h) =
    let r = At-within (p + b.size) bs x a h in (omega (arith, r.0), r.1)

-- What is known of a block at an address.
pub record HoldsAt (mem : Memory) (x : ℕ) (a : Block) : Type 0 where
  pub pm : Bool
  pub pa : Bool
  pub holds : Holds mem x pm pa a
  pub residue : x % 16 ≡ 8

pub At-HoldsAt :
    (mem : Memory) (p : ℕ) (pm pa : Bool) (bs : List Block) (x : ℕ) (a : Block)
    → p % 16 ≡ 8
    → Part mem p pm pa bs
    → At p bs x a
    → HoldsAt mem x a
At-HoldsAt mem p pm pa [] x a al h at = absurd at
At-HoldsAt mem p pm pa (b ∷ bs) x a al h (inl e) =
    subst (λ (t : Block). HoldsAt mem x t) (sym e.1)
      (subst (λ t. HoldsAt mem t b) (sym e.0)
        (record { pm = pm; pa = pa; holds = h.0; residue = al }))
At-HoldsAt mem p pm pa (b ∷ bs) x a al h (inr at) =
    let aligned = h.0.aligned in
    At-HoldsAt mem (p + b.size) (b.size == min_block_size) b.alloc bs x a
      (omega (arith, al, aligned)) h.1 at

-- Two blocks are the same or lie apart.
abbrev pub Apart : ℕ → Block → ℕ → Block → Type 0
Apart x a y b = ((x ≡ y) × (a ≡ b)) ⊎ ((x + a.size ≤ y) ⊎ (y + b.size ≤ x))

pub At-Apart :
    (p : ℕ) (bs : List Block) (x y : ℕ) (a b : Block) → At p bs x a → At p bs y b → Apart x a y b
At-Apart p [] x y a b h k = absurd h
At-Apart p (c ∷ bs) x y a b (inl e) (inl f) = inl (e.0 ∙ sym f.0, e.1 ∙ sym f.1)
At-Apart p (c ∷ bs) x y a b (inl e) (inr k) =
    let here : a.size ≡ c.size = ap (λ (t : Block). t.size) e.1 in
    let w = At-within (p + c.size) bs y b k in inr (inl (omega (arith, e.0, here, w.0)))
At-Apart p (c ∷ bs) x y a b (inr h) (inl f) =
    let here : b.size ≡ c.size = ap (λ (t : Block). t.size) f.1 in
    let w = At-within (p + c.size) bs x a h in inr (inr (omega (arith, f.0, here, w.0)))
At-Apart p (c ∷ bs) x y a b (inr h) (inr k) = At-Apart (p + c.size) bs x y a b h k

-- Other memory in which headers and footers are the same.
pub Part-agree :
    (mem mem' : Memory) (p : ℕ) (pm pa : Bool) (bs : List Block)
    → ((x : ℕ) (a : Block)
        → At p bs x a
        → (mem' x ≡ mem x)
          × (a.alloc ≡ false
              → min_block_size < a.size
              → mem' (x + a.size - 8) ≡ mem (x + a.size - 8)))
    → Part mem p pm pa bs
    → Part mem' p pm pa bs
Part-agree mem mem' p pm pa [] same h = tt
Part-agree mem mem' p pm pa (b ∷ bs) same h =
    let here = same p b (inl (refl, refl)) in
    (
      (record {
        aligned = h.0.aligned;
        least = h.0.least;
        header = subst (λ w. Says w b.size pm pa b.alloc) (sym here.0) h.0.header;
        footer = λ f g. ap extract_size (here.1 f g) ∙ h.0.footer f g;
        free = h.0.free;
      }),
      Part-agree mem mem' (p + b.size) (b.size == min_block_size) b.alloc bs
          (λ x a at. same x a (inr at)) h.1,
    )

-- A block in place of another of the same size: the blocks at other addresses stay.
pub At-replace :
    (p : ℕ) (xs ys : List Block) (b b' : Block) (x : ℕ) (a : Block)
    → b'.size ≡ b.size
    → x ≢ end_of p xs
    → At p (xs ++ b ∷ ys) x a
    → At p (xs ++ b' ∷ ys) x a
At-replace p [] ys b b' x a e other (inl f) = absurd (other f.0)
At-replace p [] ys b b' x a e other (inr h) = inr (subst (λ n. At (p + n) ys x a) (sym e) h)
At-replace p (c ∷ xs) ys b b' x a e other (inl f) = inl f
At-replace p (c ∷ xs) ys b b' x a e other (inr h) =
    inr (At-replace (p + c.size) xs ys b b' x a e other h)

pub count_listed-append :
    (xs ys : List Block) → count_listed (xs ++ ys) ≡ count_listed xs + count_listed ys
count_listed-append [] ys = omega arith
count_listed-append (b ∷ bs) ys = omega (arith, count_listed-append bs ys)

-- Every block takes at least 16 bytes.
pub count_listed-le :
    (mem : Memory) (p : ℕ) (pm pa : Bool) (bs : List Block)
    → Part mem p pm pa bs
    → p + 16 * count_listed bs ≤ end_of p bs
count_listed-le mem p pm pa [] h = omega arith
count_listed-le mem p pm pa (b ∷ bs) h =
    let least = h.0.least in
    let one : (if b.listed then 1 else 0) ≤ 1 = ground arith in
    omega (
      arith,
      least,
      one,
      count_listed-le mem (p + b.size) (b.size == min_block_size) b.alloc bs h.1,
    )
