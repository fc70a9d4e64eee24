-- ===== src/Mm/Contract/Places.antt =====
-- Two allocated blocks and what is between them.
use mathlib.Core.List.{append_assoc}
use computer_systems_project.Base.{
  ℕ, zero, suc, ◌+◌, ◌*◌, ◌/◌, ◌%◌, ◌<◌, ◌≤◌, ◌≡◌, refl, sym, ap, subst, ◌∙◌, ◌⊎◌, inl, inr, true,
  false, ◌==◌, Bool-cases, List, [], ◌∷◌, ◌++◌, arith,
}
use computer_systems_project.Mm.{Memory, get_size}
use computer_systems_project.Mm.Alloc.{Allocator}
use computer_systems_project.Mm.Layout.Merge.{pending}
use computer_systems_project.Mm.Layout.Coalesce.{Holds-of}
use computer_systems_project.Mm.Contract.{Ready, Represents, InUse, Ordered}
use computer_systems_project.Mm.Contract.Entry.{Entry-of}
use computer_systems_project.Mm.Contract.Client.{at_least}
use computer_systems_project.Mm.Contract.Bytes.{Copied, low_bytes}

module _ {ℓ} {A : Type ℓ} where
  pub append_split :
      (L R l r : List A) (e : A)
      → L ++ R ≡ l ++ e ∷ r
      → ((mid : List A) × (L ≡ l ++ e ∷ mid) × (r ≡ mid ++ R))
        ⊎ ((mid : List A) × (l ≡ L ++ mid) × (R ≡ mid ++ e ∷ r))
  append_split [] R l r e p = inr (l, refl, p)
  append_split (z ∷ L) R [] r e p =
      let ez : z ≡ e = cc in let er : L ++ R ≡ r = cc in inl (L, ap (λ t. t ∷ L) ez, sym er)
  append_split (z ∷ L) R (y ∷ l) r e p =
      let ez : z ≡ y = cc in
      let er : L ++ R ≡ l ++ e ∷ r = cc in
      elim (append_split L R l r e er) [
        | inl (mid, a, b) ↦ inl (mid, ap (λ t. z ∷ t) a ∙ ap (λ t. t ∷ (l ++ e ∷ mid)) ez, b)
        | inr (mid, a, b) ↦ inr (mid, ap (λ t. y ∷ t) a ∙ ap (λ t. t ∷ (L ++ mid)) (sym ez), b)
      ]

pub InUse-more : (l r : List (ℕ × ℕ)) (x n y : ℕ) → InUse (l ++ r) y → InUse (l ++ (x, n) ∷ r) y
InUse-more [] r x n y i = inr i
InUse-more (e ∷ l) r x n y (inl h) = inl h
InUse-more (e ∷ l) r x n y (inr i) = inr (InUse-more l r x n y i)

pub InUse-middle : (l r : List (ℕ × ℕ)) (x n y : ℕ) → x < y → y < x + n → InUse (l ++ (x, n) ∷ r) y
InUse-middle [] r x n y lo hi = inl (lo, hi)
InUse-middle (e ∷ l) r x n y lo hi = inr (InUse-middle l r x n y lo hi)

pub Ordered-rest :
    (low high x n : ℕ) (l r : List (ℕ × ℕ))
    → Ordered low high (l ++ (x, n) ∷ r)
    → (16 ≤ n) × Ordered (x + n) high r
Ordered-rest low high x n [] r o = (o.1, o.2)
Ordered-rest low high x n ((z, m) ∷ l) r o = Ordered-rest (z + m) high x n l r o.2

pub apart :
    (low high x n b k : ℕ) (l mid r : List (ℕ × ℕ))
    → Ordered low high (l ++ (x, n) ∷ (mid ++ (b, k) ∷ r))
    → x + n ≤ b
apart low high x n b k l mid r o =
    at_least (x + n) high b k mid r (Ordered-rest low high x n l (mid ++ (b, k) ∷ r) o).1

-- The header of an allocated block says its size.
pub size_of :
    (rounds : ℕ) (s : Allocator) (x n : ℕ) (l r : List (ℕ × ℕ))
    → Represents rounds s (l ++ (x, n) ∷ r)
    → get_size s.heap.mem x ≡ n
unfolding get_size
size_of rounds s x n l r rep =
    let d = Entry-of s.heap_start true rep.0 x n l r rep.1.tidy rep.2 in
    let ready = subst (λ t. Ready rounds s t) d.parts rep.1 in
    let hd = Holds-of s.heap s.heap_start d.front d.rest (pending n true) ready.lists ready.sound in
    subst (λ q. get_size s.heap.mem q ≡ n) (sym d.place) hd.header.size_is

-- The list with the new block, by the place of the old one.
pub left_of :
    (b k x n : ℕ) (l mid L R : List (ℕ × ℕ))
    → L ≡ l ++ (x, n) ∷ mid
    → L ++ (b, k) ∷ R ≡ l ++ (x, n) ∷ (mid ++ (b, k) ∷ R)
left_of b k x n l mid L R e =
    ap (λ t. t ++ (b, k) ∷ R) e ∙ append_assoc l ((x, n) ∷ mid) ((b, k) ∷ R)

pub right_of :
    (b k x n : ℕ) (r mid L R : List (ℕ × ℕ))
    → R ≡ mid ++ (x, n) ∷ r
    → L ++ (b, k) ∷ R ≡ (L ++ (b, k) ∷ mid) ++ (x, n) ∷ r
right_of b k x n r mid L R e =
    ap (λ t. L ++ (b, k) ∷ t) e ∙ sym (append_assoc L ((b, k) ∷ mid) ((x, n) ∷ r))

pub size_kept :
    (rounds : ℕ) (s : Allocator) (x n b k : ℕ) (l r L R : List (ℕ × ℕ))
    → Represents rounds s (L ++ (b, k) ∷ R)
    → l ++ (x, n) ∷ r ≡ L ++ R
    → get_size s.heap.mem x ≡ n
size_kept rounds s x n b k l r L R rep was = elim (append_split L R l r (x, n) (sym was)) [
  | inl (mid, el, _) ↦
      size_of rounds s x n l (mid ++ (b, k) ∷ R)
        (subst (λ t. Represents rounds s t) (left_of b k x n l mid L R el) rep)
  | inr (mid, _, er) ↦
      size_of rounds s x n (L ++ (b, k) ∷ mid) r
        (subst (λ t. Represents rounds s t) (right_of b k x n r mid L R er) rep)
]

-- The bytes before the first write and after the last one.
pub Copied-between :
    (m0 m1 m2 m3 : Memory) (src dst c : ℕ)
    → Copied m1 m2 src dst c
    → ((y : ℕ) → src ≤ y → y < src + c → m1 y ≡ m0 y)
    → ((y : ℕ) → dst ≤ y → y < dst + c → m3 y ≡ m2 y)
    → Copied m0 m3 src dst c
Copied-between m0 m1 m2 m3 src dst c copy from to = (
  (λ k lt.
      to (dst + 8 * k) (omega arith) (omega (arith, lt))
      ∙ copy.0 k lt
      ∙ from (src + 8 * k) (omega arith) (omega (arith, lt))),
  elim (Bool-cases (c % 8 == 0)) [
    | inl e ↦ no_tail (c % 8) (m3 (dst + c / 8 * 8)) (m0 (src + c / 8 * 8)) e
    | inr e ↦
        let some_bytes = tail_bytes (c % 8) e in
        ap (low_bytes (c % 8)) (to (dst + c / 8 * 8) (omega arith) (omega (arith, some_bytes)))
        ∙ copy.1
        ∙ ap (low_bytes (c % 8)) (from (src + c / 8 * 8) (omega arith) (omega (arith, some_bytes)))
  ],
)
  where
    no_tail : (r v w : ℕ) → (r == 0) ≡ true → low_bytes r v ≡ low_bytes r w
    no_tail zero v w e = omega arith
    no_tail (suc r) v w e = absurd (ground (arith, e))

    tail_bytes : (r : ℕ) → (r == 0) ≡ false → 0 < r
    tail_bytes r e = ground (arith, e)
