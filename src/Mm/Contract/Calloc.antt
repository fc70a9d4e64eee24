-- ===== src/Mm/Contract/Calloc.antt =====
-- `calloc`.
use native.Mathlib.Nat.{mul-div_cancel_left, div-mul-le_self, mul_comm}
use computer_systems_project.Base.{
  ℕ, zero, suc, ◌+◌, ◌-◌, ◌*◌, ◌/◌, ◌%◌, ◌^◌, ◌<◌, ◌≤◌, ◌≡◌, refl, sym, ap, subst, ◌∙◌, ◌⊎◌, inl,
  inr, Bool, true, false, not, ◌==◌, ==_self, if◌then◌else◌, Bool-cases, List, arith,
}
use computer_systems_project.Mm.Alloc.{Allocator, on_mem, malloc, calloc}
use computer_systems_project.Mm.Copy.{memset_zero}
use computer_systems_project.Mm.Memlib.{System}
use computer_systems_project.Mm.Contract.{Represents, InUse, Served}
use computer_systems_project.Mm.Contract.Serve.{malloc-Serves}
use computer_systems_project.Mm.Contract.Client.{
  with_mem, Served-pos, client-Represents, other-Outside,
}
use computer_systems_project.Mm.Contract.Bytes.{Zeroed, memset_out, memset-Zeroed}

-- A payload in its block.
within :
    (r n size y : ℕ)
    → size + 8 ≤ n
    → 8 ≤ r
    → (y ≤ r - 8) ⊎ (r - 8 + n ≤ y)
    → (y < r) ⊎ (r + size ≤ y)
within r n size y fits pos (inl a) = inl (omega (arith, a, pos))
within r n size y fits pos (inr b) = inr (omega (arith, b, fits, pos))

pub cleared-Served :
    (rounds : ℕ) (s s1 : Allocator) (size r : ℕ) (u : List (ℕ × ℕ))
    → 8 ≤ r
    → Served rounds s s1 size r u
    → Served rounds s (with_mem s1 (memset_zero r size s1.heap.mem)) size r u
cleared-Served rounds s s1 size r u pos v =
    let mem' = memset_zero r size s1.heap.mem in
    record {
      lefts = v.lefts;
      rights = v.rights;
      n = v.n;
      fits = v.fits;
      aligned = v.aligned;
      was = v.was;
      now =
          client-Represents rounds s1 mem' (r - 8) v.n v.lefts v.rights v.now
            (λ y o. memset_out r size y s1.heap.mem (within r v.n size y v.fits pos o));
      kept = λ y i.
          let o =
            other-Outside rounds s1 (r - 8) v.n y v.lefts v.rights v.now
              (subst (λ t. InUse t y) v.was i) in
          memset_out r size y s1.heap.mem (within r v.n size y v.fits pos o) ∙ v.kept y i;
    }

overflow_test :
    (elements size : ℕ)
    → 0 < elements
    → 2 ^ 64 ≤ elements * size
    → (elements * size % 2 ^ 64 / elements == size) ≡ false
overflow_test elements size pos over =
    let t = elements * size % 2 ^ 64 in
    let le : t / elements * elements ≤ t = div-mul-le_self t elements in
    not_equal (t / elements) size (λ e. too_large (subst (λ k. k * elements ≤ t) e le))
  where
    not_equal : (a b : ℕ) → (a ≡ b → ⊥) → (a == b) ≡ false
    not_equal a b h = ground (arith, h)

    too_large : size * elements ≤ elements * size % 2 ^ 64 → ⊥
    too_large q =
        let c : elements * size ≡ size * elements = mul_comm elements size in
        omega (arith, q, c, over)

-- The end of `calloc`.
abbrev pub zeroes : (total : ℕ) → ℕ × Allocator → ℕ × Allocator
zeroes total m =
    if m.0 == 0
    then (0, m.1)
    else (m.0, record m.1 { heap = on_mem (memset_zero m.0 total) m.1.heap })

abbrev Outcome : (rounds total : ℕ) → Allocator → List (ℕ × ℕ) → ℕ × Allocator → Type 0
Outcome rounds total s u r =
    (r ≡ (0, s)) ⊎ (Served rounds s r.1 total r.0 u × Zeroed r.1.heap.mem r.0 total)

zeroes-Outcome :
    (rounds total : ℕ) (s : Allocator) (u : List (ℕ × ℕ)) (m : ℕ × Allocator)
    → (m ≡ (0, s)) ⊎ Served rounds s m.1 total m.0 u
    → Outcome rounds total s u (zeroes total m)
zeroes-Outcome rounds total s u m (inl e) = inl (ap (zeroes total) e)
zeroes-Outcome rounds total s u m (inr v) =
    let pos = Served-pos rounds s m.1 total m.0 u v in
    let nz : (m.0 == 0) ≡ false = ground (arith, pos) in
    subst (λ r. Outcome rounds total s u r) (sym (nonzero nz))
      (inr (
        cleared-Served rounds s m.1 total m.0 u (omega (arith, pos)) v,
        memset-Zeroed m.0 total m.1.heap.mem,
      ))
  where
    nonzero :
        (m.0 == 0) ≡ false
        → zeroes total m ≡ (m.0, with_mem m.1 (memset_zero m.0 total m.1.heap.mem))
    nonzero nz = rw nz refl

-- `calloc` on a started heap: for 0 elements, and where the product of the two numbers is 2 ^ 64 or more,
-- it returns NULL and changes nothing; for a product from 1 to 2 ^ 63 - 8 it does so or serves the request,
-- as `malloc` does, with all bytes 0.
pub calloc-Serves :
    (sys : System) (rounds elements size : ℕ) (s : Allocator) (u : List (ℕ × ℕ))
    → Represents rounds s u
    → let r = calloc sys rounds elements size s in
      ((elements ≡ 0) ⊎ (2 ^ 64 ≤ elements * size) → r ≡ (0, s))
      × (0 < elements * size
          → elements * size + 8 ≤ 2 ^ 63
          → (r ≡ (0, s))
            ⊎ (Served rounds s r.1 (elements * size) r.0 u
                × Zeroed r.1.heap.mem r.0 (elements * size)))
unfolding calloc
calloc-Serves sys rounds elements size s u rep = (refused, served)
  where
    refused :
        (elements ≡ 0) ⊎ (2 ^ 64 ≤ elements * size) → calloc sys rounds elements size s ≡ (0, s)
    refused (inl e) = let z : (elements == 0) ≡ true = ground (arith, e) in rw z refl
    refused (inr over) = elim (Bool-cases (elements == 0)) [
      | inl e ↦ rw e refl
      | inr nz ↦ rw (nz, overflow_test elements size (positive elements nz) over) refl
    ]
      where
        positive : (x : ℕ) → (x == 0) ≡ false → 0 < x
        positive x e = ground (arith, e)

    served :
        0 < elements * size
        → elements * size + 8 ≤ 2 ^ 63
        → let r = calloc sys rounds elements size s in
          (r ≡ (0, s))
          ⊎ (Served rounds s r.1 (elements * size) r.0 u
              × Zeroed r.1.heap.mem r.0 (elements * size))
    served pos small =
        let total = elements * size in
        let some_elements : 0 < elements = positive_factor elements size pos in
        let nz : (elements == 0) ≡ false = ground (arith, some_elements) in
        let plain : total % 2 ^ 64 ≡ total = omega (arith, small) in
        let quotient : total / elements ≡ size = mul-div_cancel_left size some_elements in
        let run = λ (t : ℕ) (a b : Bool).
          (if a then (0, s) else if not b then (0, s) else zeroes t (malloc sys rounds t s)) in
        let e : calloc sys rounds elements size s ≡ zeroes total (malloc sys rounds total s) =
          ap (λ t. run t (elements == 0) (t / elements == size)) plain
          ∙ ap (λ a. run total a (total / elements == size)) nz
          ∙ ap (λ b. run total false b) (ap (λ t. t == size) quotient ∙ ==_self size) in
        subst (λ r. Outcome rounds total s u r) (sym e)
          (zeroes-Outcome rounds total s u (malloc sys rounds total s)
            (malloc-Serves sys rounds total s u rep pos small))
      where
        positive_factor : (a b : ℕ) → 0 < a * b → 0 < a
        positive_factor zero b h = absurd (omega (arith, h))
        positive_factor (suc a) b h = omega arith
