-- ===== src/Mm/Contract/Held.antt =====
-- The addresses that a client holds, and the allocated blocks of the heap.
use computer_systems_project.Base.{
  ℕ, ◌+◌, ◌-◌, ◌≡◌, refl, sym, ap, subst, ◌∙◌, ◌⊎◌, inl, inr, true, false, ◌==◌, ltb, if◌then◌else◌,
  List, [], ◌∷◌, ◌++◌, arith,
}
use computer_systems_project.Mm.Alloc.{Allocator}
use computer_systems_project.Mm.Contract.{Represents, Ordered, Served}
use computer_systems_project.Mm.Contract.Start.{Fresh}
use computer_systems_project.Mm.Contract.Client.{Served-pos, Represents-Ordered, at_least}

-- The addresses that the client holds, in increasing order.
abbrev pub payloads : List (ℕ × ℕ) → List ℕ
payloads [] = []
payloads ((x, n) ∷ u) = (x + 8) ∷ payloads u

abbrev pub enter : ℕ → List ℕ → List ℕ
enter bp [] = bp ∷ []
enter bp (b ∷ bs) = let rest = enter bp bs in if ltb bp b then bp ∷ b ∷ bs else b ∷ rest

-- With the result of an allocation.
abbrev pub gained : ℕ → List ℕ → List ℕ
gained bp live = if bp == 0 then live else enter bp live

enter-place :
    (low high x n : ℕ) (l r : List (ℕ × ℕ))
    → Ordered low high (l ++ (x, n) ∷ r)
    → enter (x + 8) (payloads (l ++ r)) ≡ payloads (l ++ (x, n) ∷ r)
enter-place low high x n [] [] o = refl
enter-place low high x n [] ((z, m) ∷ r) o =
    let lt : ltb (x + 8) (z + 8) ≡ true = ground (arith, o.1, o.2.0) in rw lt refl
enter-place low high x n ((z, m) ∷ l) r o =
    let ge : ltb (x + 8) (z + 8) ≡ false = ground (arith, o.1, at_least (z + m) high x n l r o.2) in
    rw ge (ap (λ t. (z + 8) ∷ t) (enter-place (z + m) high x n l r o.2))

-- The block of an address that the client holds.
pub record Found (u : List (ℕ × ℕ)) (l r : List ℕ) (bp : ℕ) : Type 0 where
  pub x : ℕ
  pub n : ℕ
  pub lefts : List (ℕ × ℕ)
  pub rights : List (ℕ × ℕ)
  pub parts : u ≡ lefts ++ (x, n) ∷ rights
  pub place : bp ≡ x + 8
  pub others : payloads (lefts ++ rights) ≡ l ++ r

pub found : (u : List (ℕ × ℕ)) (l r : List ℕ) (bp : ℕ) → payloads u ≡ l ++ bp ∷ r → Found u l r bp
found [] [] r bp e = cc
found [] (z ∷ l) r bp e = cc
found ((x, n) ∷ u) [] r bp e =
    let at : x + 8 ≡ bp = cc in
    let same : payloads u ≡ r = cc in
    record { x = x; n = n; lefts = []; rights = u; parts = refl; place = sym at; others = same }
found ((x, n) ∷ u) (z ∷ l) r bp e =
    let at : x + 8 ≡ z = cc in
    let same : payloads u ≡ l ++ bp ∷ r = cc in
    let f = found u l r bp same in
    record {
      x = f.x;
      n = f.n;
      lefts = (x, n) ∷ f.lefts;
      rights = f.rights;
      parts = ap (λ t. (x, n) ∷ t) f.parts;
      place = f.place;
      others = ap (λ t. (x + 8) ∷ t) f.others ∙ ap (λ t. t ∷ (l ++ r)) at;
    }

-- The heap is not started and nothing is held, or the payloads of the allocated blocks are held.
abbrev pub Holding : (rounds : ℕ) → Allocator → List ℕ → Type 0
Holding rounds s live =
    (Fresh rounds s × (s.heap_start ≡ 0) × (live ≡ []))
    ⊎ ((u : List (ℕ × ℕ)) × Represents rounds s u × (payloads u ≡ live))

pub served-Holding :
    (rounds size r : ℕ) (s s' : Allocator) (u : List (ℕ × ℕ)) (live : List ℕ)
    → Served rounds s s' size r u
    → payloads u ≡ live
    → (gained r live ≡ enter r live) × Holding rounds s' (enter r live)
served-Holding rounds size r s s' u live v e =
    let pos = Served-pos rounds s s' size r u v in
    let nz : (r == 0) ≡ false = ground (arith, pos) in
    let back : r - 8 + 8 ≡ r = omega (arith, pos) in
    let now = v.lefts ++ (r - 8, v.n) ∷ v.rights in
    let p =
      enter-place s'.heap_start (s'.memlib.mem_brk - 8) (r - 8) v.n v.lefts v.rights
        (Represents-Ordered rounds s' now v.now) in
    (
      rw nz refl,
      inr (
        now,
        v.now,
        sym p
            ∙ ap (λ t. enter t (payloads (v.lefts ++ v.rights))) back
            ∙ ap (enter r) (ap payloads (sym v.was) ∙ e),
      ),
    )

-- What a call that allocates leaves.
abbrev pub Given : (rounds size : ℕ) → List ℕ → ℕ × Allocator → Type 0
Given rounds size live m =
    ((m.0 ≡ 0) × Holding rounds m.1 live)
    ⊎ ((s : Allocator) × (u : List (ℕ × ℕ)) × (payloads u ≡ live) × Served rounds s m.1 size m.0 u)

pub Given-Holding :
    (rounds size : ℕ) (live : List ℕ) (m : ℕ × Allocator)
    → Given rounds size live m
    → Holding rounds m.1 (gained m.0 live)
Given-Holding rounds size live m (inl (z, h)) =
    let null : (m.0 == 0) ≡ true = ground (arith, z) in rw null h
Given-Holding rounds size live m (inr (s, u, e, v)) =
    let h = served-Holding rounds size m.0 s m.1 u live v e in
    subst (λ t. Holding rounds m.1 t) (sym h.0) h.1
