-- ===== src/Mm/Layout/Fit.antt =====
-- `find_fit`: the search through the free lists.
use computer_systems_project.Base.{
  ℕ, zero, suc, ◌+◌, ◌-◌, ◌<◌, ◌≤◌, ◌≡◌, ◌≢◌, refl, sym, subst, ◌⊎◌, inl, inr, Bool, true, false,
  not, ◌==◌, leb, if◌then◌else◌, Bool-cases, List, [], ◌∷◌, length, arith,
}
use computer_systems_project.Mm.{Memory, get_size, find_seg_list_class, max_seg_list_length}
use computer_systems_project.Mm.Classes.{class_range}
use computer_systems_project.Mm.Alloc.{find_in_list, find_in_classes, find_fit}
use computer_systems_project.Mm.Lists.{Heap}
use computer_systems_project.Mm.Lists.Chain.{head_of, Chain}
use computer_systems_project.Mm.Layout.{Block, In, count_listed, Sound}
use computer_systems_project.Mm.Layout.Members.{length-le_total}

-- The result is a member that is large enough, or 0 and no member is.
abbrev Finds : Memory → ℕ → List ℕ → ℕ → Type 0
Finds mem asize xs r =
    ((r ≡ 0) × ((x : ℕ) → In x xs → get_size mem x < asize))
    ⊎ ((r ≢ 0) × In r xs × (asize ≤ get_size mem r))

find_in_list-Finds :
    (k asize : ℕ) (mem : Memory) (both : Bool) (prev : ℕ) (xs : List ℕ)
    → length xs < k
    → Chain mem both prev xs
    → Finds mem asize xs (find_in_list k asize (head_of xs) mem)
unfolding find_in_list
find_in_list-Finds zero asize mem both prev xs enough c = absurd (omega (arith, enough))
find_in_list-Finds (suc k) asize mem both prev [] enough c = inl (refl, λ x i. absurd i)
find_in_list-Finds (suc k) asize mem both prev (b ∷ bs) enough c =
    let nonzero : (b == 0) ≡ false = ground (arith, c.0) in
    let ih = find_in_list-Finds k asize mem both b bs (omega (arith, enough)) c.3 in
    elim (Bool-cases (leb asize (get_size mem b))) [
      | inl fits ↦
          let e : find_in_list (suc k) asize b mem ≡ b = rw (nonzero, fits) refl in
          subst (λ r. Finds mem asize (b ∷ bs) r) (sym e)
            (inr ((λ z. omega (arith, z, c.0)), inl refl, large asize (get_size mem b) fits))
      | inr short ↦
          let e : find_in_list (suc k) asize b mem ≡ find_in_list k asize (head_of bs) mem =
            rw (nonzero, short, c.1) refl in
          subst (λ r. Finds mem asize (b ∷ bs) r) (sym e)
            (further b bs (find_in_list k asize (head_of bs) mem)
              (small asize (get_size mem b) short) ih)
    ]
  where
    large : (a n : ℕ) → leb a n ≡ true → a ≤ n
    large a n e = ground arith

    small : (a n : ℕ) → leb a n ≡ false → n < a
    small a n e = ground arith

    further :
        (b : ℕ) (bs : List ℕ) (r : ℕ)
        → get_size mem b < asize
        → Finds mem asize bs r
        → Finds mem asize (b ∷ bs) r
    further b bs r lt (inl f) = inl (
      f.0,
      λ x i. elim i [ inl e ↦ subst (λ t. get_size mem t < asize) (sym e) lt | inr j ↦ f.1 x j ],
    )
    further b bs r lt (inr f) = inr (f.0, inr f.1, f.2)

-- The same for the lists from a class on.
abbrev pub FindsFrom : Memory → ℕ → (ℕ → List ℕ) → ℕ → ℕ → Type 0
FindsFrom mem asize lists c r =
    ((r ≡ 0) × ((k x : ℕ) → c ≤ k → k < 14 → In x (lists k) → get_size mem x < asize))
    ⊎ ((r ≢ 0) × ((k : ℕ) × (k < 14) × In r (lists k) × (asize ≤ get_size mem r)))

module _ (rounds asize : ℕ) (h : Heap) (p : ℕ) (bs : List Block) (lists : ℕ → List ℕ)
    (s : Sound h p bs lists) (enough : count_listed bs < rounds) where
  find_in_classes-FindsFrom :
      (n c : ℕ) → c + n ≡ 14 → FindsFrom h.mem asize lists c (find_in_classes rounds n c asize h)
  unfolding find_in_classes
  find_in_classes-FindsFrom zero c e = inl (refl, λ k x ge lt i. absurd (omega (arith, e, ge, lt)))
  find_in_classes-FindsFrom (suc n) c e =
      let short : length (lists c) < rounds =
        omega (arith, length-le_total 14 lists c (omega (arith, e)), s.counted, enough) in
      let f =
        find_in_list-Finds rounds asize h.mem (not (c == 0)) 0 (lists c) short
          (s.chain c (omega (arith, e))) in
      let ih = find_in_classes-FindsFrom n (c + 1) (omega (arith, e)) in
      rw (s.first c (omega (arith, e))) (
        join c (omega (arith, e)) (find_in_list rounds asize (head_of (lists c)) h.mem)
          (find_in_classes rounds n (c + 1) asize h) f ih)
    where
      nonzero_test : (x : ℕ) → x ≢ 0 → (x == 0) ≡ false
      nonzero_test x nz = ground (arith, nz)

      same_of : (k c : ℕ) → (k == c) ≡ true → k ≡ c
      same_of k c e = ground arith

      above : (k c : ℕ) → (k == c) ≡ false → c ≤ k → c + 1 ≤ k
      above k c e ge = ground arith

      join :
          (c : ℕ)
          → c < 14
          → (found rest : ℕ) → Finds h.mem asize (lists c) found
          → FindsFrom h.mem asize lists (c + 1) rest
          → FindsFrom h.mem asize lists c (if found == 0 then rest else found)
      join c lt found rest (inr f) g =
          let e : (found == 0) ≡ false = nonzero_test found f.0 in
          rw e (inr (f.0, (c, lt, f.1, f.2)))
      join c lt found rest (inl f) (inl g) = rw f.0 (
          inl (
            g.0,
            λ k x ge lt' i. elim (Bool-cases (k == c)) [
              | inl same ↦ f.1 x (subst (λ t. In x (lists t)) (same_of k c same) i)
              | inr other ↦ g.1 k x (above k c other ge) lt' i
            ],
          ))
      join c lt found rest (inl f) (inr g) = rw f.0 (inr g)

  -- `find_fit` finds a listed block that is large enough, or there is none.
  pub find_fit-FindsFrom :
      FindsFrom h.mem asize lists (find_seg_list_class asize) (find_fit rounds asize h)
  unfolding find_fit
  find_fit-FindsFrom =
      find_in_classes-FindsFrom (max_seg_list_length - find_seg_list_class asize)
        (find_seg_list_class asize) (omega (arith, class_range asize))
