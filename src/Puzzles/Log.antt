-- ===== src/Puzzles/Log.antt =====
-- The integer logarithm.
use native.Mathlib.Nat.{pow-le-pow_right, div-eq_of_lt, le-div_iff_mul-le, one-le-pow}
use computer_systems_project.Base.{
  ℕ, ◌+◌, ◌-◌, ◌*◌, ◌/◌, ◌%◌, ◌^◌, ◌<◌, ◌≤◌, ◌≡◌, refl, sym, ap, subst, ◌∙◌, inl, inr, Bool, true,
  false, ◌==◌, ltb, if◌then◌else◌, Bool-cases, arith,
}
use computer_systems_project.Puzzles.{bang, shl, sar, add, log_mask, integer_log2}

-- Whether a word has a bit from a place on, whatever its sign.
sar_zero : (x k : ℕ) → k < 64 → (sar x k == 0) ≡ ltb x (2 ^ k)
unfolding sar
sar_zero x k lt = elim (Bool-cases (ltb x (2 ^ k))) [
  | inl below ↦
      let small : x < 2 ^ k = ground (arith, below) in
      let top : 2 ^ k ≤ 2 ^ 63 = pow-le-pow_right (omega arith) {j = 63} (omega (arith, lt)) in
      let pos : ltb x (2 ^ 63) ≡ true = ground (arith, small, top) in
      rw (below, pos, div-eq_of_lt small) refl
  | inr above ↦
      let large : 2 ^ k ≤ x = ground (arith, above) in
      let some_left : 1 ≤ x / 2 ^ k =
        (le-div_iff_mul-le (one-le-pow k 2 (omega arith))).1 (omega (arith, large)) in
      rw above (nonzero (x / 2 ^ k) some_left)
]
  where
    nonzero :
        (q : ℕ) → 1 ≤ q → ((if ltb x (2 ^ 63) then q else q + (2 ^ 64 - 2 ^ (64 - k))) == 0) ≡ false
    nonzero q pos = ground (arith, pos)

-- The logarithm lies from `r` to below `r + k`.
abbrev Between : (x r k : ℕ) → Type 0
Between x r k = (2 ^ r ≤ x) × (x < 2 ^ (r + k)) × (r + k ≤ 64)

bang-bang : (s : ℕ) → bang (bang s) ≡ (if s == 0 then 0 else 1)
unfolding bang
bang-bang s = ground arith

log_step :
    (x r k bits : ℕ)
    → k ≡ 2 ^ bits
    → 0 < k
    → Between x r (k + k)
    → Between x (add r (log_mask x r k bits)) k
unfolding log_mask add shl
log_step x r k bits e pos b =
    let zero_test = sar_zero x (r + k) (omega (arith, b.2, pos)) in
    let once = bang-bang (sar x (r + k)) in
    elim (Bool-cases (ltb x (2 ^ (r + k)))) [
      | inl below ↦
          let none' : bang (bang (sar x (r + k))) ≡ 0 =
            once ∙ ap (λ (t : Bool). if t then 0 else 1) (zero_test ∙ below) in
          let same : (r + bang (bang (sar x (r + k))) * 2 ^ bits % 2 ^ 64) % 2 ^ 64 ≡ r =
            ap (λ t. (r + t * 2 ^ bits % 2 ^ 64) % 2 ^ 64) none' ∙ omega (arith, b.2, pos) in
          let small : x < 2 ^ (r + k) = ground (arith, below) in
          subst (λ t. Between x t k) (sym same) (b.0, small, omega (arith, b.2))
      | inr above ↦
          let one' : bang (bang (sar x (r + k))) ≡ 1 =
            once ∙ ap (λ (t : Bool). if t then 0 else 1) (zero_test ∙ above) in
          let same : (r + bang (bang (sar x (r + k))) * 2 ^ bits % 2 ^ 64) % 2 ^ 64 ≡ r + k =
            ap (λ t. (r + t * 2 ^ bits % 2 ^ 64) % 2 ^ 64) one'
            ∙ ap (λ t. (r + 1 * t % 2 ^ 64) % 2 ^ 64) (sym e)
            ∙ omega (arith, b.2, pos) in
          let large : 2 ^ (r + k) ≤ x = ground (arith, above) in
          subst (λ t. Between x t k) (sym same)
            (large, subst (λ t. x < 2 ^ t) (omega arith) b.1, omega (arith, b.2))
    ]

first : (x : ℕ) → add 0 (log_mask x 0 32 5) ≡ log_mask x 0 32 5
unfolding add log_mask shl
first x = omega arith

last : (x r : ℕ) → r < 63 → bang (bang (sar x (add r 1))) ≡ log_mask x r 1 0
unfolding add log_mask shl
last x r lt =
    let place : (r + 1) % 2 ^ 64 ≡ r + 1 = omega (arith, lt) in
    ap (λ t. bang (bang (sar x t))) place ∙ bit (sar x (r + 1))
  where
    bit : (s : ℕ) → bang (bang s) ≡ bang (bang s) * 2 ^ 0 % 2 ^ 64
    bit s = rw (bang-bang s) ground arith

-- Of a word that is not 0, `integer_log2` gives the place of the highest bit.
pub integer_log2-highest :
    (x : ℕ)
    → 0 < x
    → x < 2 ^ 64
    → let r = integer_log2 x in (2 ^ r ≤ x) × (x < 2 ^ (r + 1)) × (r < 64)
unfolding integer_log2
integer_log2-highest x pos lt =
    let b32 =
      subst (λ t. Between x t 32) (first x)
        (log_step x 0 32 5 refl (omega arith) (omega (arith, pos), lt, omega arith)) in
    let b16 = log_step x (log_mask x 0 32 5) 16 4 refl (omega arith) b32 in
    let r16 = add (log_mask x 0 32 5) (log_mask x (log_mask x 0 32 5) 16 4) in
    let b8 = log_step x r16 8 3 refl (omega arith) b16 in
    let r8 = add r16 (log_mask x r16 8 3) in
    let b4 = log_step x r8 4 2 refl (omega arith) b8 in
    let r4 = add r8 (log_mask x r8 4 2) in
    let b2 = log_step x r4 2 1 refl (omega arith) b4 in
    let r2 = add r4 (log_mask x r4 2 1) in
    let b1 = log_step x r2 1 0 refl (omega arith) b2 in
    let done = subst (λ t. Between x (add r2 t) 1) (sym (last x r2 (omega (arith, b2.2)))) b1 in
    (done.0, done.1, omega (arith, done.2))
