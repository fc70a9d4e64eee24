-- ===== src/Puzzles/Scale.antt =====
-- Three fourths, and the sign.
use computer_systems_project.Base.{
  ℕ, ◌+◌, ◌-◌, ◌*◌, ◌/◌, ◌%◌, ◌^◌, ◌<◌, ◌≤◌, ◌≡◌, refl, ap, ◌∙◌, inl, inr, ◌==◌, ltb, if◌then◌else◌,
  Bool-cases, arith,
}
use computer_systems_project.Puzzles.{bang, shl, sar, add, ez_three_fourths, is_negative, is_tmin}

-- A quarter of a signed word, rounded towards 0, as the division of C does.
abbrev pub quarter : (m : ℕ) → ℕ
quarter m = if ltb m (2 ^ 63) then m / 4 else (2 ^ 64 - (2 ^ 64 - m) / 4) % 2 ^ 64

three : (x : ℕ) → add (shl x 1) x ≡ x * 3 % 2 ^ 64
unfolding add shl
three x = omega arith

scaled : (m : ℕ) → m < 2 ^ 64 → sar (add m (sar m 63 % 4)) 2 ≡ quarter m
unfolding sar add
scaled m lt = elim (Bool-cases (ltb m (2 ^ 63))) [
  | inl pos ↦
      let small : m < 2 ^ 63 = ground (arith, pos) in
      let sign : m / 2 ^ 63 % 4 ≡ 0 = omega (arith, small) in
      let plain : (m + 0) % 2 ^ 64 ≡ m = omega (arith, lt) in rw (pos, sign, plain, pos) refl
  | inr neg ↦
      let large : 2 ^ 63 ≤ m = ground (arith, neg) in
      let sign : (m / 2 ^ 63 + (2 ^ 64 - 2)) % 4 ≡ 3 = omega (arith, large, lt) in
      rw (neg, sign) (below_zero large)
]
  where
    below_zero :
        2 ^ 63 ≤ m
        → (if ltb ((m + 3) % 2 ^ 64) (2 ^ 63)
            then (m + 3) % 2 ^ 64 / 4
            else (m + 3) % 2 ^ 64 / 4 + (2 ^ 64 - 2 ^ 62))
          ≡ (2 ^ 64 - (2 ^ 64 - m) / 4) % 2 ^ 64
    below_zero large = ground (arith, large, lt)

-- `ez_three_fourths` multiplies by 3, which may overflow, and divides by 4 as C does, towards 0.
pub ez_three_fourths-quarter : (x : ℕ) → x < 2 ^ 64 → ez_three_fourths x ≡ quarter (x * 3 % 2 ^ 64)
unfolding ez_three_fourths
ez_three_fourths-quarter x lt =
    ap (λ m. sar (add m (sar m 63 % 4)) 2) (three x) ∙ scaled (x * 3 % 2 ^ 64) (omega arith)

-- `is_negative` and `is_tmin` of a word are 1 for the signed words that they name, otherwise 0.
pub sign_puzzles :
    (x : ℕ)
    → x < 2 ^ 64
    → (is_negative x ≡ (if ltb x (2 ^ 63) then 0 else 1))
      × (is_tmin x ≡ (if x == 2 ^ 63 then 1 else 0))
unfolding is_negative is_tmin sar bang add
sign_puzzles x lt = (ground (arith, lt), ground (arith, lt))
