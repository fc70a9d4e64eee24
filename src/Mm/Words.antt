-- ===== src/Mm/Words.antt =====
-- Packing and unpacking of header words.
use native.Mathlib.Nat.{div-add-mod', mod-lt, mul_comm}
use computer_systems_project.Base.{
  ℕ, ◌+◌, ◌-◌, ◌*◌, ◌/◌, ◌%◌, ◌^◌, ◌<◌, ◌≤◌, ◌≡◌, ◌∙◌, Bool, true, false, if◌then◌else◌, arith,
}
use computer_systems_project.Mm.{bit, set_bit, pack, extract_size, extract_alloc, round_up}

-- What a header word says.
pub record Says (word size : ℕ) (pre_min pre_alloc alloc : Bool) : Type 0 where
  pub size_is : extract_size word ≡ size
  pub alloc_is : extract_alloc word ≡ alloc
  pub pre_alloc_is : bit 1 word ≡ pre_alloc
  pub pre_min_is : bit 2 word ≡ pre_min

abbrev one_if : Bool → ℕ
one_if b = if b then 1 else 0

set_bit_free : (k w : ℕ) → w / 2 ^ k % 2 ≡ 0 → set_bit k w ≡ w + 2 ^ k
set_bit_free k w free = ground (arith, free)

with_flag :
    (k w : ℕ) (b : Bool) → w / 2 ^ k % 2 ≡ 0 → (if b then set_bit k w else w) ≡ w + one_if b * 2 ^ k
with_flag k w true free = set_bit_free k w free ∙ omega arith
with_flag k w false free = omega arith

pack_sum :
    (size : ℕ) (pre_min pre_alloc alloc : Bool)
    → size % 16 ≡ 0
    → pack size pre_min pre_alloc alloc
      ≡ size + one_if alloc + one_if pre_alloc * 2 + one_if pre_min * 4
unfolding pack
pack_sum size pm pa al h =
    rw (with_flag 0 size al (omega arith), with_flag 1 (size + one_if al * 2 ^ 0) pa (low al))
      (with_flag 2 (size + one_if al * 2 ^ 0 + one_if pa * 2 ^ 1) pm (mid al pa) ∙ omega arith)
  where
    low : (b : Bool) → (size + one_if b * 2 ^ 0) / 2 ^ 1 % 2 ≡ 0
    low true = omega arith
    low false = omega arith

    mid : (b c : Bool) → (size + one_if b * 2 ^ 0 + one_if c * 2 ^ 1) / 2 ^ 2 % 2 ≡ 0
    mid true true = omega arith
    mid true false = omega arith
    mid false true = omega arith
    mid false false = omega arith

sum-Says :
    (size : ℕ) (pre_min pre_alloc alloc : Bool)
    → size % 16 ≡ 0
    → Says
        (size + one_if alloc + one_if pre_alloc * 2 + one_if pre_min * 4)
        size
        pre_min
        pre_alloc
        alloc
unfolding extract_size extract_alloc
sum-Says size true true true h = record {
  size_is = omega arith;
  alloc_is = ground arith;
  pre_alloc_is = ground arith;
  pre_min_is = ground arith;
}
sum-Says size true true false h = record {
  size_is = omega arith;
  alloc_is = ground arith;
  pre_alloc_is = ground arith;
  pre_min_is = ground arith;
}
sum-Says size true false true h = record {
  size_is = omega arith;
  alloc_is = ground arith;
  pre_alloc_is = ground arith;
  pre_min_is = ground arith;
}
sum-Says size true false false h = record {
  size_is = omega arith;
  alloc_is = ground arith;
  pre_alloc_is = ground arith;
  pre_min_is = ground arith;
}
sum-Says size false true true h = record {
  size_is = omega arith;
  alloc_is = ground arith;
  pre_alloc_is = ground arith;
  pre_min_is = ground arith;
}
sum-Says size false true false h = record {
  size_is = omega arith;
  alloc_is = ground arith;
  pre_alloc_is = ground arith;
  pre_min_is = ground arith;
}
sum-Says size false false true h = record {
  size_is = omega arith;
  alloc_is = ground arith;
  pre_alloc_is = ground arith;
  pre_min_is = ground arith;
}
sum-Says size false false false h = record {
  size_is = omega arith;
  alloc_is = ground arith;
  pre_alloc_is = ground arith;
  pre_min_is = ground arith;
}

-- A word packed from a multiple of 16 and three flags says that size and these flags.
pub pack-Says :
    (size : ℕ) (pre_min pre_alloc alloc : Bool)
    → size % 16 ≡ 0
    → Says (pack size pre_min pre_alloc alloc) size pre_min pre_alloc alloc
pack-Says size pm pa al h = rw (pack_sum size pm pa al h) (sum-Says size pm pa al h)

-- Where `size + n` is below 2 ^ 64, `round_up` gives the first multiple of `n` that is not below `size`.
pub round_up-least :
    (size n : ℕ)
    → 0 < n
    → size + n < 2 ^ 64
    → (q : ℕ) × (round_up size n ≡ n * q) × (size ≤ round_up size n) × (round_up size n < size + n)
unfolding round_up
round_up-least size n pos room =
    let x = size + (n - 1) in
    let small : x % 2 ^ 64 ≡ x = omega arith in
    let parts : x / n * n + x % n ≡ x = div-add-mod' x n in
    let flip : n * (x / n) ≡ x / n * n = mul_comm n (x / n) in
    let rest : x % n < n = mod-lt x pos in
    let fits : n * (x / n) % 2 ^ 64 ≡ n * (x / n) = omega arith in
    rw small (x / n, fits, omega arith, omega arith)
