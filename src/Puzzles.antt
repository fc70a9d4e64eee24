-- ===== src/Puzzles.antt =====
-- The bit puzzles of lab1-datalab1-qinlinj/bits.c that shift and add.
--
-- A `long` is its 64-bit word. `x & 1` and `x & 3` are remainders, `&` of two results of `!` is their
-- product, and `!` is `bang`.
pub mod Log
pub mod Scale
mod Tests
use computer_systems_project.Base.{
  ℕ, ◌+◌, ◌-◌, ◌*◌, ◌/◌, ◌%◌, ◌^◌, Bool, true, false, ◌==◌, ltb, if◌then◌else◌,
}

-- The operators of C on words.
pub bang : ℕ → ℕ
bang x = if x == 0 then 1 else 0

pub shl : (x k : ℕ) → ℕ
shl x k = x * 2 ^ k % 2 ^ 64

-- The shift to the right of a signed word fills with the sign.
pub sar : (x k : ℕ) → ℕ
sar x k = if ltb x (2 ^ 63) then x / 2 ^ k else x / 2 ^ k + (2 ^ 64 - 2 ^ (64 - k))

pub add : (x y : ℕ) → ℕ
add x y = (x + y) % 2 ^ 64

-- One step: whether there is a bit from `result + k` on, as `k` or 0.
pub log_mask : (x result k bits : ℕ) → ℕ
unfolding bang sar shl
log_mask x result k bits = shl (bang (bang (sar x (result + k)))) bits

pub integer_log2 : (x : ℕ) → ℕ
unfolding log_mask add bang sar
integer_log2 x =
    let r32 = log_mask x 0 32 5 in
    let r16 = add r32 (log_mask x r32 16 4) in
    let r8 = add r16 (log_mask x r16 8 3) in
    let r4 = add r8 (log_mask x r8 4 2) in
    let r2 = add r4 (log_mask x r4 2 1) in add r2 (bang (bang (sar x (add r2 1))))

pub ez_three_fourths : (x : ℕ) → ℕ
unfolding shl sar add
ez_three_fourths x =
    let multiplied = add (shl x 1) x in
    let mask = sar multiplied 63 % 4 in sar (add multiplied mask) 2

pub is_negative : (x : ℕ) → ℕ
unfolding sar
is_negative x = sar x 63 % 2

pub is_tmin : (x : ℕ) → ℕ
unfolding bang add
is_tmin x = bang (add x x) * bang (bang x)
