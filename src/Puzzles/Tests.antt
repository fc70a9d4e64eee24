-- ===== src/Puzzles/Tests.antt =====
-- The puzzles at the examples of their comments.
use computer_systems_project.Base.{◌+◌, ◌-◌, ◌*◌, ◌%◌, ◌^◌, ◌<◌, ◌≤◌, ◌≡◌, refl, arith}
use computer_systems_project.Puzzles.{bang, shl, sar, add, log_mask, integer_log2, ez_three_fourths}
use computer_systems_project.Puzzles.Log.{integer_log2-highest}
use computer_systems_project.Puzzles.Scale.{quarter, ez_three_fourths-quarter}

integer_log2_of_31 : integer_log2 31 ≡ 4
unfolding integer_log2 log_mask bang shl sar add
integer_log2_of_31 = refl

three_fourths_of_minus_9 : ez_three_fourths (2 ^ 64 - 9) ≡ 2 ^ 64 - 6
unfolding ez_three_fourths shl sar add
three_fourths_of_minus_9 = refl

integer_log2-highest_example :
    let r = integer_log2 31 in (2 ^ r ≤ 31) × (31 < 2 ^ (r + 1)) × (r < 64)
integer_log2-highest_example = integer_log2-highest 31 (omega arith) (omega arith)

ez_three_fourths-quarter_example : ez_three_fourths 11 ≡ quarter (11 * 3 % 2 ^ 64)
ez_three_fourths-quarter_example = ez_three_fourths-quarter 11 (omega arith)
