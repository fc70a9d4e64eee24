-- ===== src/Trans/Tests.antt =====
-- Transposes of concrete matrices.
use computer_systems_project.Base.{ℕ, ◌+◌, ◌*◌, ◌≡◌, arith}
use computer_systems_project.Trans.{Matrix, WithTmp, transpose_submit}
use computer_systems_project.Trans.Submit.{transpose_submit-Placed}

abbrev numbered : Matrix ℕ
numbered i j = 100 * i + j

abbrev zeros : WithTmp ℕ
zeros = record { b = λ i j. 0; tmp = λ k. 0 }

transpose_submit-Placed_example : transpose_submit 32 32 0 0 numbered zeros 17 3 ≡ 317
transpose_submit-Placed_example =
    transpose_submit-Placed numbered 3 17 32 32 0 0 zeros (omega arith) (omega arith)
