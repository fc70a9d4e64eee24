-- ===== src/Trans.antt =====
-- The matrix transposes of lab4-cachelab4-qinlinj/trans.c.
--
-- A matrix is a function of its row and column; entries are only copied, so their type is any. A
-- counted loop is `for_loop` with the number of rounds that its condition admits.
mod Tests
pub mod Loops
pub mod Blocks
pub mod Correct
pub mod Submit
use computer_systems_project.Base.{
  ℕ, zero, suc, ◌+◌, ◌-◌, ◌*◌, ◌/◌, ◌%◌, Bool, true, false, ◌&&◌, ◌==◌, if◌then◌else◌,
}

-- `for (i = low; ...; i += step)` for `n` rounds.
pub for_loop : {S : Type 0} → (n low step : ℕ) → (ℕ → S → S) → S → S
for_loop zero low step body s = s
for_loop (suc n) low step body s = for_loop n (low + step) step body (body low s)

-- The rounds of a loop from 0 below `limit`.
abbrev pub rounds : (limit step : ℕ) → ℕ
rounds limit step = (limit + (step - 1)) / step

abbrev pub block_size : ℕ
block_size = 8

-- The three outer loops of the blocked transposes, with what they do to row `i` of a block.
pub for_blocks : {S : Type 0} → (m n : ℕ) → (row : (block_row block_col i : ℕ) → S → S) → S → S
unfolding for_loop
for_blocks m n row s =
    for_loop (rounds n block_size) 0 block_size
      (λ block_row s.
        for_loop (rounds m block_size) 0 block_size
          (λ block_col s. for_loop block_size block_row 1 (row block_row block_col) s) s)
      s

abbrev pub Matrix : Type 0 → Type 0
Matrix V = ℕ → ℕ → V

-- The matrix with the temporary array.
pub record WithTmp (V : Type 0) : Type 0 where
  pub b : Matrix V
  pub tmp : ℕ → V

-- The matrix with the two indices that the inner loop of `transpose_32x32` leaves behind.
pub record Diagonal (V : Type 0) : Type 0 where
  pub b : Matrix V
  pub ii : ℕ
  pub jj : ℕ

-- A loop that returns false at the first index that fails.
pub all_below : (n : ℕ) → (ℕ → Bool) → Bool
all_below zero p = true
all_below (suc n) p = let rest = all_below n p in if p n then rest else false

module _ {V : Type 0} where
  -- `B[row][col] = v`
  pub write : Matrix V → (row col : ℕ) → V → Matrix V
  write b row col v r c = if r == row && c == col then v else b r c

  abbrev pub write_tmp : (ℕ → V) → ℕ → V → ℕ → V
  write_tmp tmp k v x = if x == k then v else tmp x

  pub copy_loop : (m n : ℕ) → Matrix V → Matrix V → Matrix V
  unfolding for_loop write
  copy_loop m n a b = for_loop n 0 1 (λ i b. for_loop m 0 1 (λ j b. write b j i (a i j)) b) b

  pub trans_basic : (m n : ℕ) → Matrix V → Matrix V → Matrix V
  unfolding copy_loop
  trans_basic m n a b = copy_loop m n a b

  pub trans_tmp_step : Matrix V → (i j : ℕ) → WithTmp V → WithTmp V
  unfolding write
  trans_tmp_step a i j s =
      let k = 2 * (i % 2) + j % 2 in
      let tmp = write_tmp s.tmp k (a i j) in record { b = write s.b j i (tmp k); tmp = tmp }

  pub trans_tmp : (m n : ℕ) → Matrix V → WithTmp V → WithTmp V
  unfolding for_loop trans_tmp_step
  trans_tmp m n a s = for_loop n 0 1 (λ i s. for_loop m 0 1 (λ j s. trans_tmp_step a i j s) s) s

  pub cell_32 : Matrix V → (i j : ℕ) → Diagonal V → Diagonal V
  unfolding write
  cell_32 a i j s =
      if i == j then record s { ii = i; jj = j } else record s { b = write s.b j i (a i j) }

  pub row_32 : Matrix V → (block_row block_col i : ℕ) → Diagonal V → Diagonal V
  unfolding for_loop cell_32 write
  row_32 a block_row block_col i s =
      let s' = for_loop block_size block_col 1 (cell_32 a i) s in
      if block_row == block_col
      then record s' { b = write s'.b s'.jj s'.ii (a s'.ii s'.jj) }
      else s'

  pub transpose_32x32 : (m n : ℕ) → Matrix V → Diagonal V → Diagonal V
  unfolding for_blocks row_32
  transpose_32x32 m n a s = for_blocks m n (row_32 a) s

  -- `transpose_1024x1024`
  pub cell_1024 : Matrix V → (ii i j : ℕ) → WithTmp V → WithTmp V
  unfolding write
  cell_1024 a ii i j s =
      if i == j
      then record s { tmp = write_tmp s.tmp (i - ii) (a i j) }
      else record s { b = write s.b j i (a i j) }

  pub row_1024 : Matrix V → (ii jj i : ℕ) → WithTmp V → WithTmp V
  unfolding for_loop cell_1024 write
  row_1024 a ii jj i s =
      let s' = for_loop block_size jj 1 (cell_1024 a ii i) s in
      if ii == jj then record s' { b = write s'.b i i (s'.tmp (i - ii)) } else s'

  pub transpose_1024x1024 : (m n : ℕ) → Matrix V → WithTmp V → WithTmp V
  unfolding for_blocks row_1024
  transpose_1024x1024 m n a s = for_blocks m n (row_1024 a) s

  -- The two indices are not set when `transpose_32x32` starts: they are arguments here.
  pub transpose_submit : (m n ii jj : ℕ) → Matrix V → WithTmp V → Matrix V
  unfolding transpose_32x32 transpose_1024x1024 copy_loop
  transpose_submit m n ii jj a s =
      if m == 32 && n == 32
      then (transpose_32x32 m n a (record { b = s.b; ii = ii; jj = jj })).b
      else if m == 1024 && n == 1024
      then (transpose_1024x1024 m n a s).b
      else copy_loop m n a s.b

  -- `is_transpose`, with the comparison of two entries.
  pub is_transpose : (eq : V → V → Bool) → (m n : ℕ) → Matrix V → Matrix V → Bool
  unfolding all_below
  is_transpose eq m n a b = all_below n λ i. all_below m λ j. eq (a i j) (b j i)
