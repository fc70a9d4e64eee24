-- ===== src/Trans/Submit.antt =====
-- `transpose_submit` and the two example functions of trans.c.
use computer_systems_project.Base.{
  ℕ, zero, suc, ◌+◌, ◌*◌, ◌%◌, ◌<◌, ◌≡◌, refl, Bool, true, ◌&&◌, ◌==◌, ==_self, Bool-cases, inl,
  inr, arith,
}
use computer_systems_project.Trans.{
  for_loop, Matrix, WithTmp, copy_loop, trans_basic, trans_tmp_step, trans_tmp, transpose_submit,
  all_below, is_transpose,
}
use computer_systems_project.Trans.Loops.{for_loop-keeps, for_loop-at}
use computer_systems_project.Trans.Correct.{
  Placed, write-Placed, write-Placed_here, copy_loop-Placed,
}
use computer_systems_project.Trans.Blocks.{transpose_32x32-Placed, transpose_1024x1024-Placed}

-- For an `n` by `m` matrix of any size, the entry of row `i` and column `j` stands in row `j` and
-- column `i` after `transpose_submit`, whatever was in the matrix, the temporary array and the two
-- indices before.
pub transpose_submit-Placed :
    {V : Type 0} (a : Matrix V) (i j m n ii jj : ℕ) (s : WithTmp V)
    → i < n
    → j < m
    → transpose_submit m n ii jj a s j i ≡ a i j
unfolding transpose_submit
transpose_submit-Placed a i j m n ii jj s row col = elim (Bool-cases (m == 32 && n == 32)) [
  | inl small ↦
      rw small (transpose_32x32-Placed a i j m n (record { b = s.b; ii = ii; jj = jj }) row col)
  | inr other ↦ elim (Bool-cases (m == 1024 && n == 1024)) [
    | inl large ↦ rw (other, large) (transpose_1024x1024-Placed a i j m n s row col)
    | inr rest ↦ rw (other, rest) (copy_loop-Placed a i j m n s.b row col)
  ]
]

module _ {V : Type 0} (a : Matrix V) (i j : ℕ) where
  tmp_step-Placed :
      (k l : ℕ) (s : WithTmp V) → Placed a i j s.b → Placed a i j (trans_tmp_step a k l s).b
  unfolding trans_tmp_step
  tmp_step-Placed k l s h = rw (==_self (2 * (k % 2) + l % 2)) (write-Placed a i j s.b l k h)

  tmp_step_here : (s : WithTmp V) → Placed a i j (trans_tmp_step a i j s).b
  unfolding trans_tmp_step
  tmp_step_here s = rw (==_self (2 * (i % 2) + j % 2)) (write-Placed_here a i j s.b)

  -- `trans_tmp`, which sends each entry through the temporary array, transposes as well.
  pub trans_tmp-Placed :
      (m n : ℕ) (s : WithTmp V) → i < n → j < m → (trans_tmp m n a s).b j i ≡ a i j
  unfolding trans_tmp
  trans_tmp-Placed m n s row col =
      for_loop-at (λ s. Placed a i j s.b) 1 (λ k s. for_loop m 0 1 (trans_tmp_step a k) s) n 0 i i s
        row (omega arith)
        (λ k t lt h.
          for_loop-keeps (λ s. Placed a i j s.b) 1 (trans_tmp_step a (0 + k * 1)) m 0 t
            (λ l t' lt' h'. tmp_step-Placed (0 + k * 1) (0 + l * 1) t' h') h)
        (λ t.
          for_loop-at (λ s. Placed a i j s.b) 1 (trans_tmp_step a i) m 0 j j t col (omega arith)
            (λ l t' lt' h'. tmp_step-Placed i (0 + l * 1) t' h') tmp_step_here)

all_below-true : (n : ℕ) (p : ℕ → Bool) → ((k : ℕ) → k < n → p k ≡ true) → all_below n p ≡ true
unfolding all_below
all_below-true zero p h = refl
all_below-true (suc n) p h = rw (h n (omega arith)) (all_below-true n p (λ k lt. h k (omega arith)))

is_transpose_of :
    {V : Type 0} (eq : V → V → Bool) (a b : Matrix V) (m n : ℕ)
    → ((v : V) → eq v v ≡ true)
    → ((i j : ℕ) → i < n → j < m → b j i ≡ a i j)
    → is_transpose eq m n a b ≡ true
unfolding is_transpose
is_transpose_of eq a b m n same placed =
    all_below-true n _ λ i row. all_below-true m _ λ j col. rw (placed i j row col) (same (a i j))

-- The assertions at the end of `trans_basic` and `trans_tmp` hold, with a comparison of entries by
-- which an entry is equal to itself.
pub asserts_transpose :
    {V : Type 0} (eq : V → V → Bool) (a b : Matrix V) (s : WithTmp V) (m n : ℕ)
    → ((v : V) → eq v v ≡ true)
    → (is_transpose eq m n a (trans_basic m n a b) ≡ true)
      × (is_transpose eq m n a (trans_tmp m n a s).b ≡ true)
unfolding trans_basic
asserts_transpose eq a b s m n same = (
  is_transpose_of eq a (copy_loop m n a b) m n same
      (λ i j row col. copy_loop-Placed a i j m n b row col),
  is_transpose_of eq a (trans_tmp m n a s).b m n same
      (λ i j row col. trans_tmp-Placed a i j m n s row col),
)
