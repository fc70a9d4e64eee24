-- ===== src/Trans/Blocks.antt =====
-- The two blocked transposes of trans.c.
use computer_systems_project.Base.{
  ℕ, ◌+◌, ◌-◌, ◌*◌, ◌/◌, ◌%◌, ◌<◌, ◌≤◌, ◌≡◌, ◌≢◌, refl, ap, subst, ◌∙◌, sym, true, false, ◌==◌,
  ==_self, Bool-cases, inl, inr, arith, ℕ_discrete,
}
use computer_systems_project.Trans.{
  for_loop, block_size, Matrix, WithTmp, Diagonal, write, cell_32, row_32, transpose_32x32,
  cell_1024, row_1024, transpose_1024x1024,
}
use computer_systems_project.Trans.Loops.{for_loop-keeps, for_loop-at, for_blocks-establishes}
use computer_systems_project.Trans.Correct.{
  Placed, write-Placed, write-Placed_here, write-Placed_at,
}

module _ {V : Type 0} (a : Matrix V) (i j : ℕ) where
  abbrev block_row : ℕ
  block_row = i / block_size * block_size

  abbrev block_col : ℕ
  block_col = j / block_size * block_size

  -- `transpose_32x32`
  abbrev Placed32 : Diagonal V → Type 0
  Placed32 s = Placed a i j s.b

  cell_32-Placed : (k l : ℕ) (s : Diagonal V) → Placed32 s → Placed32 (cell_32 a k l s)
  unfolding cell_32
  cell_32-Placed k l s h = elim (Bool-cases (k == l)) [
    | inl same ↦ rw same h
    | inr other ↦ rw other (write-Placed a i j s.b l k h)
  ]

  cells_32-Placed :
      (low k : ℕ) (s : Diagonal V)
      → Placed32 s
      → Placed32 (for_loop block_size low 1 (cell_32 a k) s)
  cells_32-Placed low k s h =
      for_loop-keeps Placed32 1 (cell_32 a k) block_size low s
        (λ x t lt h'. cell_32-Placed k (low + x * 1) t h') h

  row_32-Placed : (r c k : ℕ) (s : Diagonal V) → Placed32 s → Placed32 (row_32 a r c k s)
  unfolding row_32
  row_32-Placed r c k s h =
      let s' = for_loop block_size c 1 (cell_32 a k) s in
      elim (Bool-cases (r == c)) [
        | inl diagonal ↦ rw diagonal (write-Placed a i j s'.b s'.jj s'.ii (cells_32-Placed c k s h))
        | inr other ↦ rw other (cells_32-Placed c k s h)
      ]

  -- Off the diagonal the inner loop puts the entry in place.
  cells_32_off :
      (s : Diagonal V) → i ≢ j → Placed32 (for_loop block_size block_col 1 (cell_32 a i) s)
  unfolding cell_32
  cells_32_off s other =
      for_loop-at Placed32 1 (cell_32 a i) block_size block_col (j % block_size) j s (omega arith)
        (omega arith) (λ x t lt h. cell_32-Placed i (block_col + x * 1) t h)
        (λ t. let e : (i == j) ≡ false = ground arith in rw e (write-Placed_here a i j t.b))

  -- On the diagonal it leaves the two indices at the row.
  abbrev AtRow : Diagonal V → Type 0
  AtRow s = (s.ii ≡ i) × (s.jj ≡ i)

  cells_32_on : (s : Diagonal V) → AtRow (for_loop block_size block_row 1 (cell_32 a i) s)
  unfolding cell_32
  cells_32_on s =
      for_loop-at AtRow 1 (cell_32 a i) block_size block_row (i % block_size) i s (omega arith)
        (omega arith)
        (λ x t lt h. elim (Bool-cases (i == block_row + x * 1)) [
          | inl same ↦ rw same (refl, ground (arith, same))
          | inr other ↦ rw other h
        ])
        (λ t. rw (==_self i) (refl, refl))

  row_32_makes : (s : Diagonal V) → Placed32 (row_32 a block_row block_col i s)
  unfolding row_32
  row_32_makes s = elim (ℕ_discrete i j) [
    | no other ↦ elim (Bool-cases (block_row == block_col)) [
      | inl diagonal ↦
          let s' = for_loop block_size block_col 1 (cell_32 a i) s in
          rw diagonal (write-Placed a i j s'.b s'.jj s'.ii (cells_32_off s other))
      | inr off ↦ rw off (cells_32_off s other)
    ]
    | yes same ↦
        let e : block_row ≡ block_col = ap (λ x. x / block_size * block_size) same in
        let s' = for_loop block_size block_col 1 (cell_32 a i) s in
        let at = subst (λ x. AtRow (for_loop block_size x 1 (cell_32 a i) s)) e (cells_32_on s) in
        let diagonal : (block_row == block_col) ≡ true = ground (arith, e) in
        rw diagonal (write-Placed_at a i j s'.b s'.jj s'.ii (at.1 ∙ same) at.0)
  ]

  pub transpose_32x32-Placed :
      (m n : ℕ) (s : Diagonal V) → i < n → j < m → Placed32 (transpose_32x32 m n a s)
  unfolding transpose_32x32
  transpose_32x32-Placed m n s in_row in_col =
      for_blocks-establishes Placed32 (row_32 a) (λ r c k t low high h. row_32-Placed r c k t h) m n
        i j s in_row in_col row_32_makes

  -- `transpose_1024x1024`
  abbrev Placed1024 : WithTmp V → Type 0
  Placed1024 s = Placed a i j s.b

  -- The temporary array has the diagonal entry of row `k` of the block from row `r` on.
  abbrev Saved : (r k : ℕ) → WithTmp V → Type 0
  Saved r k s = s.tmp (k - r) ≡ a k k

  cell_1024-Placed : (r k l : ℕ) (s : WithTmp V) → Placed1024 s → Placed1024 (cell_1024 a r k l s)
  unfolding cell_1024
  cell_1024-Placed r k l s h = elim (Bool-cases (k == l)) [
    | inl same ↦ rw same h
    | inr other ↦ rw other (write-Placed a i j s.b l k h)
  ]

  cells_1024-Placed :
      (r low k : ℕ) (s : WithTmp V)
      → Placed1024 s
      → Placed1024 (for_loop block_size low 1 (cell_1024 a r k) s)
  cells_1024-Placed r low k s h =
      for_loop-keeps Placed1024 1 (cell_1024 a r k) block_size low s
        (λ x t lt h'. cell_1024-Placed r k (low + x * 1) t h') h

  cell_1024-Saved : (r k l : ℕ) (s : WithTmp V) → Saved r k s → Saved r k (cell_1024 a r k l s)
  unfolding cell_1024
  cell_1024-Saved r k l s h = elim (ℕ_discrete k l) [
    | yes same ↦ rw (same, ==_self l, ==_self (l - r)) refl
    | no other ↦ let e : (k == l) ≡ false = ground arith in rw e h
  ]

  cells_1024-Saved :
      (r k : ℕ) (s : WithTmp V)
      → r ≤ k
      → k < r + block_size
      → Saved r k (for_loop block_size r 1 (cell_1024 a r k) s)
  unfolding cell_1024
  cells_1024-Saved r k s low high =
      for_loop-at (Saved r k) 1 (cell_1024 a r k) block_size r (k - r) k s (omega arith)
        (omega arith) (λ x t lt h. cell_1024-Saved r k (r + x * 1) t h)
        (λ t. rw (==_self k, ==_self (k - r)) refl)

  restored :
      (r k : ℕ) (s : WithTmp V)
      → Saved r k s
      → write s.b k k (s.tmp (k - r)) ≡ write s.b k k (a k k)
  restored r k s h = ap (write s.b k k) h

  -- The write behind the inner loop is of the entry that belongs there.
  row_1024_after :
      (r c k : ℕ) (s : WithTmp V)
      → r ≤ k
      → k < r + block_size
      → Placed1024 (for_loop block_size c 1 (cell_1024 a r k) s)
      → Placed1024 (row_1024 a r c k s)
  unfolding row_1024
  row_1024_after r c k s low high h = elim (ℕ_discrete r c) [
    | no other ↦ let e : (r == c) ≡ false = ground arith in rw e h
    | yes same ↦
        let s' = for_loop block_size c 1 (cell_1024 a r k) s in
        let saved : Saved r k s' =
          subst (λ x. Saved r k (for_loop block_size x 1 (cell_1024 a r k) s)) same
            (cells_1024-Saved r k s low high) in
        let diagonal : (r == c) ≡ true = ground arith in
        rw diagonal
          (subst (Placed a i j) (sym (restored r k s' saved)) (write-Placed a i j s'.b k k h))
  ]

  row_1024-Placed :
      (r c k : ℕ) (s : WithTmp V)
      → r ≤ k
      → k < r + block_size
      → Placed1024 s
      → Placed1024 (row_1024 a r c k s)
  row_1024-Placed r c k s low high h = row_1024_after r c k s low high (cells_1024-Placed r c k s h)

  row_1024_off :
      (s : WithTmp V)
      → i ≢ j
      → Placed1024 (for_loop block_size block_col 1 (cell_1024 a block_row i) s)
  unfolding cell_1024
  row_1024_off s other =
      for_loop-at Placed1024 1 (cell_1024 a block_row i) block_size block_col (j % block_size) j s
        (omega arith) (omega arith)
        (λ x t lt h. cell_1024-Placed block_row i (block_col + x * 1) t h)
        (λ t. let e : (i == j) ≡ false = ground arith in rw e (write-Placed_here a i j t.b))

  row_1024_on : (s : WithTmp V) → i ≡ j → Placed1024 (row_1024 a block_row block_col i s)
  unfolding row_1024
  row_1024_on s same =
      let e : block_row ≡ block_col = ap (λ x. x / block_size * block_size) same in
      let s' = for_loop block_size block_col 1 (cell_1024 a block_row i) s in
      let saved : Saved block_row i s' =
        subst (λ x. Saved block_row i (for_loop block_size x 1 (cell_1024 a block_row i) s)) e
          (cells_1024-Saved block_row i s (omega arith) (omega arith)) in
      let diagonal : (block_row == block_col) ≡ true = ground (arith, e) in
      rw diagonal (
        subst (Placed a i j) (sym (restored block_row i s' saved))
          (write-Placed_at a i j s'.b i i same refl))

  row_1024_makes : (s : WithTmp V) → Placed1024 (row_1024 a block_row block_col i s)
  row_1024_makes s = elim (ℕ_discrete i j) [
    | no other ↦
        row_1024_after block_row block_col i s (omega arith) (omega arith) (row_1024_off s other)
    | yes same ↦ row_1024_on s same
  ]

  pub transpose_1024x1024-Placed :
      (m n : ℕ) (s : WithTmp V) → i < n → j < m → Placed1024 (transpose_1024x1024 m n a s)
  unfolding transpose_1024x1024
  transpose_1024x1024-Placed m n s in_row in_col =
      for_blocks-establishes Placed1024 (row_1024 a) row_1024-Placed m n i j s in_row in_col
        row_1024_makes
