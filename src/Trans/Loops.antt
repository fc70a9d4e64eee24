-- ===== src/Trans/Loops.antt =====
-- What a counted loop establishes.
use computer_systems_project.Base.{
  ℕ, zero, suc, ◌+◌, ◌*◌, ◌/◌, ◌%◌, ◌≤◌, ◌<◌, ◌≡◌, subst, sym, arith,
}
use computer_systems_project.Trans.{for_loop, rounds, block_size, for_blocks}

module _ {S : Type 0} (P : S → Type 0) (step : ℕ) (body : ℕ → S → S) where
  -- What every round keeps, the loop keeps.
  pub for_loop-keeps :
      (n low : ℕ) (s : S)
      → ((k : ℕ) (t : S) → k < n → P t → P (body (low + k * step) t))
      → P s
      → P (for_loop n low step body s)
  unfolding for_loop
  for_loop-keeps zero low s keeps h = h
  for_loop-keeps (suc n) low s keeps h =
      for_loop-keeps n (low + step) (body low s)
        (λ k t lt h'.
          let e : low + suc k * step ≡ low + step + k * step = omega arith in
          subst (λ i. P (body i t)) e (keeps (suc k) t (omega arith) h'))
        (let e : low + 0 * step ≡ low = omega arith in
          subst (λ i. P (body i s)) e (keeps 0 s (omega arith) h))

  -- What one round establishes and every round keeps holds after the loop.
  pub for_loop-establishes :
      (n low k : ℕ) (s : S)
      → k < n
      → ((j : ℕ) (t : S) → j < n → P t → P (body (low + j * step) t))
      → ((t : S) → P (body (low + k * step) t))
      → P (for_loop n low step body s)
  unfolding for_loop
  for_loop-establishes zero low k s lt keeps makes = absurd (omega arith)
  for_loop-establishes (suc n) low zero s lt keeps makes =
      for_loop-keeps n (low + step) (body low s)
        (λ j t lt' h.
          let e : low + suc j * step ≡ low + step + j * step = omega arith in
          subst (λ i. P (body i t)) e (keeps (suc j) t (omega arith) h))
        (let e : low + 0 * step ≡ low = omega arith in subst (λ i. P (body i s)) e (makes s))
  for_loop-establishes (suc n) low (suc k) s lt keeps makes =
      for_loop-establishes n (low + step) k (body low s) (omega arith)
        (λ j t lt' h.
          let e : low + suc j * step ≡ low + step + j * step = omega arith in
          subst (λ i. P (body i t)) e (keeps (suc j) t (omega arith) h))
        (λ t.
          let e : low + suc k * step ≡ low + step + k * step = omega arith in
          subst (λ i. P (body i t)) e (makes t))

-- The same, with the index of the round named.
pub for_loop-at :
    {S : Type 0} (P : S → Type 0) (step : ℕ) (body : ℕ → S → S) (n low k i : ℕ) (s : S)
    → k < n
    → low + k * step ≡ i
    → ((j : ℕ) (t : S) → j < n → P t → P (body (low + j * step) t))
    → ((t : S) → P (body i t))
    → P (for_loop n low step body s)
for_loop-at P step body n low k i s lt e keeps makes =
    for_loop-establishes P step body n low k s lt keeps
      (λ t. subst (λ x. P (body x t)) (sym e) (makes t))

-- What the row that meets an entry's block establishes, and every row keeps, holds after the blocks.
module _ {S : Type 0} (P : S → Type 0) (row : (block_row block_col i : ℕ) → S → S)
    (keeps : (r c i : ℕ) (s : S) → r ≤ i → i < r + block_size → P s → P (row r c i s)) where
  keeps_block : (r c : ℕ) (s : S) → P s → P (for_loop block_size r 1 (row r c) s)
  keeps_block r c s h =
      for_loop-keeps P 1 (row r c) block_size r s
        (λ z t lt h'. keeps r c (r + z * 1) t (omega arith) (omega arith) h') h

  keeps_block_row :
      (m r : ℕ) (s : S)
      → P s
      → P (
          for_loop
            (rounds m block_size)
            0
            block_size
            (λ c s. for_loop block_size r 1 (row r c) s)
            s)
  keeps_block_row m r s h =
      for_loop-keeps P block_size (λ c s. for_loop block_size r 1 (row r c) s) (rounds m block_size)
        0 s (λ y t lt h'. keeps_block r (0 + y * block_size) t h') h

  pub for_blocks-establishes :
      (m n i j : ℕ) (s : S)
      → i < n
      → j < m
      → ((t : S) → P (row (i / block_size * block_size) (j / block_size * block_size) i t))
      → P (for_blocks m n row s)
  unfolding for_blocks
  for_blocks-establishes m n i j s in_row in_col makes =
      for_loop-at P block_size
        (λ r s.
          for_loop (rounds m block_size) 0 block_size (λ c s. for_loop block_size r 1 (row r c) s)
            s)
        (rounds n block_size) 0 (i / block_size) r s (omega arith) (omega arith)
        (λ x t lt h. keeps_block_row m (0 + x * block_size) t h)
        (λ t.
          for_loop-at P block_size (λ c s. for_loop block_size r 1 (row r c) s)
            (rounds m block_size) 0 (j / block_size) c t (omega arith) (omega arith)
            (λ y t' lt h. keeps_block r (0 + y * block_size) t' h)
            (λ t'.
              for_loop-at P 1 (row r c) block_size r (i % block_size) i t' (omega arith)
                (omega arith) (λ z u lt h. keeps r c (r + z * 1) u (omega arith) (omega arith) h)
                makes))
    where
      r : ℕ
      r = i / block_size * block_size

      c : ℕ
      c = j / block_size * block_size
