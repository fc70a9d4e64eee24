-- ===== src/Trans/Correct.antt =====
-- The transposes of trans.c put the entry of row `i` and column `j` into row `j` and column `i`.
use computer_systems_project.Base.{ℕ, ◌+◌, ◌*◌, ◌<◌, ◌≡◌, refl, ==_self, arith, ℕ_discrete}
use computer_systems_project.Trans.{for_loop, Matrix, write, copy_loop}
use computer_systems_project.Trans.Loops.{for_loop-keeps, for_loop-at}

module _ {V : Type 0} (a : Matrix V) (i j : ℕ) where
  -- The entry is in place.
  abbrev pub Placed : Matrix V → Type 0
  Placed b = b j i ≡ a i j

  -- A write of the entry that belongs there keeps and establishes this.
  pub write-Placed : (b : Matrix V) (row col : ℕ) → Placed b → Placed (write b row col (a col row))
  unfolding write
  write-Placed b row col h = elim (ℕ_discrete j row) [
    | no other ↦ ground (arith, h)
    | yes same ↦ elim (ℕ_discrete i col) [
      | no other ↦ ground (arith, h)
      | yes same' ↦ rw (same, same', ==_self row, ==_self col) refl
    ]
  ]

  pub write-Placed_here : (b : Matrix V) → Placed (write b j i (a i j))
  unfolding write
  write-Placed_here b = rw (==_self j, ==_self i) refl

  pub write-Placed_at :
      (b : Matrix V) (row col : ℕ) → row ≡ j → col ≡ i → Placed (write b row col (a col row))
  write-Placed_at b row col e f = rw (e, f) (write-Placed_here b)

  copy_row-Placed :
      (m k : ℕ) (b : Matrix V) → Placed b → Placed (for_loop m 0 1 (λ j b. write b j k (a k j)) b)
  copy_row-Placed m k b h =
      for_loop-keeps Placed 1 (λ j b. write b j k (a k j)) m 0 b
        (λ x t lt h'. write-Placed t (0 + x * 1) k h') h

  -- The plain loops of `trans_basic` and of `transpose_submit` for other sizes.
  pub copy_loop-Placed : (m n : ℕ) (b : Matrix V) → i < n → j < m → Placed (copy_loop m n a b)
  unfolding copy_loop
  copy_loop-Placed m n b row col =
      for_loop-at Placed 1 (λ i b. for_loop m 0 1 (λ j b. write b j i (a i j)) b) n 0 i i b row
        (omega arith) (λ k t lt h. copy_row-Placed m (0 + k * 1) t h)
        (λ t.
          for_loop-at Placed 1 (λ j b. write b j i (a i j)) m 0 j j t col (omega arith)
            (λ k t' lt h. write-Placed t' (0 + k * 1) i h) write-Placed_here)
