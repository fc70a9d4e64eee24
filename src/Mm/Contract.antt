-- ===== src/Mm/Contract.antt =====
-- What the allocator of lab5-malloclab5-qinlinj/mm.c promises: a list of allocated blocks.
mod Tests
pub mod Search
pub mod Places
pub mod Entry
pub mod Held
pub mod Space
pub mod Obtain
pub mod Serve
pub mod Release
pub mod Start
pub mod Client
pub mod Bytes
pub mod Calloc
pub mod Realloc
pub mod Calls
pub mod Disjoint
pub mod Refuse
use computer_systems_project.Base.{
  ℕ, ◌+◌, ◌-◌, ◌*◌, ◌%◌, ◌^◌, ◌<◌, ◌≤◌, ◌≡◌, ◌≢◌, ◌⊎◌, Bool, true, List, [], ◌∷◌, ◌++◌,
}
use computer_systems_project.Mm.Alloc.{Allocator}
use computer_systems_project.Mm.Layout.{Block, end_of, Sound}
use computer_systems_project.Mm.Layout.Merge.{allocated, Tidy}

-- The heap is sound, each free block is in a list and no two of them are neighbours; it ends at the
-- break, and the rounds of a walk through a list are enough for the space that there can be.
pub record Ready (rounds : ℕ) (s : Allocator) (bs : List Block) : Type 0 where
  pub lists : ℕ → List ℕ
  pub sound : Sound s.heap s.heap_start bs lists
  pub tidy : Tidy true bs
  pub at_brk : end_of s.heap_start bs + 8 ≡ s.memlib.mem_brk
  pub in_range : s.memlib.mem_brk ≤ s.memlib.mem_max_addr
  pub bounded : s.memlib.mem_max_addr < 2 ^ 63
  pub enough : s.memlib.mem_max_addr < 16 * rounds

-- The allocator has the allocated blocks `u`, by address and size.
abbrev pub Represents : (rounds : ℕ) → Allocator → List (ℕ × ℕ) → Type 0
Represents rounds s u = (bs : List Block) × Ready rounds s bs × (allocated s.heap_start bs ≡ u)

-- A word inside a block of the list, behind its header.
abbrev pub InUse : List (ℕ × ℕ) → ℕ → Type 0
InUse [] y = ⊥
InUse ((x, n) ∷ u) y = ((x < y) × (y < x + n)) ⊎ InUse u y

-- The blocks follow one another from an address on, between `low` and `high`.
abbrev pub Ordered : (low high : ℕ) → List (ℕ × ℕ) → Type 0
Ordered low high [] = low ≤ high
Ordered low high ((x, n) ∷ u) = (low ≤ x) × (16 ≤ n) × Ordered (x + n) high u

-- `malloc` has served a request: a block of at least `size` bytes behind its header is between the
-- others, and what is in the others is kept.
pub record Served (rounds : ℕ) (s s' : Allocator) (size r : ℕ) (u : List (ℕ × ℕ)) : Type 0 where
  pub lefts : List (ℕ × ℕ)
  pub rights : List (ℕ × ℕ)
  pub n : ℕ
  pub fits : size + 8 ≤ n
  pub aligned : r % 16 ≡ 0
  pub was : u ≡ lefts ++ rights
  pub now : Represents rounds s' (lefts ++ (r - 8, n) ∷ rights)
  pub kept : (y : ℕ) → InUse u y → s'.heap.mem y ≡ s.heap.mem y
