-- ===== src/Mm/Contract/Disjoint.antt =====
-- The payloads of a client after any sequence of calls.
use computer_systems_project.Base.{ℕ, ◌+◌, ◌-◌, ◌≡◌, List, ◌∷◌, ◌++◌}
use computer_systems_project.Mm.{get_payload_size, payload_to_header}
use computer_systems_project.Mm.Alloc.{Allocator}
use computer_systems_project.Mm.Contract.{Ordered}
use computer_systems_project.Mm.Contract.Held.{payloads}

-- Blocks for the addresses `live`: in increasing order without overlap, each of at least 16 bytes, inside
-- the heap, with the payload that `get_payload_size` says.
pub record Disjoint (s : Allocator) (live : List ℕ) : Type 0 where
  pub blocks : List (ℕ × ℕ)
  pub held : payloads blocks ≡ live
  pub ordered : Ordered s.heap_start (s.memlib.mem_brk - 8) blocks
  pub sizes :
      (l r : List (ℕ × ℕ)) (x n : ℕ)
      → blocks ≡ l ++ (x, n) ∷ r
      → get_payload_size s.heap.mem (payload_to_header (x + 8)) ≡ n - 8
