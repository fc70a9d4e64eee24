-- ===== src/Mm/Layout.antt =====
-- The blocks of the heap as a list: what the memory of lab5-malloclab5-qinlinj/mm.c holds for them.
pub mod Outside
pub mod Blocks
pub mod Members
pub mod Frame
pub mod Relist
pub mod Moves
pub mod Replace
pub mod Writes
pub mod Merge
pub mod Coalesce
pub mod Cases
pub mod Joins
pub mod Combine
pub mod Split
pub mod Divide
pub mod Take
pub mod Fit
pub mod Grow
use computer_systems_project.Base.{
  ℕ, zero, suc, ◌+◌, ◌-◌, ◌%◌, ◌<◌, ◌≤◌, ◌≡◌, ◌≢◌, ◌⊎◌, Bool, true, false, not, ◌==◌, if◌then◌else◌,
  List, [], ◌∷◌, ◌++◌, length, arith,
}
use computer_systems_project.Mm.{Memory, min_block_size, extract_size, find_seg_list_class}
use computer_systems_project.Mm.Words.{Says}
use computer_systems_project.Mm.Lists.{Heap}
use computer_systems_project.Mm.Lists.Chain.{head_of, NotIn, Distinct, Chain}

-- `listed` says that the block is in a free list.
pub record Block : Type 0 where
  pub size : ℕ
  pub alloc : Bool
  pub listed : Bool

-- The address behind the blocks, for the address of the first.
abbrev pub end_of : ℕ → List Block → ℕ
end_of p [] = p
end_of p (b ∷ bs) = end_of (p + b.size) bs

-- The two flags of the block behind, for those of the first.
abbrev pub min_after : Bool → List Block → Bool
min_after pm [] = pm
min_after pm (b ∷ bs) = min_after (b.size == min_block_size) bs

abbrev pub alloc_after : Bool → List Block → Bool
alloc_after pa [] = pa
alloc_after pa (b ∷ bs) = alloc_after b.alloc bs

-- The words of one block.
pub record Holds (mem : Memory) (p : ℕ) (pm pa : Bool) (b : Block) : Type 0 where
  pub aligned : b.size % 16 ≡ 0
  pub least : min_block_size ≤ b.size
  pub header : Says (mem p) b.size pm pa b.alloc
  pub footer :
      b.alloc ≡ false → min_block_size < b.size → extract_size (mem (p + b.size - 8)) ≡ b.size
  pub free : b.listed ≡ true → b.alloc ≡ false

abbrev pub Part : Memory → ℕ → Bool → Bool → List Block → Type 0
Part mem p pm pa [] = Unit
Part mem p pm pa (b ∷ bs) =
    Holds mem p pm pa b × Part mem (p + b.size) (b.size == min_block_size) b.alloc bs

-- The block `a` stands at address `x`.
abbrev pub At : ℕ → List Block → ℕ → Block → Type 0
At p [] x a = ⊥
At p (b ∷ bs) x a = ((x ≡ p) × (a ≡ b)) ⊎ At (p + b.size) bs x a

abbrev pub In : ℕ → List ℕ → Type 0
In x [] = ⊥
In x (b ∷ bs) = (x ≡ b) ⊎ In x bs

abbrev pub count_listed : List Block → ℕ
count_listed [] = 0
count_listed (b ∷ bs) = (if b.listed then 1 else 0) + count_listed bs

-- The blocks in the first `n` lists.
abbrev pub total : ℕ → (ℕ → List ℕ) → ℕ
total zero lists = 0
total (suc n) lists = length (lists n) + total n lists

-- The heap from `p` on consists of the blocks `bs` and an epilogue, and the free lists hold the listed
-- blocks, each in the list of its class.
pub record Sound (h : Heap) (p : ℕ) (bs : List Block) (lists : ℕ → List ℕ) : Type 0 where
  pub start : p % 16 ≡ 8
  pub part : Part h.mem p false true bs
  pub epilogue : Says (h.mem (end_of p bs)) 0 (min_after false bs) (alloc_after true bs) true
  pub first : (c : ℕ) → c < 14 → h.seg_list c ≡ head_of (lists c)
  pub chain : (c : ℕ) → c < 14 → Chain h.mem (not (c == 0)) 0 (lists c)
  pub distinct : (c : ℕ) → c < 14 → Distinct (lists c)
  pub in_block :
      (c x : ℕ)
      → c < 14
      → In x (lists c)
      → (a : Block) × At p bs x a × (a.listed ≡ true) × (find_seg_list_class a.size ≡ c)
  pub in_list :
      (x : ℕ) (a : Block)
      → At p bs x a
      → a.listed ≡ true
      → In x (lists (find_seg_list_class a.size))
  pub counted : total 14 lists ≡ count_listed bs
