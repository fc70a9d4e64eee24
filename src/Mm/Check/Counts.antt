-- ===== src/Mm/Check/Counts.antt =====
-- What the heap checker counts.
use computer_systems_project.Base.{
  ℕ, zero, suc, ◌+◌, ◌*◌, ◌<◌, ◌≤◌, ◌≡◌, refl, sym, ap, ◌∙◌, Bool, true, false, not, ◌==◌, ==_self,
  if◌then◌else◌, List, [], ◌∷◌, length, arith,
}
use computer_systems_project.Mm.{
  Memory, min_block_size, get_size, get_alloc, find_next, extract_size,
}
use computer_systems_project.Mm.Lists.{Heap}
use computer_systems_project.Mm.Lists.Chain.{head_of, Chain}
use computer_systems_project.Mm.Alloc.{Allocator}
use computer_systems_project.Mm.Layout.{Block, end_of, Part, count_listed, total, Sound}
use computer_systems_project.Mm.Layout.Members.{length-le_total}
use computer_systems_project.Mm.Layout.Merge.{Tidy}
use computer_systems_project.Mm.Contract.{Represents}
use computer_systems_project.Mm.Contract.Space.{few}
use computer_systems_project.Mm.Check.{count_free, count_list, count_lists, check_free_block_counts}

count_list-length :
    (fuel : ℕ) (mem : Memory) (both : Bool) (prev : ℕ) (bs : List ℕ)
    → length bs < fuel
    → Chain mem both prev bs
    → count_list fuel (head_of bs) mem ≡ length bs
unfolding count_list
count_list-length zero mem both prev bs lt c = absurd (omega (arith, lt))
count_list-length (suc k) mem both prev [] lt c = refl
count_list-length (suc k) mem both prev (b ∷ bs) lt c =
    let nz : (b == 0) ≡ false = ground (arith, c.0) in
    rw nz (
      ap (λ t. 1 + count_list k t mem) c.1
      ∙ ap (λ t. 1 + t) (count_list-length k mem both b bs (omega (arith, lt)) c.3)
      ∙ omega arith)

-- The lists from a class on, from the back.
abbrev total_from : (n c : ℕ) → (ℕ → List ℕ) → ℕ
total_from zero c lists = 0
total_from (suc n) c lists = length (lists c) + total_from n (c + 1) lists

count_lists-total :
    (rounds : ℕ) (h : Heap) (p : ℕ) (bs : List Block) (lists : ℕ → List ℕ)
    → Sound h p bs lists
    → count_listed bs < rounds
    → (n c : ℕ) → c + n ≤ 14
    → count_lists rounds n c h ≡ total_from n c lists
unfolding count_lists
count_lists-total rounds h p bs lists s enough zero c le = refl
count_lists-total rounds h p bs lists s enough (suc n) c le =
    let lt : c < 14 = omega (arith, le) in
    let here : count_list rounds (h.seg_list c) h.mem ≡ length (lists c) =
      ap (λ t. count_list rounds t h.mem) (s.first c lt)
      ∙ count_list-length rounds h.mem (not (c == 0)) 0 (lists c)
          (omega (arith, length-le_total 14 lists c lt, s.counted, enough)) (s.chain c lt) in
    omega
      (arith, here, count_lists-total rounds h p bs lists s enough n (c + 1) (omega (arith, le)))

-- In a tidy heap the free blocks are the listed ones.
count_free-listed :
    (fuel : ℕ) (mem : Memory) (p : ℕ) (pm pa ta : Bool) (bs : List Block)
    → Part mem p pm pa bs
    → Tidy ta bs
    → extract_size (mem (end_of p bs)) ≡ 0
    → end_of p bs < p + 16 * fuel
    → count_free fuel p mem ≡ count_listed bs
unfolding count_free get_size get_alloc find_next
count_free-listed zero mem p pm pa ta bs h t e lt = absurd (omega (arith, lt, before p bs))
  where
    before : (p : ℕ) (bs : List Block) → p ≤ end_of p bs
    before p [] = omega arith
    before p (b ∷ bs) = omega (arith, before (p + b.size) bs)
count_free-listed (suc k) mem p pm pa ta [] h t e lt =
    let z : (extract_size (mem p) == 0) ≡ true = ground (arith, e) in rw z refl
count_free-listed (suc k) mem p pm pa ta (b ∷ bs) h t e lt =
    let size = h.0.header.size_is in
    let nz : (extract_size (mem p) == 0) ≡ false = ground (arith, size, h.0.least) in
    let rest : count_free k (p + extract_size (mem p)) mem ≡ count_listed bs =
      ap (λ n. count_free k (p + n) mem) size
      ∙ count_free-listed k mem (p + b.size) (b.size == min_block_size) b.alloc b.alloc bs h.1 t.2 e
          (omega (arith, lt, h.0.least)) in
    rw (nz, h.0.header.alloc_is)
      (by_flag b.alloc b.listed t.0 (count_free k (p + extract_size (mem p)) mem) rest)
  where
    by_flag :
        (a l : Bool)
        → l ≡ not a
        → (n : ℕ) → n ≡ count_listed bs
        → (if a then 0 else 1) + n ≡ (if l then 1 else 0) + count_listed bs
    by_flag true l f n e = rw f (omega (arith, e))
    by_flag false l f n e = rw f (omega (arith, e))

-- On a heap that has the allocated blocks of a list, the heap checker counts as many free blocks as there are
-- in the lists.
pub check_free_block_counts_holds :
    (rounds : ℕ) (s : Allocator) (u : List (ℕ × ℕ))
    → Represents rounds s u
    → check_free_block_counts rounds s ≡ true
unfolding check_free_block_counts
check_free_block_counts_holds rounds s u rep =
    let bs = rep.0 in
    let ready = rep.1 in
    let space : end_of s.heap_start bs < s.heap_start + 16 * rounds =
      omega (arith, ready.at_brk, ready.in_range, ready.enough) in
    let f =
      count_free-listed rounds s.heap.mem s.heap_start false true true bs ready.sound.part
        ready.tidy ready.sound.epilogue.size_is space in
    let l =
      count_lists-total rounds s.heap s.heap_start bs ready.lists ready.sound
        (few rounds s bs ready) 14 0 (omega arith) in
    let same : total_from 14 0 ready.lists ≡ total 14 ready.lists = omega arith in
    let e : count_free rounds s.heap_start s.heap.mem ≡ count_lists rounds 14 0 s.heap =
      f ∙ sym ready.sound.counted ∙ sym same ∙ sym l in
    ap (λ t. t == count_lists rounds 14 0 s.heap) e ∙ ==_self (count_lists rounds 14 0 s.heap)
