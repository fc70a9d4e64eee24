-- ===== src/Mm/Check.antt =====
-- The heap checker of lab5-malloclab5-qinlinj/mm.c.
--
-- `rounds` bounds the walks through the heap and through a free list; out of them a walk ends where it
-- is. The messages are left out.
pub mod Counts
mod Tests
use computer_systems_project.Base.{
  ℕ, zero, suc, ◌+◌, ◌%◌, Bool, true, false, not, ◌&&◌, ◌||◌, Option, none, some, ◌==◌, ltb,
  if◌then◌else◌,
}
use computer_systems_project.Mm.{
  Memory, dsize, min_block_size, max_seg_list_length, extract_size, extract_alloc, get_size,
  get_alloc, header_to_footer, find_next, find_prev_footer,
}
use computer_systems_project.Mm.Lists.{Heap, next_at}
use computer_systems_project.Mm.Memlib.{Memlib, mem_heap_lo, mem_heap_hi}
use computer_systems_project.Mm.Alloc.{Allocator}

pub same_flag : Bool → Bool → Bool
same_flag a b = if a then b else not b

pub check_header_footer : (block : ℕ) → Memory → Bool
unfolding get_size get_alloc header_to_footer extract_size extract_alloc same_flag
check_header_footer block mem =
    let footer_size = extract_size (mem (header_to_footer mem block)) in
    (get_size mem block == footer_size)
    && same_flag (get_alloc mem block) (extract_alloc (mem (header_to_footer mem block)))

-- The loop of `check_free_list` through one list.
pub check_list : (fuel temp : ℕ) → Memlib → Memory → Bool
unfolding mem_heap_hi mem_heap_lo
check_list zero temp l mem = true
check_list (suc k) temp l mem =
    let next = mem (next_at temp) in
    let rest = check_list k next l mem in
    if temp == 0
    then true
    else if ltb (mem_heap_hi l) next || ltb next (mem_heap_lo l)
    then false
    else rest

module _ (rounds : ℕ) where
  -- The `n` lists from a class on.
  pub check_lists : (n c : ℕ) → Memlib → Heap → Bool
  unfolding check_list
  check_lists zero c l h = true
  check_lists (suc n) c l h = check_list rounds (h.seg_list c) l h.mem && check_lists n (c + 1) l h

  pub check_free_list : Memlib → Heap → Bool
  unfolding check_lists
  check_free_list l h = check_lists max_seg_list_length 0 l h

-- The free blocks from a block to the epilogue.
pub count_free : (fuel block : ℕ) → Memory → ℕ
unfolding get_size get_alloc find_next
count_free zero block mem = 0
count_free (suc k) block mem =
    let rest = count_free k (find_next mem block) mem in
    if get_size mem block == 0 then 0 else (if get_alloc mem block then 0 else 1) + rest

-- The blocks of a list, and of `n` lists from a class on.
pub count_list : (fuel temp : ℕ) → Memory → ℕ
count_list zero temp mem = 0
count_list (suc k) temp mem =
    let rest = count_list k (mem (next_at temp)) mem in if temp == 0 then 0 else 1 + rest

pub count_lists : (rounds n c : ℕ) → Heap → ℕ
unfolding count_list
count_lists rounds zero c h = 0
count_lists rounds (suc n) c h =
    count_list rounds (h.seg_list c) h.mem + count_lists rounds n (c + 1) h

pub check_free_block_counts : (rounds : ℕ) → Allocator → Bool
unfolding count_free count_lists
check_free_block_counts rounds s =
    count_free rounds s.heap_start s.heap.mem == count_lists rounds max_seg_list_length 0 s.heap

-- The walk through the heap; `none` on an error, else the epilogue.
pub check_blocks : (fuel block : ℕ) → (pre_alloc_flag : Bool) → Memory → Option ℕ
unfolding get_size get_alloc find_next check_header_footer
check_blocks zero block pre_alloc_flag mem = some block
check_blocks (suc k) block pre_alloc_flag mem =
    let size = get_size mem block in
    let rest = check_blocks k (find_next mem block) (get_alloc mem block) mem in
    if size == 0
    then some block
    else if not (size % dsize == 0)
        || (not (size == min_block_size) && not (check_header_footer block mem))
    then none
    else if not (get_alloc mem block) && not pre_alloc_flag
    then none
    else rest

check_end : (block : ℕ) → (rounds : ℕ) → Allocator → Bool
unfolding extract_size extract_alloc check_free_list check_free_block_counts
check_end block rounds s =
    if not (extract_size (s.heap.mem block) == 0) || not (extract_alloc (s.heap.mem block))
    then false
    else check_free_list rounds s.memlib s.heap && check_free_block_counts rounds s

pub mm_checkheap : (rounds : ℕ) → Allocator → Bool
unfolding extract_size extract_alloc find_prev_footer check_blocks check_end
mm_checkheap rounds s =
    let prologue_footer = s.heap.mem (find_prev_footer s.heap_start) in
    if not (extract_size prologue_footer == 0) || not (extract_alloc prologue_footer)
    then false
    else walked (check_blocks rounds s.heap_start true s.heap.mem)
  where
    walked : Option ℕ → Bool
    walked none = false
    walked (some block) = check_end block rounds s
