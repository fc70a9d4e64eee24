-- ===== src/Mm/Alloc.antt =====
-- Allocation: coalescing, the heap's extension, splitting, `malloc`, `free`, `realloc` and `calloc` of
-- lab5-malloclab5-qinlinj/mm.c.
--
-- `rounds` bounds the walk through a free list. 0 is NULL.
use computer_systems_project.Mm.Copy.{memcpy, memset_zero}
use computer_systems_project.Base.{
  ℕ, zero, suc, ◌+◌, ◌-◌, ◌*◌, ◌/◌, ◌%◌, ◌^◌, Bool, true, false, not, Option, none, some, ◌==◌, ltb,
  leb, if◌then◌else◌,
}
use computer_systems_project.Mm.{
  Memory, wsize, dsize, min_block_size, max_seg_list_length, max, round_up, pack, store, get_size,
  get_alloc, get_pre_alloc, get_pre_min, get_payload_size, find_next, find_prev, find_min_prev,
  payload_to_header, header_to_payload, find_seg_list_class, write_block, write_epilogue,
  set_next_block_pre_alloc_pre_min,
}
use computer_systems_project.Mm.Lists.{Heap, next_at, insert_block_lifo, fix_free_list}
use computer_systems_project.Mm.Memlib.{System, Memlib, mem_sbrk}

abbrev pub chunksize : ℕ
chunksize = 4096

abbrev pub on_mem : (Memory → Memory) → Heap → Heap
on_mem f h = record h { mem = f h.mem }

-- The state of the allocator and of the simulated memory system.
pub record Allocator : Type 0 where
  pub heap : Heap
  pub heap_start : ℕ
  pub memlib : Memlib

-- Case 1: both neighbours are allocated.
unfoldable pub handle_case_1 : (block size : ℕ) → Heap → Heap
handle_case_1 block size h =
    if size == min_block_size
    then on_mem (set_next_block_pre_alloc_pre_min block true false) h
    else if ltb min_block_size size
    then on_mem (set_next_block_pre_alloc_pre_min block false false) h
    else h

-- The block of the header word, written as free, and the flags of the block behind it.
abbrev pub write_free : (block size : ℕ) → (pre_min pre_alloc : Bool) → Heap → Heap
write_free block size pre_min pre_alloc h =
    on_mem (set_next_block_pre_alloc_pre_min block false false)
      (on_mem (write_block block size pre_min pre_alloc false true) h)

-- The block in front of a block, where that is free.
unfoldable pub find_free_prev : Memory → (block : ℕ) → ℕ
find_free_prev mem block =
    if get_pre_min mem block then find_min_prev block else find_prev mem block

unfoldable pub take_whole : (block block_size : ℕ) → Heap → Heap
take_whole block block_size h =
    let h1 = on_mem (write_block block block_size (get_pre_min h.mem block) true true false) h in
    on_mem
      (set_next_block_pre_alloc_pre_min block (get_pre_min h1.mem (find_next h1.mem block)) true) h1

-- The walk through one list; 0 if no block fits.
unfoldable pub find_in_list : (fuel asize class_root : ℕ) → Memory → ℕ
find_in_list zero asize class_root mem = 0
find_in_list (suc k) asize class_root mem =
    let rest = find_in_list k asize (mem (next_at class_root)) mem in
    if class_root == 0 then 0 else if leb asize (get_size mem class_root) then class_root else rest

module _ (rounds : ℕ) where
  -- Case 2: the block behind is free.
  unfoldable pub handle_case_2 :
      (block next_block size : ℕ) → (pre_min pre_flag : Bool) → Heap → Heap
  handle_case_2 block next_block size pre_min pre_flag h =
      let h1 = fix_free_list rounds next_block h in
      write_free block (size + get_size h1.mem next_block) pre_min pre_flag h1

  -- Case 3: the block in front is free.
  unfoldable pub handle_case_3 : (pre_block size : ℕ) → (pre_min : Bool) → Heap → Heap
  handle_case_3 pre_block size pre_min h =
      let h1 = fix_free_list rounds pre_block h in
      write_free pre_block (size + get_size h1.mem pre_block) pre_min true h1

  -- Case 4: both are free.
  unfoldable pub handle_case_4 : (pre_block next_block size : ℕ) → (pre_min : Bool) → Heap → Heap
  handle_case_4 pre_block next_block size pre_min h =
      let h1 = fix_free_list rounds next_block (fix_free_list rounds pre_block h) in
      write_free pre_block (size + (get_size h1.mem pre_block + get_size h1.mem next_block)) pre_min
        true h1

  unfoldable pub coalesce_block : (block : ℕ) → Heap → ℕ × Heap
  coalesce_block block h =
      let pre_flag = get_pre_alloc h.mem block in
      let next_block = find_next h.mem block in
      let next_flag = get_alloc h.mem next_block in
      let size = get_size h.mem block in
      let pre_block = find_free_prev h.mem block in
      if pre_flag
      then (if next_flag then (block, insert_block_lifo block (handle_case_1 block size h)) else (
        block,
        insert_block_lifo block
            (handle_case_2 block next_block size (get_pre_min h.mem block) pre_flag h),
      ))
      else if next_flag
      then (
        pre_block,
        insert_block_lifo pre_block (handle_case_3 pre_block size (get_pre_min h.mem pre_block) h),
      )
      else (
        pre_block,
        insert_block_lifo pre_block
            (handle_case_4 pre_block next_block size (get_pre_min h.mem pre_block) h),
      )

  -- The free block is large enough for two.
  unfoldable pub split_two : (block asize block_size : ℕ) → Heap → Heap
  split_two block asize block_size h =
      let h1 = on_mem (write_block block asize (get_pre_min h.mem block) true true false) h in
      let next = find_next h1.mem block in
      let rest = block_size - asize in
      let h2 = on_mem (write_block next rest (asize == min_block_size) true false true) h1 in
      let h3 = on_mem (set_next_block_pre_alloc_pre_min next (rest == min_block_size) false) h2 in
      (coalesce_block next h3).1

  unfoldable pub split_block : (block asize : ℕ) → Heap → Heap
  split_block block asize h =
      let block_size = get_size h.mem block in
      let h1 = fix_free_list rounds block h in
      if leb min_block_size (block_size - asize)
      then split_two block asize block_size h1
      else take_whole block block_size h1

  -- The walk through `n` lists from a class on.
  unfoldable pub find_in_classes : (n c asize : ℕ) → Heap → ℕ
  find_in_classes zero c asize h = 0
  find_in_classes (suc n) c asize h =
      let rest = find_in_classes n (c + 1) asize h in
      let found = find_in_list rounds asize (h.seg_list c) h.mem in
      if found == 0 then rest else found

  unfoldable pub find_fit : (asize : ℕ) → Heap → ℕ
  find_fit asize h =
      let c = find_seg_list_class asize in find_in_classes (max_seg_list_length - c) c asize h

  -- The new space from the old epilogue on becomes a free block.
  unfoldable pub extended : (bp size : ℕ) → Heap → ℕ × Heap
  extended bp size h =
      let block = payload_to_header bp in
      let h1 =
        on_mem
          (write_block block size (get_pre_min h.mem block) (get_pre_alloc h.mem block) false true)
          h in
      let h2 = on_mem (write_epilogue (find_next h1.mem block)) h1 in coalesce_block block h2

  unfoldable pub free_block : (block : ℕ) → Heap → Heap
  free_block block h =
      let size = get_size h.mem block in
      let pre_alloc = get_pre_alloc h.mem block in
      let pre_min = get_pre_min h.mem block in
      let large = not (size == min_block_size) in
      let h1 = on_mem (write_block block size pre_min pre_alloc false large) h in
      let h2 =
        if large
        then on_mem (set_next_block_pre_alloc_pre_min block false false) h1
        else on_mem (set_next_block_pre_alloc_pre_min block true false) h1 in
      (coalesce_block block h2).1

  unfoldable pub free : (bp : ℕ) → Allocator → Allocator
  free bp s = if bp == 0 then s else record s { heap = free_block (payload_to_header bp) s.heap }

-- The prologue, the epilogue and the empty lists.
unfoldable pub empty_heap : (start : ℕ) → Heap → Heap
empty_heap start h = record {
  mem = store (store h.mem start (pack 0 false true true)) (start + wsize) (pack 0 false true true);
  seg_list = λ c. if ltb c max_seg_list_length then 0 else h.seg_list c;
}

module _ (sys : System) (rounds : ℕ) where
  -- What `extend_heap` makes of the result of `mem_sbrk`; 0 if the space cannot be had.
  unfoldable pub extend_with : (size : ℕ) → (bp : Option ℕ) → Memlib → Allocator → ℕ × Allocator
  extend_with size none l s = (0, record s { memlib = l })
  extend_with size (some p) l s =
      let (block, h) = extended rounds p size s.heap in (block, record s { heap = h; memlib = l })

  unfoldable pub extend_heap : (size : ℕ) → Allocator → ℕ × Allocator
  extend_heap size s =
      let size' = round_up size dsize in
      let (bp, memlib') = mem_sbrk sys size' s.memlib in extend_with size' bp memlib' s

  unfoldable pub init_with : (start : Option ℕ) → Memlib → Allocator → Bool × Allocator
  init_with none l s = (false, record s { memlib = l })
  init_with (some p) l s =
      let (block, s') =
        extend_heap chunksize
          (record { heap = empty_heap p s.heap; heap_start = p + wsize; memlib = l }) in
      (not (block == 0), s')

  unfoldable pub mm_init : Allocator → Bool × Allocator
  mm_init s = let (start, memlib') = mem_sbrk sys (2 * wsize) s.memlib in init_with start memlib' s

  -- A block for `asize` bytes, from a list or from new space; 0 if there is none.
  unfoldable pub find_or_extend : (asize : ℕ) → Allocator → ℕ × Allocator
  find_or_extend asize s =
      let block = find_fit rounds asize s.heap in
      if block == 0 then extend_heap (max asize chunksize) s else (block, s)

  -- `malloc` of at least one byte on a heap with its prologue.
  unfoldable pub malloc_started : (size : ℕ) → Allocator → ℕ × Allocator
  malloc_started size s =
      let asize = round_up ((size + wsize) % 2 ^ 64) dsize in
      let (block, s1) = find_or_extend asize s in
      if block == 0
      then (0, s1)
      else (header_to_payload block, record s1 { heap = split_block rounds block asize s1.heap })

  unfoldable pub malloc : (size : ℕ) → Allocator → ℕ × Allocator
  malloc size s =
      let (ready, s1) = if s.heap_start == 0 then mm_init s else (true, s) in
      if not ready then (0, s1) else if size == 0 then (0, s1) else malloc_started size s1

  unfoldable pub realloc : (ptr size : ℕ) → Allocator → ℕ × Allocator
  realloc ptr size s =
      if size == 0
      then (0, free rounds ptr s)
      else if ptr == 0
      then malloc size s
      else let (newptr, s1) = malloc size s in
        let payload = get_payload_size s1.heap.mem (payload_to_header ptr) in
        let copysize = if ltb size payload then size else payload in
        if newptr == 0 then (0, s1) else (
          newptr,
          free rounds ptr (record s1 { heap = on_mem (memcpy newptr ptr copysize) s1.heap }),
        )

  unfoldable pub calloc : (elements size : ℕ) → Allocator → ℕ × Allocator
  calloc elements size s =
      let asize = elements * size % 2 ^ 64 in
      if elements == 0
      then (0, s)
      else if not (asize / elements == size)
      then (0, s)
      else let (bp, s1) = malloc asize s in
        if bp == 0
        then (0, s1)
        else (bp, record s1 { heap = on_mem (memset_zero bp asize) s1.heap })
