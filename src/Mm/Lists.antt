-- ===== src/Mm/Lists.antt =====
-- The segregated free lists of mm.c: `insert_block_LIFO` and `fix_free_list`.
--
-- The payload of a free block holds the addresses of the next block and, in blocks of more than 16
-- bytes, of the previous one. 0 is NULL.
pub mod Chain
pub mod Insert
pub mod Only
pub mod Remove
pub mod Splice
pub mod Unlink
use computer_systems_project.Base.{
  ℕ, zero, suc, ◌+◌, Bool, true, false, not, ◌&&◌, ◌==◌, if◌then◌else◌,
}
use computer_systems_project.Mm.{
  Memory, wsize, dsize, min_block_size, store, get_size, find_seg_list_class,
}

-- Memory, and the first block of each list.
pub record Heap : Type 0 where
  pub mem : Memory
  pub seg_list : ℕ → ℕ

abbrev pub next_at : ℕ → ℕ
next_at block = block + wsize

abbrev pub prev_at : ℕ → ℕ
prev_at block = block + dsize

-- The writes of `insert_block_LIFO`, for the first block of the list.
pub link_first : (block size first : ℕ) → Memory → Memory
link_first block size first mem =
    let large = not (size == min_block_size) in
    let mem1 = if large && not (first == 0) then store mem (prev_at first) block else mem in
    let mem2 = store mem1 (next_at block) first in
    if large then store mem2 (prev_at block) 0 else mem2

pub insert_block_lifo : (block : ℕ) → Heap → Heap
unfolding link_first
insert_block_lifo block h =
    let size = get_size h.mem block in
    let c = find_seg_list_class size in
    record { mem = link_first block size (h.seg_list c) h.mem; seg_list = store h.seg_list c block }

-- The loop that looks for the block in front of a block of 16 bytes; 0 if there is none.
pub find_before : (fuel temp block : ℕ) → Memory → ℕ
find_before zero temp block mem = 0
find_before (suc k) temp block mem =
    let rest = find_before k (mem (next_at temp)) block mem in
    if temp == 0 then 0 else if mem (next_at temp) == block then temp else rest

-- The removal of a block of more than 16 bytes, with what its payload holds.
pub unlink_large : (block prev next c : ℕ) → Heap → Heap
unlink_large block prev next c h =
    let mem1 = if next == 0 then h.mem else store h.mem (prev_at next) prev in
    let mem2 = if prev == 0 then mem1 else store mem1 (next_at prev) next in
    record {
      mem = store (store mem2 (next_at block) 0) (prev_at block) 0;
      seg_list = if prev == 0 then store h.seg_list c next else h.seg_list;
    }

-- The removal of a block of 16 bytes, with the block in front of it.
pub unlink_small : (prev next c : ℕ) → Heap → Heap
unlink_small prev next c h =
    if prev == 0
    then record h { seg_list = store h.seg_list c next }
    else record h { mem = store h.mem (next_at prev) next }

-- `fuel` is the number of rounds of the loop, at least the length of the list.
pub fix_free_list : (fuel block : ℕ) → Heap → Heap
unfolding find_before unlink_large unlink_small
fix_free_list fuel block h =
    let size = get_size h.mem block in
    let c = find_seg_list_class size in
    let next = h.mem (next_at block) in
    if not (size == min_block_size)
    then unlink_large block (h.mem (prev_at block)) next c h
    else unlink_small (find_before fuel (h.seg_list c) block h.mem) next c h
