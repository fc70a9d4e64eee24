-- ===== src/Mm/Check/Tests.antt =====
-- The heap checker on a heap with one allocated block, with and without its size in its last word.
use computer_systems_project.Base.{◌≡◌, refl, true, false, ◌==◌, if◌then◌else◌}
use computer_systems_project.Mm.{
  Memory, extract_size, extract_alloc, get_size, get_alloc, header_to_footer, find_next,
  find_prev_footer,
}
use computer_systems_project.Mm.Alloc.{Allocator}
use computer_systems_project.Mm.Check.{
  count_free, count_list, count_lists, check_free_block_counts, check_list, check_lists,
  check_free_list, check_header_footer, same_flag, check_blocks, check_end, mm_checkheap,
}
use computer_systems_project.Mm.Memlib.{mem_heap_lo, mem_heap_hi}

abbrev heap_with : Memory → Allocator
heap_with words = record {
  heap = record { mem = words; seg_list = λ c. 0 };
  heap_start = 8;
  memlib = record {
    sparse = false;
    low = 0;
    mem_brk = 48;
    mem_brk_chunk = 4096;
    mem_max_addr = 8192;
  };
}

abbrev header_only : Memory
header_only y = if y == 0 then 3 else if y == 8 then 35 else if y == 40 then 3 else 0

abbrev with_last_word : Memory
with_last_word y = if y == 32 then 33 else header_only y

checkheap_header_only : mm_checkheap 5 (heap_with header_only) ≡ false
unfolding mm_checkheap check_blocks check_header_footer same_flag get_size get_alloc
    header_to_footer find_next find_prev_footer extract_size extract_alloc
checkheap_header_only = refl

checkheap_with_last_word : mm_checkheap 5 (heap_with with_last_word) ≡ true
unfolding mm_checkheap check_blocks check_header_footer same_flag get_size get_alloc
    header_to_footer find_next find_prev_footer extract_size extract_alloc check_end check_free_list
    check_lists check_list mem_heap_lo mem_heap_hi check_free_block_counts count_free count_lists
    count_list
checkheap_with_last_word = refl
