-- ===== src/Mm/Contract/Tests.antt =====
-- The allocator on a heap with one allocated block.
use computer_systems_project.Mm.Contract.Disjoint.{Disjoint}
use computer_systems_project.Base.{
  ◌+◌, none, some, ℕ, ◌*◌, ◌^◌, ◌<◌, ◌≤◌, ◌≡◌, ◌⊎◌, refl, ap, inl, inr, true, false, if◌then◌else◌,
  List, [], ◌∷◌, ◌==◌, arith,
}
use computer_systems_project.Mm.Check.{check_free_block_counts}
use computer_systems_project.Mm.Check.Counts.{check_free_block_counts_holds}
use computer_systems_project.Mm.Contract.Calls.{begin, mallocs, Reached-Holding}
use computer_systems_project.Mm.Contract.Held.{gained, Holding}
use computer_systems_project.Mm.Contract.Refuse.{malloc_refuses}
use computer_systems_project.Mm.Contract.Start.{Fresh, Extended, mm_init-Starts}
use computer_systems_project.Mm.Memlib.{mem_sbrk, System}
use computer_systems_project.Mm.Alloc.{
  chunksize, malloc_started, find_or_extend, find_fit, find_in_classes, find_in_list, extend_heap,
  extend_with, Allocator, malloc, free, realloc, calloc, mm_init,
}
use computer_systems_project.Mm.{
  find_seg_list_class, class_loop, round_up, max, dsize, Memory, extract_size, extract_alloc,
}
use computer_systems_project.Mm.Layout.{Block, At}
use computer_systems_project.Mm.Layout.Merge.{pending}
use computer_systems_project.Mm.Contract.{Ready, Represents, InUse, Served}
use computer_systems_project.Mm.Contract.Serve.{malloc-Serves}
use computer_systems_project.Mm.Contract.Release.{free-Frees}
use computer_systems_project.Mm.Contract.Calloc.{calloc-Serves}
use computer_systems_project.Mm.Contract.Realloc.{realloc-Serves}
use computer_systems_project.Mm.Contract.Bytes.{Zeroed, Copied}

abbrev linux : System
linux = record { pagesize = 4096; mprotect = λ addr len. true }

-- A block of 32 bytes and the epilogue.
abbrev words : Memory
words y = if y == 8 then 35 else if y == 40 then 3 else 0

abbrev one_block : Allocator
one_block = record {
  heap = record { mem = words; seg_list = λ c. 0 };
  heap_start = 8;
  memlib = record {
    sparse = false;
    low = 0;
    mem_brk = 48;
    mem_brk_chunk = 4096;
    mem_max_addr = 8192;
  };
}

abbrev one : List (ℕ × ℕ)
one = (8, 32) ∷ []

no_listed : (x : ℕ) (a : Block) → At 8 (pending 32 true ∷ []) x a → a.listed ≡ true → ⊥
no_listed x a (inl e) on = let off : a.listed ≡ false = ap (λ (b : Block). b.listed) e.1 in cc
no_listed x a (inr at) on = at

one-Ready : Ready 1000 one_block (pending 32 true ∷ [])
unfolding extract_size extract_alloc
one-Ready = record {
  lists = λ c. [];
  sound = record {
    start = refl;
    part = (
      (record {
        aligned = refl;
        least = omega arith;
        header = record { size_is = refl; alloc_is = refl; pre_alloc_is = refl; pre_min_is = refl };
        footer = λ f g. cc;
        free = λ f. cc;
      }),
      tt,
    );
    epilogue = record { size_is = refl; alloc_is = refl; pre_alloc_is = refl; pre_min_is = refl };
    first = λ c lt. refl;
    chain = λ c lt. tt;
    distinct = λ c lt. tt;
    in_block = λ c x lt i. absurd i;
    in_list = λ x a at on. no_listed x a at on;
    counted = refl;
  };
  tidy = (refl, (λ f. refl), tt);
  at_brk = refl;
  in_range = omega arith;
  bounded = omega arith;
  enough = omega arith;
}

one-Represents : Represents 1000 one_block one
one-Represents = (pending 32 true ∷ [], one-Ready, refl)

malloc-Serves_example :
    let r = malloc linux 1000 100 one_block in
    (r ≡ (0, one_block)) ⊎ Served 1000 one_block r.1 100 r.0 one
malloc-Serves_example =
    malloc-Serves linux 1000 100 one_block one one-Represents (omega arith) (omega arith)

free-Frees_example :
    let s' = free 1000 16 one_block in
    Represents 1000 s' [] × ((y : ℕ) → InUse [] y → s'.heap.mem y ≡ words y)
free-Frees_example = free-Frees 1000 one_block 8 32 [] [] one-Represents

realloc-Serves_example :
    let size : ℕ = 40 in
    let m = realloc linux 1000 16 40 one_block in
    (0 < size
      → (m ≡ (0, one_block))
        ⊎ (Served 1000 one_block m.1 40 m.0 [] × Copied words m.1.heap.mem 16 m.0 24))
    × (size ≡ 0 → (m.0 ≡ 0) × Represents 1000 m.1 [])
    × (0 < size → realloc linux 1000 0 40 one_block ≡ malloc linux 1000 40 one_block)
realloc-Serves_example =
    realloc-Serves linux 1000 40 8 32 one_block [] [] one-Represents (omega arith)

calloc-Serves_example :
    let r = calloc linux 1000 3 8 one_block in
    let elements : ℕ = 3 in
    ((elements ≡ 0) ⊎ (2 ^ 64 ≤ 3 * 8) → r ≡ (0, one_block))
    × (0 < 3 * 8
        → 3 * 8 + 8 ≤ 2 ^ 63
        → (r ≡ (0, one_block))
          ⊎ (Served 1000 one_block r.1 (3 * 8) r.0 one × Zeroed r.1.heap.mem r.0 (3 * 8)))
calloc-Serves_example = calloc-Serves linux 1000 3 8 one_block one one-Represents

-- Before the first call.
abbrev new_heap : Allocator
new_heap = record {
  heap = record { mem = λ y. 0; seg_list = λ c. 0 };
  heap_start = 0;
  memlib = record { sparse = false; low = 0; mem_brk = 0; mem_brk_chunk = 0; mem_max_addr = 8192 };
}

mm_init-Starts_example :
    let l = new_heap.memlib in
    (((mem_sbrk linux 16 l).0 ≡ none) × (mm_init linux 1000 new_heap ≡ (false, new_heap)))
    ⊎ (((mem_sbrk linux 16 l).0 ≡ some 0)
        × Extended linux 1000 (mem_sbrk linux 16 l).1 (mm_init linux 1000 new_heap))
mm_init-Starts_example =
    mm_init-Starts linux 1000 new_heap (record {
      aligned = refl;
      in_range = omega arith;
      bounded = omega arith;
      enough = omega arith;
    })

new_heap-Fresh : Fresh 1000 new_heap
new_heap-Fresh = record {
  aligned = refl;
  in_range = omega arith;
  bounded = omega arith;
  enough = omega arith;
}

-- One request.
abbrev first_call : ℕ × Allocator
first_call = malloc linux 1000 100 new_heap

Reached-Holding_example : Holding 1000 first_call.1 (gained first_call.0 [])
Reached-Holding_example =
    Reached-Holding linux 1000 new_heap new_heap-Fresh refl first_call.1 (gained first_call.0 [])
      (mallocs 100 (omega arith) begin)

too_large : (malloc linux 1000 10000 one_block).0 ≡ 0
unfolding malloc malloc_started find_or_extend find_fit find_in_classes find_in_list
    find_seg_list_class class_loop extend_heap extend_with mem_sbrk round_up max
too_large = refl

malloc_refuses_example :
    ((x : ℕ) (a : Block) → At 8 (pending 32 true ∷ []) x a → a.alloc ≡ false → a.size < 10000 + 8)
    × ((mem_sbrk linux
          (round_up (max (round_up (10000 + 8) dsize) chunksize) dsize)
          one_block.memlib).0
        ≡ none)
malloc_refuses_example =
    malloc_refuses linux 1000 10000 one_block (pending 32 true ∷ []) one-Ready (omega arith)
      (omega arith) too_large

check_free_block_counts_holds_example : check_free_block_counts 1000 one_block ≡ true
check_free_block_counts_holds_example =
    check_free_block_counts_holds 1000 one_block one one-Represents
