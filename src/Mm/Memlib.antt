-- ===== src/Mm/Memlib.antt =====
-- The simulated `sbrk` of lab5-malloclab5-qinlinj/memlib.c.
--
-- The heap is the range from `heap` to `mem_brk`. `mprotect` and the page size are the system's. Addresses and
-- increments stay below 2 ^ 63; a larger `size_t` is a negative `intptr_t`.
use computer_systems_project.Base.{
  ℕ, ◌+◌, ◌-◌, ◌%◌, ◌^◌, Bool, ◌||◌, Option, none, some, ltb, leb, if◌then◌else◌,
}

pub record System : Type 0 where
  pub pagesize : ℕ
  pub mprotect : (addr len : ℕ) → Bool

pub record Memlib : Type 0 where
  pub sparse : Bool
  pub low : ℕ
  pub mem_brk : ℕ
  pub mem_brk_chunk : ℕ
  pub mem_max_addr : ℕ

pub round_address_down : (addr align : ℕ) → ℕ
round_address_down addr align = addr - addr % align

pub round_address_up : (addr align : ℕ) → ℕ
unfolding round_address_down
round_address_up addr align = round_address_down (addr + align - 1) align

unfoldable pub mem_heap_lo : Memlib → ℕ
mem_heap_lo l = l.low

unfoldable pub mem_heap_hi : Memlib → ℕ
mem_heap_hi l = l.mem_brk - 1

pub mem_heapsize : Memlib → ℕ
mem_heapsize l = l.mem_brk - l.low

pub mem_reset_brk : Memlib → Memlib
mem_reset_brk l = record l { mem_brk = l.low; mem_brk_chunk = l.low }

module _ (sys : System) where
  -- Whether the pages up to the new break are accessible.
  pub accessible : (new_brk_chunk : ℕ) → Memlib → Bool
  accessible new_brk_chunk l =
      l.sparse
      || leb new_brk_chunk l.mem_brk_chunk
      || sys.mprotect l.mem_brk_chunk (new_brk_chunk - l.mem_brk_chunk)

  -- `none` is `(void *)-1`.
  unfoldable pub mem_sbrk : (incr : ℕ) → Memlib → Option ℕ × Memlib
  unfolding accessible round_address_up
  mem_sbrk incr l =
      let chunk = round_address_up (l.mem_brk + incr) sys.pagesize in
      if leb (2 ^ 63) incr
      then (none, l)
      else if ltb l.mem_max_addr (l.mem_brk + incr)
      then (none, l)
      else if accessible chunk l
      then (some l.mem_brk, record l { mem_brk = l.mem_brk + incr; mem_brk_chunk = chunk })
      else (none, l)
