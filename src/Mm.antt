-- ===== src/Mm.antt =====
-- The header words and block positions of lab5-malloclab5-qinlinj/mm.c.
--
-- Memory is a function from byte addresses to 64-bit words; a block is the address of its header. The
-- bit operations on headers are written as arithmetic: `word & ~0xF` clears the remainder by 16, and
-- bit `k` is the remainder of `word / 2 ^ k` by 2. Sizes are below 2 ^ 64.
mod Tests
pub mod Copy
pub mod Words
pub mod Classes
pub mod Layout
pub mod Lists
pub mod Alloc
pub mod Check
pub mod Contract
pub mod Memlib
pub mod Memory
use computer_systems_project.Base.{
  ℕ, zero, suc, ◌+◌, ◌-◌, ◌*◌, ◌/◌, ◌%◌, ◌^◌, Bool, true, false, not, ◌&&◌, ◌==◌, ltb, leb,
  if◌then◌else◌,
}

abbrev pub wsize : ℕ
wsize = 8

abbrev pub dsize : ℕ
dsize = 16

abbrev pub min_block_size : ℕ
min_block_size = 16

abbrev pub max_seg_list_length : ℕ
max_seg_list_length = 14

pub max : (x y : ℕ) → ℕ
max x y = if ltb y x then x else y

-- With the wrap-around of `size_t`.
pub round_up : (size n : ℕ) → ℕ
round_up size n = n * ((size + (n - 1)) % 2 ^ 64 / n) % 2 ^ 64

-- `word & (1 << k)` as a Boolean, and `word |= 1 << k`.
abbrev pub bit : (k word : ℕ) → Bool
bit k word = word / 2 ^ k % 2 == 1

abbrev pub set_bit : (k word : ℕ) → ℕ
set_bit k word = if bit k word then word else word + 2 ^ k

pub pack : (size : ℕ) → (pre_min pre_alloc alloc : Bool) → ℕ
pack size pre_min pre_alloc alloc =
    let word = if alloc then set_bit 0 size else size in
    let word' = if pre_alloc then set_bit 1 word else word in
    if pre_min then set_bit 2 word' else word'

pub extract_size : ℕ → ℕ
extract_size word = word - word % 16

pub extract_alloc : ℕ → Bool
extract_alloc word = bit 0 word

abbrev pub Memory : Type 0
Memory = ℕ → ℕ

abbrev pub store : Memory → ℕ → ℕ → Memory
store mem p word x = if x == p then word else mem x

module _ (mem : Memory) where
  pub get_size : (block : ℕ) → ℕ
  unfolding extract_size
  get_size block = extract_size (mem block)

  pub get_alloc : (block : ℕ) → Bool
  unfolding extract_alloc
  get_alloc block = extract_alloc (mem block)

  pub get_pre_alloc : (block : ℕ) → Bool
  get_pre_alloc block = bit 1 (mem block)

  pub get_pre_min : (block : ℕ) → Bool
  get_pre_min block = bit 2 (mem block)

  pub get_payload_size : (block : ℕ) → ℕ
  unfolding get_size
  get_payload_size block = get_size block - wsize

  pub header_to_footer : (block : ℕ) → ℕ
  unfolding get_size
  header_to_footer block = block + wsize + get_size block - dsize

  pub footer_to_header : (footer : ℕ) → ℕ
  unfolding extract_size
  footer_to_header footer = footer + wsize - extract_size (mem footer)

  pub find_next : (block : ℕ) → ℕ
  unfolding get_size
  find_next block = block + get_size block

pub payload_to_header : (bp : ℕ) → ℕ
payload_to_header bp = bp - wsize

pub header_to_payload : (block : ℕ) → ℕ
header_to_payload block = block + wsize

pub find_prev_footer : (block : ℕ) → ℕ
find_prev_footer block = block - wsize

pub find_prev : Memory → (block : ℕ) → ℕ
unfolding footer_to_header find_prev_footer
find_prev mem block = footer_to_header mem (find_prev_footer block)

pub find_min_prev : (block : ℕ) → ℕ
find_min_prev block = block - dsize

pub write_block : (block size : ℕ) → (pre_min pre_alloc alloc write_footer : Bool) → Memory → Memory
unfolding pack header_to_footer
write_block block size pre_min pre_alloc alloc write_footer mem =
    let word = pack size pre_min pre_alloc alloc in
    let mem' = store mem block word in
    if write_footer && not (size == min_block_size)
    then store mem' (header_to_footer mem' block) word
    else mem'

pub write_epilogue : (block : ℕ) → Memory → Memory
unfolding pack
write_epilogue block mem = store mem block (pack 0 false false true)

pub set_next_block_pre_alloc_pre_min :
    (block : ℕ) → (next_pre_min next_pre_alloc : Bool) → Memory → Memory
unfolding find_next get_size get_alloc write_block
set_next_block_pre_alloc_pre_min block next_pre_min next_pre_alloc mem =
    let next = find_next mem block in
    write_block next (get_size mem next) next_pre_min next_pre_alloc (get_alloc mem next) false mem

-- The loop of `find_seg_list_class`, whose shift wraps: from class 60 on the limit is 0. Out of fuel it
-- returns the class that it has reached, where the source goes on for ever.
pub class_loop : (fuel seg_list_class size : ℕ) → ℕ
class_loop zero c size = c
class_loop (suc k) c size =
    let rest = class_loop k (c + 1) size in
    if ltb (min_block_size * 2 ^ c % 2 ^ 64) size then rest else c

-- Up to 2 ^ 63 the loop ends within 59 rounds, before the shift wraps. Above it does not end in the
-- source, and what is said here of such a size says nothing of the code.
pub find_seg_list_class : (size : ℕ) → ℕ
unfolding class_loop
find_seg_list_class size =
    let c = class_loop 60 1 size in
    if leb size min_block_size
    then 0
    else if ltb c max_seg_list_length
    then c
    else max_seg_list_length - 1
