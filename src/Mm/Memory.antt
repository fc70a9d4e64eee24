-- ===== src/Mm/Memory.antt =====
-- Blocks in memory: writing a block and walking to its neighbours.
use computer_systems_project.Base.{
  ℕ, ◌+◌, ◌-◌, ◌%◌, ◌<◌, ◌≡◌, ◌≢◌, refl, sym, ap, subst, ◌∙◌, Bool, true, false, ◌==◌, ==_self,
  arith,
}
use computer_systems_project.Mm.{
  Memory, wsize, dsize, min_block_size, pack, extract_size, store, get_size, get_alloc,
  header_to_footer, footer_to_header, find_next, find_prev, find_prev_footer, write_block,
  set_next_block_pre_alloc_pre_min,
}
use computer_systems_project.Mm.Words.{Says, pack-Says}

store_self : (mem : Memory) (p w : ℕ) → store mem p w p ≡ w
store_self mem p w = rw (==_self p) refl

store_ne : (mem : Memory) (p w x : ℕ) → x ≢ p → store mem p w x ≡ mem x
store_ne mem p w x other = let e : (x == p) ≡ false = ground arith in rw e refl

module _ (mem : Memory) (block size : ℕ) (pre_min pre_alloc alloc : Bool)
    (aligned : size % 16 ≡ 0) where
  abbrev word : ℕ
  word = pack size pre_min pre_alloc alloc

  pub says : Says word size pre_min pre_alloc alloc
  says = pack-Says size pre_min pre_alloc alloc aligned

  pub header_only : write_block block size pre_min pre_alloc alloc false mem ≡ store mem block word
  unfolding write_block
  header_only = refl

  pub footer_at : header_to_footer (store mem block word) block ≡ block + wsize + size - dsize
  unfolding header_to_footer get_size
  footer_at = rw (store_self mem block word, says.size_is) refl

  -- A block of more than 16 bytes has its word at both ends.
  pub with_footer :
      min_block_size < size
      → write_block block size pre_min pre_alloc alloc true mem
        ≡ store (store mem block word) (block + wsize + size - dsize) word
  unfolding write_block
  with_footer large =
      let e : (size == min_block_size) ≡ false = ground arith in rw (e, footer_at) refl

-- Between the two ends of a block memory keeps its words.
pub record Written (mem mem' : Memory) (block size : ℕ) (pre_min pre_alloc alloc : Bool)
    : Type 0 where
  pub header : Says (mem' block) size pre_min pre_alloc alloc
  pub next : find_next mem' block ≡ block + size
  pub back : find_prev mem' (find_next mem' block) ≡ block
  pub others : (x : ℕ) → x ≢ block → x ≢ block + size - wsize → mem' x ≡ mem x

-- A block of more than 16 bytes, a multiple of 16, that is written with its footer: its header says
-- its size and flags, `find_next` leads to the address behind it, `find_prev` leads from there back to
-- it, and no word but its first and its last changes.
pub write_block-Written :
    (mem : Memory) (block size : ℕ) (pre_min pre_alloc alloc : Bool)
    → size % 16 ≡ 0
    → min_block_size < size
    → Written mem
        (write_block block size pre_min pre_alloc alloc true mem)
        block
        size
        pre_min
        pre_alloc
        alloc
unfolding find_next find_prev find_prev_footer footer_to_header get_size
write_block-Written mem block size pm pa al aligned large =
    rw (with_footer mem block size pm pa al aligned large) (record {
      header = subst (λ w. Says w size pm pa al) (sym first) (says mem block size pm pa al aligned);
      next = next;
      back = ap (find_prev mem') next ∙ back;
      others = λ x a b.
          store_ne (store mem block w) foot w x (λ e. b (e ∙ omega arith))
          ∙ store_ne mem block w x a;
    })
  where
    w : ℕ
    w = pack size pm pa al

    foot : ℕ
    foot = block + wsize + size - dsize

    mem' : Memory
    mem' = store (store mem block w) foot w

    first : mem' block ≡ w
    first = store_ne (store mem block w) foot w block (λ e. omega arith) ∙ store_self mem block w

    next : block + extract_size (mem' block) ≡ block + size
    next =
        ap (λ v. block + extract_size v) first
        ∙ ap (λ n. block + n) (says mem block size pm pa al aligned).size_is

    foot_is : block + size - wsize ≡ foot
    foot_is = omega arith

    last : extract_size (mem' (block + size - wsize)) ≡ size
    last =
        ap (λ p. extract_size (mem' p)) foot_is
        ∙ ap extract_size (store_self (store mem block w) foot w)
        ∙ (says mem block size pm pa al aligned).size_is

    back : block + size - wsize + wsize - extract_size (mem' (block + size - wsize)) ≡ block
    back = omega (arith, last)

get_size_aligned : (mem : Memory) (block : ℕ) → get_size mem block % 16 ≡ 0
unfolding get_size extract_size
get_size_aligned mem block = omega arith

set_next_block_eq :
    (mem : Memory) (block : ℕ) (next_pre_min next_pre_alloc : Bool)
    → set_next_block_pre_alloc_pre_min block next_pre_min next_pre_alloc mem
      ≡ store mem (find_next mem block) (
          pack
            (get_size mem (find_next mem block))
            next_pre_min
            next_pre_alloc
            (get_alloc mem (find_next mem block)))
unfolding set_next_block_pre_alloc_pre_min write_block
set_next_block_eq mem block pm pa = refl

-- `set_next_block_pre_alloc_pre_min` gives the block behind `block` the two flags, and keeps its size,
-- its own flag and every other word.
pub set_next_block-Says :
    (mem : Memory) (block : ℕ) (next_pre_min next_pre_alloc : Bool)
    → let next = find_next mem block in
      let mem' = set_next_block_pre_alloc_pre_min block next_pre_min next_pre_alloc mem in
      Says (mem' next) (get_size mem next) next_pre_min next_pre_alloc (get_alloc mem next)
      × ((x : ℕ) → x ≢ next → mem' x ≡ mem x)
set_next_block-Says mem block pm pa =
    let next = find_next mem block in
    let al = get_alloc mem next in
    let word = pack (get_size mem next) pm pa al in
    rw (set_next_block_eq mem block pm pa) (
      subst (λ w. Says w (get_size mem next) pm pa al) (sym (store_self mem next word))
          (pack-Says (get_size mem next) pm pa al (get_size_aligned mem next)),
      λ x other. store_ne mem next word x other,
    )
