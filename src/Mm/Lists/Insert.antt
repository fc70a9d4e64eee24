-- ===== src/Mm/Lists/Insert.antt =====
-- Insertion of a free block in front of its list.
use computer_systems_project.Base.{
  ℕ, ◌%◌, ◌≡◌, ◌≢◌, refl, sym, ap, subst, ◌∙◌, true, false, not, ◌==◌, if◌then◌else◌, Bool-cases,
  inl, inr, List, [], ◌∷◌, arith,
}
use computer_systems_project.Mm.{Memory, min_block_size, store, get_size, find_seg_list_class}
use computer_systems_project.Mm.Lists.{Heap, next_at, prev_at, link_first, insert_block_lifo}
use computer_systems_project.Mm.Lists.Chain.{
  head_of, NotIn, Distinct, Chain, store_self, store_ne, Chain-frame, Chain-one_way, Linked,
}

small_link :
    (block size first : ℕ) (mem : Memory)
    → (size == min_block_size) ≡ true
    → link_first block size first mem ≡ store mem (next_at block) first
unfolding link_first
small_link block size first mem small = rw small refl

abbrev large_mem : (block first : ℕ) → Memory → Memory
large_mem block first mem =
    store
      (store (if not (first == 0) then store mem (prev_at first) block else mem) (next_at block)
        first)
      (prev_at block) 0

large_link :
    (block size first : ℕ) (mem : Memory)
    → (size == min_block_size) ≡ false
    → link_first block size first mem ≡ large_mem block first mem
unfolding link_first
large_link block size first mem large = rw large refl

-- A list that is linked one way.
small-Chain :
    (mem : Memory) (block : ℕ) (bs : List ℕ)
    → block % 16 ≡ 8
    → NotIn block bs
    → Chain mem false 0 bs
    → Chain (store mem (next_at block) (head_of bs)) false 0 (block ∷ bs)
small-Chain mem block bs aligned away c = (
  aligned,
  store_self mem (next_at block) (head_of bs),
  (λ e. cc),
  Chain-one_way (store mem (next_at block) (head_of bs)) 0 block bs (
      Chain-frame mem (store mem (next_at block) (head_of bs)) false 0 block block bs
        (λ b al other _. (
          store_ne mem (next_at block) (head_of bs) (next_at b) (λ e. omega arith),
          store_ne mem (next_at block) (head_of bs) (prev_at b) (λ e. omega arith),
        ))
        away away c),
)

-- A list that is linked both ways.
large-Chain :
    (mem : Memory) (block : ℕ) (bs : List ℕ)
    → block % 16 ≡ 8
    → NotIn block bs
    → Distinct bs
    → Chain mem true 0 bs
    → Chain (large_mem block (head_of bs) mem) true 0 (block ∷ bs)
large-Chain mem block [] aligned away d c = (
  aligned,
  store_ne (store mem (next_at block) 0) (prev_at block) 0 (next_at block) (λ e. omega arith)
      ∙ store_self mem (next_at block) 0,
  (λ e. store_self (store mem (next_at block) 0) (prev_at block) 0),
  tt,
)
large-Chain mem block (f ∷ r) aligned away d c =
    subst (λ m. Chain m true 0 (block ∷ f ∷ r)) (sym mem_eq)
      (
        aligned,
        store_ne m2 (prev_at block) 0 (next_at block) (λ e. omega arith)
            ∙ store_self m1 (next_at block) f,
        (λ e. store_self m2 (prev_at block) 0),
        (
          c.0,
          keep (next_at f) (λ e. omega (arith, away.0, c.0)) (λ e. omega (arith, c.0))
                (λ e. omega arith)
              ∙ c.1,
          (λ e.
              store_ne m2 (prev_at block) 0 (prev_at f) (λ e'. omega (arith, away.0))
              ∙ store_ne m1 (next_at block) f (prev_at f) (λ e'. omega (arith, c.0))
              ∙ store_self mem (prev_at f) block),
          Chain-frame mem m3 true f block f r
              (λ b al p q. (
                keep (next_at b) (λ e. omega arith) (λ e. omega arith) (λ e. omega (arith, c.0)),
                keep (prev_at b) (λ e. omega arith) (λ e. omega arith) (λ e. omega arith),
              ))
              away.1 d.0 c.3,
        ),
      )
  where
    nonzero : (f == 0) ≡ false
    nonzero = ground (arith, c.0)

    m1 : Memory
    m1 = store mem (prev_at f) block

    mem_eq : large_mem block f mem ≡ store (store m1 (next_at block) f) (prev_at block) 0
    mem_eq =
        ap
          (λ b.
            store (store (if not b then store mem (prev_at f) block else mem) (next_at block) f)
              (prev_at block) 0)
          nonzero

    m2 : Memory
    m2 = store m1 (next_at block) f

    m3 : Memory
    m3 = store m2 (prev_at block) 0

    keep : (x : ℕ) → x ≢ next_at block → x ≢ prev_at block → x ≢ prev_at f → m3 x ≡ mem x
    keep x a b e =
        store_ne m2 (prev_at block) 0 x b
        ∙ store_ne m1 (next_at block) f x a
        ∙ store_ne mem (prev_at f) block x e

link_first-Chain :
    (mem : Memory) (block size : ℕ) (bs : List ℕ)
    → block % 16 ≡ 8
    → NotIn block bs
    → Distinct bs
    → Chain mem (not (size == min_block_size)) 0 bs
    → Chain (link_first block size (head_of bs) mem) (not (size == min_block_size)) 0 (block ∷ bs)
link_first-Chain mem block size bs aligned away d c = elim (Bool-cases (size == min_block_size)) [
  | inl small ↦
      let c' = subst (λ b. Chain mem (not b) 0 bs) small c in
      let m = sym (small_link block size (head_of bs) mem small) in
      subst (λ b. Chain (link_first block size (head_of bs) mem) (not b) 0 (block ∷ bs)) (sym small)
        (subst (λ m. Chain m false 0 (block ∷ bs)) m (small-Chain mem block bs aligned away c'))
  | inr large ↦
      let c' = subst (λ b. Chain mem (not b) 0 bs) large c in
      let m = sym (large_link block size (head_of bs) mem large) in
      subst (λ b. Chain (link_first block size (head_of bs) mem) (not b) 0 (block ∷ bs)) (sym large)
        (subst (λ m. Chain m true 0 (block ∷ bs)) m (large-Chain mem block bs aligned away d c'))
]

-- Insertion puts a block in front of the list of its class. Its condition: the block stands at an
-- address that is 8 modulo 16 and is not in the list, whose blocks are distinct and linked, both ways
-- unless they have 16 bytes. Then the list of the class is linked the same way and has the block in
-- front, and the first blocks of the other classes are as before.
pub insert_block_lifo-Linked :
    (h : Heap) (block : ℕ) (bs : List ℕ)
    → block % 16 ≡ 8
    → NotIn block bs
    → Distinct bs
    → Linked (get_size h.mem block) h bs
    → Linked (get_size h.mem block) (insert_block_lifo block h) (block ∷ bs)
      × ((k : ℕ)
          → k ≢ find_seg_list_class (get_size h.mem block)
          → (insert_block_lifo block h).seg_list k ≡ h.seg_list k)
unfolding insert_block_lifo
insert_block_lifo-Linked h block bs aligned away d l = (
  (
    store_self h.seg_list (find_seg_list_class (get_size h.mem block)) block,
    subst
        (λ first.
          Chain (link_first block (get_size h.mem block) first h.mem)
            (not (get_size h.mem block == min_block_size)) 0 (block ∷ bs))
        (sym l.0) (link_first-Chain h.mem block (get_size h.mem block) bs aligned away d l.1),
  ),
  (λ k other. store_ne h.seg_list (find_seg_list_class (get_size h.mem block)) block k other),
)
