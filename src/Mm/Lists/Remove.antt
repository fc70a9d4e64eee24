-- ===== src/Mm/Lists/Remove.antt =====
-- Removal of a free block of 16 bytes from its list.
use computer_systems_project.Base.{
  ℕ, zero, suc, ◌+◌, ◌%◌, ◌<◌, ◌≡◌, ◌≢◌, refl, sym, ap, subst, ◌∙◌, false, ◌==◌, ==_self, List, [],
  ◌∷◌, ◌++◌, length, arith,
}
use computer_systems_project.Mm.{Memory, min_block_size, store, get_size, find_seg_list_class}
use computer_systems_project.Mm.Lists.{
  Heap, next_at, prev_at, find_before, unlink_small, fix_free_list,
}
use computer_systems_project.Mm.Lists.Chain.{
  head_of, NotIn, Distinct, Chain, store_self, store_ne, Chain-frame, Chain-one_way, Linked,
}

-- The last block of a part of a list, `first` if nothing follows it.
abbrev pub last_of : ℕ → List ℕ → ℕ
last_of first [] = first
last_of first (b ∷ bs) = last_of b bs

head_of-NotIn :
    (block : ℕ) (bs : List ℕ) → block % 16 ≡ 8 → NotIn block bs → (head_of bs == block) ≡ false
head_of-NotIn block [] aligned away = ground (arith, aligned)
head_of-NotIn block (b ∷ bs) aligned away = ground (arith, away.0)

==_other : (x y : ℕ) → y ≢ x → (x == y) ≡ false
==_other x y other = ground arith

pub aligned_nonzero : (b : ℕ) → b % 16 ≡ 8 → (b == 0) ≡ false
aligned_nonzero b aligned = ground arith

-- No block of the list stands in front of a block that is not in it.
find_before-absent :
    (mem : Memory) (prev block : ℕ) (bs : List ℕ) (fuel : ℕ)
    → block % 16 ≡ 8
    → NotIn block bs
    → Chain mem false prev bs
    → find_before fuel (head_of bs) block mem ≡ 0
unfolding find_before
find_before-absent mem prev block bs zero aligned away c = refl
find_before-absent mem prev block [] (suc k) aligned away c = refl
find_before-absent mem prev block (b ∷ r) (suc k) aligned away c =
    let other = head_of-NotIn block r aligned away.1 in
    rw (aligned_nonzero b c.0, c.1, other) (find_before-absent mem b block r k aligned away.1 c.3)

pub find_before-first :
    (mem : Memory) (block : ℕ) (rest : List ℕ) (fuel : ℕ)
    → NotIn block rest
    → Chain mem false 0 (block ∷ rest)
    → find_before fuel block block mem ≡ 0
unfolding find_before
find_before-first mem block rest zero away c = refl
find_before-first mem block rest (suc k) away c =
    rw (aligned_nonzero block c.0, c.1, head_of-NotIn block rest c.0 away)
      (find_before-absent mem block block rest k c.0 away c.3)

-- The loop finds the block in front of one that stands behind the blocks of `first ∷ front`.
pub find_before-last_of :
    (mem : Memory) (prev block first : ℕ) (front rest : List ℕ) (fuel : ℕ)
    → length front < fuel
    → NotIn block front
    → Chain mem false prev (first ∷ front ++ block ∷ rest)
    → find_before fuel first block mem ≡ last_of first front
unfolding find_before
find_before-last_of mem prev block first front rest zero enough away c =
    absurd (omega (arith, enough))
find_before-last_of mem prev block first [] rest (suc k) enough away c =
    rw (aligned_nonzero first c.0, c.1, ==_self block) refl
find_before-last_of mem prev block first (g ∷ gs) rest (suc k) enough away c =
    rw (aligned_nonzero first c.0, c.1, ==_other g block away.0)
      (find_before-last_of mem first block g gs rest k (omega (arith, enough)) away.1 c.3)

pub NotIn-last_of :
    (p first : ℕ) (front rest : List ℕ) → NotIn p (first ∷ front ++ rest) → p ≢ last_of first front
NotIn-last_of p first [] rest away = away.0
NotIn-last_of p first (g ∷ gs) rest away = NotIn-last_of p g gs rest away.1

-- The list without a block, for the last block of the part in front of it.
unlink-Chain :
    (mem : Memory) (prev block first : ℕ) (front rest : List ℕ)
    → Distinct (first ∷ front ++ block ∷ rest)
    → Chain mem false prev (first ∷ front ++ block ∷ rest)
    → Chain
        (store mem (next_at (last_of first front)) (head_of rest))
        false
        prev
        (first ∷ front ++ rest)
unlink-Chain mem prev block first [] rest d c = (
  c.0,
  store_self mem (next_at first) (head_of rest),
  (λ e. cc),
  Chain-one_way (store mem (next_at first) (head_of rest)) block first rest (
      Chain-frame mem (store mem (next_at first) (head_of rest)) false block first first rest
        (λ b al p q. (
          store_ne mem (next_at first) (head_of rest) (next_at b) (λ e. omega arith),
          store_ne mem (next_at first) (head_of rest) (prev_at b) (λ e. omega (arith, c.0)),
        ))
        d.0.1 d.0.1 c.3.3),
)
unlink-Chain mem prev block first (g ∷ gs) rest d c =
    let other = NotIn-last_of first g gs (block ∷ rest) d.0 in
    (
      c.0,
      store_ne mem (next_at (last_of g gs)) (head_of rest) (next_at first)
            (λ e. omega (arith, other))
          ∙ c.1,
      (λ e. cc),
      unlink-Chain mem first block g gs rest d.1 c.3,
    )

pub NotIn-middle : (p block : ℕ) (front rest : List ℕ) → NotIn p (front ++ block ∷ rest) → p ≢ block
NotIn-middle p block [] rest away = away.0
NotIn-middle p block (f ∷ fs) rest away = NotIn-middle p block fs rest away.1

pub Distinct-front :
    (block : ℕ) (front rest : List ℕ)
    → Distinct (front ++ block ∷ rest)
    → NotIn block front × NotIn block rest
Distinct-front block [] rest d = (tt, d.0)
Distinct-front block (f ∷ fs) rest d =
    let more = Distinct-front block fs rest d.1 in
    (((λ e. NotIn-middle f block fs rest d.0 (sym e)), more.0), more.1)

pub middle-Chain :
    (mem : Memory) (prev block first : ℕ) (front rest : List ℕ)
    → Chain mem false prev (first ∷ front ++ block ∷ rest)
    → ((last_of first front == 0) ≡ false) × (block % 16 ≡ 8) × (mem (next_at block) ≡ head_of rest)
middle-Chain mem prev block first [] rest c = (aligned_nonzero first c.0, c.3.0, c.3.1)
middle-Chain mem prev block first (g ∷ gs) rest c = middle-Chain mem first block g gs rest c.3

-- The list of the class of a size after a removal; the other lists begin as before.
abbrev pub Unlinked : (size : ℕ) → (h h' : Heap) → List ℕ → Type 0
Unlinked size h h' bs =
    Linked size h' bs × ((k : ℕ) → k ≢ find_seg_list_class size → h'.seg_list k ≡ h.seg_list k)

pub fix_small :
    (h : Heap) (fuel block prev next : ℕ)
    → get_size h.mem block ≡ min_block_size
    → find_before fuel (h.seg_list (find_seg_list_class min_block_size)) block h.mem ≡ prev
    → h.mem (next_at block) ≡ next
    → fix_free_list fuel block h ≡ unlink_small prev next (find_seg_list_class min_block_size) h
unfolding fix_free_list
fix_small h fuel block prev next small e_prev e_next = rw (small, e_prev, e_next) refl

pub unlink_behind :
    (h : Heap) (prev next c : ℕ)
    → (prev == 0) ≡ false
    → unlink_small prev next c h ≡ record h { mem = store h.mem (next_at prev) next }
unfolding unlink_small
unlink_behind h prev next c nonzero = rw nonzero refl

fix_first :
    (h : Heap) (fuel block : ℕ) (rest : List ℕ)
    → get_size h.mem block ≡ min_block_size
    → Distinct (block ∷ rest)
    → Linked min_block_size h (block ∷ rest)
    → Unlinked min_block_size h (fix_free_list fuel block h) rest
unfolding unlink_small
fix_first h fuel block rest small d l =
    subst (λ h'. Unlinked min_block_size h h' rest)
      (sym (fix_small h fuel block 0 (head_of rest) small no_prev l.1.1))
      (
        (store_self h.seg_list c (head_of rest), Chain-one_way h.mem block 0 rest l.1.3),
        (λ k other. store_ne h.seg_list c (head_of rest) k other),
      )
  where
    c : ℕ
    c = find_seg_list_class min_block_size

    no_prev : find_before fuel (h.seg_list c) block h.mem ≡ 0
    no_prev = rw l.0 (find_before-first h.mem block rest fuel d.0 l.1)

-- Removal of a block of 16 bytes. Its condition: the blocks of the list of this size are distinct and
-- linked, the block is one of them, and the loop may take one round more than the list has blocks.
-- Then the list is linked without the block, in the same order, and the first blocks of the other
-- lists are as before.
pub fix_free_list-Unlinked :
    (h : Heap) (fuel block : ℕ) (front rest : List ℕ)
    → get_size h.mem block ≡ min_block_size
    → suc (length front + length rest) < fuel
    → Distinct (front ++ block ∷ rest)
    → Linked min_block_size h (front ++ block ∷ rest)
    → Unlinked min_block_size h (fix_free_list fuel block h) (front ++ rest)
fix_free_list-Unlinked h fuel block [] rest small enough d l = fix_first h fuel block rest small d l
fix_free_list-Unlinked h fuel block (f ∷ fs) rest small enough d l =
    let c = find_seg_list_class min_block_size in
    let mid = middle-Chain h.mem 0 block f fs rest l.1 in
    let away = Distinct-front block (f ∷ fs) rest d in
    let found =
      find_before-last_of h.mem 0 block f fs rest fuel (omega (arith, enough)) away.0.1 l.1 in
    let e =
      fix_small h fuel block (last_of f fs) (head_of rest) small
        (ap (λ b. find_before fuel b block h.mem) l.0 ∙ found) mid.2 in
    subst (λ h'. Unlinked min_block_size h h' (f ∷ fs ++ rest))
      (sym (e ∙ unlink_behind h (last_of f fs) (head_of rest) c mid.0))
      ((l.0, unlink-Chain h.mem 0 block f fs rest d l.1), (λ k other. refl))
