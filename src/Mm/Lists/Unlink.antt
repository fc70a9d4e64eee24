-- ===== src/Mm/Lists/Unlink.antt =====
-- The writes of `fix_free_list` for a block of more than 16 bytes.
use computer_systems_project.Base.{
  ℕ, ◌%◌, ◌≡◌, ◌≢◌, refl, sym, subst, ◌∙◌, Bool, true, false, not, ◌==◌, if◌then◌else◌, List, [],
  ◌∷◌, ◌++◌, arith,
}
use computer_systems_project.Mm.{Memory, min_block_size, store, get_size, find_seg_list_class}
use computer_systems_project.Mm.Lists.{Heap, next_at, prev_at, unlink_large, fix_free_list}
use computer_systems_project.Mm.Lists.Chain.{
  head_of, NotIn, Distinct, Chain, store_self, store_ne, Linked,
}
use computer_systems_project.Mm.Lists.Remove.{last_of, Distinct-front, Unlinked, aligned_nonzero}
use computer_systems_project.Mm.Lists.Splice.{Spliced, head_of-other, splice-rest, splice-front}

pub unless_store_ne :
    (b : Bool) (mem : Memory) (p w x : ℕ)
    → (b ≡ false → x ≢ p)
    → (if b then mem else store mem p w) x ≡ mem x
unless_store_ne true mem p w x other = refl
unless_store_ne false mem p w x other = store_ne mem p w x (other refl)

unless_store_self :
    (b : Bool) (mem : Memory) (p w : ℕ) → b ≡ false → (if b then mem else store mem p w) p ≡ w
unless_store_self true mem p w e = cc
unless_store_self false mem p w e = store_self mem p w

pub false_nonzero : (x : ℕ) → (x == 0) ≡ false → x ≢ 0
false_nonzero x e = λ z. ground arith

nonzero_false : (x : ℕ) → x ≢ 0 → (x == 0) ≡ false
nonzero_false x nz = ground arith

module _ (h : Heap) (block prev next c : ℕ) (aligned : block % 16 ≡ 8) (prev_other : prev ≢ block)
    (next_other : next ≢ block) (prev_aligned : prev ≢ 0 → prev % 16 ≡ 8)
    (next_aligned : next ≢ 0 → next % 16 ≡ 8) where
  abbrev mem1 : Memory
  mem1 = if next == 0 then h.mem else store h.mem (prev_at next) prev

  abbrev mem2 : Memory
  mem2 = if prev == 0 then mem1 else store mem1 (next_at prev) next

  abbrev mem4 : Memory
  mem4 = store (store mem2 (next_at block) 0) (prev_at block) 0

  mem4_other : (x : ℕ) → x ≢ next_at block → x ≢ prev_at block → mem4 x ≡ mem2 x
  mem4_other x a b =
      store_ne (store mem2 (next_at block) 0) (prev_at block) 0 x b
      ∙ store_ne mem2 (next_at block) 0 x a

  keeps_next : (b : ℕ) → b % 16 ≡ 8 → b ≢ block → b ≢ prev → mem4 (next_at b) ≡ h.mem (next_at b)
  keeps_next b al x y =
      mem4_other (next_at b) (λ e. omega (arith, x, e)) (λ e. omega (arith, al, aligned, e))
      ∙ unless_store_ne (prev == 0) mem1 (next_at prev) next (next_at b)
          (λ _ e. omega (arith, y, e))
      ∙ unless_store_ne (next == 0) h.mem (prev_at next) prev (next_at b)
          (λ f e. omega (arith, al, next_aligned (false_nonzero next f), e))

  keeps_prev : (b : ℕ) → b % 16 ≡ 8 → b ≢ block → b ≢ next → mem4 (prev_at b) ≡ h.mem (prev_at b)
  keeps_prev b al x y =
      mem4_other (prev_at b) (λ e. omega (arith, al, aligned, e)) (λ e. omega (arith, x, e))
      ∙ unless_store_ne (prev == 0) mem1 (next_at prev) next (prev_at b)
          (λ f e. omega (arith, al, prev_aligned (false_nonzero prev f), e))
      ∙ unless_store_ne (next == 0) h.mem (prev_at next) prev (prev_at b)
          (λ _ e. omega (arith, y, e))

  writes_next : prev ≢ 0 → mem4 (next_at prev) ≡ next
  writes_next nz =
      mem4_other (next_at prev) (λ e. omega (arith, prev_other, e))
        (λ e. omega (arith, prev_aligned nz, aligned, e))
      ∙ unless_store_self (prev == 0) mem1 (next_at prev) next (nonzero_false prev nz)

  writes_prev : next ≢ 0 → mem4 (prev_at next) ≡ prev
  writes_prev nz =
      mem4_other (prev_at next) (λ e. omega (arith, next_aligned nz, aligned, e))
        (λ e. omega (arith, next_other, e))
      ∙ unless_store_ne (prev == 0) mem1 (next_at prev) next (prev_at next)
          (λ f e. omega (arith, next_aligned nz, prev_aligned (false_nonzero prev f), e))
      ∙ unless_store_self (next == 0) h.mem (prev_at next) prev (nonzero_false next nz)

  pub unlink_large-Spliced : Spliced block prev next h.mem (unlink_large block prev next c h).mem
  unfolding unlink_large
  unlink_large-Spliced = (keeps_next, keeps_prev, writes_next, writes_prev)

-- What the memory holds for a block in the middle of a list.
pub middle-both :
    (mem : Memory) (p block first : ℕ) (front rest : List ℕ)
    → Chain mem true p (first ∷ front ++ block ∷ rest)
    → (last_of first front % 16 ≡ 8)
      × (mem (prev_at block) ≡ last_of first front)
      × Chain mem true (last_of first front) (block ∷ rest)
middle-both mem p block first [] rest c = (c.0, c.3.2 refl, c.3)
middle-both mem p block first (g ∷ gs) rest c = middle-both mem first block g gs rest c.3

last_of-other :
    (block first : ℕ) (front : List ℕ)
    → block ≢ first
    → NotIn block front
    → last_of first front ≢ block
last_of-other block first [] a away = λ e. a (sym e)
last_of-other block first (g ∷ gs) a away = last_of-other block g gs away.0 away.1

head_of-aligned :
    (mem : Memory) (p : ℕ) (bs : List ℕ)
    → Chain mem true p bs
    → head_of bs ≢ 0
    → head_of bs % 16 ≡ 8
head_of-aligned mem p [] c nz = absurd (nz refl)
head_of-aligned mem p (b ∷ bs) c nz = c.0

pub fix_large :
    (h : Heap) (fuel block prev next : ℕ)
    → (get_size h.mem block == min_block_size) ≡ false
    → h.mem (prev_at block) ≡ prev
    → h.mem (next_at block) ≡ next
    → fix_free_list fuel block h
      ≡ unlink_large block prev next (find_seg_list_class (get_size h.mem block)) h
unfolding fix_free_list
fix_large h fuel block prev next large e_prev e_next = rw (large, e_prev, e_next) refl

first_written :
    (b : Bool) (seg : ℕ → ℕ) (c next p : ℕ)
    → (b ≡ true → next ≡ p)
    → (b ≡ false → seg c ≡ p)
    → (if b then store seg c next else seg) c ≡ p
first_written true seg c next p e other = store_self seg c next ∙ e refl
first_written false seg c next p e other = other refl

first_kept :
    (b : Bool) (seg : ℕ → ℕ) (c next k : ℕ)
    → k ≢ c
    → (if b then store seg c next else seg) k ≡ seg k
first_kept true seg c next k other = store_ne seg c next k other
first_kept false seg c next k other = refl

large-Unlinked :
    (h : Heap) (size block prev : ℕ) (bs rest : List ℕ)
    → (size == min_block_size) ≡ false
    → ((prev == 0) ≡ true → head_of rest ≡ head_of bs)
    → ((prev == 0) ≡ false → h.seg_list (find_seg_list_class size) ≡ head_of bs)
    → Chain (unlink_large block prev (head_of rest) (find_seg_list_class size) h).mem true 0 bs
    → Unlinked size h (unlink_large block prev (head_of rest) (find_seg_list_class size) h) bs
unfolding unlink_large
large-Unlinked h size block prev bs rest large at_first behind chain =
    let c = find_seg_list_class size in
    let h' = unlink_large block prev (head_of rest) c h in
    (
      (
        first_written (prev == 0) h.seg_list c (head_of rest) (head_of bs) at_first behind,
        subst (λ b. Chain h'.mem (not b) 0 bs) (sym large) chain,
      ),
      (λ k other. first_kept (prev == 0) h.seg_list c (head_of rest) k other),
    )

NotIn-zero : (mem : Memory) (p : ℕ) (bs : List ℕ) → Chain mem true p bs → NotIn 0 bs
NotIn-zero mem p [] c = tt
NotIn-zero mem p (b ∷ bs) c = ((λ e. omega (arith, c.0, e)), NotIn-zero mem b bs c.3)

first-Chain :
    (h : Heap) (block c : ℕ) (rest : List ℕ)
    → Distinct (block ∷ rest)
    → Chain h.mem true 0 (block ∷ rest)
    → Chain (unlink_large block 0 (head_of rest) c h).mem true 0 rest
first-Chain h block c rest d l =
    let away = head_of-other block rest l.0 d.0 in
    splice-rest h.mem (unlink_large block 0 (head_of rest) c h).mem block 0 rest
      (unlink_large-Spliced h block 0 (head_of rest) c l.0 (λ e. omega (arith, l.0, e))
        (λ e. away (sym e)) (λ nz. absurd (nz refl)) (head_of-aligned h.mem block rest l.3))
      d (NotIn-zero h.mem block rest l.3) l.3

behind-Chain :
    (h : Heap) (block c f : ℕ) (fs rest : List ℕ)
    → Distinct (f ∷ fs ++ block ∷ rest)
    → Chain h.mem true 0 (f ∷ fs ++ block ∷ rest)
    → Chain (unlink_large block (last_of f fs) (head_of rest) c h).mem true 0 (f ∷ fs ++ rest)
behind-Chain h block c f fs rest d l =
    let mid = middle-both h.mem 0 block f fs rest l in
    let sides = Distinct-front block (f ∷ fs) rest d in
    let away = head_of-other block rest mid.2.0 sides.1 in
    splice-front h.mem (unlink_large block (last_of f fs) (head_of rest) c h).mem block 0 f fs rest
      (unlink_large-Spliced h block (last_of f fs) (head_of rest) c mid.2.0
        (last_of-other block f fs sides.0.0 sides.0.1) (λ e. away (sym e)) (λ nz. mid.0)
        (head_of-aligned h.mem block rest mid.2.3))
      d l

-- Removal of a block of more than 16 bytes. Its condition: the blocks of the list of its class are
-- distinct and linked both ways, and the block is one of them. Then the list is linked without the
-- block, in the same order, and the first blocks of the other lists are as before.
pub fix_free_list_large-Unlinked :
    (h : Heap) (fuel block : ℕ) (front rest : List ℕ)
    → (get_size h.mem block == min_block_size) ≡ false
    → Distinct (front ++ block ∷ rest)
    → Linked (get_size h.mem block) h (front ++ block ∷ rest)
    → Unlinked (get_size h.mem block) h (fix_free_list fuel block h) (front ++ rest)
fix_free_list_large-Unlinked h fuel block [] rest large d l =
    let size = get_size h.mem block in
    let chain = subst (λ b. Chain h.mem (not b) 0 (block ∷ rest)) large l.1 in
    subst (λ h'. Unlinked size h h' rest)
      (sym (fix_large h fuel block 0 (head_of rest) large (chain.2 refl) chain.1))
      (large-Unlinked h size block 0 rest rest large (λ _. refl) (λ e. cc)
        (first-Chain h block (find_seg_list_class size) rest d chain))
fix_free_list_large-Unlinked h fuel block (f ∷ fs) rest large d l =
    let size = get_size h.mem block in
    let bs = f ∷ fs ++ rest in
    let chain = subst (λ b. Chain h.mem (not b) 0 (f ∷ fs ++ block ∷ rest)) large l.1 in
    let mid = middle-both h.mem 0 block f fs rest chain in
    let nonzero = aligned_nonzero (last_of f fs) mid.0 in
    subst (λ h'. Unlinked size h h' bs)
      (sym (fix_large h fuel block (last_of f fs) (head_of rest) large mid.1 mid.2.1))
      (large-Unlinked h size block (last_of f fs) bs rest large (λ e. cc) (λ _. l.0)
        (behind-Chain h block (find_seg_list_class size) f fs rest d chain))
