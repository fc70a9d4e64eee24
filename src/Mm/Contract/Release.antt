-- ===== src/Mm/Contract/Release.antt =====
-- `free`.
use computer_systems_project.Mm.Contract.Entry.{Tidy-parts, Entry-of}
use computer_systems_project.Base.{
  ℕ, ◌+◌, ◌-◌, ◌<◌, ◌≡◌, refl, sym, ap, subst, ◌∙◌, Bool, true, false, not, ◌==◌, if◌then◌else◌,
  List, [], ◌∷◌, ◌++◌, arith,
}
use computer_systems_project.Mm.{
  Memory, min_block_size, get_size, get_pre_min, get_pre_alloc, write_block,
  set_next_block_pre_alloc_pre_min, payload_to_header,
}
use computer_systems_project.Mm.Alloc.{Allocator, on_mem, coalesce_block, free_block, free}
use computer_systems_project.Mm.Lists.{Heap}
use computer_systems_project.Mm.Layout.{
  Block, end_of, min_after, alloc_after, Holds, count_listed, Sound,
}
use computer_systems_project.Mm.Layout.Blocks.{count_listed-append}
use computer_systems_project.Mm.Layout.Frame.{UsedAt}
use computer_systems_project.Mm.Layout.Outside.{used-outside}
use computer_systems_project.Mm.Layout.Writes.{Wrote, write_block-Wrote}
use computer_systems_project.Mm.Layout.Merge.{
  allocated, allocated-append, Tidy, pending, freed, write-Sound, outside, after_mem,
}
use computer_systems_project.Mm.Layout.Coalesce.{Holds-of, ends-swap}
use computer_systems_project.Mm.Layout.Combine.{coalesce_block-Coalesced}
use computer_systems_project.Mm.Contract.{Ready, Represents, InUse}
use computer_systems_project.Mm.Contract.Space.{few, UsedAt-of}

module _ (rounds : ℕ) (s : Allocator) (n : ℕ) (front rest : List Block)
    (ready : Ready rounds s (front ++ pending n true ∷ rest)) where
  abbrev p : ℕ
  p = s.heap_start

  abbrev q : ℕ
  q = end_of p front

  abbrev h : Heap
  h = s.heap

  abbrev before : List Block
  before = front ++ pending n true ∷ rest

  abbrev between : List Block
  between = front ++ pending n false ∷ rest

  hd : Holds h.mem q (min_after false front) (alloc_after true front) (pending n true)
  hd = Holds-of h p front rest (pending n true) ready.lists ready.sound

  tidy : Tidy true front × (false ≡ false) × Tidy true rest
  tidy = Tidy-parts true front rest (pending n true) ready.tidy

  abbrev m1 : Memory
  m1 =
      write_block q n (min_after false front) (alloc_after true front) false
        (not (n == min_block_size)) h.mem

  wants : min_block_size < n → not (n == min_block_size) ≡ true
  wants large = ground (arith, large)

  wrote : Wrote h.mem m1 q n (min_after false front) (alloc_after true front) false
  wrote =
      write_block-Wrote h.mem q n (min_after false front) (alloc_after true front) false
        (not (n == min_block_size)) hd.aligned hd.least (λ _ large. wants large)

  abbrev h2 : Heap
  h2 = record h {
    mem =
        after_mem h m1 p n false front (pending n true ∷ []) rest ready.lists ready.sound (refl, tt)
          refl hd.aligned hd.least wrote;
  }

  sound2 : Sound h2 p between ready.lists
  sound2 =
      write-Sound h m1 p n false front (pending n true ∷ []) rest ready.lists ready.sound (refl, tt)
        refl hd.aligned hd.least wrote

  kept2 : (y : ℕ) → UsedAt p between y → h2.mem y ≡ h.mem y
  kept2 y u =
      outside h m1 p n false front (pending n true ∷ []) rest ready.lists ready.sound (refl, tt)
        refl hd.aligned hd.least wrote y
        (used-outside p front (pending n false ∷ []) rest y (refl, tt) u)

  size_is : get_size h.mem q ≡ n
  unfolding get_size
  size_is = hd.header.size_is

  pre_alloc_is : get_pre_alloc h.mem q ≡ alloc_after true front
  unfolding get_pre_alloc
  pre_alloc_is = hd.header.pre_alloc_is

  pre_min_is : get_pre_min h.mem q ≡ min_after false front
  unfolding get_pre_min
  pre_min_is = hd.header.pre_min_is

  both_branches :
      (t : Bool) (g : Heap)
      → (if not t
          then on_mem (set_next_block_pre_alloc_pre_min q false false) g
          else on_mem (set_next_block_pre_alloc_pre_min q true false) g)
        ≡ on_mem (set_next_block_pre_alloc_pre_min q t false) g
  both_branches true g = refl
  both_branches false g = refl

  free_block_eq : free_block rounds q h ≡ (coalesce_block rounds q h2).1
  unfolding free_block
  free_block_eq =
      let wr =
        λ (k : ℕ) (a m : Bool). on_mem (write_block q k m a false (not (k == min_block_size))) h in
      let run = λ (k : ℕ) (a m : Bool).
        (coalesce_block rounds q (
          if not (k == min_block_size)
          then on_mem (set_next_block_pre_alloc_pre_min q false false) (wr k a m)
          else on_mem (set_next_block_pre_alloc_pre_min q true false) (wr k a m))).1 in
      ap (λ k. run k (get_pre_alloc h.mem q) (get_pre_min h.mem q)) size_is
      ∙ ap (λ a. run n a (get_pre_min h.mem q)) pre_alloc_is
      ∙ ap (λ m. run n (alloc_after true front) m) pre_min_is
      ∙ ap (λ g. (coalesce_block rounds q g).1)
          (both_branches (n == min_block_size)
            (wr n (alloc_after true front) (min_after false front)))

  pub free_block-Frees :
      let s' = record s { heap = free_block rounds q h } in
      Represents rounds s' (allocated p front ++ allocated (q + n) rest)
      × ((y : ℕ) → UsedAt p between y → s'.heap.mem y ≡ s.heap.mem y)
  free_block-Frees =
      let same_count : count_listed between < rounds = omega (
        arith,
        few rounds s before ready,
        count_listed-append front (pending n true ∷ rest),
        count_listed-append front (pending n false ∷ rest),
      ) in
      let c =
        coalesce_block-Coalesced rounds h2 p n front rest ready.lists sound2 tidy.0 tidy.2
          same_count in
      let after = c.front ++ freed c.size ∷ c.rest in
      let ends =
        c.ends ∙ ends-swap p front (pending n true ∷ []) (pending n false ∷ []) rest refl in
      let r : Ready rounds (record s { heap = (coalesce_block rounds q h2).1 }) after = record {
        lists = c.moved.lists;
        sound = c.moved.sound;
        tidy = c.tidy;
        at_brk = omega (arith, ends, ready.at_brk);
        in_range = ready.in_range;
        bounded = ready.bounded;
        enough = ready.enough;
      } in
      subst
        (λ g.
          Represents rounds (record s { heap = g }) (allocated p front ++ allocated (q + n) rest)
          × ((y : ℕ) → UsedAt p between y → g.mem y ≡ s.heap.mem y))
        (sym free_block_eq)
        (
          (after, r, c.same ∙ allocated-append p front (pending n false ∷ rest)),
          (λ y u. c.moved.used y u ∙ kept2 y u),
        )

-- `free` on a heap with the allocated blocks `lefts`, one of `n` bytes at `x`, and `rights`: given the
-- address behind that block's header it leaves a heap with the allocated blocks `lefts` and `rights`,
-- and what is in these is kept.
pub free-Frees :
    (rounds : ℕ) (s : Allocator) (x n : ℕ) (lefts rights : List (ℕ × ℕ))
    → Represents rounds s (lefts ++ (x, n) ∷ rights)
    → let s' = free rounds (x + 8) s in
      Represents rounds s' (lefts ++ rights)
      × ((y : ℕ) → InUse (lefts ++ rights) y → s'.heap.mem y ≡ s.heap.mem y)
unfolding free payload_to_header
free-Frees rounds s x n lefts rights rep =
    let p = s.heap_start in
    let d = Entry-of p true rep.0 x n lefts rights rep.1.tidy rep.2 in
    let q = end_of p d.front in
    let ready = subst (λ t. Ready rounds s t) d.parts rep.1 in
    let f = free_block-Frees rounds s n d.front d.rest ready in
    let not_null : (x + 8 == 0) ≡ false = ground arith in
    let at_x : x + 8 - 8 ≡ q = omega (arith, d.place) in
    let now : allocated p d.front ++ allocated (q + n) d.rest ≡ lefts ++ rights =
      ap (λ t. t ++ allocated (q + n) d.rest) d.lefts ∙ ap (λ t. lefts ++ t) d.rights in
    let e : free rounds (x + 8) s ≡ record s { heap = free_block rounds q s.heap } =
      rw (not_null, at_x) refl in
    let still = λ (y : ℕ) (i : InUse (lefts ++ rights) y). f.1 y (
      UsedAt-of p (d.front ++ pending n false ∷ d.rest) y (
        subst (λ t. InUse t y) (sym (allocated-append p d.front (pending n false ∷ d.rest) ∙ now))
          i)) in
    subst
      (λ (s' : Allocator).
        Represents rounds s' (lefts ++ rights)
        × ((y : ℕ) → InUse (lefts ++ rights) y → s'.heap.mem y ≡ s.heap.mem y))
      (sym e)
      (
        subst (λ t. Represents rounds (record s { heap = free_block rounds q s.heap }) t) now f.0,
        still,
      )
