-- ===== src/Mm/Contract/Obtain.antt =====
-- `extend_heap` and the search: a free block that is large enough.
use computer_systems_project.Base.{
  ℕ, ◌%◌, ◌<◌, ◌≤◌, ◌≡◌, refl, sym, ap, subst, ◌∙◌, ◌⊎◌, inl, inr, false, Option, List, [], ◌∷◌,
  ◌++◌, arith,
}
use computer_systems_project.Mm.{round_up, dsize}
use computer_systems_project.Mm.Alloc.{
  Allocator, coalesce_block, extended, extend_with, extend_heap,
}
use computer_systems_project.Mm.Memlib.{System, Memlib, mem_sbrk}
use computer_systems_project.Mm.Lists.{Heap}
use computer_systems_project.Mm.Layout.{Block, end_of, count_listed}
use computer_systems_project.Mm.Layout.Blocks.{end_of-append, count_listed-append, At-left}
use computer_systems_project.Mm.Layout.Frame.{UsedAt}
use computer_systems_project.Mm.Layout.Merge.{allocated, allocated-append, pending, freed}
use computer_systems_project.Mm.Layout.Combine.{coalesce_block-Coalesced}
use computer_systems_project.Mm.Layout.Grow.{mem2, grown-Moved, extended_eq}
use computer_systems_project.Mm.Contract.{Ready}
use computer_systems_project.Mm.Contract.Space.{mem_sbrk-Extends, few}

-- A free block of at least `asize` bytes at `r`; the allocated blocks and what is in them are kept.
pub record Obtained (rounds : ℕ) (s s' : Allocator) (bs : List Block) (asize r : ℕ) : Type 0 where
  pub front : List Block
  pub rest : List Block
  pub n : ℕ
  pub place : r ≡ end_of s'.heap_start front
  pub fits : asize ≤ n
  pub ready : Ready rounds s' (front ++ freed n ∷ rest)
  pub same : allocated s'.heap_start (front ++ freed n ∷ rest) ≡ allocated s.heap_start bs
  pub kept : (y : ℕ) → UsedAt s.heap_start bs y → s'.heap.mem y ≡ s.heap.mem y
  pub stays : (y : ℕ) → UsedAt s.heap_start bs y → UsedAt s'.heap_start (front ++ freed n ∷ rest) y

-- What `extend_heap` and `find_or_extend` give: 0 and the state as it was, or a free block.
abbrev pub Obtains : (rounds : ℕ) → Allocator → List Block → ℕ → ℕ × Allocator → Type 0
Obtains rounds s bs asize r = (r ≡ (0, s)) ⊎ Obtained rounds s r.1 bs asize r.0

module _ (sys : System) (rounds : ℕ) (s : Allocator) (bs : List Block)
    (ready : Ready rounds s bs) where
  abbrev p : ℕ
  p = s.heap_start

  pub extend_heap-Obtains :
      (size n : ℕ)
      → round_up size dsize ≡ n
      → n % 16 ≡ 0
      → 16 < n
      → Obtains rounds s bs n (extend_heap sys rounds size s)
  unfolding extend_heap extend_with
  extend_heap-Obtains size n rounded aligned large = elim (mem_sbrk-Extends sys n s.memlib) [
    | inl e ↦ inl (by_size ∙ ap (λ (t : Option ℕ × Memlib). extend_with sys rounds n t.0 t.1 s) e)
    | inr (l', e, brk, top, _, room) ↦
        let h2 = record s.heap { mem = mem2 s.heap p n bs ready.lists ready.sound aligned large } in
        let m = grown-Moved s.heap p n bs ready.lists ready.sound aligned large in
        let g = bs ++ pending n false ∷ [] in
        let short : count_listed g < rounds =
          omega (arith, few rounds s bs ready, count_listed-append bs (pending n false ∷ [])) in
        let c = coalesce_block-Coalesced rounds h2 p n bs [] m.lists m.sound ready.tidy tt short in
        let result = coalesce_block rounds (end_of p bs) h2 in
        let s' = record s { heap = result.1; memlib = l' } in
        let ext =
          ap (λ t. extended rounds t n s.heap) (sym ready.at_brk)
          ∙ extended_eq s.heap p n bs ready.lists ready.sound aligned large rounds in
        let all : extend_heap sys rounds size s ≡ (result.0, s') =
          by_size
          ∙ ap (λ (t : Option ℕ × Memlib). extend_with sys rounds n t.0 t.1 s) e
          ∙ (ap (λ (t : ℕ × Heap). (t.0, record s { heap = t.1; memlib = l' })) ext) in
        let long = c.ends ∙ end_of-append p bs (pending n false ∷ []) in
        inr (
          subst (λ (t : ℕ × Allocator). Obtained rounds s t.1 bs n t.0) (sym all)
            (record {
              front = c.front;
              rest = c.rest;
              n = c.size;
              place = c.place;
              fits = c.bigger;
              ready = record {
                lists = c.moved.lists;
                sound = c.moved.sound;
                tidy = c.tidy;
                at_brk = omega (arith, long, brk, ready.at_brk);
                in_range = omega (arith, brk, top, room);
                bounded = omega (arith, top, ready.bounded);
                enough = omega (arith, top, ready.enough);
              };
              same =
                  c.same
                  ∙ allocated-append p bs (pending n false ∷ [])
                  ∙ append_nil (allocated p bs);
              kept = λ y u. c.moved.used y (stays y u) ∙ m.used y u;
              stays = λ y u. c.stays y (stays y u);
            }))
  ]
    where
      by_size :
          extend_heap sys rounds size s
          ≡ extend_with sys rounds n (mem_sbrk sys n s.memlib).0 (mem_sbrk sys n s.memlib).1 s
      by_size =
          ap
            (λ k.
              extend_with sys rounds k (mem_sbrk sys k s.memlib).0 (mem_sbrk sys k s.memlib).1 s)
            rounded

      append_nil : (xs : List (ℕ × ℕ)) → xs ++ [] ≡ xs
      append_nil [] = refl
      append_nil (x ∷ xs) = ap (λ t. x ∷ t) (append_nil xs)

      stays : (y : ℕ) → UsedAt p bs y → UsedAt p (bs ++ pending n false ∷ []) y
      stays y u = record {
        x = u.x;
        a = u.a;
        at = At-left p bs (pending n false ∷ []) u.x u.a u.at;
        used = u.used;
        behind = u.behind;
        before = u.before;
      }
