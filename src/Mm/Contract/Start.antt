-- ===== src/Mm/Contract/Start.antt =====
-- `mm_init`, and `malloc` on a heap that need not be started.
use computer_systems_project.Base.{
  ℕ, ◌+◌, ◌*◌, ◌%◌, ◌^◌, ◌<◌, ◌≤◌, ◌≡◌, refl, sym, ap, subst, ◌⊎◌, inl, inr, Bool, true, false, ltb,
  not, ◌==◌, List, Option, none, some, [], ◌∷◌, ◌++◌, arith,
}
use computer_systems_project.Mm.{round_up, pack, store}
use computer_systems_project.Mm.Words.{Says, pack-Says}
use computer_systems_project.Mm.Alloc.{
  Allocator, chunksize, empty_heap, extend_heap, init_with, mm_init,
}
use computer_systems_project.Mm.Memlib.{System, Memlib, mem_sbrk}
use computer_systems_project.Mm.Lists.Chain.{store_self}
use computer_systems_project.Mm.Layout.{Block, end_of, Sound}
use computer_systems_project.Mm.Layout.Blocks.{At-HoldsAt, At-middle}
use computer_systems_project.Mm.Layout.Merge.{allocated, freed}
use computer_systems_project.Mm.Contract.{Ready, Represents}
use computer_systems_project.Mm.Contract.Space.{mem_sbrk-Extends}
use computer_systems_project.Mm.Contract.Obtain.{extend_heap-Obtains}
use computer_systems_project.Mm.Contract.Refuse.{extend_fails}

-- The break of an empty heap.
pub record Fresh (rounds : ℕ) (s : Allocator) : Type 0 where
  pub aligned : s.memlib.mem_brk % 16 ≡ 0
  pub in_range : s.memlib.mem_brk ≤ s.memlib.mem_max_addr
  pub bounded : s.memlib.mem_max_addr < 2 ^ 63
  pub enough : s.memlib.mem_max_addr < 16 * rounds

-- A heap with a free block of at least 4096 bytes and no allocated one.
pub record Begun (rounds : ℕ) (s : Allocator) : Type 0 where
  pub front : List Block
  pub rest : List Block
  pub n : ℕ
  pub large : 4096 ≤ n
  pub ready : Ready rounds s (front ++ freed n ∷ rest)
  pub none_used : allocated s.heap_start (front ++ freed n ∷ rest) ≡ []

-- What `mm_init` leaves with the prologue in place, whether `mem_sbrk` refuses 4096 bytes or not.
abbrev pub Extended : (sys : System) (rounds : ℕ) → Memlib → Bool × Allocator → Type 0
Extended sys rounds l r =
    (((mem_sbrk sys 4096 l).0 ≡ none) × (r.0 ≡ false) × Ready rounds r.1 [])
    ⊎ ((r.0 ≡ true) × Begun rounds r.1)

module _ (sys : System) (rounds : ℕ) (s : Allocator) (fresh : Fresh rounds s) where
  abbrev b : ℕ
  b = s.memlib.mem_brk

  -- The heap of a prologue and an epilogue.
  empty-Sound : Sound (empty_heap b s.heap) (b + 8) [] (λ _. [])
  unfolding empty_heap
  empty-Sound = record {
    start = omega (arith, fresh.aligned);
    part = tt;
    epilogue =
        subst (λ w. Says w 0 false true true)
          (sym (
            store_self (store s.heap.mem b (pack 0 false true true)) (b + 8)
              (pack 0 false true true)))
          (pack-Says 0 false true true refl);
    first = λ c lt. (let e : ltb c 14 ≡ true = ground (arith, lt) in rw e refl);
    chain = λ c lt. tt;
    distinct = λ c lt. tt;
    in_block = λ c x lt i. absurd i;
    in_list = λ x a at on. absurd at;
    counted = refl;
  }

  -- The end of `mm_init` once the prologue has its space.
  init_with-Starts :
      (l : Memlib)
      → l.mem_brk ≡ b + 16
      → l.mem_max_addr ≡ s.memlib.mem_max_addr
      → b + 16 ≤ s.memlib.mem_max_addr
      → Extended sys rounds l (init_with sys rounds (some b) l s)
  unfolding init_with round_up
  init_with-Starts l brk top room =
      let s1 : Allocator = record { heap = empty_heap b s.heap; heap_start = b + 8; memlib = l } in
      let ready : Ready rounds s1 [] = record {
        lists = λ _. [];
        sound = empty-Sound;
        tidy = tt;
        at_brk = omega (arith, brk);
        in_range = omega (arith, brk, top, room);
        bounded = omega (arith, top, fresh.bounded);
        enough = omega (arith, top, fresh.enough);
      } in
      let answer : ℕ × Allocator → Bool × Allocator = λ r. (not (r.0 == 0), r.1) in
      elim (extend_heap-Obtains sys rounds s1 [] ready chunksize 4096 refl refl (omega arith)) [
        | inl e ↦
            let refused =
              extend_fails sys rounds s1 [] ready chunksize 4096 refl refl (omega arith)
                (ap (λ (r : ℕ × Allocator). r.0) e) in
            subst (λ (r : Bool × Allocator). Extended sys rounds l r) (sym (ap answer e))
              (inl (refused, refl, ready))
        | inr o ↦
            let s2 = (extend_heap sys rounds chunksize s1).1 in
            let known =
              At-HoldsAt s2.heap.mem s2.heap_start false true (o.front ++ freed o.n ∷ o.rest)
                (end_of s2.heap_start o.front) (freed o.n) o.ready.sound.start o.ready.sound.part
                (At-middle s2.heap_start o.front o.rest (freed o.n)) in
            let nonzero : not ((extend_heap sys rounds chunksize s1).0 == 0) ≡ true =
              ground (arith, known.residue, o.place) in
            inr (
              nonzero,
              record {
                front = o.front;
                rest = o.rest;
                n = o.n;
                large = o.fits;
                ready = o.ready;
                none_used = o.same;
              },
            )
      ]

  -- `mm_init`, with the break at a multiple of 16. Where `mem_sbrk` refuses 16 bytes it returns false and
  -- changes nothing. Where it grants them and then refuses 4096, it returns false and the heap is ready
  -- without any block. Otherwise it returns true, and the heap is ready, has no allocated block and a
  -- free block of at least 4096 bytes.
  pub mm_init-Starts :
      (((mem_sbrk sys 16 s.memlib).0 ≡ none) × (mm_init sys rounds s ≡ (false, s)))
      ⊎ (((mem_sbrk sys 16 s.memlib).0 ≡ some s.memlib.mem_brk)
          × Extended sys rounds (mem_sbrk sys 16 s.memlib).1 (mm_init sys rounds s))
  unfolding mm_init init_with
  mm_init-Starts = elim (mem_sbrk-Extends sys 16 s.memlib) [
    | inl e ↦ inl (ap (λ (t : Option ℕ × Memlib). t.0) e, ended e)
    | inr (l, e, brk, top, _, room) ↦ inr (
      ap (λ (t : Option ℕ × Memlib). t.0) e,
      subst (λ (t : Option ℕ × Memlib). Extended sys rounds t.1 (init_with sys rounds t.0 t.1 s))
          (sym e) (init_with-Starts l brk top room),
    )
  ]
    where
      ended :
          mem_sbrk sys 16 s.memlib ≡ (none, s.memlib)
          → init_with sys rounds (mem_sbrk sys 16 s.memlib).0 (mem_sbrk sys 16 s.memlib).1 s
            ≡ (false, s)
      ended e = ap (λ (t : Option ℕ × Memlib). init_with sys rounds t.0 t.1 s) e

  pub mm_init-Represents :
      (mm_init sys rounds s ≡ (false, s)) ⊎ Represents rounds (mm_init sys rounds s).1 []
  mm_init-Represents = elim mm_init-Starts [
    | inl f ↦ inl f.1
    | inr (_, inl none') ↦ inr ([], none'.2, refl)
    | inr (_, inr b) ↦ inr (b.1.front ++ freed b.1.n ∷ b.1.rest, b.1.ready, b.1.none_used)
  ]
