-- ===== src/Mm/Contract/Refuse.antt =====
-- When `malloc` returns NULL.
use computer_systems_project.Base.{
  ℕ, ◌+◌, ◌%◌, ◌^◌, ◌<◌, ◌≤◌, ◌≡◌, ◌≢◌, refl, sym, ap, subst, ◌∙◌, inl, inr, Bool, true, false, not,
  ◌==◌, ==→eq, leb, if◌then◌else◌, Bool-cases, Option, none, List, [], ◌∷◌, ◌++◌, arith,
}
use computer_systems_project.Mm.{
  max, round_up, dsize, get_size, header_to_payload, find_seg_list_class,
}
use computer_systems_project.Mm.Words.{round_up-least}
use computer_systems_project.Mm.Classes.{class_mono, class_range}
use computer_systems_project.Mm.Alloc.{
  Allocator, chunksize, extend_with, extend_heap, find_fit, find_or_extend, malloc_started, malloc,
}
use computer_systems_project.Mm.Memlib.{System, Memlib, mem_sbrk}
use computer_systems_project.Mm.Layout.{Block, end_of, At, In}
use computer_systems_project.Mm.Layout.Blocks.{At-HoldsAt, At-middle}
use computer_systems_project.Mm.Layout.Merge.{Tidy, freed}
use computer_systems_project.Mm.Layout.Fit.{find_fit-FindsFrom}
use computer_systems_project.Mm.Contract.{Ready}
use computer_systems_project.Mm.Contract.Space.{mem_sbrk-Extends, few}
use computer_systems_project.Mm.Contract.Obtain.{extend_heap-Obtains}

Tidy-At :
    (p : ℕ) (pa : Bool) (bs : List Block) (x : ℕ) (a : Block)
    → Tidy pa bs
    → At p bs x a
    → a.listed ≡ not a.alloc
Tidy-At p pa [] x a t at = absurd at
Tidy-At p pa (b ∷ bs) x a t (inl e) = subst (λ (c : Block). c.listed ≡ not c.alloc) (sym e.1) t.0
Tidy-At p pa (b ∷ bs) x a t (inr at) = Tidy-At (p + b.size) b.alloc bs x a t.2 at

At-end : (p : ℕ) (bs : List Block) (x : ℕ) (a : Block) → At p bs x a → x + a.size ≤ end_of p bs
At-end p [] x a at = absurd at
At-end p (b ∷ bs) x a (inl e) =
    let size : a.size ≡ b.size = ap (λ (c : Block). c.size) e.1 in
    omega (arith, size, e.0, behind (p + b.size) bs)
  where
    behind : (p : ℕ) (bs : List Block) → p ≤ end_of p bs
    behind p [] = omega arith
    behind p (b ∷ bs) = omega (arith, behind (p + b.size) bs)
At-end p (b ∷ bs) x a (inr at) = At-end (p + b.size) bs x a at

module _ (sys : System) (rounds : ℕ) (s : Allocator) (bs : List Block)
    (ready : Ready rounds s bs) where
  abbrev p : ℕ
  p = s.heap_start

  -- No listed block of the classes that are searched fits.
  free_below :
      (asize : ℕ)
      → ((k x : ℕ)
          → find_seg_list_class asize ≤ k
          → k < 14
          → In x (ready.lists k)
          → get_size s.heap.mem x < asize)
      → (x : ℕ) (a : Block) → At p bs x a
      → a.alloc ≡ false
      → a.size < asize
  unfolding get_size
  free_below asize small x a at free = elim (Bool-cases (leb asize a.size)) [
    | inr lt ↦ ground (arith, lt)
    | inl ge ↦
        let le : asize ≤ a.size = ground (arith, ge) in
        let on : a.listed ≡ true = Tidy-At p true bs x a ready.tidy at ∙ ap not free in
        let i = ready.sound.in_list x a at on in
        let bounded : a.size < 2 ^ 63 =
          omega (arith, At-end p bs x a at, ready.at_brk, ready.in_range, ready.bounded) in
        let known =
          At-HoldsAt s.heap.mem p false true bs x a ready.sound.start ready.sound.part at in
        let lt =
          small (find_seg_list_class a.size) x (class_mono asize a.size le bounded)
            (class_range a.size) i in
        absurd (omega (arith, lt, known.holds.header.size_is, le))
  ]

  -- The heap cannot be extended.
  pub extend_fails :
      (size n : ℕ)
      → round_up size dsize ≡ n
      → n % 16 ≡ 0
      → 16 < n
      → (extend_heap sys rounds size s).0 ≡ 0
      → (mem_sbrk sys n s.memlib).0 ≡ none
  unfolding extend_heap extend_with
  extend_fails size n rounded aligned large z = elim (mem_sbrk-Extends sys n s.memlib) [
    | inl e ↦ ap (λ (t : Option ℕ × Memlib). t.0) e
    | inr (l, e, brk, _, _, _) ↦
        let same : (extend_heap sys rounds size s).1.memlib ≡ l =
          ap
            (λ k.
              (extend_with sys rounds k (mem_sbrk sys k s.memlib).0 (mem_sbrk sys k s.memlib).1
                s).1.memlib)
            rounded
          ∙ ap (λ (t : Option ℕ × Memlib). (extend_with sys rounds n t.0 t.1 s).1.memlib) e in
        elim (extend_heap-Obtains sys rounds s bs ready size n rounded aligned large) [
          | inl f ↦
              let old : l.mem_brk ≡ s.memlib.mem_brk =
                ap (λ (m : Memlib). m.mem_brk) (sym same)
                ∙ ap (λ (r : ℕ × Allocator). r.1.memlib.mem_brk) f in
              absurd (omega (arith, old, brk, large))
          | inr o ↦
              let s1 = (extend_heap sys rounds size s).1 in
              let known =
                At-HoldsAt s1.heap.mem s1.heap_start false true (o.front ++ freed o.n ∷ o.rest)
                  (end_of s1.heap_start o.front) (freed o.n) o.ready.sound.start o.ready.sound.part
                  (At-middle s1.heap_start o.front o.rest (freed o.n)) in
              absurd (omega (arith, known.residue, o.place, z))
        ]
  ]

  max_bounds : (a b : ℕ) → (a ≤ max a b) × (b ≤ max a b) × (max a b ≤ a + b)
  unfolding max
  max_bounds a b = (ground arith, ground arith, ground arith)

  no_space :
      (asize : ℕ)
      → asize + 8 ≤ 2 ^ 63 + 24
      → (find_or_extend sys rounds asize s).0 ≡ 0
      → ((x : ℕ) (a : Block) → At p bs x a → a.alloc ≡ false → a.size < asize)
        × ((mem_sbrk sys (round_up (max asize chunksize) dsize) s.memlib).0 ≡ none)
  unfolding find_or_extend
  no_space asize small z =
      let m = max_bounds asize chunksize in
      let (q, e, ge, lt) =
        round_up-least (max asize chunksize) dsize (omega arith) (omega (arith, m.2, small)) in
      elim (find_fit-FindsFrom rounds asize s.heap p bs ready.lists ready.sound
        (few rounds s bs ready)) [
          | inl f ↦
              let extends : (extend_heap sys rounds (max asize chunksize) s).0 ≡ 0 =
                by_search f.0 in
              (
                free_below asize f.1,
                extend_fails (max asize chunksize) (round_up (max asize chunksize) dsize) refl
                    (omega (arith, e)) (omega (arith, m.1, ge)) extends,
              )
          | inr g ↦ absurd (g.0 (found (nonzero_test (find_fit rounds asize s.heap) g.0)))
        ]
    where
      nonzero_test : (x : ℕ) → x ≢ 0 → (x == 0) ≡ false
      nonzero_test x nz = ground (arith, nz)

      pick :
          (b : ℕ)
          → (b == 0) ≡ false
          → (if b == 0 then extend_heap sys rounds (max asize chunksize) s else (b, s)).0 ≡ b
      pick b nz = rw nz refl

      by_search :
          find_fit rounds asize s.heap ≡ 0 → (extend_heap sys rounds (max asize chunksize) s).0 ≡ 0
      by_search f =
          sym (
            ap (λ b. (if b == 0 then extend_heap sys rounds (max asize chunksize) s else (b, s)).0)
              f)
          ∙ z

      found : (find_fit rounds asize s.heap == 0) ≡ false → find_fit rounds asize s.heap ≡ 0
      found nz = sym (pick (find_fit rounds asize s.heap) nz) ∙ z

  started_null :
      (size : ℕ)
      → (malloc_started sys rounds size s).0 ≡ 0
      → (find_or_extend sys rounds (round_up ((size + 8) % 2 ^ 64) dsize) s).0 ≡ 0
  unfolding malloc_started header_to_payload
  started_null size z =
      elim (Bool-cases
        ((find_or_extend sys rounds (round_up ((size + 8) % 2 ^ 64) dsize) s).0 == 0)) [
          | inl e ↦ ==→eq (find_or_extend sys rounds (round_up ((size + 8) % 2 ^ 64) dsize) s).0 0 e
          | inr e ↦ absurd (omega (arith, simp e at z))
        ]

-- `malloc` on a started heap, for 1 to 2 ^ 63 - 8 bytes, returns NULL only if no free block of the heap
-- has room for the request and its header, and `mem_sbrk` refuses the request or 4096 bytes, whichever
-- is larger, rounded up to a multiple of 16.
pub malloc_refuses :
    (sys : System) (rounds size : ℕ) (s : Allocator) (bs : List Block)
    → Ready rounds s bs
    → 0 < size
    → size + 8 ≤ 2 ^ 63
    → (malloc sys rounds size s).0 ≡ 0
    → ((x : ℕ) (a : Block) → At s.heap_start bs x a → a.alloc ≡ false → a.size < size + 8)
      × ((mem_sbrk sys (round_up (max (round_up (size + 8) dsize) chunksize) dsize) s.memlib).0
          ≡ none)
unfolding malloc
malloc_refuses sys rounds size s bs ready pos small z =
    let started : (s.heap_start == 0) ≡ false = ground (arith, ready.sound.start) in
    let asked : (size == 0) ≡ false = ground (arith, pos) in
    let same : malloc sys rounds size s ≡ malloc_started sys rounds size s =
      rw (started, asked) refl in
    let plain : (size + 8) % 2 ^ 64 ≡ size + 8 = omega (arith, small) in
    let (q, e, ge, lt) = round_up-least (size + 8) dsize (omega arith) (omega (arith, small)) in
    let null : (find_or_extend sys rounds (round_up (size + 8) dsize) s).0 ≡ 0 =
      ap (λ t. (find_or_extend sys rounds (round_up t dsize) s).0) (sym plain)
      ∙ started_null sys rounds s bs ready size (ap (λ (r : ℕ × Allocator). r.0) (sym same) ∙ z) in
    let n =
      no_space sys rounds s bs ready (round_up (size + 8) dsize) (omega (arith, lt, small)) null in
    (
      (λ x a at free.
          let known =
            At-HoldsAt s.heap.mem s.heap_start false true bs x a ready.sound.start ready.sound.part
              at in
          omega (arith, n.0 x a at free, known.holds.aligned, e, lt)),
      n.1,
    )
