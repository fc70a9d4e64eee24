-- ===== src/Mm/Contract/Calls.antt =====
-- Any sequence of calls of the allocator, from before the first.
use computer_systems_project.Mm.Contract.Held.{
  payloads, enter, gained, found, Holding, served-Holding, Given, Given-Holding,
}
use computer_systems_project.Base.{
  ℕ, ◌+◌, ◌-◌, ◌*◌, ◌/◌, ◌%◌, ◌^◌, ◌<◌, ◌≤◌, ◌≡◌, refl, sym, ap, subst, ◌∙◌, ◌⊎◌, inl, inr, true,
  false, ◌==◌, if◌then◌else◌, Bool-cases, List, [], ◌∷◌, ◌++◌, arith,
}
use computer_systems_project.Mm.{Memory, get_payload_size, get_size}
use computer_systems_project.Mm.Alloc.{Allocator, mm_init, malloc, free, realloc, calloc}
use computer_systems_project.Mm.Copy.{memset_zero}
use computer_systems_project.Mm.Memlib.{System}
use computer_systems_project.Mm.Contract.{Represents}
use computer_systems_project.Mm.Contract.Start.{Fresh, mm_init-Represents}
use computer_systems_project.Mm.Contract.Serve.{malloc-Serves}
use computer_systems_project.Mm.Contract.Release.{free-Frees}
use computer_systems_project.Mm.Contract.Client.{
  with_mem, Served-pos, client-Represents, Represents-Ordered,
}
use computer_systems_project.Mm.Contract.Calloc.{zeroes, cleared-Served}
use computer_systems_project.Mm.Contract.Realloc.{realloc-Serves}
use computer_systems_project.Mm.Contract.Places.{Ordered-rest, size_of}

-- With the result of a reallocation.
abbrev pub resized : ℕ → List ℕ → List ℕ → List ℕ
resized bp live others = if bp == 0 then live else enter bp others

module _ (sys : System) (rounds : ℕ) (s0 : Allocator) where
  -- The states that calls lead to, each with the addresses that the client holds. It frees and
  -- reallocates only these, and writes only to their payloads.
  pub data Reached : Allocator → List ℕ → Type 0 where
    begin : Reached s0 []
    mallocs :
        {s : Allocator} {live : List ℕ} (size : ℕ)
        → size + 8 ≤ 2 ^ 63
        → Reached s live
        → Reached (malloc sys rounds size s).1 (gained (malloc sys rounds size s).0 live)
    callocs :
        {s : Allocator} {live : List ℕ} (elements size : ℕ)
        → elements * size + 8 ≤ 2 ^ 63
        → Reached s live
        → Reached
            (calloc sys rounds elements size s).1
            (gained (calloc sys rounds elements size s).0 live)
    frees :
        {s : Allocator} (l r : List ℕ) (bp : ℕ)
        → Reached s (l ++ bp ∷ r)
        → Reached (free rounds bp s) (l ++ r)
    frees_null : {s : Allocator} {live : List ℕ} → Reached s live → Reached (free rounds 0 s) live
    reallocs :
        {s : Allocator} (l r : List ℕ) (bp size : ℕ)
        → 0 < size
        → size + 8 ≤ 2 ^ 63
        → Reached s (l ++ bp ∷ r)
        → Reached
            (realloc sys rounds bp size s).1
            (resized (realloc sys rounds bp size s).0 (l ++ bp ∷ r) (l ++ r))
    reallocs_none :
        {s : Allocator} (l r : List ℕ) (bp : ℕ)
        → Reached s (l ++ bp ∷ r)
        → Reached (realloc sys rounds bp 0 s).1 (l ++ r)
    writes :
        {s : Allocator} (l r : List ℕ) (bp : ℕ) (mem' : Memory)
        → ((y : ℕ)
            → (y < bp) ⊎ (bp + get_payload_size s.heap.mem (bp - 8) ≤ y)
            → mem' y ≡ s.heap.mem y)
        → Reached s (l ++ bp ∷ r)
        → Reached (with_mem s mem') (l ++ bp ∷ r)

module _ (sys : System) (rounds : ℕ) where
  started-Given :
      (size : ℕ) (s : Allocator) (u : List (ℕ × ℕ)) (live : List ℕ)
      → size + 8 ≤ 2 ^ 63
      → Represents rounds s u
      → payloads u ≡ live
      → Given rounds size live (malloc sys rounds size s)
  unfolding malloc
  started-Given size s u live small rep e = elim (Bool-cases (size == 0)) [
    | inl none' ↦
        let started : (s.heap_start == 0) ≡ false = ground (arith, rep.1.sound.start) in
        rw (started, none') (inl (refl, inr (u, rep, e)))
    | inr some' ↦ elim (malloc-Serves sys rounds size s u rep (positive size some') small) [
      | inl f ↦
          inl (ap (λ t. t.0) f, subst (λ t. Holding rounds t.1 live) (sym f) (inr (u, rep, e)))
      | inr v ↦ inr (s, u, e, v)
    ]
  ]
    where
      positive : (n : ℕ) → (n == 0) ≡ false → 0 < n
      positive n e = ground (arith, e)

  -- The first call starts the heap.
  first-Given :
      (size : ℕ) (s : Allocator)
      → size + 8 ≤ 2 ^ 63
      → Fresh rounds s
      → s.heap_start ≡ 0
      → Given rounds size [] (malloc sys rounds size s)
  unfolding malloc
  first-Given size s small fresh unset =
      let null : (s.heap_start == 0) ≡ true = ground (arith, unset) in
      elim (mm_init-Represents sys rounds s fresh) [
        | inl f ↦ rw (null, f) (inl (refl, inl (fresh, unset, refl)))
        | inr rep ↦ elim (Bool-cases (mm_init sys rounds s).0) [
          | inl ok ↦
              let s1 = (mm_init sys rounds s).1 in
              let started : (s1.heap_start == 0) ≡ false = ground (arith, rep.1.sound.start) in
              let same : malloc sys rounds size s1 ≡ malloc sys rounds size s =
                rw (null, ok, started) refl in
              subst (λ t. Given rounds size [] t) same (started-Given size s1 [] [] small rep refl)
          | inr bad ↦ rw (null, bad) (inl (refl, inr ([], rep, refl)))
        ]
      ]

  -- `calloc` clears what it is given.
  cleared-Holding :
      (size : ℕ) (live : List ℕ) (m : ℕ × Allocator)
      → Given rounds size live m
      → Holding rounds (zeroes size m).1 (gained (zeroes size m).0 live)
  cleared-Holding size live m (inl (z, h)) =
      let null : (m.0 == 0) ≡ true = ground (arith, z) in rw null h
  cleared-Holding size live m (inr (s, u, e, v)) =
      let pos = Served-pos rounds s m.1 size m.0 u v in
      let nz : (m.0 == 0) ≡ false = ground (arith, pos) in
      let c = cleared-Served rounds s m.1 size m.0 u (omega (arith, pos)) v in
      let cleared = with_mem m.1 (memset_zero m.0 size m.1.heap.mem) in
      let h = Given-Holding rounds size live (m.0, cleared) (inr (s, u, e, c)) in
      let same : zeroes size m ≡ (m.0, cleared) = rw nz refl in
      subst (λ t. Holding rounds t.1 (gained t.0 live)) (sym same) h

  malloc-Given :
      (size : ℕ) (s : Allocator) (live : List ℕ)
      → size + 8 ≤ 2 ^ 63
      → Holding rounds s live
      → Given rounds size live (malloc sys rounds size s)
  malloc-Given size s live small (inl (fresh, unset, e)) =
      subst (λ t. Given rounds size t (malloc sys rounds size s)) (sym e)
        (first-Given size s small fresh unset)
  malloc-Given size s live small (inr (u, rep, e)) = started-Given size s u live small rep e

  calloc-Holding :
      (elements size : ℕ) (s : Allocator) (live : List ℕ)
      → elements * size + 8 ≤ 2 ^ 63
      → Holding rounds s live
      → Holding rounds
          (calloc sys rounds elements size s).1
          (gained (calloc sys rounds elements size s).0 live)
  unfolding calloc
  calloc-Holding elements size s live small h = elim (Bool-cases (elements == 0)) [
    | inl none' ↦ rw none' h
    | inr some' ↦ elim (Bool-cases (elements * size % 2 ^ 64 / elements == size)) [
      | inl fine ↦
          let plain : elements * size % 2 ^ 64 ≡ elements * size = omega (arith, small) in
          let end : ℕ → ℕ × Allocator = λ t. zeroes t (malloc sys rounds t s) in
          let same : calloc sys rounds elements size s ≡ end (elements * size) =
            rw (some', fine) (ap end plain) in
          subst (λ t. Holding rounds t.1 (gained t.0 live)) (sym same)
            (cleared-Holding (elements * size) live (malloc sys rounds (elements * size) s)
              (malloc-Given (elements * size) s live small h))
      | inr over ↦ rw (some', over) h
    ]
  ]

  -- A call with an address that is held.
  known :
      (s : Allocator) (l r : List ℕ) (bp : ℕ) (P : Type 0)
      → ((x n : ℕ) (lu ru : List (ℕ × ℕ))
          → Represents rounds s (lu ++ (x, n) ∷ ru)
          → bp ≡ x + 8
          → payloads (lu ++ ru) ≡ l ++ r
          → payloads (lu ++ (x, n) ∷ ru) ≡ l ++ bp ∷ r
          → P)
      → Holding rounds s (l ++ bp ∷ r)
      → P
  known s l r bp P use' (inl (_, _, e)) = absurd (not_empty l e)
    where
      not_empty : (l : List ℕ) → l ++ bp ∷ r ≡ [] → ⊥
      not_empty [] e = cc
      not_empty (z ∷ l) e = cc
  known s l r bp P use' (inr (u, rep, e)) =
      let f = found u l r bp e in
      use' f.x f.n f.lefts f.rights (subst (λ t. Represents rounds s t) f.parts rep) f.place
        f.others (ap payloads (sym f.parts) ∙ e)

  free-Holding :
      (s : Allocator) (l r : List ℕ) (bp : ℕ)
      → Holding rounds s (l ++ bp ∷ r)
      → Holding rounds (free rounds bp s) (l ++ r)
  free-Holding s l r bp h =
      known s l r bp (Holding rounds (free rounds bp s) (l ++ r))
        (λ x n lu ru rep at others all.
          subst (λ t. Holding rounds (free rounds t s) (l ++ r)) (sym at)
            (inr (lu ++ ru, (free-Frees rounds s x n lu ru rep).0, others)))
        h

  realloc-Holding :
      (s : Allocator) (l r : List ℕ) (bp size : ℕ)
      → 0 < size
      → size + 8 ≤ 2 ^ 63
      → Holding rounds s (l ++ bp ∷ r)
      → let m = realloc sys rounds bp size s in
        Holding rounds m.1 (resized m.0 (l ++ bp ∷ r) (l ++ r))
  realloc-Holding s l r bp size pos small h =
      known s l r bp (Done bp)
        (λ x n lu ru rep at others all.
          subst Done (sym at) (elim ((realloc-Serves sys rounds size x n s lu ru rep small).0 pos) [
            | inl f ↦ subst (λ t. Holding rounds t.1 (resized t.0 (l ++ bp ∷ r) (l ++ r))) (sym f) h
            | inr v ↦
                let m = realloc sys rounds (x + 8) size s in
                let k = served-Holding rounds size m.0 s m.1 (lu ++ ru) (l ++ r) v.0 others in
                let nz : (m.0 == 0) ≡ false =
                  not_null m.0 (Served-pos rounds s m.1 size m.0 (lu ++ ru) v.0) in
                subst (λ t. Holding rounds m.1 t) (sym (as_new m.0 nz)) k.1
          ]))
        h
    where
      Done : ℕ → Type 0
      Done b =
          Holding rounds (realloc sys rounds b size s).1
            (resized (realloc sys rounds b size s).0 (l ++ bp ∷ r) (l ++ r))

      not_null : (b : ℕ) → 16 ≤ b → (b == 0) ≡ false
      not_null b e = ground (arith, e)

      as_new : (b : ℕ) → (b == 0) ≡ false → resized b (l ++ bp ∷ r) (l ++ r) ≡ enter b (l ++ r)
      as_new b e = rw e refl

  write-Holding :
      (s : Allocator) (l r : List ℕ) (bp : ℕ) (mem' : Memory)
      → ((y : ℕ)
          → (y < bp) ⊎ (bp + get_payload_size s.heap.mem (bp - 8) ≤ y)
          → mem' y ≡ s.heap.mem y)
      → Holding rounds s (l ++ bp ∷ r)
      → Holding rounds (with_mem s mem') (l ++ bp ∷ r)
  unfolding get_payload_size
  write-Holding s l r bp mem' same h =
      known s l r bp (Holding rounds (with_mem s mem') (l ++ bp ∷ r))
        (λ x n lu ru rep at others all.
          let o =
            Ordered-rest s.heap_start (s.memlib.mem_brk - 8) x n lu ru
              (Represents-Ordered rounds s (lu ++ (x, n) ∷ ru) rep) in
          let header : get_size s.heap.mem (bp - 8) ≡ n =
            ap (get_size s.heap.mem) (omega (arith, at)) ∙ size_of rounds s x n lu ru rep in
          let end : bp + (get_size s.heap.mem (bp - 8) - 8) ≡ x + n =
            omega (arith, at, header, o.0) in
          inr (
            lu ++ (x, n) ∷ ru,
            client-Represents rounds s mem' x n lu ru rep (λ y out. same y (elim out [
              | inl a ↦ inl (omega (arith, a, at))
              | inr a ↦ inr (omega (arith, a, end))
            ])),
            all,
          ))
        h

  free_null :
      (s : Allocator) (live : List ℕ)
      → Holding rounds s live
      → Holding rounds (free rounds 0 s) live
  unfolding free
  free_null s live h = h

  realloc_none :
      (s : Allocator) (l r : List ℕ) (bp : ℕ)
      → Holding rounds (free rounds bp s) (l ++ r)
      → Holding rounds (realloc sys rounds bp 0 s).1 (l ++ r)
  unfolding realloc
  realloc_none s l r bp h = h

  -- From an allocator that is not started, with its break at a multiple of 16 and rounds enough for
  -- its space: after any sequence of calls the heap is one whose allocated blocks are those that the
  -- client holds; or, as long as no call has had memory, it is not started and the client holds
  -- nothing.
  pub Reached-Holding :
      (s0 : Allocator)
      → Fresh rounds s0
      → s0.heap_start ≡ 0
      → (s : Allocator) (live : List ℕ) → Reached sys rounds s0 s live
      → Holding rounds s live
  Reached-Holding s0 fresh unset s live begin = inl (fresh, unset, refl)
  Reached-Holding s0 fresh unset s live (mallocs {s = s1} {live = l1} size small c) =
      Given-Holding rounds size l1 (malloc sys rounds size s1)
        (malloc-Given size s1 l1 small (Reached-Holding s0 fresh unset s1 l1 c))
  Reached-Holding s0 fresh unset s live (callocs {s = s1} {live = l1} elements size small c) =
      calloc-Holding elements size s1 l1 small (Reached-Holding s0 fresh unset s1 l1 c)
  Reached-Holding s0 fresh unset s live (frees {s = s1} l r bp c) =
      free-Holding s1 l r bp (Reached-Holding s0 fresh unset s1 (l ++ bp ∷ r) c)
  Reached-Holding s0 fresh unset s live (frees_null {s = s1} {live = l1} c) =
      free_null s1 l1 (Reached-Holding s0 fresh unset s1 l1 c)
  Reached-Holding s0 fresh unset s live (reallocs {s = s1} l r bp size pos small c) =
      realloc-Holding s1 l r bp size pos small (Reached-Holding s0 fresh unset s1 (l ++ bp ∷ r) c)
  Reached-Holding s0 fresh unset s live (reallocs_none {s = s1} l r bp c) =
      realloc_none s1 l r bp
        (free-Holding s1 l r bp (Reached-Holding s0 fresh unset s1 (l ++ bp ∷ r) c))
  Reached-Holding s0 fresh unset s live (writes {s = s1} l r bp mem' same c) =
      write-Holding s1 l r bp mem' same (Reached-Holding s0 fresh unset s1 (l ++ bp ∷ r) c)
