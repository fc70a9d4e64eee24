-- ===== src/Mm/Contract/Serve.antt =====
-- `malloc`.
use computer_systems_project.Mm.Contract.Search.{find_or_extend-Obtains}
use computer_systems_project.Base.{
  ℕ, ◌+◌, ◌-◌, ◌%◌, ◌^◌, ◌<◌, ◌≤◌, ◌≡◌, refl, sym, ap, subst, ◌∙◌, ◌⊎◌, inl, inr, true, false, ◌==◌,
  if◌then◌else◌, List, ◌∷◌, ◌++◌, arith,
}
use computer_systems_project.Mm.{round_up, dsize, header_to_payload}
use computer_systems_project.Mm.Words.{round_up-least}
use computer_systems_project.Mm.Alloc.{
  Allocator, find_or_extend, split_block, malloc_started, malloc,
}
use computer_systems_project.Mm.Memlib.{System}
use computer_systems_project.Mm.Layout.{Block, end_of}
use computer_systems_project.Mm.Layout.Blocks.{At-HoldsAt, At-middle}
use computer_systems_project.Mm.Layout.Merge.{allocated, freed}
use computer_systems_project.Mm.Layout.Split.{Taken}
use computer_systems_project.Mm.Layout.Take.{split_block-Taken}
use computer_systems_project.Mm.Contract.{Ready, Represents, Served}
use computer_systems_project.Mm.Contract.Space.{few, UsedAt-of}
use computer_systems_project.Mm.Contract.Obtain.{Obtained, Obtains}

module _ (sys : System) (rounds : ℕ) (s : Allocator) (bs : List Block)
    (ready : Ready rounds s bs) where
  abbrev p : ℕ
  p = s.heap_start

  -- What `malloc` does with the block that it obtains.
  abbrev finish : (asize : ℕ) → ℕ × Allocator → ℕ × Allocator
  finish asize f =
      if f.0 == 0
      then (0, f.1)
      else (header_to_payload f.0, record f.1 { heap = split_block rounds f.0 asize f.1.heap })

  abbrev Serves : ℕ → ℕ × Allocator → Type 0
  Serves size r = (r ≡ (0, s)) ⊎ Served rounds s r.1 size r.0 (allocated p bs)

  split-Served :
      (size asize block : ℕ) (s1 : Allocator)
      → asize % 16 ≡ 0
      → 16 ≤ asize
      → size + 8 ≤ asize
      → Obtained rounds s s1 bs asize block
      → Served rounds s
          (record s1 { heap = split_block rounds block asize s1.heap })
          size
          (header_to_payload block)
          (allocated p bs)
  unfolding header_to_payload
  split-Served size asize block s1 aligned least fits o =
      let r1 = o.ready in
      let p1 = s1.heap_start in
      let q = end_of p1 o.front in
      let bs1 = o.front ++ freed o.n ∷ o.rest in
      let t =
        split_block-Taken rounds s1.heap p1 o.n asize o.front o.rest r1.lists r1.sound r1.tidy
          aligned least o.fits (few rounds s1 bs1 r1) in
      let t' =
        subst (λ b. Taken s1.heap (split_block rounds b asize s1.heap) p1 b asize bs1) (sym o.place)
          t in
      let residue : q % 16 ≡ 8 =
        (At-HoldsAt s1.heap.mem p1 false true bs1 q (freed o.n) r1.sound.start r1.sound.part
          (At-middle p1 o.front o.rest (freed o.n))).residue in
      let back : block + 8 - 8 ≡ block = omega arith in
      record {
        lefts = t'.lefts;
        rights = t'.rights;
        n = t'.size;
        fits = omega (arith, t'.fits, fits);
        aligned = omega (arith, residue, o.place);
        was = sym o.same ∙ t'.was;
        now = (
          t'.after,
          (record {
            lists = t'.moved.lists;
            sound = t'.moved.sound;
            tidy = t'.tidy;
            at_brk = omega (arith, t'.ends, r1.at_brk);
            in_range = r1.in_range;
            bounded = r1.bounded;
            enough = r1.enough;
          }),
          t'.now ∙ ap (λ b. t'.lefts ++ (b, t'.size) ∷ t'.rights) (sym back),
        );
        kept = λ y i. let u = UsedAt-of p bs y i in t'.moved.used y (o.stays y u) ∙ o.kept y u;
      }

  finish-Serves :
      (size asize : ℕ) (f : ℕ × Allocator)
      → asize % 16 ≡ 0
      → 16 ≤ asize
      → size + 8 ≤ asize
      → Obtains rounds s bs asize f
      → Serves size (finish asize f)
  finish-Serves size asize f aligned least fits (inl e) = inl (ap (finish asize) e)
  finish-Serves size asize f aligned least fits (inr o) =
      let residue =
        (At-HoldsAt f.1.heap.mem f.1.heap_start false true (o.front ++ freed o.n ∷ o.rest)
          (end_of f.1.heap_start o.front) (freed o.n) o.ready.sound.start o.ready.sound.part
          (At-middle f.1.heap_start o.front o.rest (freed o.n))).residue in
      let nonzero : (f.0 == 0) ≡ false = ground (arith, residue, o.place) in
      rw nonzero (inr (split-Served size asize f.0 f.1 aligned least fits o))

  malloc_started-Serves :
      (size : ℕ) → 0 < size → size + 8 ≤ 2 ^ 63 → Serves size (malloc_started sys rounds size s)
  unfolding malloc_started
  malloc_started-Serves size pos small =
      let (q, e, ge, lt) = round_up-least (size + 8) dsize (omega arith) (omega (arith, small)) in
      let asize = round_up (size + 8) dsize in
      let plain : (size + 8) % 2 ^ 64 ≡ size + 8 = omega (arith, small) in
      let run =
        λ (n : ℕ). finish (round_up n dsize) (find_or_extend sys rounds (round_up n dsize) s) in
      subst (λ (r : ℕ × Allocator). Serves size r) (ap run (sym plain))
        (finish-Serves size asize (find_or_extend sys rounds asize s) (omega (arith, e))
          (omega (arith, e, ge, pos)) (omega (arith, ge))
          (find_or_extend-Obtains sys rounds s bs ready asize (omega (arith, lt, small))))

-- `malloc` on a started heap that has the allocated blocks `u`, for 1 to 2 ^ 63 - 8 bytes: it returns
-- NULL and leaves everything as it was, or it returns an aligned address of at least that many bytes
-- in a new allocated block that lies between the others, whose contents are kept.
pub malloc-Serves :
    (sys : System) (rounds size : ℕ) (s : Allocator) (u : List (ℕ × ℕ))
    → Represents rounds s u
    → 0 < size
    → size + 8 ≤ 2 ^ 63
    → let r = malloc sys rounds size s in (r ≡ (0, s)) ⊎ Served rounds s r.1 size r.0 u
unfolding malloc
malloc-Serves sys rounds size s u rep pos small =
    let bs = rep.0 in
    let ready = rep.1 in
    let started : (s.heap_start == 0) ≡ false = ground (arith, ready.sound.start) in
    let asked : (size == 0) ≡ false = ground (arith, pos) in
    let m = malloc_started-Serves sys rounds s bs ready size pos small in
    let e : malloc sys rounds size s ≡ malloc_started sys rounds size s =
      rw (started, asked) refl in
    subst (λ (r : ℕ × Allocator). (r ≡ (0, s)) ⊎ Served rounds s r.1 size r.0 u) (sym e)
      (subst
        (λ t.
          (malloc_started sys rounds size s ≡ (0, s))
          ⊎ Served rounds s (malloc_started sys rounds size s).1 size
              (malloc_started sys rounds size s).0 t)
        rep.2 m)
