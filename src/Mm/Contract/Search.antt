-- ===== src/Mm/Contract/Search.antt =====
-- The block that `malloc` takes: from a free list, or from new space.
use computer_systems_project.Base.{
  ℕ, ◌+◌, ◌^◌, ◌<◌, ◌≤◌, ◌≡◌, ◌≢◌, refl, sym, ap, subst, ◌∙◌, inl, inr, Bool, true, false, ◌==◌,
  List, [], ◌∷◌, ◌++◌, arith,
}
use computer_systems_project.Mm.{max, round_up, dsize, get_size}
use computer_systems_project.Mm.Words.{round_up-least}
use computer_systems_project.Mm.Alloc.{Allocator, chunksize, extend_heap, find_fit, find_or_extend}
use computer_systems_project.Mm.Memlib.{System}
use computer_systems_project.Mm.Layout.{Block, end_of, At}
use computer_systems_project.Mm.Layout.Blocks.{At-HoldsAt}
use computer_systems_project.Mm.Layout.Frame.{UsedAt}
use computer_systems_project.Mm.Layout.Merge.{allocated, freed}
use computer_systems_project.Mm.Layout.Fit.{find_fit-FindsFrom}
use computer_systems_project.Mm.Contract.{Ready}
use computer_systems_project.Mm.Contract.Space.{few}
use computer_systems_project.Mm.Contract.Obtain.{Obtained, Obtains, extend_heap-Obtains}

-- The place of a block in the list.
record Placed (p : ℕ) (bs : List Block) (x : ℕ) (a : Block) : Type 0 where
  front : List Block
  rest : List Block
  parts : bs ≡ front ++ a ∷ rest
  place : x ≡ end_of p front

At-Placed : (p : ℕ) (bs : List Block) (x : ℕ) (a : Block) → At p bs x a → Placed p bs x a
At-Placed p [] x a at = absurd at
At-Placed p (b ∷ bs) x a (inl e) = record {
  front = [];
  rest = bs;
  parts = ap (λ t. t ∷ bs) (sym e.1);
  place = e.0;
}
At-Placed p (b ∷ bs) x a (inr at) =
    let r = At-Placed (p + b.size) bs x a at in
    record { front = b ∷ r.front; rest = r.rest; parts = ap (λ t. b ∷ t) r.parts; place = r.place }

is_freed : (a : Block) → a.alloc ≡ false → a.listed ≡ true → a ≡ freed a.size
is_freed a free on =
    ap (λ (t : Bool). record { size = a.size; alloc = t; listed = a.listed }) free
    ∙ ap (λ (t : Bool). record { size = a.size; alloc = false; listed = t }) on

module _ (sys : System) (rounds : ℕ) (s : Allocator) (bs : List Block)
    (ready : Ready rounds s bs) where
  abbrev p : ℕ
  p = s.heap_start

  Obtained-listed :
      (asize r : ℕ) (a : Block)
      → At p bs r a
      → a.listed ≡ true
      → asize ≤ get_size s.heap.mem r
      → Obtained rounds s s bs asize r
  unfolding get_size
  Obtained-listed asize r a at on fits =
      let known = At-HoldsAt s.heap.mem p false true bs r a ready.sound.start ready.sound.part at in
      let size : get_size s.heap.mem r ≡ a.size = known.holds.header.size_is in
      let pl = At-Placed p bs r a at in
      let e : bs ≡ pl.front ++ freed a.size ∷ pl.rest =
        pl.parts ∙ ap (λ t. pl.front ++ t ∷ pl.rest) (is_freed a (known.holds.free on) on) in
      record {
        front = pl.front;
        rest = pl.rest;
        n = a.size;
        place = pl.place;
        fits = omega (arith, size, fits);
        ready = subst (λ t. Ready rounds s t) e ready;
        same = ap (allocated p) (sym e);
        kept = λ y u. refl;
        stays = λ y u. subst (λ t. UsedAt p t y) e u;
      }

  weaker :
      (n asize : ℕ) (r : ℕ × Allocator)
      → asize ≤ n
      → Obtains rounds s bs n r
      → Obtains rounds s bs asize r
  weaker n asize r le (inl e) = inl e
  weaker n asize r le (inr o) = inr (record {
    front = o.front;
    rest = o.rest;
    n = o.n;
    place = o.place;
    fits = omega (arith, o.fits, le);
    ready = o.ready;
    same = o.same;
    kept = o.kept;
    stays = o.stays;
  })

  max_bounds : (a b : ℕ) → (a ≤ max a b) × (b ≤ max a b) × (max a b ≤ a + b)
  unfolding max
  max_bounds a b = (ground arith, ground arith, ground arith)

  pub find_or_extend-Obtains :
      (asize : ℕ)
      → asize < 2 ^ 63 + 24
      → Obtains rounds s bs asize (find_or_extend sys rounds asize s)
  unfolding find_or_extend
  find_or_extend-Obtains asize small =
      elim (find_fit-FindsFrom rounds asize s.heap p bs ready.lists ready.sound
        (few rounds s bs ready)) [
          | inl f ↦
              let m = max_bounds asize chunksize in
              let (q, e, ge, lt) =
                round_up-least (max asize chunksize) dsize (omega arith)
                  (omega (arith, m.2, small)) in
              let n = round_up (max asize chunksize) dsize in
              let o =
                extend_heap-Obtains sys rounds s bs ready (max asize chunksize) n refl
                  (omega (arith, e)) (omega (arith, m.1, ge)) in
              rw f.0 (
                weaker n asize (extend_heap sys rounds (max asize chunksize) s)
                  (omega (arith, m.0, ge)) o)
          | inr g ↦
              let (a, at, on, _) =
                ready.sound.in_block g.1.0 (find_fit rounds asize s.heap) g.1.1 g.1.2 in
              let nonzero : (find_fit rounds asize s.heap == 0) ≡ false =
                nonzero_test (find_fit rounds asize s.heap) g.0 in
              rw nonzero (inr (Obtained-listed asize (find_fit rounds asize s.heap) a at on g.1.3))
        ]
    where
      nonzero_test : (x : ℕ) → x ≢ 0 → (x == 0) ≡ false
      nonzero_test x nz = ground (arith, nz)
