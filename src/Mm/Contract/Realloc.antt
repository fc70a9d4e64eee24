-- ===== src/Mm/Contract/Realloc.antt =====
-- `realloc`.
use computer_systems_project.Mm.Contract.Places.{
  append_split, InUse-more, InUse-middle, Ordered-rest, apart, left_of, right_of, size_kept,
  Copied-between,
}
use mathlib.Core.List.{append_assoc}
use computer_systems_project.Base.{
  ℕ, ◌+◌, ◌-◌, ◌%◌, ◌^◌, ◌<◌, ◌≤◌, ◌≡◌, refl, sym, ap, subst, ◌∙◌, ◌⊎◌, inl, inr, true, false, ◌==◌,
  ltb, if◌then◌else◌, List, ◌∷◌, ◌++◌, arith,
}
use computer_systems_project.Mm.{Memory, get_size, get_payload_size, payload_to_header}
use computer_systems_project.Mm.Alloc.{Allocator, on_mem, malloc, free, realloc}
use computer_systems_project.Mm.Copy.{memcpy}
use computer_systems_project.Mm.Memlib.{System}
use computer_systems_project.Mm.Contract.{Represents, InUse, Ordered, Served}
use computer_systems_project.Mm.Contract.Serve.{malloc-Serves}
use computer_systems_project.Mm.Contract.Release.{free-Frees}
use computer_systems_project.Mm.Contract.Client.{
  with_mem, Served-pos, client-Represents, other-Outside, Represents-Ordered,
}
use computer_systems_project.Mm.Contract.Bytes.{Copied, NoOverlap, memcpy_out, memcpy-Copied}

-- Where a block is, if two parts of the list are known.
-- The old block is copied and released; `b` and `k` are the new block's.
module _ (rounds : ℕ) (s s1 : Allocator) (size x n b k : ℕ) (l r L R : List (ℕ × ℕ))
    (new : Represents rounds s1 (L ++ (b, k) ∷ R)) (was : l ++ (x, n) ∷ r ≡ L ++ R)
    (kept : (y : ℕ) → InUse (l ++ (x, n) ∷ r) y → s1.heap.mem y ≡ s.heap.mem y)
    (fits : size + 8 ≤ k) (residue : (b + 8) % 16 ≡ 0) (c : ℕ) (c_le : c ≤ size)
    (c_in : c + 8 ≤ n) where
  abbrev m2 : Memory
  m2 = memcpy (b + 8) (x + 8) c s1.heap.mem

  same : (y : ℕ) → (y ≤ b) ⊎ (b + k ≤ y) → m2 y ≡ s1.heap.mem y
  same y (inl o) = memcpy_out (b + 8) (x + 8) c y s1.heap.mem (inl (omega (arith, o)))
  same y (inr o) = memcpy_out (b + 8) (x + 8) c y s1.heap.mem (inr (omega (arith, o, fits, c_le)))

  copied_rep : Represents rounds (with_mem s1 m2) (L ++ (b, k) ∷ R)
  copied_rep = client-Represents rounds s1 m2 b k L R new same

  released :
      (l1 r1 L1 R1 : List (ℕ × ℕ))
      → L ++ (b, k) ∷ R ≡ l1 ++ (x, n) ∷ r1
      → l1 ++ r1 ≡ L1 ++ (b, k) ∷ R1
      → l ++ r ≡ L1 ++ R1
      → (x + n ≤ b) ⊎ (b + k ≤ x)
      → let s' = free rounds (x + 8) (with_mem s1 m2) in
        Served rounds s s' size (b + 8) (l ++ r) × Copied s.heap.mem s'.heap.mem (x + 8) (b + 8) c
  released l1 r1 L1 R1 before after others far =
      let s' = free rounds (x + 8) (with_mem s1 m2) in
      let f =
        free-Frees rounds (with_mem s1 m2) x n l1 r1
          (subst (λ t. Represents rounds (with_mem s1 m2) t) before copied_rep) in
      let back : b + 8 - 8 ≡ b = omega arith in
      let stays : (y : ℕ) → InUse (L1 ++ (b, k) ∷ R1) y → s'.heap.mem y ≡ m2 y =
        λ y i. f.1 y (subst (λ t. InUse t y) (sym after) i) in
      let mine : (y : ℕ) → b + 8 ≤ y → y < b + 8 + c → s'.heap.mem y ≡ m2 y = λ y lo hi.
        stays y (InUse-middle L1 R1 b k y (omega (arith, lo)) (omega (arith, hi, fits, c_le))) in
      let old : (y : ℕ) → x + 8 ≤ y → y < x + 8 + c → s1.heap.mem y ≡ s.heap.mem y =
        λ y lo hi. kept y (InUse-middle l r x n y (omega (arith, lo)) (omega (arith, hi, c_in))) in
      let no_overlap : NoOverlap (b + 8) (x + 8) (c + 8) = elim far [
        | inl a ↦ inr (omega (arith, a, c_in))
        | inr a ↦ inl (omega (arith, a, fits, c_le))
      ] in
      (
        (record {
          lefts = L1;
          rights = R1;
          n = k;
          fits = fits;
          aligned = residue;
          was = others;
          now =
              subst (λ t. Represents rounds s' t) (after ∙ ap (λ t. L1 ++ (t, k) ∷ R1) (sym back))
                f.0;
          kept = λ y i.
              let i' = InUse-more L1 R1 b k y (subst (λ t. InUse t y) others i) in
              let o =
                other-Outside rounds s1 b k y L R new
                  (subst (λ t. InUse t y) was (InUse-more l r x n y i)) in
              stays y i' ∙ same y o ∙ kept y (InUse-more l r x n y i);
        }),
        Copied-between s.heap.mem s1.heap.mem m2 s'.heap.mem (x + 8) (b + 8) c
            (memcpy-Copied (b + 8) (x + 8) c s1.heap.mem no_overlap) old mine,
      )

  Copied-Served :
      let s' = free rounds (x + 8) (with_mem s1 m2) in
      Served rounds s s' size (b + 8) (l ++ r) × Copied s.heap.mem s'.heap.mem (x + 8) (b + 8) c
  Copied-Served =
      let o = Represents-Ordered rounds s1 (L ++ (b, k) ∷ R) new in
      let low = s1.heap_start in
      let high = s1.memlib.mem_brk - 8 in
      elim (append_split L R l r (x, n) (sym was)) [
        | inl (mid, el, er) ↦
            let e = left_of b k x n l mid L R el in
            released l (mid ++ (b, k) ∷ R) (l ++ mid) R e (sym (append_assoc l mid ((b, k) ∷ R)))
              (ap (λ t. l ++ t) er ∙ sym (append_assoc l mid R))
              (inl (apart low high x n b k l mid R (subst (λ t. Ordered low high t) e o)))
        | inr (mid, el, er) ↦
            let e = right_of b k x n r mid L R er in
            released (L ++ (b, k) ∷ mid) r L (mid ++ r) e (append_assoc L ((b, k) ∷ mid) r)
              (ap (λ t. t ++ r) el ∙ append_assoc L mid r)
              (inr (
                apart low high b k x n L mid r
                  (subst (λ t. Ordered low high t) (ap (λ t. L ++ (b, k) ∷ t) er) o)))
      ]

-- The end of `realloc` for a block and a size.
abbrev moves : (rounds ptr size : ℕ) → ℕ × Allocator → ℕ × Allocator
moves rounds ptr size m =
    let payload = get_payload_size m.1.heap.mem (payload_to_header ptr) in
    let copysize = if ltb size payload then size else payload in
    if m.0 == 0
    then (0, m.1)
    else (m.0, free rounds ptr (record m.1 { heap = on_mem (memcpy m.0 ptr copysize) m.1.heap }))

abbrev Outcome : (rounds size ptr n : ℕ) → Allocator → List (ℕ × ℕ) → ℕ × Allocator → Type 0
Outcome rounds size ptr n s u r =
    (r ≡ (0, s))
    ⊎ (Served rounds s r.1 size r.0 u
        × Copied s.heap.mem r.1.heap.mem ptr r.0 (if ltb size (n - 8) then size else n - 8))

moves-Outcome :
    (rounds size x n : ℕ) (s : Allocator) (l r : List (ℕ × ℕ)) (m : ℕ × Allocator)
    → 16 ≤ n
    → (m ≡ (0, s)) ⊎ Served rounds s m.1 size m.0 (l ++ (x, n) ∷ r)
    → Outcome rounds size (x + 8) n s (l ++ r) (moves rounds (x + 8) size m)
unfolding get_payload_size payload_to_header
moves-Outcome rounds size x n s l r m least (inl e) = inl (ap (moves rounds (x + 8) size) e)
moves-Outcome rounds size x n s l r m least (inr v) =
    let b = m.0 - 8 in
    let c = if ltb size (n - 8) then size else n - 8 in
    let pos = Served-pos rounds s m.1 size m.0 (l ++ (x, n) ∷ r) v in
    let nz : (m.0 == 0) ≡ false = ground (arith, pos) in
    let at : b + 8 ≡ m.0 = omega (arith, pos) in
    let sized = size_kept rounds m.1 x n b v.n l r v.lefts v.rights v.now v.was in
    let end : ℕ → ℕ × Allocator =
      λ t. (t, free rounds (x + 8) (with_mem m.1 (memcpy t (x + 8) c m.1.heap.mem))) in
    let done =
      Copied-Served rounds s m.1 size x n b v.n l r v.lefts v.rights v.now v.was v.kept v.fits
        (omega (arith, at, v.aligned)) c (smaller size (n - 8)).0
        (omega (arith, least, (smaller size (n - 8)).1)) in
    subst (λ t. Outcome rounds size (x + 8) n s (l ++ r) t)
      (ap end at ∙ sym (moved nz (payload_is sized))) (inr done)
  where
    smaller : (a d : ℕ) → ((if ltb a d then a else d) ≤ a) × ((if ltb a d then a else d) ≤ d)
    smaller a d = (ground arith, ground arith)

    payload_is :
        get_size m.1.heap.mem x ≡ n
        → get_payload_size m.1.heap.mem (payload_to_header (x + 8)) ≡ n - 8
    payload_is e =
        let back : x + 8 - 8 ≡ x = omega arith in
        ap (λ t. get_size m.1.heap.mem t - 8) back ∙ ap (λ t. t - 8) e

    moved :
        (m.0 == 0) ≡ false
        → get_payload_size m.1.heap.mem (payload_to_header (x + 8)) ≡ n - 8
        → moves rounds (x + 8) size m ≡ (
          m.0,
          free rounds (x + 8) (
              with_mem m.1
                (memcpy m.0 (x + 8) (if ltb size (n - 8) then size else n - 8) m.1.heap.mem)),
        )
    moved nz e = rw (nz, e) refl

-- `realloc` of an allocated block of `n` bytes to 1 to 2 ^ 63 - 8 bytes: it returns NULL and changes
-- nothing, or serves the request, as `malloc` does, among the other blocks only, and the new block begins
-- with what was in the old one, as far as both reach. For 0 bytes it frees the block and returns NULL; for
-- NULL it is `malloc`.
pub realloc-Serves :
    (sys : System) (rounds size x n : ℕ) (s : Allocator) (l r : List (ℕ × ℕ))
    → Represents rounds s (l ++ (x, n) ∷ r)
    → size + 8 ≤ 2 ^ 63
    → let m = realloc sys rounds (x + 8) size s in
      let c = if ltb size (n - 8) then size else n - 8 in
      (0 < size
        → (m ≡ (0, s))
          ⊎ (Served rounds s m.1 size m.0 (l ++ r) × Copied s.heap.mem m.1.heap.mem (x + 8) m.0 c))
      × (size ≡ 0 → (m.0 ≡ 0) × Represents rounds m.1 (l ++ r))
      × (0 < size → realloc sys rounds 0 size s ≡ malloc sys rounds size s)
unfolding realloc
realloc-Serves sys rounds size x n s l r rep small = (moved, released, fresh)
  where
    not_null : (x + 8 == 0) ≡ false
    not_null = ground arith

    some_bytes : 0 < size → (size == 0) ≡ false
    some_bytes pos = ground (arith, pos)

    moved : 0 < size → Outcome rounds size (x + 8) n s (l ++ r) (realloc sys rounds (x + 8) size s)
    moved pos =
        let o =
          Ordered-rest s.heap_start (s.memlib.mem_brk - 8) x n l r
            (Represents-Ordered rounds s (l ++ (x, n) ∷ r) rep) in
        let e : realloc sys rounds (x + 8) size s
            ≡ moves rounds (x + 8) size (malloc sys rounds size s) =
          rw (some_bytes pos, not_null) refl in
        subst (λ t. Outcome rounds size (x + 8) n s (l ++ r) t) (sym e)
          (moves-Outcome rounds size x n s l r (malloc sys rounds size s) o.0
            (malloc-Serves sys rounds size s (l ++ (x, n) ∷ r) rep pos small))

    released :
        size ≡ 0
        → ((realloc sys rounds (x + 8) size s).0 ≡ 0)
          × Represents rounds (realloc sys rounds (x + 8) size s).1 (l ++ r)
    released e =
        let z : (size == 0) ≡ true = ground (arith, e) in
        let f = free-Frees rounds s x n l r rep in rw z (refl, f.0)

    fresh : 0 < size → realloc sys rounds 0 size s ≡ malloc sys rounds size s
    fresh pos = rw (some_bytes pos) refl
