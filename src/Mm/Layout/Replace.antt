-- ===== src/Mm/Layout/Replace.antt =====
-- A part of the heap is written anew: other blocks in the same space, none of them in a free list.
use computer_systems_project.Mm.Layout.Outside.{
  Unlisted, count_listed-Unlisted, At-outer, At-listed,
}
use computer_systems_project.Base.{
  ℕ, ◌+◌, ◌-◌, ◌<◌, ◌≤◌, ◌≡◌, sym, ap, subst, ◌∙◌, ◌⊎◌, inl, inr, Bool, true, false, not, ◌==◌,
  List, [], ◌∷◌, ◌++◌, arith,
}
use computer_systems_project.Mm.{Memory, min_block_size, extract_size}
use computer_systems_project.Mm.Words.{Says}
use computer_systems_project.Mm.Classes.{class_first}
use computer_systems_project.Mm.Lists.{Heap, next_at, prev_at}
use computer_systems_project.Mm.Lists.Chain.{Chain}
use computer_systems_project.Mm.Layout.{
  Block, end_of, min_after, alloc_after, Part, In, count_listed, Sound,
}
use computer_systems_project.Mm.Layout.Blocks.{
  end_of-append, min_after-append, alloc_after-append, end_of-ge, At-within, At-HoldsAt, Part-agree,
  Part-split, Part-join, count_listed-append,
}
use computer_systems_project.Mm.Layout.Members.{Chain-agree}

-- The blocks behind, whose first header may say other flags.
module _ (mem mem' : Memory) (r : ℕ) (m1 a1 m2 a2 : Bool) (keep : (x : ℕ) → r < x → mem' x ≡ mem x)
    (next : (n : ℕ) (pm pa al : Bool) → Says (mem r) n pm pa al → Says (mem' r) n m2 a2 al) where
  Part-behind : (rest : List Block) → Part mem r m1 a1 rest → Part mem' r m2 a2 rest
  Part-behind [] h = tt
  Part-behind (d ∷ ds) h =
      let least = h.0.least in
      (
        (record {
          aligned = h.0.aligned;
          least = h.0.least;
          header = next d.size m1 a1 d.alloc h.0.header;
          footer =
              λ f g. ap extract_size (keep (r + d.size - 8) (omega (arith, g))) ∙ h.0.footer f g;
          free = h.0.free;
        }),
        Part-agree mem mem' (r + d.size) (d.size == min_block_size) d.alloc ds
            (λ x a at.
              let w = At-within (r + d.size) ds x a at in
              (
                keep x (omega (arith, w.0, least)),
                (λ f g. keep (x + a.size - 8) (omega (arith, w.0, least, g))),
              ))
            h.1,
      )

  epilogue-behind :
      (rest : List Block)
      → Part mem r m1 a1 rest
      → Says (mem (end_of r rest)) 0 (min_after m1 rest) (alloc_after a1 rest) true
      → Says (mem' (end_of r rest)) 0 (min_after m2 rest) (alloc_after a2 rest) true
  epilogue-behind [] h s = next 0 m1 a1 true s
  epilogue-behind (d ∷ ds) h s =
      let least = h.0.least in
      let far = keep (end_of (r + d.size) ds) (omega (arith, end_of-ge (r + d.size) ds, least)) in
      subst (λ w. Says w 0 (min_after (d.size == min_block_size) ds) (alloc_after d.alloc ds) true)
        (sym far) s

pub large_of :
    (n c : ℕ) → 16 ≤ n → (c == 0) ≡ (n == min_block_size) → not (c == 0) ≡ true → min_block_size < n
large_of n c least test t = ground (arith, test, t, least)

module _ (h : Heap) (mem' : Memory) (p : ℕ) (front old news rest : List Block) (lists : ℕ → List ℕ)
    (s : Sound h p (front ++ (old ++ rest)) lists) (off : Unlisted old) (off' : Unlisted news)
    (ends : end_of (end_of p front) news ≡ end_of (end_of p front) old)
    (written : Part mem' (end_of p front) (min_after false front) (alloc_after true front) news)
    (keep : (x : ℕ) → (x < end_of p front) ⊎ (end_of (end_of p front) old < x) → mem' x ≡ h.mem x)
    (next : (n : ℕ) (pm pa al : Bool)
      → Says (h.mem (end_of (end_of p front) old)) n pm pa al
      → Says
          (mem' (end_of (end_of p front) old))
          n
          (min_after (min_after false front) news)
          (alloc_after (alloc_after true front) news)
          al) where
  abbrev q : ℕ
  q = end_of p front

  abbrev r : ℕ
  r = end_of q old

  abbrev pm : Bool
  pm = min_after false front

  abbrev pa : Bool
  pa = alloc_after true front

  abbrev before : List Block
  before = front ++ (old ++ rest)

  abbrev after : List Block
  after = front ++ (news ++ rest)

  parts :
      Part h.mem p false true front
      × Part h.mem q pm pa old
      × Part h.mem r (min_after pm old) (alloc_after pa old) rest
  parts =
      let one = Part-split h.mem p false true front (old ++ rest) s.part in
      let two = Part-split h.mem q pm pa old rest one.1 in (one.0, two.0, two.1)

  behind : Part mem' r (min_after pm news) (alloc_after pa news) rest
  behind =
      Part-behind h.mem mem' r (min_after pm old) (alloc_after pa old) (min_after pm news)
        (alloc_after pa news) (λ x lt. keep x (inr lt)) next rest parts.2

  part' : Part mem' p false true after
  part' =
      Part-join mem' p false true front (news ++ rest)
        (Part-agree h.mem mem' p false true front
          (λ x a at.
            let w = At-within p front x a at in
            let least = (At-HoldsAt h.mem p false true front x a s.start parts.0 at).holds.least in
            (
              keep x (inl (omega (arith, w.1, least))),
              (λ f g. keep (x + a.size - 8) (inl (omega (arith, w.1, least)))),
            ))
          parts.0)
        (Part-join mem' q pm pa news rest written (
          subst (λ t. Part mem' t (min_after pm news) (alloc_after pa news) rest) (sym ends)
            behind))

  end_before : end_of p before ≡ end_of r rest
  end_before = end_of-append p front (old ++ rest) ∙ end_of-append q old rest

  end_after : end_of p after ≡ end_of r rest
  end_after =
      end_of-append p front (news ++ rest)
      ∙ end_of-append q news rest
      ∙ ap (λ t. end_of t rest) ends

  epilogue' : Says (mem' (end_of p after)) 0 (min_after false after) (alloc_after true after) true
  epilogue' =
      let m = min_after-append false front (old ++ rest) ∙ min_after-append pm old rest in
      let a = alloc_after-append true front (old ++ rest) ∙ alloc_after-append pa old rest in
      let m' = min_after-append false front (news ++ rest) ∙ min_after-append pm news rest in
      let a' = alloc_after-append true front (news ++ rest) ∙ alloc_after-append pa news rest in
      let now =
        subst (λ t. Says (h.mem (end_of r rest)) 0 (min_after (min_after pm old) rest) t true) a
          (subst (λ t. Says (h.mem (end_of r rest)) 0 t (alloc_after true before) true) m
            (subst (λ t. Says (h.mem t) 0 (min_after false before) (alloc_after true before) true)
              end_before s.epilogue)) in
      let moved =
        epilogue-behind h.mem mem' r (min_after pm old) (alloc_after pa old) (min_after pm news)
          (alloc_after pa news) (λ x lt. keep x (inr lt)) next rest parts.2 now in
      rw (end_after, m', a') moved

  chain' : (c : ℕ) → c < 14 → Chain mem' (not (c == 0)) 0 (lists c)
  chain' c lt = Chain-agree h.mem mem' (not (c == 0)) 0 (lists c) (near c lt) (s.chain c lt)
    where
      near :
          (c : ℕ)
          → c < 14
          → (y : ℕ) → In y (lists c)
          → (mem' (next_at y) ≡ h.mem (next_at y))
            × (not (c == 0) ≡ true → mem' (prev_at y) ≡ h.mem (prev_at y))
      near c lt y i =
          let (a, at, on, e) = s.in_block c y lt i in
          let known = At-HoldsAt h.mem p false true before y a s.start s.part at in
          let least = known.holds.least in
          let test : (c == 0) ≡ (a.size == min_block_size) =
            subst (λ n. (n == 0) ≡ (a.size == min_block_size)) e (class_first a.size least) in
          let large = λ (t : not (c == 0) ≡ true). large_of a.size c least test t in
          elim (At-listed p front old rest y a off on at) [
            | inl l ↦
                let w = At-within p front y a l in
                (
                  keep (next_at y) (inl (omega (arith, w.1, least))),
                  (λ t. keep (prev_at y) (inl (omega (arith, w.1, large t)))),
                )
            | inr k ↦
                let w = At-within r rest y a k in
                (
                  keep (next_at y) (inr (omega (arith, w.0))),
                  (λ t. keep (prev_at y) (inr (omega (arith, w.0)))),
                )
          ]

  pub replace-Sound : Sound (record h { mem = mem' }) p after lists
  replace-Sound = record {
    start = s.start;
    part = part';
    epilogue = epilogue';
    first = s.first;
    chain = chain';
    distinct = s.distinct;
    in_block = λ c x lt i.
        let (a, at, on, e) = s.in_block c x lt i in
        (
          a,
          At-outer p front old news rest x a ends (At-listed p front old rest x a off on at),
          on,
          e,
        );
    in_list = λ x a at on.
        s.in_list x a
          (At-outer p front news old rest x a (sym ends)
            (At-listed p front news rest x a off' on at))
          on;
    counted = s.counted ∙ count_same;
  }
    where
      count_same : count_listed before ≡ count_listed after
      count_same = omega (
        arith,
        count_listed-append front (old ++ rest),
        count_listed-append old rest,
        count_listed-append front (news ++ rest),
        count_listed-append news rest,
        count_listed-Unlisted old off,
        count_listed-Unlisted news off',
      )
