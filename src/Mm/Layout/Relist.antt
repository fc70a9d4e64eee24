-- ===== src/Mm/Layout/Relist.antt =====
-- A block enters or leaves its free list: the heap stays sound.
use computer_systems_project.Base.{
  ℕ, ◌+◌, ◌-◌, ◌<◌, ◌≤◌, ◌≡◌, ◌≢◌, refl, sym, ap, subst, ◌∙◌, ◌⊎◌, inl, inr, Bool, true, false, not,
  ◌==◌, if◌then◌else◌, Bool-cases, List, [], ◌∷◌, ◌++◌, length, ==→eq, ==→ne, arith,
}
use computer_systems_project.Mm.{Memory, min_block_size, find_seg_list_class}
use computer_systems_project.Mm.Words.{Says}
use computer_systems_project.Mm.Classes.{class_range, class_first}
use computer_systems_project.Mm.Lists.{Heap, next_at, prev_at}
use computer_systems_project.Mm.Lists.Chain.{head_of, Distinct, Chain}
use computer_systems_project.Mm.Layout.{
  Block, end_of, min_after, alloc_after, Part, At, In, count_listed, total, Sound,
}
use computer_systems_project.Mm.Layout.Blocks.{
  end_of-append, min_after-append, alloc_after-append, At-middle, At-replace, At-Apart, At-HoldsAt,
  Part-agree, count_listed-append,
}
use computer_systems_project.Mm.Layout.Members.{
  Chain-agree, update, update_self, update_ne, total-update,
}
use computer_systems_project.Mm.Layout.Frame.{
  Untouched, FreeAt, UsedAt, header-Untouched, footer-Untouched, used-Untouched, end-Untouched,
  links-Untouched,
}

-- Only the flag `listed` of one block changes.
Part-relist :
    (mem : Memory) (p : ℕ) (pm pa : Bool) (xs ys : List Block) (b : Block) (l : Bool)
    → b.alloc ≡ false
    → Part mem p pm pa (xs ++ b ∷ ys)
    → Part mem p pm pa (xs ++ record b { listed = l } ∷ ys)
Part-relist mem p pm pa [] ys b l free h = (
  (record {
    aligned = h.0.aligned;
    least = h.0.least;
    header = h.0.header;
    footer = h.0.footer;
    free = λ e. free;
  }),
  h.1,
)
Part-relist mem p pm pa (c ∷ xs) ys b l free h =
    (h.0, Part-relist mem (p + c.size) (c.size == min_block_size) c.alloc xs ys b l free h.1)

-- The two blocks of one address are one.
pub At-unique :
    (p : ℕ) (bs : List Block) (x : ℕ) (a b : Block)
    → 16 ≤ a.size
    → 16 ≤ b.size
    → At p bs x a
    → At p bs x b
    → a ≡ b
At-unique p bs x a b la lb h k = elim (At-Apart p bs x x a b h k) [
  | inl s ↦ s.1
  | inr (inl s) ↦ absurd (omega (arith, s, la))
  | inr (inr s) ↦ absurd (omega (arith, s, lb))
]

module _ (h h' : Heap) (p : ℕ) (front rest : List Block) (b : Block) (lists : ℕ → List ℕ)
    (s : Sound h p (front ++ b ∷ rest) lists) (free : b.alloc ≡ false) (l : Bool) (members : List ℕ)
    (old_or_new : (x : ℕ)
      → In x members
      → ((x ≢ end_of p front) × In x (lists (find_seg_list_class b.size)))
        ⊎ ((x ≡ end_of p front) × (l ≡ true)))
    (kept : (x : ℕ) → In x (lists (find_seg_list_class b.size)) → x ≢ end_of p front → In x members)
    (mine : l ≡ true → In (end_of p front) members)
    (amount : length members + (if b.listed then 1 else 0)
      ≡ length (lists (find_seg_list_class b.size)) + (if l then 1 else 0))
    (seg_here : h'.seg_list (find_seg_list_class b.size) ≡ head_of members)
    (seg_other : (k : ℕ) → k ≢ find_seg_list_class b.size → h'.seg_list k ≡ h.seg_list k)
    (linked : Chain h'.mem (not (find_seg_list_class b.size == 0)) 0 members)
    (differ : Distinct members)
    (only : (x : ℕ)
      → Untouched
          (not (find_seg_list_class b.size == 0))
          (λ t. (t ≡ end_of p front) ⊎ In t (lists (find_seg_list_class b.size)))
          x
      → h'.mem x ≡ h.mem x) where
  abbrev q : ℕ
  q = end_of p front

  abbrev c : ℕ
  c = find_seg_list_class b.size

  abbrev b' : Block
  b' = record b { listed = l }

  abbrev old : List Block
  old = front ++ b ∷ rest

  abbrev new : List Block
  new = front ++ b' ∷ rest

  least-At : (x : ℕ) (a : Block) → At p old x a → 16 ≤ a.size
  least-At x a at = (At-HoldsAt h.mem p false true old x a s.start s.part at).holds.least

  least : 16 ≤ b.size
  least = least-At q b (At-middle p front rest b)

  c_range : c < 14
  c_range = class_range b.size

  large_of :
      (a : Block)
      → 16 ≤ a.size
      → (k : ℕ) → find_seg_list_class a.size ≡ k
      → not (k == 0) ≡ true
      → min_block_size < a.size
  large_of a la k e t =
      let z : (find_seg_list_class a.size == 0) ≡ (a.size == min_block_size) =
        class_first a.size la in
      let z' : (k == 0) ≡ (a.size == min_block_size) =
        subst (λ n. (n == 0) ≡ (a.size == min_block_size)) e z in
      ground (arith, z', t, la)

  listed_free : (k x : ℕ) → k < 14 → In x (lists k) → FreeAt p old (not (k == 0)) k x
  listed_free k x lt i =
      let (a, at, on, e) = s.in_block k x lt i in
      let known = At-HoldsAt h.mem p false true old x a s.start s.part at in
      record {
        a = a;
        at = at;
        free = known.holds.free on;
        large = large_of a known.holds.least k e;
        class = e;
      }

  touched_free : (t : ℕ) → (t ≡ q) ⊎ In t (lists c) → FreeAt p old (not (c == 0)) c t
  touched_free t (inl e) =
      subst (λ x. FreeAt p old (not (c == 0)) c x) (sym e)
        (record {
          a = b;
          at = At-middle p front rest b;
          free = free;
          large = large_of b least c refl;
          class = refl;
        })
  touched_free t (inr i) = listed_free c t c_range i

  abbrev both : Bool
  both = not (c == 0)

  part_old : Part h'.mem p false true old
  part_old =
      Part-agree h.mem h'.mem p false true old
        (λ x a at. (
          only x (λ t i.
              header-Untouched h.mem p false true old s.start s.part both c t (touched_free t i) x a
                at),
          (λ f g. only (x + a.size - 8) (λ t i.
              footer-Untouched h.mem p false true old s.start s.part both c t (touched_free t i) x a
                at g)),
        ))
        s.part

  end_same : end_of p new ≡ end_of p old
  end_same = end_of-append p front (b' ∷ rest) ∙ sym (end_of-append p front (b ∷ rest))

  epilogue' : Says (h'.mem (end_of p new)) 0 (min_after false new) (alloc_after true new) true
  epilogue' =
      let m =
        min_after-append false front (b' ∷ rest) ∙ sym (min_after-append false front (b ∷ rest)) in
      let a =
        alloc_after-append true front (b' ∷ rest)
        ∙ sym (alloc_after-append true front (b ∷ rest)) in
      let w =
        only (end_of p old) (λ t i.
          end-Untouched h.mem p false true old s.start s.part both c t (touched_free t i)) in
      rw (end_same, m, a, w) s.epilogue

  chain' : (k : ℕ) → k ≢ c → k < 14 → Chain h'.mem (not (k == 0)) 0 (lists k)
  chain' k other lt =
      Chain-agree h.mem h'.mem (not (k == 0)) 0 (lists k)
        (λ y i.
          let apart = λ (t : ℕ) (j : (t ≡ q) ⊎ In t (lists c)).
            links-Untouched h.mem p false true old s.start s.part both c t (touched_free t j)
              (not (k == 0)) k y other (listed_free k y lt i) in
          (
            only (next_at y) (λ t j. (apart t j).0),
            (λ e. only (prev_at y) (λ t j. (apart t j).1 e)),
          ))
        (s.chain k lt)

  In-block' :
      (k x : ℕ)
      → k < 14
      → In x (lists k)
      → x ≢ q
      → (a : Block) × At p new x a × (a.listed ≡ true) × (find_seg_list_class a.size ≡ k)
  In-block' k x lt i other =
      let (a, at, on, e) = s.in_block k x lt i in
      (a, At-replace p front rest b b' x a refl other at, on, e)

  elsewhere : (k x : ℕ) → k ≢ c → k < 14 → In x (lists k) → x ≢ q
  elsewhere k x other lt i e =
      let (a, at, on, f) = s.in_block k x lt i in
      let at' = subst (λ y. At p old y a) e at in
      let same = At-unique p old q a b (least-At q a at') least at' (At-middle p front rest b) in
      other (sym f ∙ ap (λ (t : Block). find_seg_list_class t.size) same)

  In-members :
      (x : ℕ)
      → In x members
      → (a : Block) × At p new x a × (a.listed ≡ true) × (find_seg_list_class a.size ≡ c)
  In-members x i = elim (old_or_new x i) [
    | inl o ↦ In-block' c x c_range o.1 o.0
    | inr e ↦ (b', subst (λ y. At p new y b') (sym e.0) (At-middle p front rest b'), e.1, refl)
  ]

  least_new : (x : ℕ) (a : Block) → At p new x a → 16 ≤ a.size
  least_new x a at =
      (At-HoldsAt h'.mem p false true new x a s.start
        (Part-relist h'.mem p false true front rest b l free part_old) at).holds.least

  In-list' :
      (x : ℕ) (a : Block)
      → At p new x a
      → a.listed ≡ true
      → In x (update lists c members (find_seg_list_class a.size))
  In-list' x a at on = elim (Bool-cases (x == q)) [
    | inl here ↦
        let e : x ≡ q = ==→eq x q here in
        let at' = subst (λ y. At p new y a) e at in
        let same : a ≡ b' =
          At-unique p new q a b' (least_new q a at') least at' (At-middle p front rest b') in
        let on' : l ≡ true = ap (λ (t : Block). t.listed) (sym same) ∙ on in
        let cl : find_seg_list_class a.size ≡ c =
          ap (λ (t : Block). find_seg_list_class t.size) same in
        subst (λ k. In x (update lists c members k)) (sym cl)
          (rw (update_self lists c members, e) (mine on'))
    | inr there ↦
        let ne : x ≢ q = ==→ne x q there in
        let i = s.in_list x a (At-replace p front rest b' b x a refl ne at) on in
        elim (Bool-cases (find_seg_list_class a.size == c)) [
          | inl same ↦
              let cl = ==→eq (find_seg_list_class a.size) c same in
              rw same (kept x (subst (λ k. In x (lists k)) cl i) ne)
          | inr diff ↦ rw diff i
        ]
  ]

  counted' : total 14 (update lists c members) ≡ count_listed new
  counted' = omega (
    arith,
    total-update 14 lists c members c_range,
    amount,
    s.counted,
    count_listed-append front (b ∷ rest),
    count_listed-append front (b' ∷ rest),
  )

  pub relist-Sound : Sound h' p new (update lists c members)
  relist-Sound = record {
    start = s.start;
    part = Part-relist h'.mem p false true front rest b l free part_old;
    epilogue = epilogue';
    first = λ k lt. elim (Bool-cases (k == c)) [
      | inl e ↦ rw e (ap h'.seg_list (==→eq k c e) ∙ seg_here)
      | inr e ↦ rw e (seg_other k (==→ne k c e) ∙ s.first k lt)
    ];
    chain = λ k lt. elim (Bool-cases (k == c)) [
      | inl e ↦ rw e (subst (λ n. Chain h'.mem (not (n == 0)) 0 members) (sym (==→eq k c e)) linked)
      | inr e ↦ rw e (chain' k (==→ne k c e) lt)
    ];
    distinct =
        λ k lt. elim (Bool-cases (k == c)) [ inl e ↦ rw e differ | inr e ↦ rw e (s.distinct k lt) ];
    in_block = λ k x lt i. elim (Bool-cases (k == c)) [
      | inl e ↦
          let k_is = ==→eq k c e in
          let i' : In x members = subst (λ (t : List ℕ). In x t) (rw e refl) i in
          subst
            (λ n. (a : Block) × At p new x a × (a.listed ≡ true) × (find_seg_list_class a.size ≡ n))
            (sym k_is) (In-members x i')
      | inr e ↦
          let other = ==→ne k c e in
          let i' : In x (lists k) =
            subst (λ (t : List ℕ). In x t) (update_ne lists c members k other) i in
          In-block' k x lt i' (elsewhere k x other lt i')
    ];
    in_list = In-list';
    counted = counted';
  }

  -- The words of the allocated blocks are kept.
  pub relist-used : (y : ℕ) → UsedAt p old y → h'.mem y ≡ h.mem y
  relist-used y u =
      only y (λ t i.
        used-Untouched h.mem p false true old s.start s.part both c t (touched_free t i) y u)
