-- ===== src/Mm/Layout/Moves.antt =====
-- `insert_block_LIFO` and `fix_free_list` on the blocks of the heap.
use computer_systems_project.Base.{
  ℕ, suc, ◌+◌, ◌<◌, ◌≡◌, ◌≢◌, refl, sym, ap, subst, ◌∙◌, ◌⊎◌, inl, inr, Bool, true, false, not,
  ◌==◌, if◌then◌else◌, Bool-cases, List, ◌∷◌, ◌++◌, length, length-append, ==→eq, arith,
}
use computer_systems_project.Mm.{min_block_size, find_seg_list_class, get_size}
use computer_systems_project.Mm.Classes.{class_range, class_first}
use computer_systems_project.Mm.Lists.{Heap, insert_block_lifo, fix_free_list}
use computer_systems_project.Mm.Lists.Chain.{head_of, Distinct, Chain, Linked}
use computer_systems_project.Mm.Lists.Insert.{insert_block_lifo-Linked}
use computer_systems_project.Mm.Lists.Remove.{Unlinked, fix_free_list-Unlinked}
use computer_systems_project.Mm.Lists.Unlink.{fix_free_list_large-Unlinked}
use computer_systems_project.Mm.Lists.Only.{
  Outside, insert_block_lifo-only, fix_small-only, fix_large-only,
}
use computer_systems_project.Mm.Layout.{Block, end_of, At, In, count_listed, Sound}
use computer_systems_project.Mm.Layout.Blocks.{HoldsAt, At-HoldsAt, At-middle}
use computer_systems_project.Mm.Layout.Members.{
  In-parts, In-drop, In-keep, NotIn-of, Distinct-drop, Distinct-other, length-le_total, update,
}
use computer_systems_project.Mm.Layout.Frame.{UsedAt, Untouched}
use computer_systems_project.Mm.Layout.Relist.{At-unique, relist-Sound, relist-used}

-- The heap after a change of its blocks from `old` to `new`; what is in allocated blocks is kept.
pub record Moved (h h' : Heap) (p : ℕ) (old new : List Block) : Type 0 where
  pub lists : ℕ → List ℕ
  pub sound : Sound h' p new lists
  pub used : (y : ℕ) → UsedAt p old y → h'.mem y ≡ h.mem y

abbrev pub relisted : Block → Bool → Block
relisted b l = record b { listed = l }

module _ (h : Heap) (p : ℕ) (front rest : List Block) (b : Block) (lists : ℕ → List ℕ)
    (s : Sound h p (front ++ b ∷ rest) lists) (free : b.alloc ≡ false) where
  abbrev q : ℕ
  q = end_of p front

  abbrev c : ℕ
  c = find_seg_list_class b.size

  abbrev old : List Block
  old = front ++ b ∷ rest

  here : HoldsAt h.mem q b
  here = At-HoldsAt h.mem p false true old q b s.start s.part (At-middle p front rest b)

  pub size_here : get_size h.mem q ≡ b.size
  unfolding get_size
  size_here = here.holds.header.size_is

  same_test : (c == 0) ≡ (b.size == min_block_size)
  same_test = class_first b.size here.holds.least

  Linked-here : Linked b.size h (lists c)
  Linked-here = (
    s.first c (class_range b.size),
    subst (λ t. Chain h.mem (not t) 0 (lists c)) same_test (s.chain c (class_range b.size)),
  )

  -- A member of the list with another flag would be a second block at the address.
  not_member : b.listed ≡ false → (x : ℕ) → In x (lists c) → x ≢ q
  not_member off x i e =
      let (a, at, on, _) = s.in_block c x (class_range b.size) i in
      let at' = subst (λ y. At p old y a) e at in
      let least = (At-HoldsAt h.mem p false true old q a s.start s.part at').holds.least in
      let same = At-unique p old q a b least here.holds.least at' (At-middle p front rest b) in
      let t : b.listed ≡ true = ap (λ (t : Block). t.listed) (sym same) ∙ on in cc

  pub insert-Moved :
      b.listed ≡ false → Moved h (insert_block_lifo q h) p old (front ++ relisted b true ∷ rest)
  insert-Moved off =
      let h' = insert_block_lifo q h in
      let away = NotIn-of q (lists c) (not_member off) in
      let d = s.distinct c (class_range b.size) in
      let l =
        insert_block_lifo-Linked h q (lists c) here.residue away d
          (subst (λ n. Linked n h (lists c)) (sym size_here) Linked-here) in
      let l' = subst (λ n. Linked n h' (q ∷ lists c)) size_here l.0 in
      let others =
        subst (λ n. (k : ℕ) → k ≢ find_seg_list_class n → h'.seg_list k ≡ h.seg_list k) size_here
          l.1 in
      let chain = subst (λ t. Chain h'.mem (not t) 0 (q ∷ lists c)) (sym same_test) l'.1 in
      let only = λ (x : ℕ) (out : Untouched (not (c == 0)) (λ t. (t ≡ q) ⊎ In t (lists c)) x).
        insert_block_lifo-only h q (lists c) x
          (subst (λ n. h.seg_list (find_seg_list_class n) ≡ head_of (lists c)) (sym size_here)
            Linked-here.0)
          (subst (λ n. Outside (not (n == min_block_size)) q (lists c) x) (sym size_here)
            (subst (λ t. Outside (not t) q (lists c) x) same_test out)) in
      let old_or_new = λ (x : ℕ) (i : In x (q ∷ lists c)). in_new off x i in
      record {
        lists = update lists c (q ∷ lists c);
        sound =
            relist-Sound h h' p front rest b lists s free true (q ∷ lists c) old_or_new
              (λ x i other. inr i) (λ e. inl refl) (count_new off) l'.0 others chain (away, d) only;
        used =
            relist-used h h' p front rest b lists s free true (q ∷ lists c) old_or_new
              (λ x i other. inr i) (λ e. inl refl) (count_new off) l'.0 others chain (away, d) only;
      }
    where
      in_new :
          b.listed ≡ false
          → (x : ℕ) → In x (q ∷ lists c)
          → ((x ≢ q) × In x (lists c)) ⊎ ((x ≡ q) × (◌≡◌ {A = Bool} true true))
      in_new off x (inl e) = inr (e, refl)
      in_new off x (inr i) = inl (not_member off x i, i)

      count_new :
          b.listed ≡ false
          → length (q ∷ lists c) + (if b.listed then 1 else 0) ≡ length (lists c) + 1
      count_new off = rw off (omega arith)

  removed :
      (fuel : ℕ) (f r : List ℕ)
      → suc (length f + length r) < fuel
      → Distinct (f ++ q ∷ r)
      → Linked b.size h (f ++ q ∷ r)
      → Unlinked b.size h (fix_free_list fuel q h) (f ++ r)
        × ((x : ℕ)
            → Untouched (not (c == 0)) (λ t. (t ≡ q) ⊎ In t (f ++ q ∷ r)) x
            → (fix_free_list fuel q h).mem x ≡ h.mem x)
  removed fuel f r enough d l = elim (Bool-cases (b.size == min_block_size)) [
    | inl small ↦
        let e : b.size ≡ min_block_size = ==→eq b.size min_block_size small in
        let sz = size_here ∙ e in
        let l16 = subst (λ n. Linked n h (f ++ q ∷ r)) e l in
        (
          subst (λ n. Unlinked n h (fix_free_list fuel q h) (f ++ r)) (sym e)
              (fix_free_list-Unlinked h fuel q f r sz enough d l16),
          (λ x out.
              fix_small-only h fuel q f r x sz (omega (arith, enough)) d l16
                (subst (λ t. Outside (not t) q (f ++ q ∷ r) x) (same_test ∙ small) out)),
        )
    | inr large ↦
        let big : (get_size h.mem q == min_block_size) ≡ false =
          subst (λ n. (n == min_block_size) ≡ false) (sym size_here) large in
        let ls = subst (λ n. Linked n h (f ++ q ∷ r)) (sym size_here) l in
        (
          subst (λ n. Unlinked n h (fix_free_list fuel q h) (f ++ r)) size_here
              (fix_free_list_large-Unlinked h fuel q f r big d ls),
          (λ x out.
              fix_large-only h fuel q f r x big ls
                (subst (λ t. Outside (not t) q (f ++ q ∷ r) x) (same_test ∙ large) out)),
        )
  ]

  pub fix-Moved :
      (fuel : ℕ)
      → count_listed old < fuel
      → b.listed ≡ true
      → Moved h (fix_free_list fuel q h) p old (front ++ relisted b false ∷ rest)
  fix-Moved fuel enough on =
      let h' = fix_free_list fuel q h in
      let (f, r, e) = In-parts q (lists c) (s.in_list q b (At-middle p front rest b) on) in
      let d = subst (λ t. Distinct t) e (s.distinct c (class_range b.size)) in
      let size_of : length (lists c) ≡ suc (length f + length r) =
        ap (length {0}) e ∙ length-append f (q ∷ r) ∙ omega arith in
      let short = length-le_total 14 lists c (class_range b.size) in
      let m =
        removed fuel f r (omega (arith, size_of, short, s.counted, enough)) d
          (subst (λ t. Linked b.size h t) e Linked-here) in
      let chain = subst (λ t. Chain h'.mem (not t) 0 (f ++ r)) (sym same_test) m.0.0.1 in
      let only = λ (x : ℕ) (out : Untouched (not (c == 0)) (λ t. (t ≡ q) ⊎ In t (lists c)) x).
        m.1 x (subst (λ l. Untouched (not (c == 0)) (λ t. (t ≡ q) ⊎ In t l) x) e out) in
      let old_or_new = λ (x : ℕ) (i : In x (f ++ r)). in_old f r e d x i in
      let kept = λ (x : ℕ) (i : In x (lists c)) (other : x ≢ q).
        In-keep x q f r other (subst (λ t. In x t) e i) in
      let amount = count_old f r size_of on in
      record {
        lists = update lists c (f ++ r);
        sound =
            relist-Sound h h' p front rest b lists s free false (f ++ r) old_or_new kept (λ t. cc)
              amount m.0.0.0 m.0.1 chain (Distinct-drop q f r d) only;
        used =
            relist-used h h' p front rest b lists s free false (f ++ r) old_or_new kept (λ t. cc)
              amount m.0.0.0 m.0.1 chain (Distinct-drop q f r d) only;
      }
    where
      in_old :
          (f r : List ℕ)
          → lists c ≡ f ++ q ∷ r
          → Distinct (f ++ q ∷ r)
          → (x : ℕ) → In x (f ++ r)
          → ((x ≢ q) × In x (lists c)) ⊎ ((x ≡ q) × (false ≡ true))
      in_old f r e d x i =
          inl (Distinct-other x q f r d i, subst (λ t. In x t) (sym e) (In-drop x q f r i))

      count_old :
          (f r : List ℕ)
          → length (lists c) ≡ suc (length f + length r)
          → b.listed ≡ true
          → length (f ++ r) + (if b.listed then 1 else 0) ≡ length (lists c) + 0
      count_old f r n on = rw on (omega (arith, n, length-append f r))
