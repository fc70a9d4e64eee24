-- ===== src/Mm/Layout/Joins.antt =====
-- The cases of `coalesce_block` in which a neighbour is free.
use mathlib.Core.List.{append_assoc}
use computer_systems_project.Base.{
  ℕ, ◌+◌, ◌<◌, ◌≤◌, ◌≡◌, refl, sym, subst, ◌∙◌, inl, inr, true, false, ◌==◌, Bool-cases, List, [],
  ◌∷◌, ◌++◌, arith,
}
use computer_systems_project.Mm.{
  min_block_size, get_size, get_alloc, get_pre_alloc, get_pre_min, find_next, find_prev,
  find_prev_footer, find_min_prev, footer_to_header,
}
use computer_systems_project.Mm.Alloc.{
  write_free, handle_case_2, handle_case_3, handle_case_4, find_free_prev, coalesce_block,
}
use computer_systems_project.Mm.Lists.{Heap, insert_block_lifo, fix_free_list}
use computer_systems_project.Mm.Layout.{
  Block, end_of, min_after, alloc_after, Holds, count_listed, Sound,
}
use computer_systems_project.Mm.Layout.Blocks.{
  end_of-append, min_after-append, alloc_after-append, count_listed-append,
}
use computer_systems_project.Mm.Layout.Moves.{relisted}
use computer_systems_project.Mm.Layout.Outside.{used-stays}
use computer_systems_project.Mm.Layout.Merge.{Tidy, pending, Moved-trans}
use computer_systems_project.Mm.Layout.Coalesce.{Holds-of, size_at, fix_at, Coalesced, absorbed}
use computer_systems_project.Mm.Layout.Cases.{
  next_alloc, holds, size_is, next_is, pre_alloc_is, pre_min_is, next_alloc_is,
}

abbrev unlisted : Block → Block
unlisted d = relisted d false

-- Case 2.
pub case_2-Coalesced :
    (rounds : ℕ) (h : Heap) (p n : ℕ) (front ds : List Block) (d : Block) (lists : ℕ → List ℕ)
    (s : Sound h p (front ++ pending n false ∷ d ∷ ds) lists)
    → Tidy true front
    → Tidy false ds
    → alloc_after true front ≡ true
    → d.alloc ≡ false
    → d.listed ≡ true
    → count_listed (front ++ pending n false ∷ d ∷ ds) < rounds
    → Coalesced h p n (front ++ pending n false ∷ d ∷ ds) (coalesce_block rounds (end_of p front) h)
unfolding coalesce_block handle_case_2
case_2-Coalesced rounds h p n front ds d lists s tf td full free on enough =
    let q = end_of p front in
    let b = pending n false in
    let k = q + n in
    let h1 = fix_free_list rounds k h in
    let hd = holds h p n front (d ∷ ds) lists s in
    let m = fix_at rounds h p front (b ∷ []) ds d lists s k refl free on enough in
    let d_holds = Holds-of h1 p (front ++ b ∷ []) ds (unlisted d) m.lists (
      subst (λ t. Sound h1 p t m.lists) (sym (append_assoc front (b ∷ []) (unlisted d ∷ ds)))
        m.sound) in
    let sz = size_at rounds h1 p front (b ∷ []) ds (unlisted d) m.lists m.sound k refl in
    let pre = pre_alloc_is h p n front (d ∷ ds) lists s ∙ full in
    let nxt = next_alloc_is h p n front (d ∷ ds) lists s ∙ free in
    let e : coalesce_block rounds q h
        ≡ (q, insert_block_lifo q (write_free q (n + d.size) (min_after false front) true h1)) =
      rw
        (
          pre,
          nxt,
          size_is h p n front (d ∷ ds) lists s,
          next_is h p n front (d ∷ ds) lists s,
          pre_min_is h p n front (d ∷ ds) lists s,
          sz,
        )
        refl in
    subst (λ t. Coalesced h p n (front ++ b ∷ d ∷ ds) t) (sym e)
      (absorbed h h1 p n (n + d.size) front ds (b ∷ d ∷ []) (b ∷ unlisted d ∷ []) m
        (refl, (free, tt)) (refl, (free, tt)) refl (omega arith) (omega arith) tf td full
        (refl, (refl, tt)) (omega (arith, hd.aligned, d_holds.aligned))
        (omega (arith, hd.least, d_holds.least)))

-- The block in front of a free one, and the free one itself.
module _ (rounds : ℕ) (h : Heap) (p n : ℕ) (front rest : List Block) (f : Block)
    (lists : ℕ → List ℕ) (s : Sound h p (front ++ f ∷ pending n false ∷ rest) lists)
    (f_free : f.alloc ≡ false) where
  abbrev b : Block
  b = pending n false

  abbrev q : ℕ
  q = end_of p front

  abbrev k : ℕ
  k = q + f.size

  abbrev front' : List Block
  front' = front ++ f ∷ []

  s' : Sound h p (front' ++ b ∷ rest) lists
  s' = subst (λ t. Sound h p t lists) (sym (append_assoc front (f ∷ []) (b ∷ rest))) s

  place : end_of p front' ≡ k
  place = end_of-append p front (f ∷ [])

  pub prev-Holds : Holds h.mem q (min_after false front) (alloc_after true front) f
  prev-Holds = Holds-of h p front (b ∷ rest) f lists s

  pub mine-Holds : Holds h.mem k (f.size == min_block_size) f.alloc b
  mine-Holds =
      let m = min_after-append false front (f ∷ []) in
      let a = alloc_after-append true front (f ∷ []) in
      subst (λ t. Holds h.mem t (f.size == min_block_size) f.alloc b) place
        (subst (λ t. Holds h.mem (end_of p front') (f.size == min_block_size) t b) a
          (subst (λ t. Holds h.mem (end_of p front') t (alloc_after true front') b) m
            (holds h p n front' rest lists s')))

  mine_size : get_size h.mem k ≡ n
  unfolding get_size
  mine_size = mine-Holds.header.size_is

  mine_pre : get_pre_alloc h.mem k ≡ false
  unfolding get_pre_alloc
  mine_pre = mine-Holds.header.pre_alloc_is ∙ f_free

  mine_min : get_pre_min h.mem k ≡ (f.size == min_block_size)
  unfolding get_pre_min
  mine_min = mine-Holds.header.pre_min_is

  mine_next : find_next h.mem k ≡ k + n
  mine_next = subst (λ t. find_next h.mem t ≡ t + n) place (next_is h p n front' rest lists s')

  mine_next_alloc : get_alloc h.mem (find_next h.mem k) ≡ next_alloc rest
  mine_next_alloc =
      subst (λ t. get_alloc h.mem (find_next h.mem t) ≡ next_alloc rest) place
        (next_alloc_is h p n front' rest lists s')

  prev_min : get_pre_min h.mem q ≡ min_after false front
  unfolding get_pre_min
  prev_min = prev-Holds.header.pre_min_is

  prev_is : find_free_prev h.mem k ≡ q
  unfolding find_free_prev find_min_prev find_prev find_prev_footer footer_to_header
  prev_is = elim (Bool-cases (f.size == min_block_size)) [
    | inl small ↦ rw (mine_min, small) (ground (arith, small))
    | inr large ↦
        let big : min_block_size < f.size = ground (arith, large, prev-Holds.least) in
        let foot = prev-Holds.footer f_free big in rw (mine_min, large) (omega (arith, foot, big))
  ]

  -- Case 3.
  pub case_3-Coalesced :
      Tidy true front
      → Tidy false rest
      → alloc_after true front ≡ true
      → next_alloc rest ≡ true
      → f.listed ≡ true
      → count_listed (front ++ f ∷ b ∷ rest) < rounds
      → Coalesced h p n (front ++ f ∷ b ∷ rest) (coalesce_block rounds k h)
  unfolding coalesce_block handle_case_3
  case_3-Coalesced tf tr full next_full on enough =
      let h1 = fix_free_list rounds q h in
      let m = fix_at rounds h p front [] (b ∷ rest) f lists s q refl f_free on enough in
      let sz = size_at rounds h1 p front [] (b ∷ rest) (unlisted f) m.lists m.sound q refl in
      let nxt = mine_next_alloc ∙ next_full in
      let e : coalesce_block rounds k h
          ≡ (q, insert_block_lifo q (write_free q (n + f.size) (min_after false front) true h1)) =
        rw (mine_pre, nxt, mine_size, prev_is, prev_min, sz) refl in
      subst (λ t. Coalesced h p n (front ++ f ∷ b ∷ rest) t) (sym e)
        (absorbed h h1 p n (n + f.size) front rest (f ∷ b ∷ []) (unlisted f ∷ b ∷ []) m
          (f_free, (refl, tt)) (f_free, (refl, tt)) refl (omega arith) (omega arith) tf tr full
          (refl, (refl, tt)) (omega (arith, mine-Holds.aligned, prev-Holds.aligned))
          (omega (arith, mine-Holds.least, prev-Holds.least)))

-- Case 4.
pub case_4-Coalesced :
    (rounds : ℕ) (h : Heap) (p n : ℕ) (front ds : List Block) (f d : Block) (lists : ℕ → List ℕ)
    (s : Sound h p (front ++ f ∷ pending n false ∷ d ∷ ds) lists)
    → f.alloc ≡ false
    → Tidy true front
    → Tidy false ds
    → alloc_after true front ≡ true
    → d.alloc ≡ false
    → f.listed ≡ true
    → d.listed ≡ true
    → count_listed (front ++ f ∷ pending n false ∷ d ∷ ds) < rounds
    → Coalesced h p n
        (front ++ f ∷ pending n false ∷ d ∷ ds)
        (coalesce_block rounds (end_of p front + f.size) h)
unfolding coalesce_block handle_case_4
case_4-Coalesced rounds h p n front ds f d lists s f_free tf td full d_free f_on d_on enough =
    let q = end_of p front in
    let k = q + f.size in
    let b = pending n false in
    let h1 = fix_free_list rounds q h in
    let h2 = fix_free_list rounds (k + n) h1 in
    let m1 = fix_at rounds h p front [] (b ∷ d ∷ ds) f lists s q refl f_free f_on enough in
    let fewer : count_listed (front ++ unlisted f ∷ b ∷ d ∷ ds)
        ≤ count_listed (front ++ f ∷ b ∷ d ∷ ds) =
      omega (
        arith,
        count_listed-append front (unlisted f ∷ b ∷ d ∷ ds),
        count_listed-append front (f ∷ b ∷ d ∷ ds),
      ) in
    let m2 =
      fix_at rounds h1 p front (unlisted f ∷ b ∷ []) ds d m1.lists m1.sound (k + n) refl d_free d_on
        (omega (arith, fewer, enough)) in
    let m =
      Moved-trans h h1 h2 p (front ++ f ∷ b ∷ d ∷ ds) (front ++ unlisted f ∷ b ∷ d ∷ ds)
        (front ++ unlisted f ∷ b ∷ unlisted d ∷ ds) m1
        (λ y.
          used-stays p front (f ∷ b ∷ d ∷ []) (unlisted f ∷ b ∷ d ∷ []) ds y
            (f_free, (refl, (d_free, tt))) refl)
        m2 in
    let sz_f =
      size_at rounds h2 p front [] (b ∷ unlisted d ∷ ds) (unlisted f) m2.lists m2.sound q refl in
    let sz_d =
      size_at rounds h2 p front (unlisted f ∷ b ∷ []) ds (unlisted d) m2.lists m2.sound (k + n)
        refl in
    let d_holds = Holds-of h2 p (front ++ unlisted f ∷ b ∷ []) ds (unlisted d) m2.lists (
      subst (λ t. Sound h2 p t m2.lists)
        (sym (append_assoc front (unlisted f ∷ b ∷ []) (unlisted d ∷ ds))) m2.sound) in
    let mine = mine-Holds rounds h p n front (d ∷ ds) f lists s f_free in
    let prev = prev-Holds rounds h p n front (d ∷ ds) f lists s f_free in
    let nxt = mine_next_alloc rounds h p n front (d ∷ ds) f lists s f_free ∙ d_free in
    let e : coalesce_block rounds k h ≡ (
      q,
      insert_block_lifo q (write_free q (n + (f.size + d.size)) (min_after false front) true h2),
    ) =
      rw
        (
          mine_pre rounds h p n front (d ∷ ds) f lists s f_free,
          nxt,
          mine_size rounds h p n front (d ∷ ds) f lists s f_free,
          prev_is rounds h p n front (d ∷ ds) f lists s f_free,
          prev_min rounds h p n front (d ∷ ds) f lists s f_free,
          mine_next rounds h p n front (d ∷ ds) f lists s f_free,
          sz_f,
          sz_d,
        )
        refl in
    subst (λ t. Coalesced h p n (front ++ f ∷ b ∷ d ∷ ds) t) (sym e)
      (absorbed h h2 p n (n + (f.size + d.size)) front ds (f ∷ b ∷ d ∷ [])
        (unlisted f ∷ b ∷ unlisted d ∷ []) m (f_free, (refl, (d_free, tt)))
        (f_free, (refl, (d_free, tt))) refl (omega arith) (omega arith) tf td full
        (refl, (refl, (refl, tt))) (omega (arith, mine.aligned, prev.aligned, d_holds.aligned))
        (omega (arith, mine.least, prev.least, d_holds.least)))
