-- ===== src/Mm/Layout/Take.antt =====
-- `split_block` as a whole.
use mathlib.Core.List.{append_assoc}
use computer_systems_project.Base.{
  ℕ, ◌+◌, ◌-◌, ◌%◌, ◌<◌, ◌≤◌, ◌≡◌, refl, sym, ap, subst, ◌∙◌, inl, inr, true, false, leb,
  Bool-cases, List, [], ◌∷◌, ◌++◌, arith,
}
use computer_systems_project.Mm.{min_block_size}
use computer_systems_project.Mm.Alloc.{coalesce_block, split_two, take_whole, split_block}
use computer_systems_project.Mm.Lists.{Heap, fix_free_list}
use computer_systems_project.Mm.Layout.{Block, end_of, alloc_after, count_listed, Sound}
use computer_systems_project.Mm.Layout.Blocks.{end_of-append, count_listed-append}
use computer_systems_project.Mm.Layout.Frame.{UsedAt}
use computer_systems_project.Mm.Layout.Moves.{Moved}
use computer_systems_project.Mm.Layout.Outside.{used-stays}
use computer_systems_project.Mm.Layout.Merge.{
  allocated, allocated-append, Tidy, pending, freed, Moved-trans,
}
use computer_systems_project.Mm.Layout.Coalesce.{size_at, fix_at, Coalesced, ends-swap}
use computer_systems_project.Mm.Layout.Combine.{coalesce_block-Coalesced}
use computer_systems_project.Mm.Layout.Divide.{m3, divided-Moved, divided_eq}
use computer_systems_project.Mm.Layout.Split.{Taken, Tidy-split, Tidy-used, take_whole-Taken}

module _ (rounds : ℕ) (h : Heap) (p n asize : ℕ) (front rest : List Block) (lists : ℕ → List ℕ)
    (tidy_front : Tidy true front) (full : alloc_after true front ≡ true)
    (tidy_rest : Tidy true rest) (aligned : asize % 16 ≡ 0) (least : 16 ≤ asize) where
  abbrev q : ℕ
  q = end_of p front

  abbrev before : List Block
  before = front ++ pending n false ∷ rest

  split_two-Taken :
      (rem : ℕ)
      → Sound h p before lists
      → asize + rem ≡ n
      → 16 ≤ rem
      → count_listed before < rounds
      → Taken h (split_two rounds q asize n h) p q asize before
  split_two-Taken rem s total enough few =
      let h3 = record h {
        mem = m3 h p n asize rem front rest lists s full total aligned least enough;
      } in
      let m = divided-Moved h p n asize rem front rest lists s full total aligned least enough in
      let mine = pending asize true in
      let other = pending rem false in
      let two = front ++ mine ∷ other ∷ rest in
      let ends : q + asize + rem ≡ q + n = omega (arith, total) in
      let assoc = append_assoc front (mine ∷ []) (other ∷ rest) in
      let place : end_of p (front ++ mine ∷ []) ≡ q + asize = end_of-append p front (mine ∷ []) in
      let fewer : count_listed two < rounds = omega (
        arith,
        few,
        count_listed-append front (mine ∷ other ∷ rest),
        count_listed-append front (pending n false ∷ rest),
      ) in
      let c =
        coalesce_block-Coalesced rounds h3 p rem (front ++ mine ∷ []) rest m.lists
          (subst (λ t. Sound h3 p t m.lists) (sym assoc) m.sound)
          (Tidy-used true front [] asize tidy_front tt) tidy_rest
          (subst (λ t. count_listed t < rounds) (sym assoc) fewer) in
      let c' =
        subst (λ t. Coalesced h3 p rem t (coalesce_block rounds (q + asize) h3)) assoc
          (subst
            (λ t.
              Coalesced h3 p rem ((front ++ mine ∷ []) ++ other ∷ rest)
                (coalesce_block rounds t h3))
            place c) in
      let after = c'.front ++ freed c'.size ∷ c'.rest in
      let h4 = (coalesce_block rounds (q + asize) h3).1 in
      record {
        after = after;
        size = asize;
        fits = omega arith;
        lefts = allocated p front;
        rights = allocated (q + n) rest;
        was = allocated-append p front (pending n false ∷ rest);
        now =
            c'.same
            ∙ allocated-append p front (mine ∷ other ∷ rest)
            ∙ ap (λ t. allocated p front ++ (q, asize) ∷ allocated t rest) ends;
        moved =
            subst (λ t. Moved h t p before after)
              (sym (
                divided_eq h p n asize rem front rest lists s full total aligned least enough
                  rounds))
              (Moved-trans h h3 h4 p before two after m
                (λ y.
                  used-stays p front (pending n false ∷ []) (mine ∷ other ∷ []) rest y (refl, tt)
                    ends)
                c'.moved);
        tidy = c'.tidy;
        ends = c'.ends ∙ ends-swap p front (pending n false ∷ []) (mine ∷ other ∷ []) rest ends;
      }

-- The block leaves its list first.
Taken-after :
    (h h1 h' : Heap) (p q asize : ℕ) (before between : List Block)
    → Moved h h1 p before between
    → ((y : ℕ) → UsedAt p before y → UsedAt p between y)
    → allocated p before ≡ allocated p between
    → end_of p between ≡ end_of p before
    → Taken h1 h' p q asize between
    → Taken h h' p q asize before
Taken-after h h1 h' p q asize before between m stays same ends t = record {
  after = t.after;
  size = t.size;
  fits = t.fits;
  lefts = t.lefts;
  rights = t.rights;
  was = same ∙ t.was;
  now = t.now;
  moved = Moved-trans h h1 h' p before between t.after m stays t.moved;
  tidy = t.tidy;
  ends = t.ends ∙ ends;
}

pub split_block-Taken :
    (rounds : ℕ) (h : Heap) (p n asize : ℕ) (front rest : List Block) (lists : ℕ → List ℕ)
    → Sound h p (front ++ freed n ∷ rest) lists
    → Tidy true (front ++ freed n ∷ rest)
    → asize % 16 ≡ 0
    → 16 ≤ asize
    → asize ≤ n
    → count_listed (front ++ freed n ∷ rest) < rounds
    → Taken h
        (split_block rounds (end_of p front) asize h)
        p
        (end_of p front)
        asize
        (front ++ freed n ∷ rest)
unfolding split_block
split_block-Taken rounds h p n asize front rest lists s tidy aligned least fits few =
    let q = end_of p front in
    let h1 = fix_free_list rounds q h in
    let start = front ++ freed n ∷ rest in
    let between = front ++ pending n false ∷ rest in
    let t = Tidy-split true front rest n tidy in
    let m = fix_at rounds h p front [] rest (freed n) lists s q refl refl refl few in
    let size = size_at rounds h p front [] rest (freed n) lists s q refl in
    let fewer : count_listed between < rounds = omega (
      arith,
      few,
      count_listed-append front (freed n ∷ rest),
      count_listed-append front (pending n false ∷ rest),
    ) in
    let lift = λ (h' : Heap) (k : Taken h1 h' p q asize between).
      Taken-after h h1 h' p q asize start between m
        (λ y. used-stays p front (freed n ∷ []) (pending n false ∷ []) rest y (refl, tt) refl)
        (allocated-append p front (freed n ∷ rest)
          ∙ sym (allocated-append p front (pending n false ∷ rest)))
        (ends-swap p front (freed n ∷ []) (pending n false ∷ []) rest refl) k in
    elim (Bool-cases (leb min_block_size (n - asize))) [
      | inl large ↦
          let total : asize + (n - asize) ≡ n = omega (arith, fits) in
          let enough : 16 ≤ n - asize = ground (arith, large) in
          rw (size, large)
            (lift (split_two rounds q asize n h1) (
              split_two-Taken rounds h1 p n asize front rest m.lists t.0 t.1 t.2 aligned least
                (n - asize) m.sound total enough fewer))
      | inr small ↦
          rw (size, small)
            (lift (take_whole q n h1)
              (take_whole-Taken h1 p n front rest m.lists m.sound t.0 t.1 t.2 asize fits))
    ]
