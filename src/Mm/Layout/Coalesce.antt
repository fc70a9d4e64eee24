-- ===== src/Mm/Layout/Coalesce.antt =====
-- `coalesce_block`: a free block joins its free neighbours and enters its list.
use mathlib.Core.List.{append_assoc}
use computer_systems_project.Base.{
  ℕ, ◌+◌, ◌%◌, ◌<◌, ◌≤◌, ◌≡◌, refl, sym, ap, subst, ◌∙◌, true, false, List, [], ◌∷◌, ◌++◌,
}
use computer_systems_project.Mm.{min_block_size, extract_size, get_size}
use computer_systems_project.Mm.Alloc.{write_free}
use computer_systems_project.Mm.Lists.{Heap, insert_block_lifo, fix_free_list}
use computer_systems_project.Mm.Layout.{
  Block, end_of, min_after, alloc_after, Holds, count_listed, Sound,
}
use computer_systems_project.Mm.Layout.Blocks.{end_of-append, Part-split}
use computer_systems_project.Mm.Layout.Frame.{UsedAt}
use computer_systems_project.Mm.Layout.Moves.{Moved, relisted, fix-Moved}
use computer_systems_project.Mm.Layout.Outside.{Unlisted, Unused, used-stays}
use computer_systems_project.Mm.Layout.Merge.{
  allocated, allocated-swap, Tidy, Tidy-join, freed, Moved-trans, absorb-Moved,
}

-- What a block's place in the list says of memory.
pub Holds-of :
    (h : Heap) (p : ℕ) (xs ys : List Block) (b : Block) (lists : ℕ → List ℕ)
    → Sound h p (xs ++ b ∷ ys) lists
    → Holds h.mem (end_of p xs) (min_after false xs) (alloc_after true xs) b
Holds-of h p xs ys b lists s = (Part-split h.mem p false true xs (b ∷ ys) s.part).1.0

-- A block leaves its list.
module _ (rounds : ℕ) (h : Heap) (p : ℕ) (xs ys ds : List Block) (d : Block) (lists : ℕ → List ℕ)
    (s : Sound h p (xs ++ (ys ++ d ∷ ds)) lists) (k : ℕ) (place : end_of (end_of p xs) ys ≡ k) where
  place_append : end_of p (xs ++ ys) ≡ k
  place_append = end_of-append p xs ys ∙ place

  s' : Sound h p ((xs ++ ys) ++ d ∷ ds) lists
  s' = subst (λ t. Sound h p t lists) (sym (append_assoc xs ys (d ∷ ds))) s

  pub size_at : get_size h.mem k ≡ d.size
  unfolding get_size
  size_at =
      subst (λ t. extract_size (h.mem t) ≡ d.size) place_append
        (Holds-of h p (xs ++ ys) ds d lists s').header.size_is

  pub fix_at :
      d.alloc ≡ false
      → d.listed ≡ true
      → count_listed (xs ++ (ys ++ d ∷ ds)) < rounds
      → Moved h
          (fix_free_list rounds k h)
          p
          (xs ++ (ys ++ d ∷ ds))
          (xs ++ (ys ++ relisted d false ∷ ds))
  fix_at free on enough =
      let assoc = append_assoc xs ys (d ∷ ds) in
      let assoc' = append_assoc xs ys (relisted d false ∷ ds) in
      let m =
        fix-Moved h p (xs ++ ys) ds d lists s' free rounds
          (subst (λ t. count_listed t < rounds) (sym assoc) enough) on in
      subst
        (λ t.
          Moved h (fix_free_list rounds t h) p (xs ++ (ys ++ d ∷ ds))
            (xs ++ (ys ++ relisted d false ∷ ds)))
        place_append
        (subst
          (λ t.
            Moved h (fix_free_list rounds (end_of p (xs ++ ys)) h) p t
              (xs ++ (ys ++ relisted d false ∷ ds)))
          assoc
          (subst
            (λ t. Moved h (fix_free_list rounds (end_of p (xs ++ ys)) h) p ((xs ++ ys) ++ d ∷ ds) t)
            assoc' m))

-- The heap after coalescing: `r` is the block that comes out and the heap.
pub record Coalesced (h : Heap) (p n : ℕ) (before : List Block) (r : ℕ × Heap) : Type 0 where
  pub front : List Block
  pub rest : List Block
  pub size : ℕ
  pub bigger : n ≤ size
  pub place : r.0 ≡ end_of p front
  pub moved : Moved h r.1 p before (front ++ freed size ∷ rest)
  pub tidy : Tidy true (front ++ freed size ∷ rest)
  pub same : allocated p (front ++ freed size ∷ rest) ≡ allocated p before
  pub ends : end_of p (front ++ freed size ∷ rest) ≡ end_of p before
  pub stays : (y : ℕ) → UsedAt p before y → UsedAt p (front ++ freed size ∷ rest) y

pub ends-swap :
    (p : ℕ) (front old news rest : List Block)
    → end_of (end_of p front) news ≡ end_of (end_of p front) old
    → end_of p (front ++ (news ++ rest)) ≡ end_of p (front ++ (old ++ rest))
ends-swap p front old news rest e =
    end_of-append p front (news ++ rest)
    ∙ end_of-append (end_of p front) news rest
    ∙ ap (λ t. end_of t rest) e
    ∙ sym (end_of-append p front (old ++ rest) ∙ end_of-append (end_of p front) old rest)

-- Free blocks `old`, which are in no list any more, become one.
module _ (h h1 : Heap) (p n n' : ℕ) (front rest start old : List Block)
    (m : Moved h h1 p (front ++ (start ++ rest)) (front ++ (old ++ rest))) (free : Unused start)
    (unused : Unused old) (ends : end_of (end_of p front) old ≡ end_of (end_of p front) start)
    (amount : end_of (end_of p front) old ≡ end_of p front + n') (bigger : n ≤ n')
    (tidy_front : Tidy true front) (tidy_rest : Tidy false rest)
    (full : alloc_after true front ≡ true) where
  pub Coalesced-of :
      (h2 : Heap)
      → Moved h1 h2 p (front ++ (old ++ rest)) (front ++ freed n' ∷ rest)
      → Coalesced h p n (front ++ (start ++ rest)) (end_of p front, h2)
  Coalesced-of h2 m2 = record {
    front = front;
    rest = rest;
    size = n';
    bigger = bigger;
    place = refl;
    moved =
        Moved-trans h h1 h2 p (front ++ (start ++ rest)) (front ++ (old ++ rest))
          (front ++ freed n' ∷ rest) m (λ y. used-stays p front start old rest y free ends) m2;
    tidy = Tidy-join true front rest n' tidy_front full tidy_rest;
    same = allocated-swap p front start (freed n' ∷ []) rest free (refl, tt) (sym amount ∙ ends);
    ends = ends-swap p front start (freed n' ∷ []) rest (sym amount ∙ ends);
    stays = λ y. used-stays p front start (freed n' ∷ []) rest y free (sym amount ∙ ends);
  }

  pub absorbed :
      Unlisted old
      → n' % 16 ≡ 0
      → min_block_size < n'
      → Coalesced h p n (front ++ (start ++ rest)) (
        end_of p front,
        insert_block_lifo
            (end_of p front)
            (write_free (end_of p front) n' (min_after false front) true h1),
      )
  absorbed off aligned large =
      Coalesced-of
        (insert_block_lifo (end_of p front)
          (write_free (end_of p front) n' (min_after false front) true h1))
        (absorb-Moved h1 p n' front old rest m.lists m.sound off unused amount aligned large full)
