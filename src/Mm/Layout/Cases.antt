-- ===== src/Mm/Layout/Cases.antt =====
-- The four cases of `coalesce_block`.
use computer_systems_project.Base.{
  ℕ, ◌+◌, ◌≤◌, ◌≡◌, refl, sym, ap, subst, ◌∙◌, inl, inr, Bool, true, false, ◌==◌, ltb, Bool-cases,
  List, [], ◌∷◌, ◌++◌, arith,
}
use computer_systems_project.Mm.{
  min_block_size, set_next_block_pre_alloc_pre_min, get_size, get_alloc, get_pre_alloc, get_pre_min,
  find_next,
}
use computer_systems_project.Mm.Words.{Says}
use computer_systems_project.Mm.Alloc.{handle_case_1, coalesce_block}
use computer_systems_project.Mm.Lists.{Heap, insert_block_lifo}
use computer_systems_project.Mm.Layout.{Block, end_of, min_after, alloc_after, Holds, Part, Sound}
use computer_systems_project.Mm.Layout.Blocks.{
  end_of-append, min_after-append, alloc_after-append, Part-split,
}
use computer_systems_project.Mm.Layout.Moves.{Moved}
use computer_systems_project.Mm.Layout.Writes.{Wrote}
use computer_systems_project.Mm.Layout.Merge.{Tidy, pending, write-Moved, list_in-Moved}
use computer_systems_project.Mm.Layout.Coalesce.{Holds-of, Coalesced, Coalesced-of}

-- Whether the block behind is allocated; the epilogue is.
abbrev pub next_alloc : List Block → Bool
next_alloc [] = true
next_alloc (d ∷ ds) = d.alloc

module _ (h : Heap) (p n : ℕ) (front rest : List Block) (lists : ℕ → List ℕ)
    (s : Sound h p (front ++ pending n false ∷ rest) lists) where
  abbrev q : ℕ
  q = end_of p front

  pub holds : Holds h.mem q (min_after false front) (alloc_after true front) (pending n false)
  holds = Holds-of h p front rest (pending n false) lists s

  pub size_is : get_size h.mem q ≡ n
  unfolding get_size
  size_is = holds.header.size_is

  pub next_is : find_next h.mem q ≡ q + n
  unfolding find_next get_size
  next_is = ap (λ t. q + t) holds.header.size_is

  pub pre_alloc_is : get_pre_alloc h.mem q ≡ alloc_after true front
  unfolding get_pre_alloc
  pre_alloc_is = holds.header.pre_alloc_is

  pub pre_min_is : get_pre_min h.mem q ≡ min_after false front
  unfolding get_pre_min
  pre_min_is = holds.header.pre_min_is

  alloc_behind :
      (ds : List Block)
      → Part h.mem (q + n) (n == min_block_size) false ds
      → Says
          (h.mem (end_of (q + n) ds))
          0
          (min_after (n == min_block_size) ds)
          (alloc_after false ds)
          true
      → get_alloc h.mem (q + n) ≡ next_alloc ds
  unfolding get_alloc
  alloc_behind [] part last = last.alloc_is
  alloc_behind (d ∷ ds) part last = part.0.header.alloc_is

  pub next_alloc_is : get_alloc h.mem (find_next h.mem q) ≡ next_alloc rest
  next_alloc_is =
      let before = pending n false ∷ rest in
      let part = Part-split h.mem p false true front before s.part in
      let last = s.epilogue in
      let last' =
        subst
          (λ t. Says (h.mem (end_of (q + n) rest)) 0 (min_after (n == min_block_size) rest) t true)
          (alloc_after-append true front before)
          (subst
            (λ t. Says (h.mem (end_of (q + n) rest)) 0 t (alloc_after true (front ++ before)) true)
            (min_after-append false front before)
            (subst
              (λ t.
                Says (h.mem t) 0 (min_after false (front ++ before))
                  (alloc_after true (front ++ before)) true)
              (end_of-append p front before) last)) in
      ap (get_alloc h.mem) next_is ∙ alloc_behind rest part.1.1 last'

-- Case 1.
pub case_1-Coalesced :
    (rounds : ℕ) (h : Heap) (p n : ℕ) (front rest : List Block) (lists : ℕ → List ℕ)
    (s : Sound h p (front ++ pending n false ∷ rest) lists)
    → Tidy true front
    → Tidy true rest
    → alloc_after true front ≡ true
    → next_alloc rest ≡ true
    → Coalesced h p n (front ++ pending n false ∷ rest) (coalesce_block rounds (end_of p front) h)
unfolding coalesce_block handle_case_1
case_1-Coalesced rounds h p n front rest lists s tf tr full next_full =
    let q = end_of p front in
    let hd = holds h p n front rest lists s in
    let before = front ++ pending n false ∷ rest in
    let wrote = same_wrote hd in
    let m =
      write-Moved h h.mem p n false front (pending n false ∷ []) rest lists s (refl, tt) refl
        hd.aligned hd.least wrote (refl, tt) in
    let tell = record h {
      mem = set_next_block_pre_alloc_pre_min q (n == min_block_size) false h.mem;
    } in
    let m2 =
      list_in-Moved h p n front (pending n false ∷ []) rest lists s (refl, tt) (refl, tt) refl
        hd.aligned tell m in
    let m0 : Moved h h p before before = record { lists = lists; sound = s; used = λ y u. refl } in
    let pre = pre_alloc_is h p n front rest lists s ∙ full in
    let nxt = next_alloc_is h p n front rest lists s ∙ next_full in
    subst (λ t. Coalesced h p n before t)
      (sym (
        rw (pre, nxt, size_is h p n front rest lists s)
          (ap (λ t. (q, insert_block_lifo q t)) (tells hd.least))))
      (Coalesced-of h h p n n front rest (pending n false ∷ []) (pending n false ∷ []) m0 (refl, tt)
        (refl, tt) refl refl (omega arith) tf (tidy_false rest tr next_full) full
        (insert_block_lifo q tell) m2)
  where
    same_wrote :
        Holds h.mem
          (end_of p front)
          (min_after false front)
          (alloc_after true front)
          (pending n false)
        → Wrote h.mem h.mem
            (end_of p front)
            n
            (min_after false front)
            (alloc_after true front)
            false
    same_wrote hd = record {
      header = hd.header;
      footer = λ f g. hd.footer f g;
      others = λ x a b. refl;
    }

    tidy_false : (ds : List Block) → Tidy true ds → next_alloc ds ≡ true → Tidy false ds
    tidy_false [] t e = tt
    tidy_false (d ∷ ds) t e = (t.0, (λ f. e), t.2)

    tells :
        min_block_size ≤ n
        → handle_case_1 (end_of p front) n h ≡ record h {
          mem = set_next_block_pre_alloc_pre_min (end_of p front) (n == min_block_size) false h.mem;
        }
    tells least = elim (Bool-cases (n == min_block_size)) [
      | inl small ↦ rw small refl
      | inr large ↦
          let more : ltb min_block_size n ≡ true = ground (arith, large, least) in
          rw (large, more) refl
    ]
