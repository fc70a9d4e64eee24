-- ===== src/Mm/Layout/Split.antt =====
-- `split_block`: a free block is taken from its list and becomes an allocated one.
use computer_systems_project.Base.{
  ℕ, ◌+◌, ◌-◌, ◌≤◌, ◌≡◌, refl, sym, ap, subst, ◌∙◌, inl, inr, Bool, true, false, ◌==◌, Bool-cases,
  List, [], ◌∷◌, ◌++◌, arith,
}
use computer_systems_project.Mm.{
  Memory, min_block_size, write_block, set_next_block_pre_alloc_pre_min, get_pre_min, find_next,
}
use computer_systems_project.Mm.Words.{Says}
use computer_systems_project.Mm.Alloc.{on_mem, take_whole}
use computer_systems_project.Mm.Lists.{Heap}
use computer_systems_project.Mm.Layout.{Block, end_of, min_after, alloc_after, Holds, Sound}
use computer_systems_project.Mm.Layout.Blocks.{
  end_of-append, min_after-append, alloc_after-append, Part-split,
}
use computer_systems_project.Mm.Layout.Moves.{Moved}
use computer_systems_project.Mm.Layout.Writes.{Wrote, write_block-Wrote, next_is}
use computer_systems_project.Mm.Layout.Merge.{
  allocated, allocated-append, Tidy, pending, freed, write-Moved,
}
use computer_systems_project.Mm.Layout.Coalesce.{Holds-of, ends-swap}

-- What the header behind a block says.
pub record Behind (mem : Memory) (r : ℕ) (pm pa : Bool) : Type 0 where
  pub size : ℕ
  pub alloc : Bool
  pub says : Says (mem r) size pm pa alloc

pub Behind-of :
    (h : Heap) (p : ℕ) (front rest : List Block) (b : Block) (lists : ℕ → List ℕ)
    → Sound h p (front ++ b ∷ rest) lists
    → Behind h.mem (end_of p front + b.size) (b.size == min_block_size) b.alloc
Behind-of h p front [] b lists s =
    let e = end_of-append p front (b ∷ []) in
    let m = min_after-append false front (b ∷ []) in
    let a = alloc_after-append true front (b ∷ []) in
    record {
      size = 0;
      alloc = true;
      says =
          subst (λ t. Says (h.mem t) 0 (b.size == min_block_size) b.alloc true) e
            (subst (λ t. Says (h.mem (end_of p (front ++ b ∷ []))) 0 t b.alloc true) m
              (subst
                (λ t.
                  Says (h.mem (end_of p (front ++ b ∷ []))) 0 (min_after false (front ++ b ∷ [])) t
                    true)
                a s.epilogue));
    }
Behind-of h p front (d ∷ ds) b lists s =
    let part = Part-split h.mem p false true front (b ∷ d ∷ ds) s.part in
    record { size = d.size; alloc = d.alloc; says = part.1.1.0.header }

-- In a tidy list the block before a free one is allocated.
pub Tidy-split :
    (pa : Bool) (front rest : List Block) (n : ℕ)
    → Tidy pa (front ++ freed n ∷ rest)
    → Tidy pa front × (alloc_after pa front ≡ true) × Tidy true rest
Tidy-split pa [] rest n t =
    (tt, elim (Bool-cases pa) [ inl e ↦ e | inr e ↦ let used = t.1 e in cc ], weaken rest t.2)
  where
    weaken : (ds : List Block) → Tidy false ds → Tidy true ds
    weaken [] u = tt
    weaken (d ∷ ds) u = (u.0, (λ f. cc), u.2)
Tidy-split pa (b ∷ bs) rest n t =
    let r = Tidy-split b.alloc bs rest n t.2 in ((t.0, t.1, r.0), r.1, r.2)

pub Tidy-used :
    (pa : Bool) (front rest : List Block) (n : ℕ)
    → Tidy pa front
    → Tidy true rest
    → Tidy pa (front ++ pending n true ∷ rest)
Tidy-used pa [] rest n t u = (refl, (λ f. refl), u)
Tidy-used pa (b ∷ bs) rest n t u = (t.0, t.1, Tidy-used b.alloc bs rest n t.2 u)

-- A block has been allocated at `q`: between which allocated blocks, and what else is as before.
pub record Taken (h h' : Heap) (p q asize : ℕ) (before : List Block) : Type 0 where
  pub after : List Block
  pub size : ℕ
  pub fits : asize ≤ size
  pub lefts : List (ℕ × ℕ)
  pub rights : List (ℕ × ℕ)
  pub was : allocated p before ≡ lefts ++ rights
  pub now : allocated p after ≡ lefts ++ (q, size) ∷ rights
  pub moved : Moved h h' p before after
  pub tidy : Tidy true after
  pub ends : end_of p after ≡ end_of p before

-- The free block in no list, at which the two branches start.
module _ (h : Heap) (p n : ℕ) (front rest : List Block) (lists : ℕ → List ℕ)
    (s : Sound h p (front ++ pending n false ∷ rest) lists) (tidy_front : Tidy true front)
    (full : alloc_after true front ≡ true) (tidy_rest : Tidy true rest) where
  abbrev q : ℕ
  q = end_of p front

  abbrev pm : Bool
  pm = min_after false front

  abbrev before : List Block
  before = front ++ pending n false ∷ rest

  hd : Holds h.mem q pm true (pending n false)
  hd =
      subst (λ t. Holds h.mem q pm t (pending n false)) full
        (Holds-of h p front rest (pending n false) lists s)

  pre_min : get_pre_min h.mem q ≡ pm
  unfolding get_pre_min
  pre_min = hd.header.pre_min_is

  allocated_before : allocated p before ≡ allocated p front ++ allocated (q + n) rest
  allocated_before = allocated-append p front (pending n false ∷ rest)

  -- The block is taken whole.
  pub take_whole-Taken : (asize : ℕ) → asize ≤ n → Taken h (take_whole q n h) p q asize before
  unfolding take_whole get_pre_min
  take_whole-Taken asize fits =
      let m1 = write_block q n pm true true false h.mem in
      let w = write_block-Wrote h.mem q n pm true true false hd.aligned hd.least (λ f g. cc) in
      let w' = subst (λ t. Wrote h.mem m1 q n pm t true) (sym full) w in
      let bh = Behind-of h p front rest (pending n false) lists s in
      let same : m1 (q + n) ≡ h.mem (q + n) =
        w.others (q + n) (λ e. least_apart e) (λ e. least_apart' e) in
      let behind_min : get_pre_min m1 (find_next m1 q) ≡ (n == min_block_size) =
        ap (get_pre_min m1) (next_is h.mem m1 q n pm true true hd.aligned hd.least w)
        ∙ ap (λ t. get_pre_min (λ _. t) 0) same
        ∙ bh.says.pre_min_is in
      let m =
        write-Moved h m1 p n true front (pending n false ∷ []) rest lists s (refl, tt) refl
          hd.aligned hd.least w' (refl, tt) in
      let e : on_mem
            (λ t.
              set_next_block_pre_alloc_pre_min q (n == min_block_size) true
                (write_block q n pm true true false t))
            h
          ≡ take_whole q n h =
        rw (pre_min, behind_min) refl in
      record {
        after = front ++ pending n true ∷ rest;
        size = n;
        fits = fits;
        lefts = allocated p front;
        rights = allocated (q + n) rest;
        was = allocated_before;
        now = allocated-append p front (pending n true ∷ rest);
        moved = subst (λ t. Moved h t p before (front ++ pending n true ∷ rest)) e m;
        tidy = Tidy-used true front rest n tidy_front tidy_rest;
        ends = ends-swap p front (pending n false ∷ []) (pending n true ∷ []) rest refl;
      }
    where
      least_apart : q + n ≡ q → ⊥
      least_apart e = omega (arith, e, hd.least)

      least_apart' : q + n ≡ q + n - 8 → ⊥
      least_apart' e = omega (arith, e, hd.least)
