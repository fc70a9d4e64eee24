-- ===== src/Mm/Layout/Merge.antt =====
-- Free blocks that no list holds become one free block, which enters its list.
use computer_systems_project.Base.{
  ℕ, ◌+◌, ◌%◌, ◌<◌, ◌≤◌, ◌≡◌, refl, sym, ap, subst, ◌∙◌, ◌⊎◌, inl, inr, Bool, true, false, not,
  ◌==◌, if◌then◌else◌, List, [], ◌∷◌, ◌++◌, arith,
}
use computer_systems_project.Mm.{
  Memory, min_block_size, write_block, set_next_block_pre_alloc_pre_min,
}
use computer_systems_project.Mm.Words.{Says}
use computer_systems_project.Mm.Alloc.{on_mem, write_free}
use computer_systems_project.Mm.Lists.{Heap, insert_block_lifo}
use computer_systems_project.Mm.Layout.{Block, end_of, min_after, alloc_after, Sound}
use computer_systems_project.Mm.Layout.Frame.{UsedAt}
use computer_systems_project.Mm.Layout.Moves.{Moved, insert-Moved}
use computer_systems_project.Mm.Layout.Replace.{replace-Sound}
use computer_systems_project.Mm.Layout.Outside.{Unlisted, Unused, used-outside, used-stays}
use computer_systems_project.Mm.Layout.Writes.{
  Wrote, told, told_next, told_outside, told-Holds, write_block-Wrote,
}

-- The addresses and sizes of the allocated blocks.
abbrev pub allocated : ℕ → List Block → List (ℕ × ℕ)
allocated p [] = []
allocated p (b ∷ bs) =
    let rest = allocated (p + b.size) bs in if b.alloc then (p, b.size) ∷ rest else rest

-- A block is in a list exactly if it is free, and of two neighbours one is allocated.
abbrev pub Tidy : Bool → List Block → Type 0
Tidy pa [] = Unit
Tidy pa (b ∷ bs) = (b.listed ≡ not b.alloc) × (pa ≡ false → b.alloc ≡ true) × Tidy b.alloc bs

abbrev pub pending : ℕ → Bool → Block
pending n al = record { size = n; alloc = al; listed = false }

abbrev pub freed : ℕ → Block
freed n = record { size = n; alloc = false; listed = true }

if-append :
    (al : Bool) (z : ℕ × ℕ) (u v : List (ℕ × ℕ))
    → (if al then z ∷ (u ++ v) else u ++ v) ≡ (if al then z ∷ u else u) ++ v
if-append true z u v = refl
if-append false z u v = refl

pub allocated-append :
    (p : ℕ) (xs ys : List Block)
    → allocated p (xs ++ ys) ≡ allocated p xs ++ allocated (end_of p xs) ys
allocated-append p [] ys = refl
allocated-append p (b ∷ bs) ys =
    ap (λ t. if b.alloc then (p, b.size) ∷ t else t) (allocated-append (p + b.size) bs ys)
    ∙ if-append b.alloc (p, b.size) (allocated (p + b.size) bs)
        (allocated (end_of (p + b.size) bs) ys)

allocated-Unused : (p : ℕ) (bs : List Block) → Unused bs → allocated p bs ≡ []
allocated-Unused p [] u = refl
allocated-Unused p (b ∷ bs) u = rw u.0 (allocated-Unused (p + b.size) bs u.1)

-- Free blocks in the same space.
pub allocated-swap :
    (p : ℕ) (front old news rest : List Block)
    → Unused old
    → Unused news
    → end_of (end_of p front) news ≡ end_of (end_of p front) old
    → allocated p (front ++ (news ++ rest)) ≡ allocated p (front ++ (old ++ rest))
allocated-swap p front old news rest u u' e =
    let q = end_of p front in
    let mid = λ (x : List Block) (v : Unused x).
      allocated-append q x rest
      ∙ ap (λ t. t ++ allocated (end_of q x) rest) (allocated-Unused q x v) in
    allocated-append p front (news ++ rest)
    ∙ ap (λ t. allocated p front ++ t)
        (mid news u' ∙ ap (λ r. allocated r rest) e ∙ sym (mid old u))
    ∙ sym (allocated-append p front (old ++ rest))

pub Tidy-join :
    (pa : Bool) (front rest : List Block) (n : ℕ)
    → Tidy pa front
    → alloc_after pa front ≡ true
    → Tidy false rest
    → Tidy pa (front ++ freed n ∷ rest)
Tidy-join pa [] rest n t e t' = (refl, (λ f. cc), t')
Tidy-join pa (b ∷ bs) rest n t e t' = (t.0, t.1, Tidy-join b.alloc bs rest n t.2 e t')

-- One step after another.
pub Moved-trans :
    (h h1 h2 : Heap) (p : ℕ) (before between after : List Block)
    → Moved h h1 p before between
    → ((y : ℕ) → UsedAt p before y → UsedAt p between y)
    → Moved h1 h2 p between after
    → Moved h h2 p before after
Moved-trans h h1 h2 p before between after m stays m' = record {
  lists = m'.lists;
  sound = m'.sound;
  used = λ y u. m'.used y (stays y u) ∙ m.used y u;
}

-- One block is written over others, and the block behind is told.
module _ (h : Heap) (m1 : Memory) (p n : ℕ) (al : Bool) (front old rest : List Block)
    (lists : ℕ → List ℕ) (s : Sound h p (front ++ (old ++ rest)) lists) (off : Unlisted old)
    (amount : end_of (end_of p front) old ≡ end_of p front + n) (aligned : n % 16 ≡ 0)
    (least : min_block_size ≤ n)
    (wrote : Wrote h.mem m1
      (end_of p front)
      n
      (min_after false front)
      (alloc_after true front)
      al) where
  abbrev q : ℕ
  q = end_of p front

  abbrev pm : Bool
  pm = min_after false front

  abbrev pa : Bool
  pa = alloc_after true front

  abbrev pub after_mem : Memory
  after_mem = told h.mem m1 q n pm pa al aligned least wrote

  pub outside : (x : ℕ) → (x < q) ⊎ (end_of q old < x) → after_mem x ≡ h.mem x
  outside x (inl lt) =
      told_outside h.mem m1 q n pm pa al aligned least wrote x (λ e. omega (arith, e, lt))
        (λ e. omega (arith, e, lt, least)) (λ e. omega (arith, e, lt))
  outside x (inr lt) =
      told_outside h.mem m1 q n pm pa al aligned least wrote x (λ e. omega (arith, e, lt, amount))
        (λ e. omega (arith, e, lt, amount)) (λ e. omega (arith, e, lt, amount))

  pub write-Sound : Sound (record h { mem = after_mem }) p (front ++ pending n al ∷ rest) lists
  write-Sound =
      replace-Sound h after_mem p front old (pending n al ∷ []) rest lists s off (refl, tt)
        (sym amount) (told-Holds h.mem m1 q n pm pa al aligned least wrote, tt) outside
        (λ k pm' pa' al' says.
          subst (λ r. Says (after_mem r) k (n == min_block_size) al al') (sym amount)
            (told_next h.mem m1 q n pm pa al aligned least wrote k pm' pa' al'
              (subst (λ r. Says (h.mem r) k pm' pa' al') amount says)))

  pub write-Moved :
      Unused old
      → Moved h
          (record h { mem = after_mem })
          p
          (front ++ (old ++ rest))
          (front ++ pending n al ∷ rest)
  write-Moved u = record {
    lists = lists;
    sound = write-Sound;
    used = λ y k. outside y (used-outside p front old rest y u k);
  }

module _ (h : Heap) (p n : ℕ) (front old rest : List Block) (lists : ℕ → List ℕ)
    (s : Sound h p (front ++ (old ++ rest)) lists) (off : Unlisted old) (unused : Unused old)
    (amount : end_of (end_of p front) old ≡ end_of p front + n) (aligned : n % 16 ≡ 0) where
  abbrev at_q : ℕ
  at_q = end_of p front

  -- The block enters its list.
  pub list_in-Moved :
      (h' : Heap)
      → Moved h h' p (front ++ (old ++ rest)) (front ++ pending n false ∷ rest)
      → Moved h (insert_block_lifo at_q h') p (front ++ (old ++ rest)) (front ++ freed n ∷ rest)
  list_in-Moved h' m =
      Moved-trans h h' (insert_block_lifo at_q h') p (front ++ (old ++ rest))
        (front ++ pending n false ∷ rest) (front ++ freed n ∷ rest) m
        (λ y. used-stays p front old (pending n false ∷ []) rest y unused (sym amount))
        (insert-Moved h' p front rest (pending n false) m.lists m.sound refl refl)

  -- The merge of free blocks behind an allocated one.
  pub absorb-Moved :
      min_block_size < n
      → alloc_after true front ≡ true
      → Moved h
          (insert_block_lifo at_q (write_free at_q n (min_after false front) true h))
          p
          (front ++ (old ++ rest))
          (front ++ freed n ∷ rest)
  absorb-Moved large full = list_in-Moved (write_free at_q n (min_after false front) true h) (
      subst (λ t. Moved h t p (front ++ (old ++ rest)) (front ++ pending n false ∷ rest)) same
        (write-Moved h
          (write_block at_q n (min_after false front) (alloc_after true front) false true h.mem) p n
          false front old rest lists s off amount aligned (omega (arith, large)) wrote unused))
    where
      wrote :
          Wrote h.mem
            (write_block at_q n (min_after false front) (alloc_after true front) false true h.mem)
            at_q
            n
            (min_after false front)
            (alloc_after true front)
            false
      wrote =
          write_block-Wrote h.mem at_q n (min_after false front) (alloc_after true front) false true
            aligned (omega (arith, large)) (λ _ _. refl)

      not_min : (n == min_block_size) ≡ false
      not_min = ground (arith, large)

      same :
          on_mem
            (λ m.
              set_next_block_pre_alloc_pre_min at_q
                (n == min_block_size)
                false
                (write_block at_q n (min_after false front) (alloc_after true front) false true m))
            h
          ≡ write_free at_q n (min_after false front) true h
      same = rw (not_min, full) refl
