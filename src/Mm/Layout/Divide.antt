-- ===== src/Mm/Layout/Divide.antt =====
-- `split_block` where the free block is large enough for two, and as a whole.
use computer_systems_project.Base.{
  ℕ, ◌+◌, ◌-◌, ◌%◌, ◌<◌, ◌≤◌, ◌≡◌, refl, sym, ap, subst, ◌∙◌, ◌⊎◌, inl, inr, Bool, true, false,
  ◌==◌, List, [], ◌∷◌, ◌++◌, arith,
}
use computer_systems_project.Mm.{
  Memory, min_block_size, write_block, set_next_block_pre_alloc_pre_min, get_pre_min, find_next,
}
use computer_systems_project.Mm.Words.{Says}
use computer_systems_project.Mm.Alloc.{coalesce_block, split_two}
use computer_systems_project.Mm.Lists.{Heap}
use computer_systems_project.Mm.Layout.{Block, end_of, min_after, alloc_after, Holds, Sound}
use computer_systems_project.Mm.Layout.Moves.{Moved}
use computer_systems_project.Mm.Layout.Replace.{replace-Sound}
use computer_systems_project.Mm.Layout.Outside.{used-outside}
use computer_systems_project.Mm.Layout.Writes.{
  Wrote, write_block-Wrote, told, told_next, told_outside, told-Holds, next_is,
}
use computer_systems_project.Mm.Layout.Merge.{pending}
use computer_systems_project.Mm.Layout.Coalesce.{Holds-of}

-- The allocated part and the rest are written.
module _ (h : Heap) (p n asize rem : ℕ) (front rest : List Block) (lists : ℕ → List ℕ)
    (s : Sound h p (front ++ pending n false ∷ rest) lists) (full : alloc_after true front ≡ true)
    (total : asize + rem ≡ n) (aligned : asize % 16 ≡ 0) (least : 16 ≤ asize)
    (enough : 16 ≤ rem) where
  abbrev pub q : ℕ
  q = end_of p front

  abbrev pub pm : Bool
  pm = min_after false front

  abbrev pub before : List Block
  before = front ++ pending n false ∷ rest

  abbrev pub two : List Block
  two = front ++ (pending asize true ∷ pending rem false ∷ rest)

  hd : Holds h.mem q pm true (pending n false)
  hd =
      subst (λ t. Holds h.mem q pm t (pending n false)) full
        (Holds-of h p front rest (pending n false) lists s)

  abbrev pub m1 : Memory
  m1 = write_block q asize pm true true false h.mem

  w1 : Wrote h.mem m1 q asize pm true true
  w1 = write_block-Wrote h.mem q asize pm true true false aligned least (λ f g. cc)

  pub aligned_rem : rem % 16 ≡ 0
  aligned_rem = omega (arith, total, aligned, hd.aligned)

  abbrev pub m2 : Memory
  m2 = write_block (q + asize) rem (asize == min_block_size) true false true m1

  pub w2 : Wrote m1 m2 (q + asize) rem (asize == min_block_size) true false
  w2 =
      write_block-Wrote m1 (q + asize) rem (asize == min_block_size) true false true aligned_rem
        enough (λ f g. refl)

  abbrev pub m3 : Memory
  m3 = told m1 m2 (q + asize) rem (asize == min_block_size) true false aligned_rem enough w2

  -- Off the second block and the header behind it.
  off_second : (x : ℕ) → x < q + asize ⊎ q + n < x → m3 x ≡ m1 x
  off_second x (inl lt) =
      told_outside m1 m2 (q + asize) rem (asize == min_block_size) true false aligned_rem enough w2
        x (λ e. omega (arith, lt, e)) (λ e. omega (arith, lt, e, enough))
        (λ e. omega (arith, lt, e))
  off_second x (inr lt) =
      told_outside m1 m2 (q + asize) rem (asize == min_block_size) true false aligned_rem enough w2
        x (λ e. omega (arith, lt, e, total)) (λ e. omega (arith, lt, e, total))
        (λ e. omega (arith, lt, e, total))

  outside : (x : ℕ) → x < q ⊎ q + n < x → m3 x ≡ h.mem x
  outside x (inl lt) =
      off_second x (inl (omega (arith, lt)))
      ∙ w1.others x (λ e. omega (arith, lt, e)) (λ e. omega (arith, lt, e, least))
  outside x (inr lt) =
      off_second x (inr lt)
      ∙ w1.others x (λ e. omega (arith, lt, e)) (λ e. omega (arith, lt, e, total))

  first_Holds : Holds m3 q pm true (pending asize true)
  first_Holds = record {
    aligned = aligned;
    least = least;
    header =
        subst (λ t. Says t asize pm true true) (sym (off_second q (inl (omega (arith, least)))))
          w1.header;
    footer = λ f g. cc;
    free = λ e. cc;
  }

  ends : q + asize + rem ≡ q + n
  ends = omega (arith, total)

  next :
      (k : ℕ) (pm' pa' al' : Bool)
      → Says (h.mem (q + n)) k pm' pa' al'
      → Says (m3 (q + n)) k (rem == min_block_size) false al'
  next k pm' pa' al' says =
      let same : m1 (q + n) ≡ h.mem (q + n) =
        w1.others (q + n) (λ e. omega (arith, e, total, least)) (λ e. omega (arith, e, total)) in
      subst (λ r. Says (m3 r) k (rem == min_block_size) false al') ends
        (told_next m1 m2 (q + asize) rem (asize == min_block_size) true false aligned_rem enough w2
          k pm' pa' al'
          (subst (λ r. Says (m1 r) k pm' pa' al') (sym ends)
            (subst (λ t. Says t k pm' pa' al') (sym same) says)))

  pub divided-Moved : Moved h (record h { mem = m3 }) p before two
  divided-Moved = record {
    lists = lists;
    sound =
        replace-Sound h m3 p front (pending n false ∷ [])
          (pending asize true ∷ pending rem false ∷ []) rest lists s (refl, tt) (refl, (refl, tt))
          ends
          (
            subst (λ t. Holds m3 q pm t (pending asize true)) (sym full) first_Holds,
            (
              told-Holds m1 m2 (q + asize) rem (asize == min_block_size) true false aligned_rem
                  enough w2,
              tt,
            ),
          )
          outside next;
    used = λ y u. outside y (used-outside p front (pending n false ∷ []) rest y (refl, tt) u);
  }

  pre_min : get_pre_min h.mem q ≡ pm
  unfolding get_pre_min
  pre_min = hd.header.pre_min_is

  -- The heap at which the rest is coalesced.
  pub divided_eq :
      (rounds : ℕ)
      → split_two rounds q asize n h ≡ (coalesce_block rounds (q + asize) (record h { mem = m3 })).1
  unfolding split_two
  divided_eq rounds =
      let run = λ (m : Memory) (r k : ℕ).
        (coalesce_block rounds k (record h {
          mem =
              set_next_block_pre_alloc_pre_min k (r == min_block_size) false
                (write_block k r (asize == min_block_size) true false true m);
        })).1 in
      let first = λ (a : Bool). write_block q asize a true true false h.mem in
      let rem_is : n - asize ≡ rem = omega (arith, total) in
      ap (λ a. run (first a) (n - asize) (find_next (first a) q)) pre_min
      ∙ ap (λ r. run m1 r (find_next m1 q)) rem_is
      ∙ ap (λ k. run m1 rem k) (next_is h.mem m1 q asize pm true true aligned least w1)
