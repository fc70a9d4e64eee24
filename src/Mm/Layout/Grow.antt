-- ===== src/Mm/Layout/Grow.antt =====
-- `extend_heap`: new space behind the heap becomes a free block.
use computer_systems_project.Base.{
  ℕ, ◌+◌, ◌-◌, ◌%◌, ◌<◌, ◌≡◌, ◌≢◌, refl, sym, ap, subst, ◌∙◌, inl, inr, Bool, true, false, not,
  ◌==◌, List, [], ◌∷◌, ◌++◌, arith,
}
use computer_systems_project.Mm.{
  Memory, min_block_size, pack, store, write_block, write_epilogue, get_pre_min, get_pre_alloc,
  find_next, get_size, payload_to_header, find_seg_list_class,
}
use computer_systems_project.Mm.Words.{Says, pack-Says}
use computer_systems_project.Mm.Classes.{class_first}
use computer_systems_project.Mm.Alloc.{on_mem, coalesce_block, extended}
use computer_systems_project.Mm.Lists.{Heap, next_at, prev_at}
use computer_systems_project.Mm.Lists.Chain.{store_self, store_ne, Chain}
use computer_systems_project.Mm.Layout.{
  Block, end_of, min_after, alloc_after, Holds, Part, At, In, Sound,
}
use computer_systems_project.Mm.Layout.Blocks.{
  end_of-append, min_after-append, alloc_after-append, At-left, At-split, At-within, At-HoldsAt,
  Part-agree, Part-join, count_listed-append,
}
use computer_systems_project.Mm.Layout.Members.{Chain-agree}
use computer_systems_project.Mm.Layout.Moves.{Moved}
use computer_systems_project.Mm.Layout.Replace.{large_of}
use computer_systems_project.Mm.Layout.Writes.{Wrote, write_block-Wrote}
use computer_systems_project.Mm.Layout.Merge.{pending}

module _ (h : Heap) (p n : ℕ) (bs : List Block) (lists : ℕ → List ℕ) (s : Sound h p bs lists)
    (aligned : n % 16 ≡ 0) (large : 16 < n) where
  abbrev pub old_end : ℕ
  old_end = end_of p bs

  abbrev pub grown : List Block
  grown = bs ++ pending n false ∷ []

  abbrev mem1 : Memory
  mem1 =
      write_block old_end n (get_pre_min h.mem old_end) (get_pre_alloc h.mem old_end) false true
        h.mem

  wrote : Wrote h.mem mem1 old_end n (get_pre_min h.mem old_end) (get_pre_alloc h.mem old_end) false
  wrote =
      write_block-Wrote h.mem old_end n (get_pre_min h.mem old_end) (get_pre_alloc h.mem old_end)
        false true aligned (omega (arith, large)) (λ f g. refl)

  abbrev pub mem2 : Memory
  mem2 = store mem1 (old_end + n) (pack 0 false false true)

  off_end : (x : ℕ) → x ≢ old_end + n → mem2 x ≡ mem1 x
  off_end x other = store_ne mem1 (old_end + n) (pack 0 false false true) x other

  below : (x : ℕ) → x < old_end → mem2 x ≡ h.mem x
  below x lt =
      off_end x (λ e. omega (arith, e, lt))
      ∙ wrote.others x (λ e. omega (arith, e, lt)) (λ e. omega (arith, e, lt, large))

  new_Holds : Holds mem2 old_end (min_after false bs) (alloc_after true bs) (pending n false)
  unfolding get_pre_min get_pre_alloc
  new_Holds =
      let same = off_end old_end (λ e. omega (arith, e, large)) in
      let foot = off_end (old_end + n - 8) (λ e. omega (arith, e, large)) in
      let w : Says (mem2 old_end) n (get_pre_min h.mem old_end) (get_pre_alloc h.mem old_end)
          false =
        subst (λ t. Says t n (get_pre_min h.mem old_end) (get_pre_alloc h.mem old_end) false)
          (sym same) wrote.header in
      record {
        aligned = aligned;
        least = omega (arith, large);
        header =
            subst (λ t. Says (mem2 old_end) n (min_after false bs) t false) s.epilogue.pre_alloc_is
              (subst (λ t. Says (mem2 old_end) n t (get_pre_alloc h.mem old_end) false)
                s.epilogue.pre_min_is w);
        footer = λ f g. ap computer_systems_project.Mm.extract_size foot ∙ wrote.footer f g;
        free = λ e. cc;
      }

  part' : Part mem2 p false true grown
  part' =
      Part-join mem2 p false true bs (pending n false ∷ [])
        (Part-agree h.mem mem2 p false true bs
          (λ x a at.
            let w = At-within p bs x a at in
            let least = (At-HoldsAt h.mem p false true bs x a s.start s.part at).holds.least in
            (
              below x (omega (arith, w.1, least)),
              (λ f g. below (x + a.size - 8) (omega (arith, w.1, least))),
            ))
          s.part)
        (new_Holds, tt)

  epilogue' : Says (mem2 (end_of p grown)) 0 (min_after false grown) (alloc_after true grown) true
  epilogue' =
      let e = end_of-append p bs (pending n false ∷ []) in
      let not_min : (n == min_block_size) ≡ false = ground (arith, large) in
      let m = min_after-append false bs (pending n false ∷ []) ∙ not_min in
      let a = alloc_after-append true bs (pending n false ∷ []) in
      let here = store_self mem1 (old_end + n) (pack 0 false false true) in
      let w : Says (mem2 (old_end + n)) 0 false false true =
        subst (λ t. Says t 0 false false true) (sym here) (pack-Says 0 false false true refl) in
      subst (λ t. Says (mem2 t) 0 (min_after false grown) (alloc_after true grown) true) (sym e)
        (subst (λ t. Says (mem2 (old_end + n)) 0 t (alloc_after true grown) true) (sym m)
          (subst (λ t. Says (mem2 (old_end + n)) 0 false t true) (sym a) w))

  chain' : (c : ℕ) → c < 14 → Chain mem2 (not (c == 0)) 0 (lists c)
  chain' c lt =
      Chain-agree h.mem mem2 (not (c == 0)) 0 (lists c)
        (λ y i.
          let (a, at, on, e) = s.in_block c y lt i in
          let least = (At-HoldsAt h.mem p false true bs y a s.start s.part at).holds.least in
          let test : (c == 0) ≡ (a.size == min_block_size) =
            subst (λ k. (k == 0) ≡ (a.size == min_block_size)) e (class_first a.size least) in
          let w = At-within p bs y a at in
          (
            below (next_at y) (omega (arith, w.1, least)),
            (λ t. below (prev_at y) (omega (arith, w.1, large_of a.size c least test t))),
          ))
        (s.chain c lt)

  new_list :
      (x : ℕ) (a : Block)
      → At p grown x a
      → a.listed ≡ true
      → In x (lists (find_seg_list_class a.size))
  new_list x a at on = elim (At-split p bs (pending n false ∷ []) x a at) [
    | inl l ↦ s.in_list x a l on
    | inr (inl e) ↦ let off : a.listed ≡ false = ap (λ (t : Block). t.listed) e.1 in cc
    | inr (inr z) ↦ absurd z
  ]

  pub grown-Moved : Moved h (record h { mem = mem2 }) p bs grown
  grown-Moved = record {
    lists = lists;
    sound = record {
      start = s.start;
      part = part';
      epilogue = epilogue';
      first = s.first;
      chain = chain';
      distinct = s.distinct;
      in_block = λ c x lt i.
          let (a, at, on, e) = s.in_block c x lt i in
          (a, At-left p bs (pending n false ∷ []) x a at, on, e);
      in_list = new_list;
      counted = s.counted ∙ omega (arith, count_listed-append bs (pending n false ∷ []));
    };
    used = λ y u.
        let w = At-within p bs u.x u.a u.at in
        let behind = u.before in below y (omega (arith, w.1, behind));
  }

  pub extended_eq :
      (rounds : ℕ)
      → extended rounds (old_end + 8) n h ≡ coalesce_block rounds old_end (record h { mem = mem2 })
  unfolding extended payload_to_header write_epilogue find_next get_size
  extended_eq rounds =
      let run = λ (k : ℕ) (a b : Bool).
        (let m = write_block k n a b false true h.mem in
          coalesce_block rounds k
            (on_mem (write_epilogue (find_next m k)) (record h { mem = m }))) in
      ap (λ k. run k (get_pre_min h.mem k) (get_pre_alloc h.mem k)) place
      ∙ ap
          (λ k. coalesce_block rounds old_end (on_mem (write_epilogue k) (record h { mem = mem1 })))
          next
      ∙ refl
    where
      place : payload_to_header (old_end + 8) ≡ old_end
      place = omega arith

      next : find_next mem1 old_end ≡ old_end + n
      next = ap (λ t. old_end + t) wrote.header.size_is
