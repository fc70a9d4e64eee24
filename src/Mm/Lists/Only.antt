-- ===== src/Mm/Lists/Only.antt =====
-- The words that insertion and removal leave alone.
use computer_systems_project.Base.{
  ℕ, ◌<◌, ◌≡◌, ◌≢◌, refl, sym, ap, subst, ◌∙◌, ◌⊎◌, inl, inr, Bool, true, false, not, ◌==◌,
  if◌then◌else◌, Bool-cases, List, [], ◌∷◌, ◌++◌, length, arith,
}
use computer_systems_project.Mm.{Memory, min_block_size, store, get_size, find_seg_list_class}
use computer_systems_project.Mm.Layout.{In}
use computer_systems_project.Mm.Lists.{
  Heap, next_at, prev_at, link_first, insert_block_lifo, find_before, unlink_small, unlink_large,
  fix_free_list,
}
use computer_systems_project.Mm.Lists.Chain.{head_of, Distinct, Chain, store_ne, Linked}
use computer_systems_project.Mm.Lists.Remove.{
  last_of, Distinct-front, fix_small, unlink_behind, find_before-first, find_before-last_of,
  middle-Chain,
}
use computer_systems_project.Mm.Lists.Unlink.{
  fix_large, middle-both, unless_store_ne, false_nonzero,
}

link_first-only :
    (block size first : ℕ) (mem : Memory) (x : ℕ)
    → x ≢ next_at block
    → (not (size == min_block_size) ≡ true → x ≢ prev_at block)
    → (not (size == min_block_size) ≡ true → first ≢ 0 → x ≢ prev_at first)
    → link_first block size first mem x ≡ mem x
unfolding link_first
link_first-only block size first mem x a b c = elim (Bool-cases (size == min_block_size)) [
  | inl small ↦ rw small (store_ne mem (next_at block) first x a)
  | inr large ↦
      let yes' : not (size == min_block_size) ≡ true = ap not large in
      elim (Bool-cases (first == 0)) [
        | inl none' ↦
            rw (large, none')
              (store_ne (store mem (next_at block) first) (prev_at block) 0 x (b yes')
                ∙ store_ne mem (next_at block) first x a)
        | inr some' ↦
            let m1 = store mem (prev_at first) block in
            rw (large, some')
              (store_ne (store m1 (next_at block) first) (prev_at block) 0 x (b yes')
                ∙ store_ne m1 (next_at block) first x a
                ∙ store_ne mem (prev_at first) block x (c yes' (false_nonzero first some')))
      ]
]

head_of-In : (bs : List ℕ) → head_of bs ≢ 0 → In (head_of bs) bs
head_of-In [] nz = absurd (nz refl)
head_of-In (b ∷ bs) nz = inl refl

-- A word that is not in the links of the block nor of the blocks of its list.
abbrev pub Outside : Bool → ℕ → List ℕ → ℕ → Type 0
Outside both block bs x =
    (t : ℕ) → (t ≡ block) ⊎ In t bs → (x ≢ next_at t) × (both ≡ true → x ≢ prev_at t)

pub insert_block_lifo-only :
    (h : Heap) (block : ℕ) (bs : List ℕ) (x : ℕ)
    → h.seg_list (find_seg_list_class (get_size h.mem block)) ≡ head_of bs
    → Outside (not (get_size h.mem block == min_block_size)) block bs x
    → (insert_block_lifo block h).mem x ≡ h.mem x
unfolding insert_block_lifo
insert_block_lifo-only h block bs x first out =
    let size = get_size h.mem block in
    let mine = out block (inl refl) in
    link_first-only block size (h.seg_list (find_seg_list_class size)) h.mem x mine.0 mine.1 (
      subst (λ f. not (size == min_block_size) ≡ true → f ≢ 0 → x ≢ prev_at f) (sym first)
        (λ large nz. (out (head_of bs) (inr (head_of-In bs nz))).1 large))

last_of-In : (f : ℕ) (fs rest : List ℕ) → In (last_of f fs) (f ∷ fs ++ rest)
last_of-In f [] rest = inl refl
last_of-In f (g ∷ gs) rest = inr (last_of-In g gs rest)

behind-In : (t : ℕ) (front rest : List ℕ) → In t rest → In t (front ++ rest)
behind-In t [] rest i = i
behind-In t (f ∷ fs) rest i = inr (behind-In t fs rest i)

pub fix_small-only :
    (h : Heap) (fuel block : ℕ) (front rest : List ℕ) (x : ℕ)
    → get_size h.mem block ≡ min_block_size
    → length front < fuel
    → Distinct (front ++ block ∷ rest)
    → Linked min_block_size h (front ++ block ∷ rest)
    → Outside false block (front ++ block ∷ rest) x
    → (fix_free_list fuel block h).mem x ≡ h.mem x
unfolding unlink_small
fix_small-only h fuel block [] rest x small enough d l out =
    let found =
      ap (λ b. find_before fuel b block h.mem) l.0
      ∙ find_before-first h.mem block rest fuel d.0 l.1 in
    ap (λ (h' : Heap). h'.mem x) (fix_small h fuel block 0 (head_of rest) small found l.1.1)
fix_small-only h fuel block (f ∷ fs) rest x small enough d l out =
    let c = find_seg_list_class min_block_size in
    let mid = middle-Chain h.mem 0 block f fs rest l.1 in
    let away = Distinct-front block (f ∷ fs) rest d in
    let found =
      find_before-last_of h.mem 0 block f fs rest fuel (omega (arith, enough)) away.0.1 l.1 in
    let e =
      fix_small h fuel block (last_of f fs) (head_of rest) small
        (ap (λ b. find_before fuel b block h.mem) l.0 ∙ found) mid.2 in
    ap (λ (h' : Heap). h'.mem x) (e ∙ unlink_behind h (last_of f fs) (head_of rest) c mid.0)
    ∙ store_ne h.mem (next_at (last_of f fs)) (head_of rest) x
        (out (last_of f fs) (inr (last_of-In f fs (block ∷ rest)))).0

unlink_large-only :
    (h : Heap) (block prev next c x : ℕ)
    → x ≢ next_at block
    → x ≢ prev_at block
    → (prev ≢ 0 → x ≢ next_at prev)
    → (next ≢ 0 → x ≢ prev_at next)
    → (unlink_large block prev next c h).mem x ≡ h.mem x
unfolding unlink_large
unlink_large-only h block prev next c x a b at_prev at_next =
    let mem1 = if next == 0 then h.mem else store h.mem (prev_at next) prev in
    let mem2 = if prev == 0 then mem1 else store mem1 (next_at prev) next in
    store_ne (store mem2 (next_at block) 0) (prev_at block) 0 x b
    ∙ store_ne mem2 (next_at block) 0 x a
    ∙ unless_store_ne (prev == 0) mem1 (next_at prev) next x (λ f. at_prev (false_nonzero prev f))
    ∙ unless_store_ne (next == 0) h.mem (prev_at next) prev x (λ f. at_next (false_nonzero next f))

pub fix_large-only :
    (h : Heap) (fuel block : ℕ) (front rest : List ℕ) (x : ℕ)
    → (get_size h.mem block == min_block_size) ≡ false
    → Linked (get_size h.mem block) h (front ++ block ∷ rest)
    → Outside true block (front ++ block ∷ rest) x
    → (fix_free_list fuel block h).mem x ≡ h.mem x
fix_large-only h fuel block [] rest x large l out =
    let chain = subst (λ b. Chain h.mem (not b) 0 (block ∷ rest)) large l.1 in
    let mine = out block (inl refl) in
    ap (λ (h' : Heap). h'.mem x)
      (fix_large h fuel block 0 (head_of rest) large (chain.2 refl) chain.1)
    ∙ unlink_large-only h block 0 (head_of rest) (find_seg_list_class (get_size h.mem block)) x
        mine.0 (mine.1 refl) (λ nz. absurd (nz refl))
        (λ nz. (out (head_of rest) (inr (inr (head_of-In rest nz)))).1 refl)
fix_large-only h fuel block (f ∷ fs) rest x large l out =
    let chain = subst (λ b. Chain h.mem (not b) 0 (f ∷ fs ++ block ∷ rest)) large l.1 in
    let mid = middle-both h.mem 0 block f fs rest chain in
    let mine = out block (inl refl) in
    ap (λ (h' : Heap). h'.mem x)
      (fix_large h fuel block (last_of f fs) (head_of rest) large mid.1 mid.2.1)
    ∙ unlink_large-only h block (last_of f fs) (head_of rest)
        (find_seg_list_class (get_size h.mem block)) x mine.0 (mine.1 refl)
        (λ nz. (out (last_of f fs) (inr (last_of-In f fs (block ∷ rest)))).0)
        (λ nz.
          (out (head_of rest)
              (inr (behind-In (head_of rest) (f ∷ fs) (block ∷ rest) (inr (head_of-In rest nz))))).1
            refl)
