-- ===== src/Mm/Layout/Writes.antt =====
-- What `write_block` and the flags of the block behind do to one block.
use computer_systems_project.Base.{
  ℕ, ◌+◌, ◌-◌, ◌%◌, ◌<◌, ◌≤◌, ◌≡◌, ◌≢◌, sym, ap, subst, ◌∙◌, inl, inr, Bool, true, false, ◌==◌,
  Bool-cases, arith,
}
use computer_systems_project.Mm.{
  Memory, min_block_size, extract_size, extract_alloc, pack, store, get_size, get_alloc, find_next,
  write_block, set_next_block_pre_alloc_pre_min,
}
use computer_systems_project.Mm.Words.{Says}
use computer_systems_project.Mm.Memory.{says, with_footer, set_next_block-Says}
use computer_systems_project.Mm.Lists.Chain.{store_self, store_ne}
use computer_systems_project.Mm.Layout.{Holds}

-- A block's header and, if it is free and has more than 16 bytes, its footer.
pub record Wrote (mem mem' : Memory) (q n : ℕ) (pm pa al : Bool) : Type 0 where
  pub header : Says (mem' q) n pm pa al
  pub footer : al ≡ false → min_block_size < n → extract_size (mem' (q + n - 8)) ≡ n
  pub others : (x : ℕ) → x ≢ q → x ≢ q + n - 8 → mem' x ≡ mem x

header-Wrote :
    (mem : Memory) (q n : ℕ) (pm pa al : Bool)
    → n % 16 ≡ 0
    → (al ≡ false → min_block_size < n → ⊥)
    → Wrote mem (store mem q (pack n pm pa al)) q n pm pa al
header-Wrote mem q n pm pa al aligned no_footer =
    let w = pack n pm pa al in
    record {
      header =
          subst (λ t. Says t n pm pa al) (sym (store_self mem q w)) (says mem q n pm pa al aligned);
      footer = λ f g. absurd (no_footer f g);
      others = λ x a b. store_ne mem q w x a;
    }

pub write_block-Wrote :
    (mem : Memory) (q n : ℕ) (pm pa al foot : Bool)
    → n % 16 ≡ 0
    → min_block_size ≤ n
    → (al ≡ false → min_block_size < n → foot ≡ true)
    → Wrote mem (write_block q n pm pa al foot mem) q n pm pa al
unfolding write_block
write_block-Wrote mem q n pm pa al false aligned least wants =
    header-Wrote mem q n pm pa al aligned (λ f g. let t = wants f g in cc)
write_block-Wrote mem q n pm pa al true aligned least wants =
    elim (Bool-cases (n == min_block_size)) [
      | inl small ↦
          rw small (header-Wrote mem q n pm pa al aligned (λ f g. ground (arith, g, small)))
      | inr large ↦
          let big : min_block_size < n = ground (arith, large, least) in
          subst (λ m. Wrote mem m q n pm pa al) (sym (with_footer mem q n pm pa al aligned big))
            (both_ends big)
    ]
  where
    w : ℕ
    w = pack n pm pa al

    both_ends :
        min_block_size < n → Wrote mem (store (store mem q w) (q + 8 + n - 16) w) q n pm pa al
    both_ends big =
        let place : q + n - 8 ≡ q + 8 + n - 16 = omega (arith, big) in
        let first =
          store_ne (store mem q w) (q + 8 + n - 16) w q (λ e. omega (arith, e, big))
          ∙ store_self mem q w in
        record {
          header = subst (λ t. Says t n pm pa al) (sym first) (says mem q n pm pa al aligned);
          footer = λ f g.
              ap (λ t. extract_size (store (store mem q w) (q + 8 + n - 16) w t)) place
              ∙ ap extract_size (store_self (store mem q w) (q + 8 + n - 16) w)
              ∙ (says mem q n pm pa al aligned).size_is;
          others = λ x a b.
              store_ne (store mem q w) (q + 8 + n - 16) w x (λ e. b (e ∙ sym place))
              ∙ store_ne mem q w x a;
        }

-- Afterwards the block behind is told.
module _ (mem m1 : Memory) (q n : ℕ) (pm pa al : Bool) (aligned : n % 16 ≡ 0)
    (least : min_block_size ≤ n) (wrote : Wrote mem m1 q n pm pa al) where
  abbrev pub told : Memory
  told = set_next_block_pre_alloc_pre_min q (n == min_block_size) al m1

  pub next_is : find_next m1 q ≡ q + n
  unfolding find_next get_size
  next_is = ap (λ t. q + t) wrote.header.size_is

  told_facts :
      Says (told (q + n)) (get_size m1 (q + n)) (n == min_block_size) al (get_alloc m1 (q + n))
      × ((x : ℕ) → x ≢ q + n → told x ≡ m1 x)
  told_facts =
      let f = set_next_block-Says m1 q (n == min_block_size) al in
      (
        subst (λ r. Says (told r) (get_size m1 r) (n == min_block_size) al (get_alloc m1 r)) next_is
            f.0,
        (λ x other. f.1 x (λ e. other (e ∙ next_is))),
      )

  behind_same : m1 (q + n) ≡ mem (q + n)
  behind_same = wrote.others (q + n) (λ e. omega (arith, e, least)) (λ e. omega (arith, e, least))

  pub told_next :
      (k : ℕ) (pm' pa' al' : Bool)
      → Says (mem (q + n)) k pm' pa' al'
      → Says (told (q + n)) k (n == min_block_size) al al'
  unfolding get_size get_alloc
  told_next k pm' pa' al' s =
      let size : extract_size (m1 (q + n)) ≡ k = ap extract_size behind_same ∙ s.size_is in
      let alloc : extract_alloc (m1 (q + n)) ≡ al' = ap extract_alloc behind_same ∙ s.alloc_is in
      subst (λ t. Says (told (q + n)) t (n == min_block_size) al al') size
        (subst (λ t. Says (told (q + n)) (extract_size (m1 (q + n))) (n == min_block_size) al t)
          alloc told_facts.0)

  pub told_off : (x : ℕ) → x ≢ q + n → told x ≡ m1 x
  told_off = told_facts.1

  pub told_outside : (x : ℕ) → x ≢ q → x ≢ q + n - 8 → x ≢ q + n → told x ≡ mem x
  told_outside x a b c = told_off x c ∙ wrote.others x a b

  pub told-Holds : Holds told q pm pa (record { size = n; alloc = al; listed = false })
  told-Holds = record {
    aligned = aligned;
    least = least;
    header =
        subst (λ t. Says t n pm pa al) (sym (told_off q (λ e. omega (arith, e, least))))
          wrote.header;
    footer = λ f g.
        ap extract_size (told_off (q + n - 8) (λ e. omega (arith, e, least))) ∙ wrote.footer f g;
    free = λ e. cc;
  }
