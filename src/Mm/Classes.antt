-- ===== src/Mm/Classes.antt =====
-- The class of a size among the segregated lists.
use native.Mathlib.Nat.{pow-le-pow_right}
use computer_systems_project.Base.{
  ℕ, zero, suc, ◌+◌, ◌-◌, ◌*◌, ◌%◌, ◌^◌, ◌<◌, ◌≤◌, ◌≡◌, refl, sym, subst, false, ltb, leb, ◌==◌,
  Bool-cases, inl, inr, ◌⊎◌, arith, ℕ_discrete,
}
use computer_systems_project.Mm.{
  min_block_size, max_seg_list_length, class_loop, find_seg_list_class,
}

-- The loop stops at the first class whose limit is not below the size.
pub record Least (start size c : ℕ) : Type 0 where
  pub from : start ≤ c
  pub fits : size ≤ min_block_size * 2 ^ c
  pub before : (k : ℕ) → start ≤ k → k < c → min_block_size * 2 ^ k < size

-- The shift does not wrap up to class 59.
no_wrap : (c : ℕ) → c ≤ 59 → min_block_size * 2 ^ c % 2 ^ 64 ≡ min_block_size * 2 ^ c
no_wrap c le =
    let top : 2 ^ c ≤ 2 ^ 59 = pow-le-pow_right (omega arith) {j = 59} le in omega (arith, top)

class_loop-Least :
    (fuel c d size : ℕ)
    → c + d ≤ 59
    → d ≤ fuel
    → size ≤ min_block_size * 2 ^ (c + d)
    → Least c size (class_loop fuel c size)
unfolding class_loop
class_loop-Least zero c d size range le enough = record {
  from = omega arith;
  fits = subst (λ n. size ≤ min_block_size * 2 ^ n) (omega (arith, le)) enough;
  before = λ k a b. absurd (omega arith);
}
class_loop-Least (suc f) c d size range le enough =
    rw (no_wrap c (omega (arith, range))) (elim (Bool-cases (ltb (min_block_size * 2 ^ c) size)) [
      | inr stop ↦ rw stop (record {
        from = omega arith;
        fits = ground arith;
        before = λ k a b. absurd (omega arith);
      })
      | inl more ↦
          let further : 0 < d = not_here d enough (ground (arith, more)) in
          let e : c + d ≡ c + 1 + (d - 1) = omega (arith, further) in
          let l =
            class_loop-Least f (c + 1) (d - 1) size (omega (arith, range, further))
              (omega (arith, le)) (subst (λ n. size ≤ min_block_size * 2 ^ n) e enough) in
          rw more (record {
            from = omega (arith, l.from);
            fits = l.fits;
            before = λ k a b. elim (ℕ_discrete k c) [
              | yes same ↦ subst (λ n. min_block_size * 2 ^ n < size) (sym same) (ground arith)
              | no other ↦ l.before k (omega arith) b
            ];
          })
    ])
  where
    not_here : (d : ℕ) → size ≤ min_block_size * 2 ^ (c + d) → min_block_size * 2 ^ c < size → 0 < d
    not_here zero fits more =
        let same : c + 0 ≡ c = omega arith in
        let fits' = subst (λ n. size ≤ min_block_size * 2 ^ n) same fits in
        absurd (omega (arith, fits', more))
    not_here (suc d) fits more = omega arith

-- A block of at most 2 ^ 63 bytes goes to one of the 14 lists: to the last one or to one whose limit,
-- 16 times 2 to the class, it does not exceed; and it exceeds the limit of every list before.
pub find_seg_list_class-Least :
    (size : ℕ)
    → size ≤ 2 ^ 63
    → let c = find_seg_list_class size in
      (c < max_seg_list_length)
      × ((c ≡ max_seg_list_length - 1) ⊎ (size ≤ min_block_size * 2 ^ c))
      × ((k : ℕ) → k < c → min_block_size * 2 ^ k < size)
unfolding find_seg_list_class
find_seg_list_class-Least size small = elim (Bool-cases (leb size min_block_size)) [
  | inl tiny ↦ rw tiny (omega arith, inr (ground arith), λ k a. absurd (omega arith))
  | inr more ↦ elim (Bool-cases (ltb c max_seg_list_length)) [
    | inl in_range ↦ rw (more, in_range) (ground arith, inr l.fits, λ k a. before more k a)
    | inr out ↦ rw (more, out) (omega arith, inl refl, λ k a. before more k (ground arith))
  ]
]
  where
    c : ℕ
    c = class_loop 60 1 size

    l : Least 1 size c
    l = class_loop-Least 60 1 58 size (omega arith) (omega arith) (omega (arith, small))

    before : leb size min_block_size ≡ false → (k : ℕ) → k < c → min_block_size * 2 ^ k < size
    before large zero a = ground arith
    before large (suc k) a = l.before (suc k) (omega arith) a

class_loop-ge : (fuel c size : ℕ) → c ≤ class_loop fuel c size
unfolding class_loop
class_loop-ge zero c size = omega arith
class_loop-ge (suc f) c size = ground (arith, class_loop-ge f (c + 1) size)

pub class_range : (size : ℕ) → find_seg_list_class size < 14
unfolding find_seg_list_class
class_range size = ground arith

-- The first list has the blocks of 16 bytes.
pub class_first :
    (size : ℕ) → 16 ≤ size → (find_seg_list_class size == 0) ≡ (size == min_block_size)
unfolding find_seg_list_class
class_first size h = ground (arith, class_loop-ge 60 1 size)

-- Larger blocks are in no earlier list.
pub class_mono : (a b : ℕ) → a ≤ b → b < 2 ^ 63 → find_seg_list_class a ≤ find_seg_list_class b
class_mono a b le small =
    let la = find_seg_list_class-Least a (omega (arith, le, small)) in
    let lb = find_seg_list_class-Least b (omega (arith, small)) in
    elim (Bool-cases (leb (find_seg_list_class a) (find_seg_list_class b))) [
      | inl ok ↦ ground (arith, ok)
      | inr not_ok ↦
          let lt : find_seg_list_class b < find_seg_list_class a = ground (arith, not_ok) in
          absurd (elim lb.1 [
            | inl last ↦ omega (arith, last, la.0, lt)
            | inr fits ↦ omega (arith, fits, la.2 (find_seg_list_class b) lt, le)
          ])
    ]
