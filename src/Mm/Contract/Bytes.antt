-- ===== src/Mm/Contract/Bytes.antt =====
-- `memset` with 0 and `memcpy` on words.
use native.Mathlib.Nat.{mul-mod_left, div-add-mod', add-mul-mod_self_right, mod-mod}
use computer_systems_project.Base.{
  ℕ, zero, suc, ◌+◌, ◌-◌, ◌*◌, ◌/◌, ◌%◌, ◌^◌, ◌<◌, ◌≤◌, ◌≡◌, refl, sym, ap, ◌∙◌, ◌⊎◌, inl, inr,
  ◌==◌, ==→eq, Bool-cases, arith,
}
use computer_systems_project.Mm.{Memory, store}
use computer_systems_project.Mm.Copy.{
  copy_words, copy_bytes, memcpy, clear_words, clear_bytes, memset_zero,
}
use computer_systems_project.Mm.Lists.Chain.{store_self, store_ne}

-- A range of `n` bytes from an address on.
abbrev pub OutOf : (dst n y : ℕ) → Type 0
OutOf dst n y = (y < dst) ⊎ (dst + n ≤ y)

clear_words_out :
    (n dst y : ℕ) (mem : Memory) → OutOf dst (8 * n) y → clear_words n dst mem y ≡ mem y
unfolding clear_words
clear_words_out zero dst y mem o = refl
clear_words_out (suc n) dst y mem o =
    clear_words_out n (dst + 8) y (store mem dst 0)
      (elim o [ inl a ↦ inl (omega (arith, a)) | inr b ↦ inr (omega (arith, b)) ])
    ∙ store_ne mem dst 0 y
        (λ e. elim o [ inl a ↦ omega (arith, a, e) | inr b ↦ omega (arith, b, e) ])

clear_words_in : (n dst k : ℕ) (mem : Memory) → k < n → clear_words n dst mem (dst + 8 * k) ≡ 0
unfolding clear_words
clear_words_in zero dst k mem h = absurd (omega (arith, h))
clear_words_in (suc n) dst zero mem h =
    ap (clear_words n (dst + 8) (store mem dst 0)) (omega arith)
    ∙ clear_words_out n (dst + 8) dst (store mem dst 0) (inl (omega arith))
    ∙ store_self mem dst 0
clear_words_in (suc n) dst (suc k) mem h =
    ap (clear_words n (dst + 8) (store mem dst 0)) (omega arith)
    ∙ clear_words_in n (dst + 8) k (store mem dst 0) (omega (arith, h))

copy_words_out :
    (n dst src y : ℕ) (mem : Memory) → OutOf dst (8 * n) y → copy_words n dst src mem y ≡ mem y
unfolding copy_words
copy_words_out zero dst src y mem o = refl
copy_words_out (suc n) dst src y mem o =
    copy_words_out n (dst + 8) (src + 8) y (store mem dst (mem src))
      (elim o [ inl a ↦ inl (omega (arith, a)) | inr b ↦ inr (omega (arith, b)) ])
    ∙ store_ne mem dst (mem src) y
        (λ e. elim o [ inl a ↦ omega (arith, a, e) | inr b ↦ omega (arith, b, e) ])

-- The two ranges do not overlap.
abbrev pub NoOverlap : (dst src n : ℕ) → Type 0
NoOverlap dst src n = (dst + n ≤ src) ⊎ (src + n ≤ dst)

copy_words_in :
    (n dst src k : ℕ) (mem : Memory)
    → NoOverlap dst src (8 * n)
    → k < n
    → copy_words n dst src mem (dst + 8 * k) ≡ mem (src + 8 * k)
unfolding copy_words
copy_words_in zero dst src k mem o h = absurd (omega (arith, h))
copy_words_in (suc n) dst src zero mem o h =
    ap (copy_words n (dst + 8) (src + 8) (store mem dst (mem src))) (omega arith)
    ∙ copy_words_out n (dst + 8) (src + 8) dst (store mem dst (mem src)) (inl (omega arith))
    ∙ store_self mem dst (mem src)
    ∙ ap mem (omega arith)
copy_words_in (suc n) dst src (suc k) mem o h =
    ap (copy_words n (dst + 8) (src + 8) (store mem dst (mem src))) (omega arith)
    ∙ copy_words_in n (dst + 8) (src + 8) k (store mem dst (mem src))
        (elim o [ inl a ↦ inl (omega (arith, a)) | inr b ↦ inr (omega (arith, b)) ])
        (omega (arith, h))
    ∙ store_ne mem dst (mem src) (src + 8 + 8 * k)
        (λ e. elim o [ inl a ↦ omega (arith, a, e, h) | inr b ↦ omega (arith, b, e, h) ])
    ∙ ap mem (omega arith)

-- The first bytes of a word, as a number.
abbrev pub low_bytes : (r w : ℕ) → ℕ
low_bytes r w = w % 2 ^ (8 * r)

no_bytes : (w v : ℕ) → w - w % 2 ^ (8 * 0) + v % 2 ^ (8 * 0) ≡ w
no_bytes w v = omega arith

cleared : (r w : ℕ) → low_bytes r (w - w % 2 ^ (8 * r)) ≡ 0
cleared r w =
    let d = 2 ^ (8 * r) in
    let e : w - w % d ≡ w / d * d = omega (arith, div-add-mod' w d) in
    ap (λ t. t % d) e ∙ mul-mod_left (w / d) d

copied : (r w v : ℕ) → low_bytes r (w - w % 2 ^ (8 * r) + v % 2 ^ (8 * r)) ≡ low_bytes r v
copied r w v =
    let d = 2 ^ (8 * r) in
    let e : w - w % d + v % d ≡ v % d + w / d * d = omega (arith, div-add-mod' w d) in
    ap (λ t. t % d) e ∙ add-mul-mod_self_right (v % d) (w / d) d ∙ mod-mod v d

-- The bytes of a range are 0.
abbrev pub Zeroed : Memory → (dst n : ℕ) → Type 0
Zeroed mem dst n =
    ((k : ℕ) → k < n / 8 → mem (dst + 8 * k) ≡ 0) × (low_bytes (n % 8) (mem (dst + n / 8 * 8)) ≡ 0)

-- The bytes of a range of `mem'` are those of a range of `mem`.
abbrev pub Copied : (mem mem' : Memory) → (src dst n : ℕ) → Type 0
Copied mem mem' src dst n =
    ((k : ℕ) → k < n / 8 → mem' (dst + 8 * k) ≡ mem (src + 8 * k))
    × (low_bytes (n % 8) (mem' (dst + n / 8 * 8)) ≡ low_bytes (n % 8) (mem (src + n / 8 * 8)))

-- A write of the first `r` bytes of the word behind whole words.
tail_out :
    (dst n y : ℕ) (mem : Memory) (w : ℕ)
    → OutOf dst n y
    → (n % 8 ≡ 0 → w ≡ mem (dst + n / 8 * 8))
    → store mem (dst + n / 8 * 8) w y ≡ mem y
tail_out dst n y mem w o same = elim (Bool-cases (y == dst + n / 8 * 8)) [
  | inl e ↦
      let at : y ≡ dst + n / 8 * 8 = ==→eq y (dst + n / 8 * 8) e in
      let whole : n % 8 ≡ 0 = elim o [
        | inl a ↦ absurd (omega (arith, a, at))
        | inr b ↦ omega (arith, b, at)
      ] in
      rw e (same whole ∙ ap mem (sym at))
  | inr e ↦ rw e refl
]

pub memset_out : (dst n y : ℕ) (mem : Memory) → OutOf dst n y → memset_zero dst n mem y ≡ mem y
unfolding memset_zero clear_bytes
memset_out dst n y mem o =
    let m = clear_words (n / 8) dst mem in
    let v = m (dst + n / 8 * 8) in
    tail_out dst n y m (v - v % 2 ^ (8 * (n % 8))) o
      (λ e. ap (λ r. v - v % 2 ^ (8 * r)) e ∙ omega arith)
    ∙ clear_words_out (n / 8) dst y mem (elim o [ inl a ↦ inl a | inr b ↦ inr (omega (arith, b)) ])

pub memset-Zeroed : (dst n : ℕ) (mem : Memory) → Zeroed (memset_zero dst n mem) dst n
unfolding memset_zero clear_bytes
memset-Zeroed dst n mem =
    let m = clear_words (n / 8) dst mem in
    let t = dst + n / 8 * 8 in
    let v = m t in
    let w = v - v % 2 ^ (8 * (n % 8)) in
    (
      (λ k lt.
          store_ne m t w (dst + 8 * k) (λ e. omega (arith, e, lt))
          ∙ clear_words_in (n / 8) dst k mem lt),
      ap (low_bytes (n % 8)) (store_self m t w) ∙ cleared (n % 8) v,
    )

pub memcpy_out : (dst src n y : ℕ) (mem : Memory) → OutOf dst n y → memcpy dst src n mem y ≡ mem y
unfolding memcpy copy_bytes
memcpy_out dst src n y mem o =
    let m = copy_words (n / 8) dst src mem in
    let v = m (dst + n / 8 * 8) in
    let u = m (src + n / 8 * 8) in
    tail_out dst n y m (v - v % 2 ^ (8 * (n % 8)) + u % 2 ^ (8 * (n % 8))) o
      (λ e. ap (λ r. v - v % 2 ^ (8 * r) + u % 2 ^ (8 * r)) e ∙ no_bytes v u)
    ∙ copy_words_out (n / 8) dst src y mem
        (elim o [ inl a ↦ inl a | inr b ↦ inr (omega (arith, b)) ])

pub memcpy-Copied :
    (dst src n : ℕ) (mem : Memory)
    → NoOverlap dst src (n + 8)
    → Copied mem (memcpy dst src n mem) src dst n
unfolding memcpy copy_bytes
memcpy-Copied dst src n mem o =
    let m = copy_words (n / 8) dst src mem in
    let t = dst + n / 8 * 8 in
    let v = m t in
    let u = m (src + n / 8 * 8) in
    let w = v - v % 2 ^ (8 * (n % 8)) + u % 2 ^ (8 * (n % 8)) in
    let words : NoOverlap dst src (8 * (n / 8)) = elim o [
      | inl a ↦ inl (omega (arith, a))
      | inr b ↦ inr (omega (arith, b))
    ] in
    let read : u ≡ mem (src + n / 8 * 8) =
      copy_words_out (n / 8) dst src (src + n / 8 * 8) mem
        (elim o [ inl a ↦ inr (omega (arith, a)) | inr b ↦ inl (omega (arith, b)) ]) in
    (
      (λ k lt.
          store_ne m t w (dst + 8 * k) (λ e. omega (arith, e, lt))
          ∙ copy_words_in (n / 8) dst src k mem words lt),
      ap (low_bytes (n % 8)) (store_self m t w) ∙ copied (n % 8) v u ∙ ap (low_bytes (n % 8)) read,
    )
