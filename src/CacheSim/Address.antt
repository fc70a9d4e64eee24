-- ===== src/CacheSim/Address.antt =====
-- How csim.c splits an address into tag, set index and block offset.
use native.Mathlib.Nat.{div-add-mod', div-div-eq-div-mul, pow-suc, suc-add, zero-add, mul_assoc}
use computer_systems_project.Base.{
  ℕ, zero, suc, ◌+◌, ◌*◌, ◌/◌, ◌%◌, ◌^◌, ◌≡◌, ◌↔◌, ap, ap₂, sym, ◌∙◌, arith,
}
use computer_systems_project.CacheSim.{tag_of, set_index}

two_pow_add : (s b : ℕ) → 2 ^ (s + b) ≡ 2 ^ b * 2 ^ s
two_pow_add zero b = rw zero-add (omega arith)
two_pow_add (suc s) b =
    rw (suc-add, pow-suc, pow-suc 2 s, two_pow_add s b) (mul_assoc (2 ^ b) (2 ^ s) 2)

tag_of_lem : (s b address : ℕ) → tag_of s b address ≡ address / 2 ^ b / 2 ^ s
unfolding tag_of
tag_of_lem s b address =
    ap (λ k. address / k) (two_pow_add s b) ∙ sym (div-div-eq-div-mul address (2 ^ b) (2 ^ s))

block_parts :
    (s b address : ℕ) → tag_of s b address * 2 ^ s + set_index s b address ≡ address / 2 ^ b
unfolding set_index
block_parts s b address = rw tag_of_lem (div-add-mod' (address / 2 ^ b) (2 ^ s))

-- The tag, the set index and the block offset give the address back.
pub address_parts :
    (s b address : ℕ)
    → (tag_of s b address * 2 ^ s + set_index s b address) * 2 ^ b + address % 2 ^ b ≡ address
address_parts s b address = rw block_parts (div-add-mod' address (2 ^ b))

-- Two addresses have the same tag and the same set index exactly when they lie in one block of
-- `2 ^ b` bytes.
pub same_block_iff :
    (s b x y : ℕ)
    → ((tag_of s b x ≡ tag_of s b y) × (set_index s b x ≡ set_index s b y))
      ↔ (x / 2 ^ b ≡ y / 2 ^ b)
unfolding set_index
same_block_iff s b x y = (
  λ (tags, sets).
      sym (block_parts s b x) ∙ ap₂ (λ t i. t * 2 ^ s + i) tags sets ∙ block_parts s b y,
  λ same. (
    tag_of_lem s b x ∙ ap (λ k. k / 2 ^ s) same ∙ sym (tag_of_lem s b y),
    ap (λ k. k % 2 ^ s) same,
  ),
)
