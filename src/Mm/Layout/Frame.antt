-- ===== src/Mm/Layout/Frame.antt =====
-- Which words of the heap a change of a free list leaves alone.
use computer_systems_project.Base.{
  ℕ, ◌+◌, ◌-◌, ◌%◌, ◌<◌, ◌≤◌, ◌≡◌, ◌≢◌, refl, sym, ap, ◌∙◌, ◌⊎◌, inl, inr, Bool, true, false, List,
  arith,
}
use computer_systems_project.Mm.{Memory, min_block_size, find_seg_list_class}
use computer_systems_project.Mm.Layout.{Block, end_of, Part, At}
use computer_systems_project.Mm.Layout.Blocks.{At-HoldsAt, At-Apart, At-within}
use computer_systems_project.Mm.Lists.{next_at, prev_at}

-- A word that is not in the links of the blocks `T`.
abbrev pub Untouched : Bool → (ℕ → Type 0) → ℕ → Type 0
Untouched both T x = (b : ℕ) → T b → (x ≢ next_at b) × (both ≡ true → x ≢ prev_at b)

-- A free block of a class.
pub record FreeAt (p : ℕ) (bs : List Block) (both : Bool) (c x : ℕ) : Type 0 where
  pub a : Block
  pub at : At p bs x a
  pub free : a.alloc ≡ false
  pub large : both ≡ true → min_block_size < a.size
  pub class : find_seg_list_class a.size ≡ c

-- A word inside an allocated block.
pub record UsedAt (p : ℕ) (bs : List Block) (y : ℕ) : Type 0 where
  pub x : ℕ
  pub a : Block
  pub at : At p bs x a
  pub used : a.alloc ≡ true
  pub behind : x < y
  pub before : y < x + a.size

module _ (mem : Memory) (p : ℕ) (pm pa : Bool) (bs : List Block) (start : p % 16 ≡ 8)
    (part : Part mem p pm pa bs) where
  known : (x : ℕ) (a : Block) → At p bs x a → (x % 16 ≡ 8) × (a.size % 16 ≡ 0) × (16 ≤ a.size)
  known x a at =
      let k = At-HoldsAt mem p pm pa bs x a start part at in
      (k.residue, k.holds.aligned, k.holds.least)

  module _ (both : Bool) (c b : ℕ) (f : FreeAt p bs both c b) where
    apart_header : (x : ℕ) (a : Block) → At p bs x a → x ≢ prev_at b ⊎ (both ≡ false)
    apart_header x a at =
        elim both as (λ t. (t ≡ true → min_block_size < f.a.size) → x ≢ prev_at b ⊎ (t ≡ false)) [
          | true ↦ λ large. inl (λ e. elim (At-Apart p bs x b a f.a at f.at) [
            | inl s ↦ omega (arith, s.0, e)
            | inr (inl s) ↦ omega (arith, s, e, known x a at)
            | inr (inr s) ↦ omega (arith, s, e, large refl)
          ])
          | false ↦ λ large. inr refl
        ]
          f.large

    pub header-Untouched :
        (x : ℕ) (a : Block) → At p bs x a → (x ≢ next_at b) × (both ≡ true → x ≢ prev_at b)
    header-Untouched x a at = (
      (λ e. omega (arith, known x a at, known b f.a f.at, e)),
      (λ t. elim (apart_header x a at) [ inl other ↦ other | inr small ↦ cc ]),
    )

    pub footer-Untouched :
        (x : ℕ) (a : Block)
        → At p bs x a
        → min_block_size < a.size
        → (x + a.size - 8 ≢ next_at b) × (both ≡ true → x + a.size - 8 ≢ prev_at b)
    footer-Untouched x a at large = (
      (λ e. elim (At-Apart p bs x b a f.a at f.at) [
        | inl s ↦ omega (arith, s.0, e, large, known x a at)
        | inr (inl s) ↦ omega (arith, s, e, large)
        | inr (inr s) ↦ omega (arith, s, e, large, known b f.a f.at)
      ]),
      (λ t e. omega (arith, e, large, known x a at, known b f.a f.at)),
    )

    pub used-Untouched : (y : ℕ) → UsedAt p bs y → (y ≢ next_at b) × (both ≡ true → y ≢ prev_at b)
    used-Untouched y u = (
      (λ e. elim (At-Apart p bs u.x b u.a f.a u.at f.at) [
        | inl s ↦
            let t : f.a.alloc ≡ true = ap (λ (t : Block). t.alloc) (sym s.1) ∙ u.used in cc (f.free)
        | inr (inl s) ↦ omega (arith, s, e, u.before)
        | inr (inr s) ↦ omega (arith, s, e, u.behind, known b f.a f.at)
      ]),
      (λ t e. elim (At-Apart p bs u.x b u.a f.a u.at f.at) [
        | inl s ↦
            let t : f.a.alloc ≡ true = ap (λ (t : Block). t.alloc) (sym s.1) ∙ u.used in cc (f.free)
        | inr (inl s) ↦ omega (arith, s, e, u.before)
        | inr (inr s) ↦ omega (arith, s, e, u.behind, f.large t)
      ]),
    )

    pub end-Untouched : (end_of p bs ≢ next_at b) × (both ≡ true → end_of p bs ≢ prev_at b)
    end-Untouched =
        let w = At-within p bs b f.a f.at in
        ((λ e. omega (arith, w.1, e, known b f.a f.at)), (λ t e. omega (arith, w.1, e, f.large t)))

    -- The links of a block of another class.
    pub links-Untouched :
        (both' : Bool) (k y : ℕ)
        → k ≢ c
        → FreeAt p bs both' k y
        → ((next_at y ≢ next_at b) × (both ≡ true → next_at y ≢ prev_at b))
          × (both' ≡ true → (prev_at y ≢ next_at b) × (both ≡ true → prev_at y ≢ prev_at b))
    links-Untouched both' k y other g = (
      (
        (λ e. differ (omega (arith, e))),
        (λ t e. omega (arith, e, known y g.a g.at, known b f.a f.at)),
      ),
      (λ s. (
        (λ e. omega (arith, e, known y g.a g.at, known b f.a f.at)),
        (λ t e. differ (omega (arith, e))),
      )),
    )
      where
        differ : y ≢ b
        differ e = elim (At-Apart p bs y b g.a f.a g.at f.at) [
          | inl s ↦
              other (sym g.class ∙ ap (λ (t : Block). find_seg_list_class t.size) s.1 ∙ f.class)
          | inr (inl s) ↦ omega (arith, s, e, known y g.a g.at)
          | inr (inr s) ↦ omega (arith, s, e, known b f.a f.at)
        ]
