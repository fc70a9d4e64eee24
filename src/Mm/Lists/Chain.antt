-- ===== src/Mm/Lists/Chain.antt =====
-- The blocks of a free list in memory.
use computer_systems_project.Base.{
  ℕ, ◌%◌, ◌≡◌, ◌≢◌, refl, sym, ap, ◌∙◌, Bool, true, false, not, ◌==◌, ==_self, List, [], ◌∷◌, arith,
}
use computer_systems_project.Mm.{Memory, min_block_size, store, find_seg_list_class}
use computer_systems_project.Mm.Lists.{Heap, next_at, prev_at}

abbrev pub head_of : List ℕ → ℕ
head_of [] = 0
head_of (b ∷ bs) = b

abbrev pub NotIn : ℕ → List ℕ → Type 0
NotIn p [] = Unit
NotIn p (b ∷ bs) = (p ≢ b) × NotIn p bs

abbrev pub Distinct : List ℕ → Type 0
Distinct [] = Unit
Distinct (b ∷ bs) = NotIn b bs × Distinct bs

-- The blocks stand at addresses that are 8 modulo 16, and each holds the address of the next one; in a
-- list that is linked both ways it holds the address of the previous one as well.
abbrev pub Chain : (mem : Memory) → (both : Bool) → (prev : ℕ) → List ℕ → Type 0
Chain mem both prev [] = Unit
Chain mem both prev (b ∷ bs) =
    (b % 16 ≡ 8)
    × (mem (next_at b) ≡ head_of bs)
    × (both ≡ true → mem (prev_at b) ≡ prev)
    × Chain mem both b bs

-- The list of the class of a size, linked both ways unless its blocks have 16 bytes.
abbrev pub Linked : (size : ℕ) → Heap → List ℕ → Type 0
Linked size h bs =
    (h.seg_list (find_seg_list_class size) ≡ head_of bs)
    × Chain h.mem (not (size == min_block_size)) 0 bs

pub store_self : (mem : Memory) (p w : ℕ) → store mem p w p ≡ w
store_self mem p w = rw (==_self p) refl

pub store_ne : (mem : Memory) (p w x : ℕ) → x ≢ p → store mem p w x ≡ mem x
store_ne mem p w x other = let e : (x == p) ≡ false = ground arith in rw e refl

-- The payloads of all blocks but two are the same.
abbrev pub SameBut : (p q : ℕ) → (mem mem' : Memory) → Type 0
SameBut p q mem mem' =
    (b : ℕ)
    → b % 16 ≡ 8
    → b ≢ p
    → b ≢ q
    → (mem' (next_at b) ≡ mem (next_at b)) × (mem' (prev_at b) ≡ mem (prev_at b))

pub Chain-frame :
    (mem mem' : Memory) (both : Bool) (prev p q : ℕ) (bs : List ℕ)
    → SameBut p q mem mem'
    → NotIn p bs
    → NotIn q bs
    → Chain mem both prev bs
    → Chain mem' both prev bs
Chain-frame mem mem' both prev p q [] same ap aq c = tt
Chain-frame mem mem' both prev p q (b ∷ bs) same ap aq c =
    let here = same b c.0 (λ e. ap.0 (sym e)) (λ e. aq.0 (sym e)) in
    (
      c_align,
      here.0 ∙ c.1,
      (λ e. here.1 ∙ c.2 e),
      Chain-frame mem mem' both b p q bs same ap.1 aq.1 c.3,
    )
  where
    c_align : b % 16 ≡ 8
    c_align = c.0

-- In a list that is linked one way the block in front does not matter.
pub Chain-one_way :
    (mem : Memory) (prev prev' : ℕ) (bs : List ℕ)
    → Chain mem false prev bs
    → Chain mem false prev' bs
Chain-one_way mem prev prev' [] c = tt
Chain-one_way mem prev prev' (b ∷ bs) c = (c.0, c.1, (λ e. cc), c.3)
