-- ===== src/Mm/Contract/Space.antt =====
-- The simulated break, and facts on the space of the heap.
use computer_systems_project.Base.{
  ℕ, ◌+◌, ◌^◌, ◌<◌, ◌≤◌, ◌≡◌, refl, sym, subst, ◌⊎◌, inl, inr, Bool, true, false, ◌==◌, ltb, leb,
  if◌then◌else◌, Bool-cases, none, some, List, [], ◌∷◌, arith,
}
use computer_systems_project.Mm.{Memory, min_block_size}
use computer_systems_project.Mm.Alloc.{Allocator}
use computer_systems_project.Mm.Memlib.{System, Memlib, mem_sbrk, accessible, round_address_up}
use computer_systems_project.Mm.Layout.{Block, end_of, Part, count_listed}
use computer_systems_project.Mm.Layout.Blocks.{count_listed-le}
use computer_systems_project.Mm.Layout.Frame.{UsedAt}
use computer_systems_project.Mm.Layout.Merge.{allocated}
use computer_systems_project.Mm.Contract.{Ready, InUse, Ordered}

-- `mem_sbrk` moves the break by the increment and stays in the heap, or changes nothing.
pub mem_sbrk-Extends :
    (sys : System) (n : ℕ) (l : Memlib)
    → (mem_sbrk sys n l ≡ (none, l))
      ⊎ ((l' : Memlib) × (mem_sbrk sys n l ≡ (some l.mem_brk, l'))
          × (l'.mem_brk ≡ l.mem_brk + n)
          × (l'.mem_max_addr ≡ l.mem_max_addr)
          × (l'.low ≡ l.low)
          × (l.mem_brk + n ≤ l.mem_max_addr))
unfolding mem_sbrk
mem_sbrk-Extends sys n l = elim (Bool-cases (leb (2 ^ 63) n)) [
  | inl huge ↦ inl (rw huge refl)
  | inr fine ↦ elim (Bool-cases (ltb l.mem_max_addr (l.mem_brk + n))) [
    | inl full ↦ inl (rw (fine, full) refl)
    | inr room ↦
        elim (Bool-cases (accessible sys (round_address_up (l.mem_brk + n) sys.pagesize) l)) [
          | inl ok ↦ inr (
            record l {
              mem_brk = l.mem_brk + n;
              mem_brk_chunk = round_address_up (l.mem_brk + n) sys.pagesize;
            },
            rw (fine, room, ok) refl,
            refl,
            refl,
            refl,
            fits room,
          )
          | inr bad ↦ inl (rw (fine, room, bad) refl)
        ]
  ]
]
  where
    fits : ltb l.mem_max_addr (l.mem_brk + n) ≡ false → l.mem_brk + n ≤ l.mem_max_addr
    fits e = ground (arith, e)

-- The lists are shorter than a walk may be.
pub few :
    (rounds : ℕ) (s : Allocator) (bs : List Block) → Ready rounds s bs → count_listed bs < rounds
few rounds s bs r = omega (
  arith,
  count_listed-le s.heap.mem s.heap_start false true bs r.sound.part,
  r.at_brk,
  r.in_range,
  r.enough,
)

-- Allocated words, from the list of allocated blocks.
pub UsedAt-of : (p : ℕ) (bs : List Block) (y : ℕ) → InUse (allocated p bs) y → UsedAt p bs y
UsedAt-of p [] y i = absurd i
UsedAt-of p (b ∷ bs) y i = elim (Bool-cases b.alloc) [
  | inl used ↦
      let i' : ((p < y) × (y < p + b.size)) ⊎ InUse (allocated (p + b.size) bs) y =
        subst
          (λ (a : Bool).
            InUse (if a then (p, b.size) ∷ allocated (p + b.size) bs else allocated (p + b.size) bs)
              y)
          used i in
      elim i' [
        | inl here ↦ record {
          x = p;
          a = b;
          at = inl (refl, refl);
          used = used;
          behind = here.0;
          before = here.1;
        }
        | inr there ↦ deeper (UsedAt-of (p + b.size) bs y there)
      ]
  | inr open' ↦ deeper (
      UsedAt-of (p + b.size) bs y (
        subst
          (λ (a : Bool).
            InUse (if a then (p, b.size) ∷ allocated (p + b.size) bs else allocated (p + b.size) bs)
              y)
          open' i))
]
  where
    deeper : UsedAt (p + b.size) bs y → UsedAt p (b ∷ bs) y
    deeper u = record {
      x = u.x;
      a = u.a;
      at = inr u.at;
      used = u.used;
      behind = u.behind;
      before = u.before;
    }

-- The allocated blocks stand one behind the other.
pub allocated-Ordered :
    (mem : Memory) (p : ℕ) (pm pa : Bool) (bs : List Block) (low : ℕ)
    → low ≤ p
    → Part mem p pm pa bs
    → Ordered low (end_of p bs) (allocated p bs)
allocated-Ordered mem p pm pa [] low le part = le
allocated-Ordered mem p pm pa (b ∷ bs) low le part = elim (Bool-cases b.alloc) [
  | inl used ↦
      subst
        (λ (a : Bool).
          Ordered low (end_of (p + b.size) bs)
            (if a then (p, b.size) ∷ allocated (p + b.size) bs else allocated (p + b.size) bs))
        (sym used)
        (
          le,
          part.0.least,
          allocated-Ordered mem (p + b.size) (b.size == min_block_size) b.alloc bs (p + b.size)
              (omega arith) part.1,
        )
  | inr open' ↦
      subst
        (λ (a : Bool).
          Ordered low (end_of (p + b.size) bs)
            (if a then (p, b.size) ∷ allocated (p + b.size) bs else allocated (p + b.size) bs))
        (sym open')
        (allocated-Ordered mem (p + b.size) (b.size == min_block_size) b.alloc bs low
          (omega (arith, le)) part.1)
]
