-- ===== src/Mm/Contract/Client.antt =====
-- What a client, `memset` and `memcpy` may write: the words of an allocated block.
use computer_systems_project.Base.{
  ℕ, ◌+◌, ◌-◌, ◌<◌, ◌≤◌, ◌≡◌, refl, sym, ap, subst, ◌∙◌, ◌⊎◌, inl, inr, Bool, true, false, ◌==◌,
  List, [], ◌∷◌, ◌++◌, arith,
}
use computer_systems_project.Mm.{Memory, min_block_size}
use computer_systems_project.Mm.Words.{Says}
use computer_systems_project.Mm.Alloc.{Allocator}
use computer_systems_project.Mm.Layout.{Block, end_of, min_after, alloc_after, Holds}
use computer_systems_project.Mm.Layout.Replace.{replace-Sound}
use computer_systems_project.Mm.Layout.Merge.{allocated, pending}
use computer_systems_project.Mm.Layout.Coalesce.{Holds-of}
use computer_systems_project.Mm.Layout.Split.{Behind-of}
use computer_systems_project.Mm.Contract.{Ready, Represents, InUse, Ordered, Served}
use computer_systems_project.Mm.Contract.Space.{allocated-Ordered}
use computer_systems_project.Mm.Contract.Entry.{Entry-of}

-- The same state with other memory.
abbrev pub with_mem : Allocator → Memory → Allocator
with_mem s mem' = record s { heap = record s.heap { mem = mem' } }

-- Memory is the same outside the block at `x` of `n` bytes.
abbrev pub SameOutside : (x n : ℕ) → (mem mem' : Memory) → Type 0
SameOutside x n mem mem' = (y : ℕ) → (y ≤ x) ⊎ (x + n ≤ y) → mem' y ≡ mem y

module _ (rounds : ℕ) (s : Allocator) (mem' : Memory) (n : ℕ) (front rest : List Block)
    (ready : Ready rounds s (front ++ pending n true ∷ rest))
    (same : SameOutside (end_of s.heap_start front) n s.heap.mem mem') where
  abbrev p : ℕ
  p = s.heap_start

  abbrev q : ℕ
  q = end_of p front

  abbrev b : Block
  b = pending n true

  hd : Holds s.heap.mem q (min_after false front) (alloc_after true front) b
  hd = Holds-of s.heap p front rest b ready.lists ready.sound

  hd' : Holds mem' q (min_after false front) (alloc_after true front) b
  hd' = record {
    aligned = hd.aligned;
    least = hd.least;
    header =
        subst (λ w. Says w n (min_after false front) (alloc_after true front) true)
          (sym (same q (inl (omega arith)))) hd.header;
    footer = λ f g. cc;
    free = λ e. cc;
  }

  outside : (y : ℕ) → (y < q) ⊎ (q + n < y) → mem' y ≡ s.heap.mem y
  outside y (inl lt) = same y (inl (omega (arith, lt)))
  outside y (inr lt) = same y (inr (omega (arith, lt)))

  next :
      (k : ℕ) (pm pa al : Bool)
      → Says (s.heap.mem (q + n)) k pm pa al
      → Says (mem' (q + n)) k (n == min_block_size) true al
  next k pm pa al says =
      let bh = Behind-of s.heap p front rest b ready.lists ready.sound in
      subst (λ w. Says w k (n == min_block_size) true al) (sym (same (q + n) (inr (omega arith))))
        (record {
          size_is = says.size_is;
          alloc_is = says.alloc_is;
          pre_alloc_is = bh.says.pre_alloc_is;
          pre_min_is = bh.says.pre_min_is;
        })

  client-Ready : Ready rounds (with_mem s mem') (front ++ b ∷ rest)
  client-Ready = record {
    lists = ready.lists;
    sound =
        replace-Sound s.heap mem' p front (b ∷ []) (b ∷ []) rest ready.lists ready.sound (refl, tt)
          (refl, tt) refl (hd', tt) outside next;
    tidy = ready.tidy;
    at_brk = ready.at_brk;
    in_range = ready.in_range;
    bounded = ready.bounded;
    enough = ready.enough;
  }

-- Whatever is written behind the header of an allocated block, the allocated blocks stay.
pub client-Represents :
    (rounds : ℕ) (s : Allocator) (mem' : Memory) (x n : ℕ) (lefts rights : List (ℕ × ℕ))
    → Represents rounds s (lefts ++ (x, n) ∷ rights)
    → SameOutside x n s.heap.mem mem'
    → Represents rounds (with_mem s mem') (lefts ++ (x, n) ∷ rights)
client-Represents rounds s mem' x n lefts rights rep same =
    let d = Entry-of s.heap_start true rep.0 x n lefts rights rep.1.tidy rep.2 in
    let ready = subst (λ t. Ready rounds s t) d.parts rep.1 in
    (
      d.front ++ pending n true ∷ d.rest,
      client-Ready rounds s mem' n d.front d.rest ready
          (subst (λ q. SameOutside q n s.heap.mem mem') d.place same),
      ap (allocated s.heap_start) (sym d.parts) ∙ rep.2,
    )

-- Words of the other blocks lie outside.
InUse-split : (l r : List (ℕ × ℕ)) (y : ℕ) → InUse (l ++ r) y → InUse l y ⊎ InUse r y
InUse-split [] r y i = inr i
InUse-split (e ∷ l) r y (inl h) = inl (inl h)
InUse-split (e ∷ l) r y (inr i) = elim (InUse-split l r y i) [ inl a ↦ inl (inr a) | inr b ↦ inr b ]

below :
    (low high x n y : ℕ) (l r : List (ℕ × ℕ))
    → Ordered low high (l ++ (x, n) ∷ r)
    → InUse l y
    → y ≤ x
below low high x n y [] r o i = absurd i
below low high x n y ((z, m) ∷ l) r o (inl h) =
    omega (arith, h.1, at_least (z + m) high x n l r o.2)
  where
    at_least :
        (low high x n : ℕ) (l r : List (ℕ × ℕ)) → Ordered low high (l ++ (x, n) ∷ r) → low ≤ x
    at_least low high x n [] r o = o.0
    at_least low high x n ((z, m) ∷ l) r o =
        omega (arith, o.0, o.1, at_least (z + m) high x n l r o.2)
below low high x n y ((z, m) ∷ l) r o (inr i) = below (z + m) high x n y l r o.2 i

above : (low high y : ℕ) (r : List (ℕ × ℕ)) → Ordered low high r → InUse r y → low ≤ y
above low high y [] o i = absurd i
above low high y ((z, m) ∷ r) o (inl h) = omega (arith, o.0, h.0)
above low high y ((z, m) ∷ r) o (inr i) = omega (arith, o.0, o.1, above (z + m) high y r o.2 i)

behind :
    (low high x n y : ℕ) (l r : List (ℕ × ℕ))
    → Ordered low high (l ++ (x, n) ∷ r)
    → InUse r y
    → x + n ≤ y
behind low high x n y [] r o i = above (x + n) high y r o.2 i
behind low high x n y ((z, m) ∷ l) r o i = behind (z + m) high x n y l r o.2 i

-- The allocated blocks follow one another without overlap, each of at least 16 bytes, between the start
-- of the heap and its epilogue.
pub Represents-Ordered :
    (rounds : ℕ) (s : Allocator) (u : List (ℕ × ℕ))
    → Represents rounds s u
    → Ordered s.heap_start (s.memlib.mem_brk - 8) u
Represents-Ordered rounds s u rep =
    let o =
      allocated-Ordered s.heap.mem s.heap_start false true rep.0 s.heap_start (omega arith)
        rep.1.sound.part in
    let e : end_of s.heap_start rep.0 ≡ s.memlib.mem_brk - 8 = omega (arith, rep.1.at_brk) in
    subst (λ t. Ordered s.heap_start (s.memlib.mem_brk - 8) t) rep.2
      (subst (λ t. Ordered s.heap_start t (allocated s.heap_start rep.0)) e o)

-- The words of the other allocated blocks lie outside a block.
pub other-Outside :
    (rounds : ℕ) (s : Allocator) (x n y : ℕ) (l r : List (ℕ × ℕ))
    → Represents rounds s (l ++ (x, n) ∷ r)
    → InUse (l ++ r) y
    → (y ≤ x) ⊎ (x + n ≤ y)
other-Outside rounds s x n y l r rep i =
    let o = Represents-Ordered rounds s (l ++ (x, n) ∷ r) rep in
    elim (InUse-split l r y i) [
      | inl a ↦ inl (below s.heap_start (s.memlib.mem_brk - 8) x n y l r o a)
      | inr b ↦ inr (behind s.heap_start (s.memlib.mem_brk - 8) x n y l r o b)
    ]

pub at_least :
    (low high x n : ℕ) (l r : List (ℕ × ℕ)) → Ordered low high (l ++ (x, n) ∷ r) → low ≤ x
at_least low high x n [] r o = o.0
at_least low high x n ((z, m) ∷ l) r o = omega (arith, o.0, o.1, at_least (z + m) high x n l r o.2)

-- A served address is not NULL.
pub Served-pos :
    (rounds : ℕ) (s s' : Allocator) (size r : ℕ) (u : List (ℕ × ℕ))
    → Served rounds s s' size r u
    → 16 ≤ r
Served-pos rounds s s' size r u v =
    let o = Represents-Ordered rounds s' (v.lefts ++ (r - 8, v.n) ∷ v.rights) v.now in
    let start = v.now.1.sound.start in
    omega
      (arith, start, at_least s'.heap_start (s'.memlib.mem_brk - 8) (r - 8) v.n v.lefts v.rights o)
