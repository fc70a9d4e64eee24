-- ===== src/Queue/Remove.antt =====
-- Removal at the head, and the release of a whole queue.
use computer_systems_project.Base.{
  ℕ, zero, suc, ◌-◌, ◌*◌, ◌^◌, ◌≡◌, refl, sym, ap, subst, ◌∙◌, ◌⊎◌, inl, inr, ◌<◌, ◌++◌, take, Bool,
  true, false, ◌==◌, if◌then◌else◌, Option, none, some, List, [], ◌∷◌, length, arith,
}
use computer_systems_project.Queue.{
  Heap, Queue, put, next_of, value_of, unlink_head, copied, queue_remove_head, free_loop,
  queue_free,
}
use computer_systems_project.Queue.Chain.{
  Elements, head_of, last_of, Distinct, Below, Linked, values, length-values, HoldsQueue, put_ne,
  Linked-frame,
}

-- The elements of a queue that holds `v ∷ vs`.
record First (els : Elements) (v : List ℕ) (vs : List (List ℕ)) : Type 0 where
  address : ℕ
  rest : Elements
  parts : els ≡ (address, v) ∷ rest
  strings : values rest ≡ vs

first : (els : Elements) (v : List ℕ) (vs : List (List ℕ)) → values els ≡ v ∷ vs → First els v vs
first [] v vs e = cc
first ((a, w) ∷ r) v vs e =
    let same : w ≡ v = cc in
    record { address = a; rest = r; parts = ap (λ x. (a, x) ∷ r) same; strings = cc }

no_elements : (els : Elements) → values els ≡ [] → els ≡ []
no_elements [] e = refl
no_elements ((a, v) ∷ r) e = cc

next_tail : ℕ → Elements → ℕ
next_tail t r = if head_of r == 0 then 0 else t

-- The text that a buffer of `n` bytes can hold of a string, with the NUL behind it.
pub record Fits (n : ℕ) (v t : List ℕ) : Type 0 where
  pub left_out : List ℕ
  pub parts : v ≡ t ++ left_out
  pub room : length t < n
  pub most : (left_out ≡ []) ⊎ (suc (length t) ≡ n)

-- No text where there is no buffer or no room in it.
abbrev pub CopiedTo : (buf : Bool) → (n : ℕ) → List ℕ → Option (List ℕ) → Type 0
CopiedTo buf n v none = (buf ≡ false) ⊎ (n ≡ 0)
CopiedTo buf n v (some t) = (buf ≡ true) × Fits n v t

take-Fits : (n : ℕ) (v : List ℕ) → Fits (suc n) v (take n v)
take-Fits zero v = record { left_out = v; parts = refl; room = omega arith; most = inr refl }
take-Fits (suc n) [] = record { left_out = []; parts = refl; room = omega arith; most = inl refl }
take-Fits (suc n) (c ∷ v) =
    let f = take-Fits n v in
    record {
      left_out = f.left_out;
      parts = ap (λ l. c ∷ l) f.parts;
      room = omega (arith, f.room);
      most = elim f.most [ inl e ↦ inl e | inr e ↦ inr (ap suc e) ];
    }

copied-CopiedTo : (buf : Bool) (n : ℕ) (v : List ℕ) → CopiedTo buf n v (copied buf n v)
unfolding copied
copied-CopiedTo false n v = inl refl
copied-CopiedTo true zero v = inr refl
copied-CopiedTo true (suc n) v = (refl, take-Fits n v)

-- What a removal leaves of a queue and returns.
abbrev pub Removed :
    (others : ℕ)
    → Heap
    → Queue
    → (buf : Bool) → (bufsize : ℕ) → List (List ℕ)
    → Bool × Option (List ℕ) × Option Queue × Heap
    → Type 0
Removed others h q buf n [] r = r ≡ (false, none, some q, h)
Removed others h q buf n (v ∷ vs) (true, text, some q', h') =
    CopiedTo buf n v text × HoldsQueue others h' q' vs
Removed others h q buf n (v ∷ vs) (true, text, none, h') = ⊥
Removed others h q buf n (v ∷ vs) (false, text, q', h') = ⊥

module _ {others : ℕ} {h : Heap} {q : Queue} {v : List ℕ} {vs : List (List ℕ)}
    (hq : HoldsQueue others h q (v ∷ vs)) (room : suc (length vs) < 2 ^ 64) where
  f : First hq.elements v vs
  f = first hq.elements v vs hq.strings

  linked : Linked h.at ((f.address, v) ∷ f.rest)
  linked = subst (Linked h.at) f.parts hq.linked

  distinct : Distinct ((f.address, v) ∷ f.rest)
  distinct = subst Distinct f.parts hq.distinct

  below : Below h.top ((f.address, v) ∷ f.rest)
  below = subst (Below h.top) f.parts hq.below

  head_here : q.head ≡ f.address
  head_here = hq.head ∙ ap head_of f.parts

  found : h.at q.head ≡ some (record { value = v; next = head_of f.rest })
  found = ap h.at head_here ∙ linked.1

  tail_of :
      (a : ℕ) (r : Elements)
      → Linked h.at r
      → (if head_of r == 0 then 0 else last_of ((a, v) ∷ r)) ≡ last_of r
  tail_of a [] l = refl
  tail_of a ((b, w) ∷ r) l = let e : (b == 0) ≡ false = ground (arith, l.0) in rw e refl

  unlinked : HoldsQueue others (unlink_head q h).1 (unlink_head q h).0 vs
  unfolding unlink_head
  unlinked = record {
    elements = f.rest;
    linked =
        Linked-frame h.at _ f.address f.rest
          (λ x other. put_ne h.at q.head x none (λ e. other (e ∙ head_here))) distinct.0 linked.2;
    distinct = distinct.1;
    below = below.1;
    positive = hq.positive;
    head = ap next_of found;
    tail = rw (found, hq.tail ∙ ap last_of f.parts) (tail_of f.address f.rest linked.2);
    size = omega (arith, hq.size);
    strings = f.strings;
    owned = omega (arith, hq.owned);
  }

-- `queue_remove_head` on a queue of fewer than 2 ^ 64 strings: an empty queue is left as it was and
-- false returned. Otherwise the first string leaves the queue with its two allocations, and if there is
-- a buffer with room, as much of it is copied as has place in it with a NUL behind.
pub queue_remove_head-Removed :
    {others : ℕ} (h : Heap) (q : Queue) (vs : List (List ℕ)) (buf : Bool) (bufsize : ℕ)
    → HoldsQueue others h q vs
    → length vs < 2 ^ 64
    → Removed others h q buf bufsize vs (queue_remove_head (some q) buf bufsize h)
unfolding queue_remove_head
queue_remove_head-Removed h q [] buf n hq room =
    let e : (q.head == 0) ≡ true =
      ground (arith, hq.head ∙ ap head_of (no_elements hq.elements hq.strings)) in
    rw e refl
queue_remove_head-Removed h q (v ∷ vs) buf n hq room =
    let e : (q.head == 0) ≡ false = ground (arith, (linked hq room).0, head_here hq room) in
    let text : copied buf n (value_of (h.at q.head)) ≡ copied buf n v =
      ap (λ o. copied buf n (value_of o)) (found hq room) in
    rw e (subst (CopiedTo buf n v) (sym text) (copied-CopiedTo buf n v), unlinked hq room)

free_loop-live :
    (fuel : ℕ) (els : Elements) (h : Heap)
    → Linked h.at els
    → Distinct els
    → length els < fuel
    → (h' : Heap) × (free_loop fuel (head_of els) h ≡ some h')
      × (h'.live ≡ h.live - 2 * length els - 1)
unfolding free_loop
free_loop-live zero els h l d enough = absurd (omega arith)
free_loop-live (suc k) [] h l d enough = (_, refl, omega arith)
free_loop-live (suc k) ((a, v) ∷ r) h l d enough =
    let freed : Heap = record h { at = put h.at a none; live = h.live - 2 } in
    let kept : Linked freed.at r =
      Linked-frame h.at freed.at a r (λ x other. put_ne h.at a x none other) d.0 l.2 in
    let (h', e, live) = free_loop-live k r freed kept d.1 (omega arith) in
    let there : (a == 0) ≡ false = ground (arith, l.0) in
    (h', rw (there, l.1) e, omega (arith, live))

-- `queue_free` on a queue ends and releases every allocation of the queue: the elements, their strings
-- and the queue itself. What else is allocated stays so.
pub queue_free_all :
    {others : ℕ} (h : Heap) (q : Queue) (vs : List (List ℕ))
    → HoldsQueue others h q vs
    → (h' : Heap) × (queue_free q h ≡ some h') × (h'.live ≡ others)
unfolding queue_free
queue_free_all h q vs hq =
    let e = length-values hq.elements in
    let same : length (values hq.elements) ≡ length vs = ap length hq.strings in
    let (h', done, live) =
      free_loop-live (suc q.size) hq.elements h hq.linked hq.distinct (omega (arith, hq.size)) in
    (h', ap (λ p. free_loop (suc q.size) p h) hq.head ∙ done, omega (arith, live, hq.owned))
