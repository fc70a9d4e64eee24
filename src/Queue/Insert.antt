-- ===== src/Queue/Insert.antt =====
-- Insertion at both ends.
use computer_systems_project.Base.{
  ℕ, suc, ◌+◌, ◌^◌, ◌<◌, ◌≡◌, ◌≢◌, refl, ap, subst, ◌∙◌, sym, Bool, true, false, ◌&&◌, ◌==◌,
  Bool-cases, inl, inr, Option, none, some, List, [], ◌∷◌, length, arith, ℕ_discrete, ==_self,
}
use computer_systems_project.Queue.{
  Element, Heap, Queue, ask, put, set_next, size_inc, new_element, link_head, insert_head_at,
  queue_insert_head,
}
use computer_systems_project.Queue.Chain.{
  Elements, head_of, last_of, Linked, HoldsQueue, put_ne, set_next_ne, set_next_self, Linked-frame,
  NotIn-Below, Below-suc,
}

-- Both calls of `malloc` succeed.
pub can_allocate : Heap → Bool
unfolding ask
can_allocate h = let (first, rest) = ask h.answers in first && (ask rest).0

abbrev pub allocated : List ℕ → List Bool → Heap → Heap
allocated s answers h = record {
  at = put h.at h.top (some (record { value = s; next = 0 }));
  top = h.top + 1;
  live = h.live + 2;
  answers = answers;
}

pub new_element-ok :
    (s : List ℕ) (h : Heap)
    → can_allocate h ≡ true
    → (answers : List Bool) × (new_element s h ≡ (some h.top, allocated s answers h))
unfolding can_allocate new_element
new_element-ok s h ok_both = elim (Bool-cases (ask h.answers).0) [
  | inr no_first ↦ ground (arith, ok_both, no_first)
  | inl first ↦ elim (Bool-cases (ask (ask h.answers).1).0) [
    | inr no_second ↦ ground (arith, ok_both, no_second)
    | inl second ↦ ((ask (ask h.answers).1).1, rw (first, second) refl)
  ]
]

pub new_element_fails :
    (s : List ℕ) (h : Heap)
    → can_allocate h ≡ false
    → (answers : List Bool) × (new_element s h ≡ (none, record h { answers = answers }))
unfolding can_allocate new_element
new_element_fails s h fails = elim (Bool-cases (ask h.answers).0) [
  | inr no_first ↦ ((ask h.answers).1, rw no_first refl)
  | inl first ↦ elim (Bool-cases (ask (ask h.answers).1).0) [
    | inr no_second ↦ ((ask (ask h.answers).1).1, rw (first, no_second) refl)
    | inl second ↦ ground (arith, fails, first, second)
  ]
]

-- The insertion succeeds exactly if both allocations do, and then the queue holds the new strings;
-- otherwise it is as it was.
abbrev pub Inserted :
    (others : ℕ)
    → Heap
    → Queue
    → (before after : List (List ℕ)) → Bool × Option Queue × Heap
    → Type 0
Inserted others h q before after (true, none, h') = ⊥
Inserted others h q before after (false, none, h') = ⊥
Inserted others h q before after (true, some q', h') =
    (can_allocate h ≡ true) × HoldsQueue others h' q' after
Inserted others h q before after (false, some q', h') =
    (can_allocate h ≡ false) × (q' ≡ q) × HoldsQueue others h' q before

link_head_empty :
    (p : ℕ) (q : Queue) (h : Heap)
    → q.head ≡ 0
    → link_head p q h
      ≡ (record { head = p; tail = p; size = size_inc q.size }, record h { at = set_next p 0 h.at })
unfolding link_head
link_head_empty p q h e = let b : (q.head == 0) ≡ true = ground (arith, e) in rw b refl

link_head_more :
    (p : ℕ) (q : Queue) (h : Heap)
    → q.head ≢ 0
    → link_head p q h ≡ (
      record { head = p; tail = q.tail; size = size_inc q.size },
      record h { at = set_next p q.head h.at },
    )
unfolding link_head
link_head_more p q h e = let b : (q.head == 0) ≡ false = ground (arith, e) in rw b refl

pub HoldsQueue-answers :
    {others : ℕ} {q : Queue} {vs : List (List ℕ)} (h : Heap) (answers : List Bool)
    → HoldsQueue others h q vs
    → HoldsQueue others (record h { answers = answers }) q vs
HoldsQueue-answers h answers hq = record {
  elements = hq.elements;
  linked = hq.linked;
  distinct = hq.distinct;
  below = hq.below;
  positive = hq.positive;
  head = hq.head;
  tail = hq.tail;
  size = hq.size;
  strings = hq.strings;
  owned = hq.owned;
}

module _ {others : ℕ} {h : Heap} {q : Queue} {vs : List (List ℕ)} (hq : HoldsQueue others h q vs)
    (s : List ℕ) (room : suc (length vs) < 2 ^ 64) (answers : List Bool) where
  abbrev pub at_new : ℕ → Option Element
  at_new = put h.at h.top (some (record { value = s; next = 0 }))

  pub new_at : at_new h.top ≡ some (record { value = s; next = 0 })
  new_at = rw (==_self h.top) refl

  pub old_Linked : Linked at_new hq.elements
  old_Linked =
      Linked-frame h.at at_new h.top hq.elements (λ x other. put_ne h.at h.top x _ other)
        (NotIn-Below h.top hq.elements hq.below) hq.linked

  -- The new element with `next` set to the old head.
  pub Linked-head : Linked (set_next h.top (head_of hq.elements) at_new) ((h.top, s) ∷ hq.elements)
  Linked-head = (
    (λ e. omega (arith, hq.positive)),
    set_next_self at_new h.top (head_of hq.elements) 0 s new_at,
    Linked-frame at_new _ h.top hq.elements (λ x other. set_next_ne at_new h.top _ x other)
        (NotIn-Below h.top hq.elements hq.below) old_Linked,
  )

  head-HoldsQueue :
      (tail : ℕ)
      → tail ≡ last_of ((h.top, s) ∷ hq.elements)
      → HoldsQueue others
          (record (allocated s answers h) { at = set_next h.top (head_of hq.elements) at_new })
          (record { head = h.top; tail = tail; size = size_inc q.size })
          (s ∷ vs)
  head-HoldsQueue tail e = record {
    elements = (h.top, s) ∷ hq.elements;
    linked = Linked-head;
    distinct = (NotIn-Below h.top hq.elements hq.below, hq.distinct);
    below = (omega arith, Below-suc h.top hq.elements hq.below);
    positive = omega arith;
    head = refl;
    tail = e;
    size = omega (arith, hq.size);
    strings = ap (λ l. s ∷ l) hq.strings;
    owned = omega (arith, hq.owned);
  }

  last_head : (els : Elements) → head_of els ≢ 0 → last_of ((h.top, s) ∷ els) ≡ last_of els
  last_head [] there = absurd (there refl)
  last_head ((a, v) ∷ r) there = refl

  no_head :
      (els : Elements) → Linked h.at els → head_of els ≡ 0 → last_of ((h.top, s) ∷ els) ≡ h.top
  no_head [] l e = refl
  no_head ((a, v) ∷ r) l e = absurd (l.0 e)

  at_head :
      (n tail : ℕ)
      → head_of hq.elements ≡ n
      → tail ≡ last_of ((h.top, s) ∷ hq.elements)
      → HoldsQueue others
          (record (allocated s answers h) { at = set_next h.top n at_new })
          (record { head = h.top; tail = tail; size = size_inc q.size })
          (s ∷ vs)
  at_head n tail e e' =
      subst
        (λ k.
          HoldsQueue others (record (allocated s answers h) { at = set_next h.top k at_new })
            (record { head = h.top; tail = tail; size = size_inc q.size }) (s ∷ vs))
        e (head-HoldsQueue tail e')

  link_head-HoldsQueue :
      let (q', h') = link_head h.top q (allocated s answers h) in HoldsQueue others h' q' (s ∷ vs)
  link_head-HoldsQueue = elim (ℕ_discrete q.head 0) [
    | yes empty ↦ rw (link_head_empty h.top q (allocated s answers h) empty) (
        at_head 0 h.top (sym hq.head ∙ empty)
          (sym (no_head hq.elements hq.linked (sym hq.head ∙ empty))))
    | no there ↦ rw (link_head_more h.top q (allocated s answers h) there) (
        at_head q.head q.tail (sym hq.head)
          (hq.tail ∙ sym (last_head hq.elements (λ e. there (hq.head ∙ e)))))
  ]

-- `queue_insert_head` on a queue that holds fewer than 2 ^ 64 - 1 strings succeeds exactly if both
-- allocations do: the queue then holds the new string in front of the others, in two more allocations.
-- Otherwise nothing is kept allocated and the queue is as it was.
pub queue_insert_head-Inserted :
    {others : ℕ} (h : Heap) (q : Queue) {vs : List (List ℕ)} (s : List ℕ)
    → HoldsQueue others h q vs
    → suc (length vs) < 2 ^ 64
    → Inserted others h q vs (s ∷ vs) (queue_insert_head (some q) s h)
unfolding queue_insert_head insert_head_at
queue_insert_head-Inserted h q s hq room = elim (Bool-cases (can_allocate h)) [
  | inl allocates ↦
      let (answers, e) = new_element-ok s h allocates in
      rw e (allocates, link_head-HoldsQueue hq s room answers)
  | inr fails ↦
      let (answers, e) = new_element_fails s h fails in
      rw e (fails, refl, HoldsQueue-answers h answers hq)
]
