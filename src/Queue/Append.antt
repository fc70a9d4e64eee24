-- ===== src/Queue/Append.antt =====
-- Insertion at the tail.
use computer_systems_project.Base.{
  ℕ, suc, ◌+◌, ◌^◌, ◌<◌, ◌≡◌, ◌≢◌, refl, ap, subst, ◌∙◌, sym, Bool, true, false, ◌==◌, Bool-cases,
  inl, inr, Option, some, List, [], ◌∷◌, ◌++◌, length, length-append, arith, ℕ_discrete,
}
use computer_systems_project.Queue.{
  Element, Heap, Queue, set_next, size_inc, link_tail, insert_tail_at, queue_insert_tail,
}
use computer_systems_project.Queue.Chain.{
  Elements, head_of, last_of, NotIn, Distinct, Below, Linked, values, HoldsQueue, set_next_ne,
  set_next_self, NotIn-Below, Below-suc,
}
use computer_systems_project.Queue.Insert.{
  can_allocate, allocated, at_new, new_at, old_Linked, new_element-ok, new_element_fails, Inserted,
  HoldsQueue-answers,
}

module _ (p : ℕ) (s : List ℕ) where
  abbrev snoc : Elements → Elements
  snoc els = els ++ ((p, s) ∷ [])

  last_of-snoc : (els : Elements) → last_of (snoc els) ≡ p
  last_of-snoc [] = refl
  last_of-snoc ((a, v) ∷ []) = refl
  last_of-snoc ((a, v) ∷ (b, w) ∷ r) = last_of-snoc ((b, w) ∷ r)

  NotIn-snoc : (a : ℕ) (els : Elements) → NotIn a els → a ≢ p → NotIn a (snoc els)
  NotIn-snoc a [] away other = (other, tt)
  NotIn-snoc a ((b, w) ∷ r) away other = (away.0, NotIn-snoc a r away.1 other)

  Distinct-snoc : (els : Elements) → Distinct els → NotIn p els → Distinct (snoc els)
  Distinct-snoc [] d away = (tt, tt)
  Distinct-snoc ((a, v) ∷ r) d away =
      (NotIn-snoc a r d.0 (λ e. away.0 (sym e)), Distinct-snoc r d.1 away.1)

  Below-snoc : (n : ℕ) (els : Elements) → Below n els → p < n → Below n (snoc els)
  Below-snoc n [] b lt = (lt, tt)
  Below-snoc n ((a, v) ∷ r) b lt = (b.0, Below-snoc n r b.1 lt)

  values-snoc : (els : Elements) → values (snoc els) ≡ values els ++ (s ∷ [])
  values-snoc [] = refl
  values-snoc ((a, v) ∷ r) = ap (λ l. v ∷ l) (values-snoc r)

  NotIn-last : (a : ℕ) (els : Elements) → NotIn a els → last_of els ≢ 0 → a ≢ last_of els
  NotIn-last a [] away there = absurd (there refl)
  NotIn-last a ((b, w) ∷ []) away there = away.0
  NotIn-last a ((b, w) ∷ (c, x) ∷ r) away there = NotIn-last a ((c, x) ∷ r) away.1 there

  head_of-snoc : (els : Elements) → last_of els ≢ 0 → head_of (snoc els) ≡ head_of els
  head_of-snoc [] there = absurd (there refl)
  head_of-snoc ((a, v) ∷ r) there = refl

  -- The old last element points to the new one.
  Linked-snoc :
      (at : ℕ → Option Element) (els : Elements)
      → Linked at els
      → Distinct els
      → NotIn p els
      → p ≢ 0
      → at p ≡ some (record { value = s; next = 0 })
      → last_of els ≢ 0
      → Linked (set_next (last_of els) p at) (snoc els)
  Linked-snoc at [] l d away new e there = absurd (there refl)
  Linked-snoc at ((a, v) ∷ []) l d away new e there =
      (l.0, set_next_self at a p 0 v l.1, (new, set_next_ne at a p p away.0 ∙ e, tt))
  Linked-snoc at ((a, v) ∷ (b, w) ∷ r) l d away new e there = (
    l.0,
    set_next_ne at (last_of ((b, w) ∷ r)) p a (NotIn-last a ((b, w) ∷ r) d.0 there) ∙ l.1,
    Linked-snoc at ((b, w) ∷ r) l.2 d.1 away.1 new e there,
  )

link_tail_empty :
    (p : ℕ) (q : Queue) (h : Heap)
    → q.tail ≡ 0
    → link_tail p q h ≡ (record { head = p; tail = p; size = size_inc q.size }, h)
unfolding link_tail
link_tail_empty p q h e = let b : (q.tail == 0) ≡ true = ground (arith, e) in rw b refl

link_tail_more :
    (p : ℕ) (q : Queue) (h : Heap)
    → q.tail ≢ 0
    → link_tail p q h ≡ (
      record { head = q.head; tail = p; size = size_inc q.size },
      record h { at = set_next q.tail p h.at },
    )
unfolding link_tail
link_tail_more p q h e = let b : (q.tail == 0) ≡ false = ground (arith, e) in rw b refl

last_of_zero :
    (at : ℕ → Option Element) (els : Elements) → Linked at els → last_of els ≡ 0 → els ≡ []
last_of_zero at [] l e = refl
last_of_zero at ((a, v) ∷ []) l e = absurd (l.0 e)
last_of_zero at ((a, v) ∷ (b, w) ∷ r) l e =
    absurd (let none_left = last_of_zero at ((b, w) ∷ r) l.2 e in cc)

module _ {others : ℕ} {h : Heap} {q : Queue} {vs : List (List ℕ)} (hq : HoldsQueue others h q vs)
    (s : List ℕ) (room : suc (length vs) < 2 ^ 64) (answers : List Bool) where
  tail-HoldsQueue :
      (at : ℕ → Option Element) (head : ℕ)
      → Linked at (snoc h.top s hq.elements)
      → head ≡ head_of (snoc h.top s hq.elements)
      → HoldsQueue others
          (record (allocated s answers h) { at = at })
          (record { head = head; tail = h.top; size = size_inc q.size })
          (vs ++ (s ∷ []))
  tail-HoldsQueue at head linked e = record {
    elements = snoc h.top s hq.elements;
    linked = linked;
    distinct =
        Distinct-snoc h.top s hq.elements hq.distinct (NotIn-Below h.top hq.elements hq.below);
    below =
        Below-snoc h.top s (h.top + 1) hq.elements (Below-suc h.top hq.elements hq.below)
          (omega arith);
    positive = omega arith;
    head = e;
    tail = sym (last_of-snoc h.top s hq.elements);
    size = omega (arith, hq.size, length-append vs (s ∷ []));
    strings = values-snoc h.top s hq.elements ∙ ap (λ l. l ++ (s ∷ [])) hq.strings;
    owned = omega (arith, hq.owned, length-append vs (s ∷ []));
  }

  link_tail-HoldsQueue :
      let (q', h') = link_tail h.top q (allocated s answers h) in
      HoldsQueue others h' q' (vs ++ (s ∷ []))
  link_tail-HoldsQueue = elim (ℕ_discrete q.tail 0) [
    | yes empty ↦
        let gone = last_of_zero h.at hq.elements hq.linked (sym hq.tail ∙ empty) in
        rw (link_tail_empty h.top q (allocated s answers h) empty) (
          tail-HoldsQueue (at_new hq s room answers) h.top
            (subst (λ els. Linked (at_new hq s room answers) (snoc h.top s els)) (sym gone)
              ((λ e. omega (arith, hq.positive)), new_at hq s room answers, tt))
            (sym (ap (λ els. head_of (snoc h.top s els)) gone)))
    | no there ↦
        let there' : last_of hq.elements ≢ 0 = λ e. there (hq.tail ∙ e) in
        rw (link_tail_more h.top q (allocated s answers h) there) (
          tail-HoldsQueue (set_next q.tail h.top (at_new hq s room answers)) q.head
            (subst
              (λ n. Linked (set_next n h.top (at_new hq s room answers)) (snoc h.top s hq.elements))
              (sym hq.tail)
              (Linked-snoc h.top s (at_new hq s room answers) hq.elements
                (old_Linked hq s room answers) hq.distinct (NotIn-Below h.top hq.elements hq.below)
                (λ e. omega (arith, hq.positive)) (new_at hq s room answers) there'))
            (hq.head ∙ sym (head_of-snoc h.top s hq.elements there')))
  ]

-- `queue_insert_tail` with a string, on a queue that holds fewer than 2 ^ 64 - 1 strings, succeeds
-- exactly if both allocations do: the queue then holds the new string behind the others, in two more
-- allocations. Otherwise nothing is kept allocated and the queue is as it was.
pub queue_insert_tail-Inserted :
    {others : ℕ} (h : Heap) (q : Queue) {vs : List (List ℕ)} (s : List ℕ)
    → HoldsQueue others h q vs
    → suc (length vs) < 2 ^ 64
    → Inserted others h q vs (vs ++ (s ∷ [])) (queue_insert_tail (some q) (some s) h)
unfolding queue_insert_tail insert_tail_at
queue_insert_tail-Inserted h q s hq room = elim (Bool-cases (can_allocate h)) [
  | inl allocates ↦
      let (answers, e) = new_element-ok s h allocates in
      rw e (allocates, link_tail-HoldsQueue hq s room answers)
  | inr fails ↦
      let (answers, e) = new_element_fails s h fails in
      rw e (fails, refl, HoldsQueue-answers h answers hq)
]
