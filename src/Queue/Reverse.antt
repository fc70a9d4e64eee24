-- ===== src/Queue/Reverse.antt =====
-- Reversal in place.
use computer_systems_project.Base.{
  ℕ, zero, suc, ◌+◌, ◌*◌, ◌<◌, ◌≡◌, ◌≢◌, refl, ap, ◌∙◌, sym, true, false, ◌==◌, Option, some, List,
  [], ◌∷◌, length, arith, ℕ_discrete,
}
use computer_systems_project.Queue.{
  Element, Heap, Queue, set_next, reverse_loop, reversed, queue_reverse,
}
use computer_systems_project.Queue.Chain.{
  Elements, head_of, last_of, NotIn, Distinct, Below, Linked, values, length-values, HoldsQueue,
  set_next_ne, set_next_self, Linked-frame,
}

-- The elements of the first list, reversed, in front of the second.
abbrev pub rev_onto : Elements → Elements → Elements
rev_onto [] d = d
rev_onto ((a, v) ∷ r) d = rev_onto r ((a, v) ∷ d)

-- The first list, reversed, in front of the second.
abbrev pub reverse_onto : List (List ℕ) → List (List ℕ) → List (List ℕ)
reverse_onto [] d = d
reverse_onto (v ∷ r) d = reverse_onto r (v ∷ d)

abbrev Apart : Elements → Elements → Type 0
Apart [] d = Unit
Apart ((a, v) ∷ r) d = NotIn a d × Apart r d

Apart-cons : (a : ℕ) (v : List ℕ) (r d : Elements) → NotIn a r → Apart r d → Apart r ((a, v) ∷ d)
Apart-cons a v [] d away apart = tt
Apart-cons a v ((b, w) ∷ r) d away apart =
    (((λ e. away.0 (sym e)), apart.0), Apart-cons a v r d away.1 apart.1)

values-rev_onto : (r d : Elements) → values (rev_onto r d) ≡ reverse_onto (values r) (values d)
values-rev_onto [] d = refl
values-rev_onto ((a, v) ∷ r) d = values-rev_onto r ((a, v) ∷ d)

Distinct-rev_onto : (r d : Elements) → Distinct r → Distinct d → Apart r d → Distinct (rev_onto r d)
Distinct-rev_onto [] d dr dd apart = dd
Distinct-rev_onto ((a, v) ∷ r) d dr dd apart =
    Distinct-rev_onto r ((a, v) ∷ d) dr.1 (apart.0, dd) (Apart-cons a v r d dr.0 apart.1)

Below-rev_onto : (n : ℕ) (r d : Elements) → Below n r → Below n d → Below n (rev_onto r d)
Below-rev_onto n [] d br bd = bd
Below-rev_onto n ((a, v) ∷ r) d br bd = Below-rev_onto n r ((a, v) ∷ d) br.1 (br.0, bd)

last_of-rev_onto :
    (r : Elements) (a : ℕ) (v : List ℕ) (d : Elements)
    → last_of (rev_onto r ((a, v) ∷ d)) ≡ last_of ((a, v) ∷ d)
last_of-rev_onto [] a v d = refl
last_of-rev_onto ((b, w) ∷ r) a v d = last_of-rev_onto r b w ((a, v) ∷ d)

length-reverse_onto : (r d : List (List ℕ)) → length (reverse_onto r d) ≡ length r + length d
length-reverse_onto [] d = omega arith
length-reverse_onto (v ∷ r) d = length-reverse_onto r (v ∷ d) ∙ omega arith

Apart-nil : (r : Elements) → Apart r []
Apart-nil [] = tt
Apart-nil ((a, v) ∷ r) = (tt, Apart-nil r)

-- The loop moves the elements one by one from the rest to the part that is done.
reverse_loop-Linked :
    (fuel : ℕ) (d r : Elements) (at : ℕ → Option Element)
    → Linked at d
    → Linked at r
    → Distinct r
    → Apart r d
    → length r < fuel
    → (at' : ℕ → Option Element) × (reverse_loop fuel (head_of d) (head_of r) at
        ≡ some (head_of (rev_onto r d), at'))
      × Linked at' (rev_onto r d)
unfolding reverse_loop
reverse_loop-Linked zero d r at ld lr dr apart enough = absurd (omega arith)
reverse_loop-Linked (suc k) d [] at ld lr dr apart enough = (at, refl, ld)
reverse_loop-Linked (suc k) d ((a, v) ∷ r) at ld lr dr apart enough =
    let at1 = set_next a (head_of d) at in
    let (at', e, l) =
      reverse_loop-Linked k ((a, v) ∷ d) r at1
        (
          lr.0,
          set_next_self at a (head_of d) (head_of r) v lr.1,
          Linked-frame at at1 a d (λ x other. set_next_ne at a (head_of d) x other) apart.0 ld,
        )
        (Linked-frame at at1 a r (λ x other. set_next_ne at a (head_of d) x other) dr.0 lr.2) dr.1
        (Apart-cons a v r d dr.0 apart.1) (omega arith) in
    let there : (a == 0) ≡ false = ground (arith, lr.0) in (at', rw (there, lr.1) e, l)

reverse_empty : (q : Queue) (h : Heap) → q.head ≡ 0 → queue_reverse q h ≡ some (q, h)
unfolding queue_reverse
reverse_empty q h e = let b : (q.head == 0) ≡ true = ground (arith, e) in rw b refl

reverse_more :
    (q : Queue) (h : Heap)
    → q.head ≢ 0
    → queue_reverse q h ≡ reversed q h (reverse_loop (suc q.size) 0 q.head h.at)
unfolding queue_reverse
reverse_more q h e = let b : (q.head == 0) ≡ false = ground (arith, e) in rw b refl

head_first : (els : Elements) (n : ℕ) → head_of els ≡ n → n ≢ 0 → last_of (rev_onto els []) ≡ n
head_first [] n e other = absurd (other (sym e))
head_first ((a, v) ∷ r) n e other = last_of-rev_onto r a v [] ∙ e

head_zero : (at : ℕ → Option Element) (els : Elements) → Linked at els → head_of els ≡ 0 → els ≡ []
head_zero at [] l e = refl
head_zero at ((a, v) ∷ r) l e = absurd (l.0 e)

-- `queue_reverse` on a queue ends, and the queue then holds its strings in reverse order: its elements,
-- each at its address with its string, are those of before in reverse order.
pub queue_reverse-HoldsQueue :
    {others : ℕ} (h : Heap) (q : Queue) (vs : List (List ℕ)) (hq : HoldsQueue others h q vs)
    → (q' : Queue) × (h' : Heap) × (queue_reverse q h ≡ some (q', h'))
      × (hq' : HoldsQueue others h' q' (reverse_onto vs [])) × (hq'.elements
          ≡ rev_onto hq.elements [])
unfolding reversed
queue_reverse-HoldsQueue {others} h q vs hq = elim (ℕ_discrete q.head 0) [
  | yes empty ↦
      let gone = head_zero h.at hq.elements hq.linked (sym hq.head ∙ empty) in
      let none_left : vs ≡ [] = sym hq.strings ∙ ap values gone in
      let same_strings : vs ≡ reverse_onto vs [] =
        none_left ∙ sym (ap (λ l. reverse_onto l []) none_left) in
      (
        q,
        h,
        reverse_empty q h empty,
        record {
          elements = hq.elements;
          linked = hq.linked;
          distinct = hq.distinct;
          below = hq.below;
          positive = hq.positive;
          head = hq.head;
          tail = hq.tail;
          size = hq.size ∙ ap length same_strings;
          strings = hq.strings ∙ same_strings;
          owned = hq.owned ∙ ap (λ l. others + 1 + 2 * length l) same_strings;
        },
        gone ∙ sym (ap (λ l. rev_onto l []) gone),
      )
  | no there ↦
      let e = length-values hq.elements in
      let same : length (values hq.elements) ≡ length vs = ap length hq.strings in
      let (at', done, linked) =
        reverse_loop-Linked (suc q.size) [] hq.elements h.at tt hq.linked hq.distinct
          (Apart-nil hq.elements) (omega (arith, hq.size)) in
      let strings' : values (rev_onto hq.elements []) ≡ reverse_onto vs [] =
        values-rev_onto hq.elements [] ∙ ap (λ l. reverse_onto l []) hq.strings in
      let size' : length (reverse_onto vs []) ≡ length vs =
        length-reverse_onto vs [] ∙ omega arith in
      (
        record q { head = head_of (rev_onto hq.elements []); tail = q.head },
        record h { at = at' },
        reverse_more q h there
            ∙ ap (λ p. reversed q h (reverse_loop (suc q.size) 0 p h.at)) hq.head
            ∙ ap (reversed q h) done,
        record {
          elements = rev_onto hq.elements [];
          linked = linked;
          distinct = Distinct-rev_onto hq.elements [] hq.distinct tt (Apart-nil hq.elements);
          below = Below-rev_onto h.top hq.elements [] hq.below tt;
          positive = hq.positive;
          head = refl;
          tail = sym (head_first hq.elements q.head (sym hq.head) there);
          size = hq.size ∙ sym size';
          strings = strings';
          owned = omega (arith, hq.owned, size');
        },
        refl,
      )
]
