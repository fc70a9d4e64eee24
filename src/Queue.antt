-- ===== src/Queue.antt =====
-- The queue of strings of lab0-cprogramminglab0-qinlinj/queue.c, on an explicit heap.
--
-- An address is a number, 0 is NULL. `malloc` takes the next address, or fails where the list of
-- answers says so. A list element and its string are two allocations; the string is kept with the
-- element, whose `value` pointer is never shared.
mod Tests
pub mod Append
pub mod Chain
pub mod Insert
pub mod New
pub mod Remove
pub mod Reverse
use computer_systems_project.Base.{
  ℕ, zero, suc, ◌+◌, ◌-◌, ◌%◌, ◌^◌, Bool, true, false, ◌&&◌, ◌||◌, Option, none, some, List, [],
  ◌∷◌, ◌++◌, ◌==◌, if◌then◌else◌, length, take,
}

pub record Element : Type 0 where
  pub value : List ℕ
  pub next : ℕ

-- The heap: the elements, the next address, how many allocations are live, and what `malloc` answers
-- next; behind the end of the list it succeeds.
pub record Heap : Type 0 where
  pub at : ℕ → Option Element
  pub top : ℕ
  pub live : ℕ
  pub answers : List Bool

-- `queue_t`
pub record Queue : Type 0 where
  pub head : ℕ
  pub tail : ℕ
  pub size : ℕ

-- Whether the next `malloc` succeeds, and the answers behind it.
pub ask : List Bool → Bool × List Bool
ask [] = (true, [])
ask (b ∷ bs) = (b, bs)

abbrev pub put : (ℕ → Option Element) → ℕ → Option Element → ℕ → Option Element
put at p e x = if x == p then e else at x

-- Both allocations of an insertion: the address of the new element, whose string is copied. A failed
-- second allocation frees the first.
pub new_element : List ℕ → Heap → Option ℕ × Heap
unfolding ask
new_element s h =
    let (first, rest) = ask h.answers in
    let (second, rest') = ask rest in
    if first
    then (if second
        then (
          some h.top,
          record {
            at = put h.at h.top (some (record { value = s; next = 0 }));
            top = h.top + 1;
            live = h.live + 2;
            answers = rest';
          },
        )
        else (none, record h { answers = rest' }))
    else (none, record h { answers = rest })

-- `p->next = q`
pub set_next : (p q : ℕ) → (ℕ → Option Element) → ℕ → Option Element
set_next p q at x =
    if x == p then elim (at x) [ none ↦ none | some e ↦ some (record e { next = q }) ] else at x

abbrev pub next_of : Option Element → ℕ
next_of none = 0
next_of (some e) = e.next

abbrev pub value_of : Option Element → List ℕ
value_of none = []
value_of (some e) = e.value

-- `q->size++` and `q->size--` on a `size_t`.
abbrev pub size_inc : ℕ → ℕ
size_inc n = (n + 1) % 2 ^ 64

abbrev pub size_dec : ℕ → ℕ
size_dec n = (n + (2 ^ 64 - 1)) % 2 ^ 64

pub queue_new : Heap → Option Queue × Heap
unfolding ask
queue_new h =
    let (success, rest) = ask h.answers in
    if success
    then (
      some (record { head = 0; tail = 0; size = 0 }),
      record h { live = h.live + 1; answers = rest },
    )
    else (none, record h { answers = rest })

-- A new element `p` in front.
pub link_head : ℕ → Queue → Heap → Queue × Heap
unfolding set_next
link_head p q h =
    if q.head == 0
    then (
      record { head = p; tail = p; size = size_inc q.size },
      record h { at = set_next p 0 h.at },
    )
    else (record q { head = p; size = size_inc q.size }, record h { at = set_next p q.head h.at })

-- `queue_insert_head`, on a string that is not NULL. The result has the queue, which is NULL if it was.
pub insert_head_at : Option ℕ → Queue → Heap → Bool × Option Queue × Heap
unfolding link_head
insert_head_at none q h = (false, some q, h)
insert_head_at (some p) q h = let (q', h') = link_head p q h in (true, some q', h')

pub queue_insert_head : Option Queue → List ℕ → Heap → Bool × Option Queue × Heap
unfolding new_element insert_head_at
queue_insert_head none s h = (false, none, h)
queue_insert_head (some q) s h = let (p, h') = new_element s h in insert_head_at p q h'

-- A new element `p`, whose `next` is NULL, at the end.
pub link_tail : ℕ → Queue → Heap → Queue × Heap
unfolding set_next
link_tail p q h =
    if q.tail == 0
    then (record { head = p; tail = p; size = size_inc q.size }, h)
    else (record q { tail = p; size = size_inc q.size }, record h { at = set_next q.tail p h.at })

pub insert_tail_at : Option ℕ → Queue → Heap → Bool × Option Queue × Heap
unfolding link_tail
insert_tail_at none q h = (false, some q, h)
insert_tail_at (some p) q h = let (q', h') = link_tail p q h in (true, some q', h')

-- `queue_insert_tail`: `none` is a NULL string.
pub queue_insert_tail : Option Queue → Option (List ℕ) → Heap → Bool × Option Queue × Heap
unfolding new_element insert_tail_at
queue_insert_tail none s h = (false, none, h)
queue_insert_tail (some q) none h = (false, some q, h)
queue_insert_tail (some q) (some s) h = let (p, h') = new_element s h in insert_tail_at p q h'

-- What `queue_remove_head` does with a queue whose `head` is not NULL.
pub unlink_head : Queue → Heap → Queue × Heap
unlink_head q h =
    let next = next_of (h.at q.head) in
    (
      record { head = next; tail = if next == 0 then 0 else q.tail; size = size_dec q.size },
      record h { at = put h.at q.head none; live = h.live - 2 },
    )

-- The bytes that stand in the buffer up to its NUL, where `buf` is not NULL and `bufsize` not 0.
pub copied : (buf : Bool) → (bufsize : ℕ) → List ℕ → Option (List ℕ)
copied false n v = none
copied true zero v = none
copied true (suc n) v = some (take n v)

pub queue_remove_head :
    Option Queue
    → (buf : Bool) → (bufsize : ℕ) → Heap
    → Bool × Option (List ℕ) × Option Queue × Heap
unfolding unlink_head copied
queue_remove_head none buf n h = (false, none, none, h)
queue_remove_head (some q) buf n h =
    let (q', h') = unlink_head q h in
    if q.head == 0
    then (false, none, some q, h)
    else (true, copied buf n (value_of (h.at q.head)), some q', h')

pub queue_size : Option Queue → ℕ
queue_size none = 0
queue_size (some q) = q.size

-- The loop of `queue_reverse`; `none` is out of fuel.
pub reverse_loop : (fuel prev curr : ℕ) → (ℕ → Option Element) → Option (ℕ × (ℕ → Option Element))
unfolding set_next
reverse_loop zero prev curr at = none
reverse_loop (suc k) prev curr at =
    let rest = reverse_loop k curr (next_of (at curr)) (set_next curr prev at) in
    if curr == 0 then some (prev, at) else rest

pub reversed : Queue → Heap → Option (ℕ × (ℕ → Option Element)) → Option (Queue × Heap)
reversed q h none = none
reversed q h (some (prev, at)) =
    some (record q { head = prev; tail = q.head }, record h { at = at })

-- The loop has one round for each element and one more; the size of the queue is the fuel.
pub queue_reverse : Queue → Heap → Option (Queue × Heap)
unfolding reverse_loop reversed
queue_reverse q h =
    let r = reversed q h (reverse_loop (suc q.size) 0 q.head h.at) in
    if q.head == 0 then some (q, h) else r

-- `queue_free` on a queue that is not NULL.
pub free_loop : (fuel p : ℕ) → Heap → Option Heap
free_loop zero p h = none
free_loop (suc k) p h =
    let rest =
      free_loop k (next_of (h.at p)) (record h { at = put h.at p none; live = h.live - 2 }) in
    if p == 0 then some (record h { live = h.live - 1 }) else rest

pub queue_free : Queue → Heap → Option Heap
unfolding free_loop
queue_free q h = free_loop (suc q.size) q.head h
