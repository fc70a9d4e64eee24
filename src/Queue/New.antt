-- ===== src/Queue/New.antt =====
-- A new queue.
use computer_systems_project.Base.{
  ◌<◌, ◌≡◌, refl, true, false, Bool-cases, inl, inr, Option, none, some, [], arith,
}
use computer_systems_project.Queue.{Heap, Queue, ask, queue_new}
use computer_systems_project.Queue.Chain.{HoldsQueue}

-- NULL, with nothing allocated, or a queue.
abbrev pub Created : Heap → Option Queue × Heap → Type 0
Created h (none, h') = ((ask h.answers).0 ≡ false) × (h'.live ≡ h.live)
Created h (some q, h') = ((ask h.answers).0 ≡ true) × HoldsQueue h.live h' q []

-- On a heap whose addresses start above NULL, `queue_new` returns NULL and allocates nothing exactly if
-- `malloc` fails; otherwise it returns a queue that holds nothing, in one more allocation.
pub queue_new-Created : (h : Heap) → 0 < h.top → Created h (queue_new h)
unfolding queue_new
queue_new-Created h positive = elim (Bool-cases (ask h.answers).0) [
  | inr fails ↦ rw fails (fails, refl)
  | inl allocates ↦ rw allocates (
    allocates,
    record {
      elements = [];
      linked = tt;
      distinct = tt;
      below = tt;
      positive = positive;
      head = refl;
      tail = refl;
      size = refl;
      strings = refl;
      owned = omega arith;
    },
  )
]
