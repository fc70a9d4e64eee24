-- ===== src/Queue/Tests.antt =====
-- Queues at concrete inputs.
use computer_systems_project.Base.{
  ℕ, ◌≡◌, refl, true, ◌==◌, if◌then◌else◌, none, some, List, [], ◌∷◌, arith,
}
use computer_systems_project.Queue.{
  Heap, Queue, queue_new, queue_insert_head, queue_insert_tail, queue_remove_head, queue_reverse,
  queue_free,
}
use computer_systems_project.Queue.Chain.{HoldsQueue}
use computer_systems_project.Queue.New.{Created, queue_new-Created}
use computer_systems_project.Queue.Insert.{Inserted, queue_insert_head-Inserted}
use computer_systems_project.Queue.Append.{queue_insert_tail-Inserted}
use computer_systems_project.Queue.Remove.{Removed, queue_remove_head-Removed, queue_free_all}
use computer_systems_project.Queue.Reverse.{rev_onto, queue_reverse-HoldsQueue}

abbrev text_a : List ℕ
text_a = b'a' ∷ []

abbrev text_b : List ℕ
text_b = b'b' ∷ b'b' ∷ []

abbrev two : Queue
two = record { head = 1; tail = 2; size = 2 }

-- `a` and `bb`; one more allocation is not the queue's.
abbrev two_heap : Heap
two_heap = record {
  at = λ x.
      if x == 1
      then some (record { value = text_a; next = 2 })
      else if x == 2
      then some (record { value = text_b; next = 0 })
      else none;
  top = 3;
  live = 6;
  answers = [];
}

two-HoldsQueue : HoldsQueue 1 two_heap two (text_a ∷ text_b ∷ [])
two-HoldsQueue = record {
  elements = (1, text_a) ∷ (2, text_b) ∷ [];
  linked = ((λ e. omega arith), refl, ((λ e. omega arith), refl, tt));
  distinct = (((λ e. omega arith), tt), (tt, tt));
  below = (omega arith, (omega arith, tt));
  positive = omega arith;
  head = refl;
  tail = refl;
  size = refl;
  strings = refl;
  owned = refl;
}

queue_new-Created_example : Created two_heap (queue_new two_heap)
queue_new-Created_example = queue_new-Created two_heap (omega arith)

queue_insert_head-Inserted_example :
    Inserted 1 two_heap two
      (text_a ∷ text_b ∷ [])
      (text_b ∷ text_a ∷ text_b ∷ [])
      (queue_insert_head (some two) text_b two_heap)
queue_insert_head-Inserted_example =
    queue_insert_head-Inserted two_heap two text_b two-HoldsQueue (omega arith)

queue_insert_tail-Inserted_example :
    Inserted 1 two_heap two
      (text_a ∷ text_b ∷ [])
      (text_a ∷ text_b ∷ text_a ∷ [])
      (queue_insert_tail (some two) (some text_a) two_heap)
queue_insert_tail-Inserted_example =
    queue_insert_tail-Inserted two_heap two text_a two-HoldsQueue (omega arith)

queue_remove_head-Removed_example :
    Removed 1 two_heap two true 8
      (text_a ∷ text_b ∷ [])
      (queue_remove_head (some two) true 8 two_heap)
queue_remove_head-Removed_example =
    queue_remove_head-Removed two_heap two (text_a ∷ text_b ∷ []) true 8 two-HoldsQueue
      (omega arith)

queue_reverse-HoldsQueue_example :
    (q' : Queue) × (h' : Heap) × (queue_reverse two two_heap ≡ some (q', h'))
    × (hq' : HoldsQueue 1 h' q' (text_b ∷ text_a ∷ [])) × (hq'.elements
        ≡ rev_onto two-HoldsQueue.elements [])
queue_reverse-HoldsQueue_example =
    queue_reverse-HoldsQueue two_heap two (text_a ∷ text_b ∷ []) two-HoldsQueue

queue_free_all_example : (h' : Heap) × (queue_free two two_heap ≡ some h') × (h'.live ≡ 1)
queue_free_all_example = queue_free_all two_heap two (text_a ∷ text_b ∷ []) two-HoldsQueue
