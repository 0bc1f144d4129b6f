-- ===== src/Msgqueue/Tests.antt =====
-- The queue of spserver-master/spserver/event_msgqueue.c on concrete inputs.
use reading_comment.Common.{
  ℕ, zero, suc, ◌≡◌, refl, arith, Option, true, some, List, [], ◌∷◌, replicate, length, ap,
}
use reading_comment.Msgqueue.{
  Circqueue, circqueue_new, put_tail, circqueue_push_tail, circqueue_pop_head,
}
use reading_comment.Msgqueue.Events.{
  EventMsgqueue, looping, at_rest, msgqueue_push, turn_loop, QueueSteps, push, wake, enter, turn,
  here, next,
}
use reading_comment.Msgqueue.Events.Delivery.{IsServed, QueueSteps-IsServed}
use reading_comment.Msgqueue.Ring.{IsValid}
use reading_comment.Msgqueue.Fresh.{Fresh, circqueue_new-Fresh}
use reading_comment.Msgqueue.Grow.{Allocates}
use reading_comment.Msgqueue.Refine.{
  Pushed, circqueue_push_tail-Pushed, Popped, circqueue_pop_head-Popped,
}

-- `malloc` that never fails.
abbrev gives : ℕ → Option (List ℕ)
gives n = some (replicate n 0)

length-replicate : (n : ℕ) → length {A = ℕ} (replicate n 0) ≡ n
length-replicate zero = refl
length-replicate (suc n) = omega (arith, length-replicate n)

some_inj : {a b : List ℕ} → some a ≡ some b → a ≡ b
some_inj h = cc

gives-Allocates : Allocates gives
gives-Allocates n block e =
    omega (arith, ap (length {A = ℕ}) (some_inj {b = block} e), length-replicate n)

-- Full, with the first message in the middle of the array.
abbrev full_queue : Circqueue
full_queue = record {
  head = 1;
  tail = 1;
  count = 2;
  max_entries = 0;
  array_elements = 2;
  entries = 6 ∷ 5 ∷ [];
}

full_queue-IsValid : IsValid full_queue
full_queue-IsValid = record {
  bits = 1;
  power = refl;
  small = omega arith;
  storage = refl;
  head_in = omega arith;
  tail_at = refl;
  count_in = omega arith;
  bounded = λ m. absurd (m refl);
  limit = λ m. absurd (m refl);
}

circqueue_push_tail-Pushed_example :
    Pushed gives full_queue 7 (circqueue_push_tail gives full_queue 7)
circqueue_push_tail-Pushed_example =
    circqueue_push_tail-Pushed gives 7 full_queue-IsValid gives-Allocates (omega arith)

circqueue_pop_head-Popped_example : Popped full_queue (circqueue_pop_head full_queue)
circqueue_pop_head-Popped_example = circqueue_pop_head-Popped full_queue-IsValid

abbrev empty_queue : Circqueue
empty_queue = record full_queue { count = 0 }

empty_queue-IsValid : IsValid empty_queue
empty_queue-IsValid = record {
  bits = 1;
  power = refl;
  small = omega arith;
  storage = refl;
  head_in = omega arith;
  tail_at = refl;
  count_in = omega arith;
  bounded = λ m. absurd (m refl);
  limit = λ m. absurd (m refl);
}

-- One message is pushed, and the event loop takes it.
abbrev one_pushed : EventMsgqueue
one_pushed = (msgqueue_push gives (at_rest empty_queue) 7).1

abbrev one_taken : EventMsgqueue
one_taken = turn_loop (record one_pushed { stage = looping; wakes = 0 })

run_to_callback : QueueSteps gives (at_rest empty_queue) one_taken
unfolding msgqueue_push circqueue_push_tail put_tail turn_loop circqueue_pop_head
run_to_callback =
    next
      (next (next (next here (push 7 refl (omega arith))) (wake refl (omega arith))) (enter refl))
      (turn refl)

QueueSteps-IsServed_example : IsServed one_taken
QueueSteps-IsServed_example =
    QueueSteps-IsServed gives-Allocates empty_queue-IsValid refl run_to_callback

circqueue_new-Fresh_example : Fresh true gives (circqueue_new true gives 0)
circqueue_new-Fresh_example = circqueue_new-Fresh true gives gives-Allocates
