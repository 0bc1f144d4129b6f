-- ===== src/Msgqueue/Events/Delivery.antt =====
-- The messages of spserver-master/spserver/event_msgqueue.c arrive once each, in order, and none is left
-- behind without a wake-up.
use reading_comment.Common.{
  ℕ, zero, suc, ◌+◌, ◌%◌, ◌<◌, ◌≡◌, ◌≢◌, refl, sym, ap, ◌∙◌, Bool, true, false, Option, none, some,
  List, [], ◌∷◌, ◌++◌, ◌==◌, length, length-append, append_assoc, arith, inl, inr, Bool-cases,
}
use reading_comment.Msgqueue.{Circqueue, circqueue_push_tail, circqueue_pop_head}
use reading_comment.Msgqueue.Ring.{IsValid, entries_from, contents}
use reading_comment.Msgqueue.Grow.{Allocates}
use reading_comment.Msgqueue.Refine.{
  Pushed, circqueue_push_tail-Pushed, Popped, circqueue_pop_head-Popped,
}
use reading_comment.Msgqueue.Events.{
  idle, EventMsgqueue, pushed, msgqueue_push, call, turn_loop, QueueStep, push, wake, enter, turn,
  back, QueueSteps, here, next, at_rest,
}

-- Accepted messages are delivered or still in the queue, in order, and a queue that has some while the
-- event loop is idle has a byte to read.
pub record IsServed (m : EventMsgqueue) : Type 0 where
  pub valid : IsValid m.queue
  pub order : m.accepted ≡ m.delivered ++ contents m.queue
  pub wakes : m.stage ≡ idle → m.queue.count ≢ 0 → 0 < m.wakes

length-entries_from : (es : List ℕ) (size i n : ℕ) → length (entries_from es size i n) ≡ n
length-entries_from es size i zero = refl
length-entries_from es size i (suc n) =
    omega (arith, length-entries_from es size ((i + 1) % size) n)

length-contents : (q : Circqueue) → length (contents q) ≡ q.count
length-contents q = length-entries_from q.entries q.array_elements q.head q.count

pushed-IsServed :
    (malloc : ℕ → Option (List ℕ)) {m : EventMsgqueue} (msg : ℕ) (r : Bool × Circqueue)
    → Pushed malloc m.queue msg r
    → IsServed m
    → IsServed (pushed m msg r).1
pushed-IsServed malloc {m} msg (false, q) (refused, same) v = record {
  valid = rw same v.valid;
  order = rw same v.order;
  wakes = rw same v.wakes;
}
pushed-IsServed malloc {m} msg (true, q) (valid, added) v =
    let grows : q.count ≡ m.queue.count + 1 = omega (
      arith,
      length-contents q,
      length-contents m.queue,
      ap length added,
      length-append (contents m.queue) (msg ∷ []),
    ) in
    record {
      valid = valid;
      order = rw added (
          ap (λ l. l ++ (msg ∷ [])) v.order
          ∙ append_assoc m.delivered (contents m.queue) (msg ∷ []));
      wakes = λ i n. ground (arith, v.wakes i, grows);
    }

call-IsServed :
    {m : EventMsgqueue} (r : Option ℕ × Circqueue)
    → Popped m.queue r
    → IsServed m
    → IsServed (call m r)
call-IsServed {m} (none, q) (empty, same) v = record {
  valid = rw same v.valid;
  order = rw same v.order;
  wakes = λ i. ground arith;
}
call-IsServed {m} (some msg, q) (valid, first) v = record {
  valid = valid;
  order =
      v.order
      ∙ ap (λ l. m.delivered ++ l) first
      ∙ sym (append_assoc m.delivered (msg ∷ []) (contents q));
  wakes = λ i. ground arith;
}

QueueStep-IsServed :
    {malloc : ℕ → Option (List ℕ)} {m n : EventMsgqueue}
    → Allocates malloc
    → QueueStep malloc m n
    → IsServed m
    → IsServed n
unfolding msgqueue_push turn_loop
QueueStep-IsServed {malloc} {m} a (push msg free small) v =
    pushed-IsServed malloc msg (circqueue_push_tail malloc m.queue msg)
      (circqueue_push_tail-Pushed malloc msg v.valid a small) v
QueueStep-IsServed a (wake i some_left) v = record {
  valid = v.valid;
  order = v.order;
  wakes = λ j. ground arith;
}
QueueStep-IsServed a (enter i) v = record {
  valid = v.valid;
  order = v.order;
  wakes = λ j. ground arith;
}
QueueStep-IsServed {malloc} {m} a (turn i) v = elim (Bool-cases (m.queue.count == 0)) [
  | inl empty ↦
      rw empty
        (record { valid = v.valid; order = v.order; wakes = λ j n. ground (arith, empty, n) })
  | inr more ↦
      rw more (call-IsServed (circqueue_pop_head m.queue) (circqueue_pop_head-Popped v.valid) v)
]
QueueStep-IsServed a (back i) v = record {
  valid = v.valid;
  order = v.order;
  wakes = λ j. ground arith;
}

-- However pushes and the event loop interleave, from a valid empty queue on, when no send to the
-- socket pair fails, with a malloc that gives blocks of the length asked for and pushes at up to 2^30
-- places: the queue stays valid, the accepted messages are those that the callback was given, in
-- order, and then those in the queue; and when the event loop is idle with messages in the queue, a
-- byte stands in the socket pair to wake it.
pub QueueSteps-IsServed :
    {malloc : ℕ → Option (List ℕ)} {q : Circqueue} {m : EventMsgqueue}
    → Allocates malloc
    → IsValid q
    → q.count ≡ 0
    → QueueSteps malloc (at_rest q) m
    → IsServed m
QueueSteps-IsServed {q = q} a v e here = record {
  valid = v;
  order = sym (ap (λ n. entries_from q.entries q.array_elements q.head n) e);
  wakes = λ i n. absurd (n e);
}
QueueSteps-IsServed a v e (next r s) = QueueStep-IsServed a s (QueueSteps-IsServed a v e r)
