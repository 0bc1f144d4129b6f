-- ===== src/Msgqueue/Events.antt =====
-- `msgqueue_push` and `msgqueue_pop` of spserver-master/spserver/event_msgqueue.c: threads that push, and
-- the event loop that calls back for each message, under one lock. `send` never fails.
pub mod Delivery
use reading_comment.Common.{
  ℕ, ◌+◌, ◌-◌, ◌≤◌, ◌<◌, ◌^◌, ◌≡◌, min, Bool, true, false, Option, none, some, List, [], ◌∷◌, ◌++◌,
  ◌==◌, if◌then◌else◌,
}
use reading_comment.Msgqueue.{Circqueue, circqueue_push_tail, circqueue_pop_head}

-- Where `msgqueue_pop` is: not called, behind `recv`, at the test of its loop with the lock, and in the
-- callback without it.
pub data Stage : Type 0 where
  idle awake looping calling : Stage

-- `struct event_msgqueue`, with the bytes that stand in its socket pair, and in order the messages that
-- were accepted and those that the callback was given.
pub record EventMsgqueue : Type 0 where
  pub queue : Circqueue
  pub wakes : ℕ
  pub stage : Stage
  pub accepted : List ℕ
  pub delivered : List ℕ

abbrev pub has_lock : Stage → Bool
has_lock looping = true
has_lock _ = false

-- Behind `circqueue_push_tail`: a byte is sent when the message is the only one.
abbrev pub pushed : EventMsgqueue → ℕ → Bool × Circqueue → Bool × EventMsgqueue
pushed m msg (false, q) = (false, record m { queue = q })
pushed m msg (true, q) = (
  true,
  record m {
    queue = q;
    wakes = if q.count == 1 then m.wakes + 1 else m.wakes;
    accepted = m.accepted ++ (msg ∷ []);
  },
)

-- `msgqueue_push`, from the lock to the unlock: the flag is a return of 0.
unfoldable pub msgqueue_push : (ℕ → Option (List ℕ)) → EventMsgqueue → ℕ → Bool × EventMsgqueue
msgqueue_push malloc m msg = pushed m msg (circqueue_push_tail malloc m.queue msg)

abbrev pub call : EventMsgqueue → Option ℕ × Circqueue → EventMsgqueue
call m (none, q) = record m { queue = q; stage = calling }
call m (some msg, q) = record m {
  queue = q;
  stage = calling;
  delivered = m.delivered ++ (msg ∷ []);
}

-- The test of the loop of `msgqueue_pop`, up to the callback or the end.
unfoldable pub turn_loop : EventMsgqueue → EventMsgqueue
turn_loop m =
    if m.queue.count == 0 then record m { stage = idle } else call m (circqueue_pop_head m.queue)

-- What may happen next. A push waits for the lock; the event loop calls `msgqueue_pop`, which takes 64
-- bytes at most, when there is a byte to read.
pub data QueueStep (malloc : ℕ → Option (List ℕ)) : EventMsgqueue → EventMsgqueue → Type 0 where
  push :
      {m : EventMsgqueue} (msg : ℕ)
      → has_lock m.stage ≡ false
      → m.queue.array_elements ≤ 2 ^ 30
      → QueueStep malloc m (msgqueue_push malloc m msg).1
  wake :
      {m : EventMsgqueue}
      → m.stage ≡ idle
      → 0 < m.wakes
      → QueueStep malloc m (record m { stage = awake; wakes = m.wakes - min m.wakes 64 })
  enter : {m : EventMsgqueue} → m.stage ≡ awake → QueueStep malloc m (record m { stage = looping })
  turn : {m : EventMsgqueue} → m.stage ≡ looping → QueueStep malloc m (turn_loop m)
  back : {m : EventMsgqueue} → m.stage ≡ calling → QueueStep malloc m (record m { stage = looping })

pub data QueueSteps (malloc : ℕ → Option (List ℕ)) (m : EventMsgqueue)
    : EventMsgqueue → Type 0 where
  here : QueueSteps malloc m m
  next :
      {n o : EventMsgqueue} → QueueSteps malloc m n → QueueStep malloc n o → QueueSteps malloc m o

-- An empty queue before the first push.
abbrev pub at_rest : Circqueue → EventMsgqueue
at_rest q = record { queue = q; wakes = 0; stage = idle; accepted = []; delivered = [] }
