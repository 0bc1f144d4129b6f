-- ===== src/Msgqueue/Fresh.antt =====
-- What `circqueue_new` of spserver-master/spserver/event_msgqueue.c returns for a queue without bound.
use reading_comment.Common.{
  ℕ, ◌≡◌, ◌⊎◌, refl, Bool, true, false, Option, none, some, List, [], length, arith, Option-cases,
  inl, inr,
}
use reading_comment.Msgqueue.{Circqueue, default_size, array_size, circqueue_new}
use reading_comment.Msgqueue.Ring.{IsValid, contents}
use reading_comment.Msgqueue.Grow.{Allocates}

-- The queue over a block of 1024 places.
abbrev pub unbounded_over : List ℕ → Circqueue
unbounded_over block = record {
  head = 0;
  tail = 0;
  count = 0;
  max_entries = 0;
  array_elements = 1024;
  entries = block;
}

unbounded_over-IsValid : (block : List ℕ) → length block ≡ 1024 → IsValid (unbounded_over block)
unbounded_over-IsValid block len = record {
  bits = 10;
  power = refl;
  small = omega arith;
  storage = len;
  head_in = omega arith;
  tail_at = refl;
  count_in = omega arith;
  bounded = λ m. absurd (m refl);
  limit = λ m. absurd (m refl);
}

-- What `circqueue_new` may return, if `calloc` has given the structure or not.
abbrev pub Fresh : Bool → (ℕ → Option (List ℕ)) → Option Circqueue → Type 0
Fresh given malloc none = (given ≡ false) ⊎ (malloc default_size ≡ none)
Fresh given malloc (some q) = (given ≡ true) × IsValid q × (contents q ≡ []) × (q.max_entries ≡ 0)

-- `circqueue_new` without bound, where `malloc` gives blocks of the length it is asked for: the result
-- is a valid queue with no message, or NULL, which is returned only when one of the two allocations
-- fails.
pub circqueue_new-Fresh :
    (given : Bool) (malloc : ℕ → Option (List ℕ))
    → Allocates malloc
    → Fresh given malloc (circqueue_new given malloc 0)
unfolding circqueue_new array_size
circqueue_new-Fresh false malloc a = inl refl
circqueue_new-Fresh true malloc a = elim (Option-cases (malloc default_size)) [
  | inl e ↦ ground (arith, e)
  | inr (block, e) ↦
      let valid = unbounded_over-IsValid block (a default_size block e) in ground (arith, e, valid)
]
