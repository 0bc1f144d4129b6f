-- ===== src/Msgqueue/Refine.antt =====
-- The circular queue of spserver-master/spserver/event_msgqueue.c is a first-in first-out queue.
use native.Mathlib.Nat.{mod-lt, mod-add-mod}
use reading_comment.Common.{
  ℕ, ◌+◌, ◌-◌, ◌*◌, ◌%◌, ◌^◌, ◌<◌, ◌≤◌, ◌≡◌, ◌≢◌, refl, ap, sym, ◌∙◌, arith, Bool, true, false,
  Option, none, some, List, [], ◌∷◌, ◌++◌, ◌==◌, Bool-cases, Option-cases, inl, inr, ◌⊎◌, length,
  u32_mod,
}
use reading_comment.Msgqueue.{
  Circqueue, put_tail, circqueue_push_tail, circqueue_pop_head, circqueue_grow, grown,
}
use reading_comment.Msgqueue.Ring.{
  IsValid, entries_from, contents, next_index, entries_from-pop, put_tail-contents,
  put_tail-IsValid,
}
use reading_comment.Msgqueue.Grow.{Allocates, grown-contents, grown-IsValid, twice}

-- When a push may fail: at the bound, or when a full queue without bound gets no new array.
abbrev pub Refused : (ℕ → Option (List ℕ)) → Circqueue → Type 0
Refused malloc q =
    ((q.max_entries ≢ 0) × (q.count ≡ q.max_entries))
    ⊎ ((q.count ≡ q.array_elements) × (malloc (q.array_elements * 2 % u32_mod) ≡ none))

abbrev pub Added : Circqueue → ℕ → Circqueue → Type 0
Added q x q' = IsValid q' × (contents q' ≡ contents q ++ (x ∷ []))

-- What a push that succeeds, or fails, has done.
abbrev pub Pushed : (ℕ → Option (List ℕ)) → Circqueue → ℕ → Bool × Circqueue → Type 0
Pushed malloc q x (true, q') = Added q x q'
Pushed malloc q x (false, q') = Refused malloc q × (q' ≡ q)

put_tail-Pushed :
    {q : Circqueue} (v : IsValid q) (x : ℕ)
    → q.count < q.array_elements
    → (q.max_entries ≢ 0 → q.count < q.max_entries)
    → Added q x (put_tail q x)
put_tail-Pushed v x h room = (put_tail-IsValid v x h room, put_tail-contents v x h)

grown-Pushed :
    {q : Circqueue} (v : IsValid q) (x : ℕ) (block : List ℕ)
    → q.max_entries ≡ 0
    → q.count ≡ q.array_elements
    → q.array_elements ≤ 2 ^ 30
    → length block ≡ q.array_elements * 2
    → Added q x (put_tail (grown q block) x)
grown-Pushed {q} v x block unbounded full small len =
    let w = grown-IsValid v block unbounded full small len in
    let double = twice v block unbounded full small len in
    let room : (grown q block).count < (grown q block).array_elements =
      unfold grown in omega (arith, double, v.head_in) in
    let unlimited : (grown q block).max_entries ≡ 0 = unfold grown in unbounded in
    let (ok, added) = put_tail-Pushed w x room (λ m. absurd (m unlimited)) in
    (ok, added ∙ ap (λ l. l ++ (x ∷ [])) (grown-contents v block unbounded full small len))

-- The bytes of the new array are as many as were asked for.
block_length :
    (n : ℕ) (malloc : ℕ → Option (List ℕ)) (block : List ℕ)
    → Allocates malloc
    → n ≤ 2 ^ 30
    → malloc (n * 2 % u32_mod) ≡ some block
    → length block ≡ n * 2
block_length n malloc block alloc small e = alloc (n * 2 % u32_mod) block e ∙ omega arith

grow_and_put :
    {q : Circqueue} (malloc : ℕ → Option (List ℕ)) (x : ℕ)
    → IsValid q
    → Allocates malloc
    → q.array_elements ≤ 2 ^ 30
    → q.max_entries ≡ 0
    → q.count ≡ q.array_elements
    → Pushed malloc q x
        (elim (circqueue_grow malloc q) [ none ↦ (false, q) | some q' ↦ (true, put_tail q' x) ])
unfolding circqueue_grow
grow_and_put {q} malloc x v alloc small unbounded full =
    elim (Option-cases (malloc (q.array_elements * 2 % u32_mod))) [
      | inl e ↦ rw e (inr (full, e), refl)
      | inr (block, e) ↦ rw e (
          grown-Pushed v x block unbounded full small
            (block_length q.array_elements malloc block alloc small e))
    ]

-- `circqueue_push_tail` on a valid queue of at most 2^30 places, where `malloc` gives blocks of the
-- length it is asked for: a push that succeeds appends the message and leaves a valid queue; one that
-- fails changes nothing, and was at the bound or had no memory to grow a full queue.
pub circqueue_push_tail-Pushed :
    {q : Circqueue} (malloc : ℕ → Option (List ℕ)) (x : ℕ)
    → IsValid q
    → Allocates malloc
    → q.array_elements ≤ 2 ^ 30
    → Pushed malloc q x (circqueue_push_tail malloc q x)
unfolding circqueue_push_tail
circqueue_push_tail-Pushed {q} malloc x v alloc small = elim (Bool-cases (q.max_entries == 0)) [
  | inl z ↦ elim (Bool-cases (q.count == q.array_elements)) [
    | inl full ↦
        rw (z, full)
          (grow_and_put malloc x v alloc small (ground (arith, z)) (ground (arith, full)))
    | inr free ↦
        rw (z, free)
          (put_tail-Pushed v x (ground (arith, free, v.count_in))
            (λ m. absurd (m (ground (arith, z)))))
  ]
  | inr bounded ↦ elim (Bool-cases (q.count == q.max_entries)) [
    | inl full ↦ rw (bounded, full) (inl (ground (arith, bounded), ground (arith, full)), refl)
    | inr free ↦
        rw (bounded, free)
          (let m : q.max_entries ≢ 0 = ground (arith, bounded) in
            let room : q.count < q.max_entries = ground (arith, free, v.limit m) in
            put_tail-Pushed v x (omega (arith, room, v.bounded m)) (λ _. room))
  ]
]

-- What a pop has done: the oldest message is gone, and NULL is the empty queue's answer.
abbrev pub Popped : Circqueue → Option ℕ × Circqueue → Type 0
Popped q (none, q') = (contents q ≡ []) × (q' ≡ q)
Popped q (some x, q') = IsValid q' × (contents q ≡ x ∷ contents q')

popped : Circqueue → Circqueue
popped q = record q { count = q.count - 1; head = (q.head + 1) % q.array_elements }

popped-IsValid : {q : Circqueue} (v : IsValid q) → q.count ≢ 0 → IsValid (popped q)
unfolding popped
popped-IsValid {q} v p =
    let size = q.array_elements in
    record {
      bits = v.bits;
      power = v.power;
      small = v.small;
      storage = v.storage;
      head_in = mod-lt (q.head + 1) (omega (arith, v.head_in));
      tail_at =
          v.tail_at
          ∙ ap (λ n. n % size) (omega arith)
          ∙ sym (mod-add-mod (q.head + 1) size (q.count - 1));
      count_in = omega (arith, v.count_in);
      bounded = v.bounded;
      limit = λ m. omega (arith, v.limit m);
    }

-- `circqueue_pop_head` on a valid queue returns NULL and changes nothing when the queue is empty, and
-- takes the first message off a queue that has one; the queue stays valid.
pub circqueue_pop_head-Popped : {q : Circqueue} → IsValid q → Popped q (circqueue_pop_head q)
unfolding circqueue_pop_head
circqueue_pop_head-Popped {q} v = elim (Bool-cases (q.count == 0)) [
  | inl z ↦
      let empty : q.count ≡ 0 = ground (arith, z) in
      rw z (ap (entries_from q.entries q.array_elements q.head) empty, refl)
  | inr full ↦
      let some_left : q.count ≢ 0 = ground (arith, full) in
      rw (full, next_index v q.head v.head_in)
        (
          unfold popped in popped-IsValid v some_left,
          entries_from-pop q.entries q.array_elements q.head q.count some_left,
        )
]
