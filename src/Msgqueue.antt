-- ===== src/Msgqueue.antt =====
-- The circular queue of spserver-master/spserver/event_msgqueue.c. Pointers are numbers, and `malloc`
-- is an argument: the block that it returns, if any.
pub mod Ring
pub mod Grow
pub mod Fresh
pub mod Refine
pub mod Events
mod Tests
use Prim.Native.Nat.{bit_and, bit_or}
use reading_comment.Common.{
  ℕ, zero, suc, ◌+◌, ◌-◌, ◌*◌, ◌/◌, ◌%◌, ◌^◌, Bool, true, false, not, ◌&&◌, Option, none, some,
  List, [], ◌∷◌, ◌==◌, ltb, if◌then◌else◌, get_or, set, take, drop, add32, u32_mod,
}

-- `struct circqueue`
pub record Circqueue : Type 0 where
  pub head : ℕ
  pub tail : ℕ
  pub count : ℕ
  pub max_entries : ℕ
  pub array_elements : ℕ
  pub entries : List ℕ

-- `num |= num >> k`
abbrev smear : ℕ → ℕ → ℕ
smear num k = bit_or num (num / 2 ^ k)

-- `nextpow2` on an `unsigned int`
unfoldable pub nextpow2 : ℕ → ℕ
nextpow2 num =
    (smear (smear (smear (smear (smear ((num + u32_mod - 1) % u32_mod) 1) 2) 4) 8) 16 + 1) % u32_mod

abbrev pub default_size : ℕ
default_size = 1024

-- The size of the array for `size` entries at most; 0 is a queue without bound.
unfoldable pub array_size : ℕ → ℕ
array_size size =
    if size == 0 then default_size else if nextpow2 size == 0 then default_size else nextpow2 size

-- `circqueue_new`; the flag is whether the `calloc` of the structure succeeds.
unfoldable pub circqueue_new : Bool → (ℕ → Option (List ℕ)) → ℕ → Option Circqueue
circqueue_new false malloc size = none
circqueue_new true malloc size = elim (malloc (array_size size)) [
  | none ↦ none
  | some block ↦ some (record {
    head = 0;
    tail = 0;
    count = 0;
    max_entries = size;
    array_elements = array_size size;
    entries = block;
  })
]

-- `memcpy(&block[at], xs, …)`
unfoldable pub copy_to : List ℕ → ℕ → List ℕ → List ℕ
copy_to block at [] = block
copy_to block at (x ∷ xs) = copy_to (set block at x) (suc at) xs

-- How many entries stand from `head` to the end of the array or to `tail`, and before `head`.
unfoldable pub head_chunk : Circqueue → ℕ
head_chunk q = if ltb q.head q.tail then q.tail - q.head else q.array_elements - q.head

unfoldable pub tail_chunk : Circqueue → ℕ
tail_chunk q = if ltb q.head q.tail then 0 else q.tail

-- The new array: the entries from `head` to the end, then those before `tail`.
unfoldable pub grown : Circqueue → List ℕ → Circqueue
grown q block = record q {
  head = 0;
  tail = add32 (head_chunk q) (tail_chunk q);
  array_elements = q.array_elements * 2 % u32_mod;
  entries =
      copy_to (copy_to block 0 (take (head_chunk q) (drop q.head q.entries))) (head_chunk q)
        (take (tail_chunk q) q.entries);
}

-- `circqueue_grow`: `none` for -1.
unfoldable pub circqueue_grow : (ℕ → Option (List ℕ)) → Circqueue → Option Circqueue
circqueue_grow malloc q = elim (malloc (q.array_elements * 2 % u32_mod)) [
  | none ↦ none
  | some block ↦ some (grown q block)
]

-- The entry is written and the tail moves on, round the array.
unfoldable pub put_tail : Circqueue → ℕ → Circqueue
put_tail q elem = record q {
  count = add32 q.count 1;
  entries = set q.entries q.tail elem;
  tail = bit_and (add32 q.tail 1) (q.array_elements - 1);
}

-- `circqueue_push_tail`: the flag is a return of 0.
unfoldable pub circqueue_push_tail : (ℕ → Option (List ℕ)) → Circqueue → ℕ → Bool × Circqueue
circqueue_push_tail malloc q elem =
    if not (q.max_entries == 0)
    then (if q.count == q.max_entries then (false, q) else (true, put_tail q elem))
    else if q.count == q.array_elements
    then elim (circqueue_grow malloc q) [ none ↦ (false, q) | some q' ↦ (true, put_tail q' elem) ]
    else (true, put_tail q elem)

-- `circqueue_pop_head`: NULL is `none`.
unfoldable pub circqueue_pop_head : Circqueue → Option ℕ × Circqueue
circqueue_pop_head q = if q.count == 0 then (none, q) else (
  some (get_or q.entries q.head 0),
  record q { count = q.count - 1; head = bit_and (add32 q.head 1) (q.array_elements - 1) },
)
