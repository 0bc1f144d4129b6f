-- ===== src/Msgqueue/Ring.antt =====
-- The circular queue of event_msgqueue.c (spserver-master/spserver) holds a sequence.
use native.Mathlib.Nat.{mod-eq_of_lt, mod-add-mod, mod-eq-sub-mod, mod-lt}
use mathlib.Core.Path.{ap₂}
use native.Mathlib.Decide.{dec_lt}
use Prim.Native.Nat.{bit_and}
use reading_comment.Common.{
  ℕ, zero, suc, ◌+◌, ◌-◌, ◌%◌, ◌^◌, ◌<◌, ◌≤◌, ◌≡◌, ◌≢◌, refl, ap, ◌∙◌, arith, List, [], ◌∷◌, ◌++◌,
  get_or, set, length, length-set, get_or-set_self, get_or-set_ne, add32,
}
use reading_comment.Common.Bits.{bit_and-mask}
use reading_comment.Msgqueue.{Circqueue, put_tail}

-- The array is a power of two, below 2^31, and each index is in it.
pub record IsValid (q : Circqueue) : Type 0 where
  pub bits : ℕ
  pub power : q.array_elements ≡ 2 ^ bits
  pub small : q.array_elements ≤ 2 ^ 31
  pub storage : length q.entries ≡ q.array_elements
  pub head_in : q.head < q.array_elements
  pub tail_at : q.tail ≡ (q.head + q.count) % q.array_elements
  pub count_in : q.count ≤ q.array_elements
  pub bounded : q.max_entries ≢ 0 → q.max_entries ≤ q.array_elements
  pub limit : q.max_entries ≢ 0 → q.count ≤ q.max_entries

-- `n` entries from index `i` on, round an array of `size`.
abbrev pub entries_from : List ℕ → ℕ → ℕ → ℕ → List ℕ
entries_from es size i zero = []
entries_from es size i (suc n) = get_or es i 0 ∷ entries_from es size ((i + 1) % size) n

-- The queue's messages, the oldest first.
abbrev pub contents : Circqueue → List ℕ
contents q = entries_from q.entries q.array_elements q.head q.count

pub next_index :
    {q : Circqueue} (v : IsValid q) (i : ℕ)
    → i < q.array_elements
    → bit_and (add32 i 1) (q.array_elements - 1) ≡ (i + 1) % q.array_elements
next_index {q} v i h =
    let plain : add32 i 1 ≡ i + 1 = omega arith in rw (plain, v.power) (bit_and-mask v.bits (i + 1))

-- Fewer steps than the array is long do not lead back.
away : (size h k : ℕ) → h < size → 0 < k → k < size → (h + k) % size ≢ h
away size h k a b c = elim (dec_lt (h + k) size) [
  | yes below ↦ omega (arith, mod-eq_of_lt below)
  | no past ↦ omega (
    arith,
    mod-eq-sub-mod {n = h + k} {m = size} (omega arith),
    mod-eq_of_lt {n = h + k - size} {m = size} (omega arith),
  )
]

-- An entry written behind the last one becomes the last.
entries_from-put :
    (es : List ℕ) (size x n h : ℕ)
    → size ≤ length es
    → h < size
    → n < size
    → entries_from (set es ((h + n) % size) x) size h (suc n) ≡ entries_from es size h n ++ (x ∷ [])
entries_from-put es size x zero h s a b =
    let here : (h + 0) % size ≡ h = ap (λ k. k % size) (omega arith) ∙ mod-eq_of_lt a in
    rw (here, get_or-set_self es h x 0 (omega arith)) refl
entries_from-put es size x (suc n) h s a b =
    let apart = away size h (suc n) a (omega arith) b in
    let shift : (h + suc n) % size ≡ ((h + 1) % size + n) % size =
      rw (mod-add-mod) (ap (λ k. k % size) (omega arith)) in
    let i = (h + 1) % size in
    ap₂ ◌∷◌ (get_or-set_ne es x 0 apart) (
      ap (λ t. entries_from (set es t x) size i (suc n)) shift
      ∙ entries_from-put es size x n i s (mod-lt (h + 1) (omega arith)) (omega arith))

-- One entry in front of the others.
pub entries_from-pop :
    (es : List ℕ) (size h n : ℕ)
    → n ≢ 0
    → entries_from es size h n ≡ get_or es h 0 ∷ entries_from es size ((h + 1) % size) (n - 1)
entries_from-pop es size h zero p = absurd (p refl)
entries_from-pop es size h (suc n) p = ap (λ k. entries_from es size h (suc k)) (omega arith)

-- `put_tail` on a queue with a free place appends, and keeps the invariant.
pub put_tail-contents :
    {q : Circqueue} (v : IsValid q) (x : ℕ)
    → q.count < q.array_elements
    → contents (put_tail q x) ≡ contents q ++ (x ∷ [])
unfolding put_tail
put_tail-contents {q} v x h =
    let plain : add32 q.count 1 ≡ suc q.count = omega arith in
    let size = q.array_elements in
    let moved = ap (λ t. entries_from (set q.entries t x) size q.head (suc q.count)) v.tail_at in
    rw plain (
      moved
      ∙ entries_from-put q.entries size x q.count q.head (omega (arith, v.storage)) v.head_in h)

pub put_tail-IsValid :
    {q : Circqueue} (v : IsValid q) (x : ℕ)
    → q.count < q.array_elements
    → (q.max_entries ≢ 0 → q.count < q.max_entries)
    → IsValid (put_tail q x)
unfolding put_tail
put_tail-IsValid {q} v x h room =
    let size = q.array_elements in
    let tail_in : q.tail < size = rw v.tail_at (mod-lt (q.head + q.count) (omega arith)) in
    record {
      bits = v.bits;
      power = v.power;
      small = v.small;
      storage = length-set q.entries q.tail x ∙ v.storage;
      head_in = v.head_in;
      tail_at =
          next_index v q.tail tail_in
          ∙ ap (λ t. (t + 1) % size) v.tail_at
          ∙ mod-add-mod (q.head + q.count) size 1
          ∙ ap (λ t. t % size) (omega arith);
      count_in = omega arith;
      bounded = v.bounded;
      limit = λ m. omega (arith, room m);
    }
