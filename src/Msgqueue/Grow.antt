-- ===== src/Msgqueue/Grow.antt =====
-- `circqueue_grow` of spserver-master/spserver/event_msgqueue.c keeps the messages of a full queue.
use native.Mathlib.Nat.{mod-eq_of_lt, mod-add-mod, mod-lt, mod_self, add-mod_right, pow-suc}
use mathlib.Core.Path.{ap₂}
use reading_comment.Common.{
  ℕ, zero, suc, ◌+◌, ◌-◌, ◌*◌, ◌%◌, ◌^◌, ◌<◌, ◌≤◌, ◌≡◌, refl, ap, sym, ◌∙◌, arith, Option, some,
  List, [], ◌∷◌, ◌++◌, get_or, set, take, drop, length, length-set, length-take, add32, u32_mod,
}
use reading_comment.Msgqueue.{Circqueue, copy_to, head_chunk, tail_chunk, grown}
use reading_comment.Msgqueue.Ring.{IsValid, entries_from, contents}

take-drop-get_or :
    (es : List ℕ) (i n : ℕ)
    → i < length es
    → take (suc n) (drop i es) ≡ get_or es i 0 ∷ take n (drop (suc i) es)
take-drop-get_or [] i n h = absurd (omega arith)
take-drop-get_or (x ∷ es) zero n h = refl
take-drop-get_or (x ∷ es) (suc i) n h = take-drop-get_or es i n (omega arith)

-- Entries that do not go round are a part of the array.
entries_from-straight :
    (es : List ℕ) (size i n : ℕ)
    → size ≤ length es
    → i + n ≤ size
    → entries_from es size i n ≡ take n (drop i es)
entries_from-straight es size i zero s h = refl
entries_from-straight es size i (suc zero) s h = sym (take-drop-get_or es i zero (omega arith))
entries_from-straight es size i (suc (suc n)) s h =
    let next : (i + 1) % size ≡ suc i = mod-eq_of_lt (omega arith) ∙ omega arith in
    ap (λ l. get_or es i 0 ∷ l)
      (ap (λ k. entries_from es size k (suc n)) next
        ∙ entries_from-straight es size (suc i) (suc n) s (omega arith))
    ∙ sym (take-drop-get_or es i (suc n) (omega arith))

entries_from-append :
    (es : List ℕ) (size i a b : ℕ)
    → 0 < size
    → i < size
    → entries_from es size i (a + b)
      ≡ entries_from es size i a ++ entries_from es size ((i + a) % size) b
entries_from-append es size i zero b h k =
    ap (λ n. entries_from es size i n) (omega arith)
    ∙ ap (λ j. entries_from es size j b) (sym (ap (λ t. t % size) (omega arith) ∙ mod-eq_of_lt k))
entries_from-append es size i (suc a) b h k =
    let j = (i + 1) % size in
    let same : suc a + b ≡ suc (a + b) = omega arith in
    ap (λ n. entries_from es size i n) same
    ∙ ap (λ l. get_or es i 0 ∷ l)
        (entries_from-append es size j a b h (mod-lt (i + 1) h)
          ∙ ap (λ m. entries_from es size j a ++ entries_from es size m b)
              (mod-add-mod (i + 1) size a ∙ ap (λ t. t % size) (omega arith)))

copy_to-suc : (b at : ℕ) (bs xs : List ℕ) → copy_to (b ∷ bs) (suc at) xs ≡ b ∷ copy_to bs at xs
unfolding copy_to
copy_to-suc b at bs [] = refl
copy_to-suc b at bs (x ∷ xs) = copy_to-suc b (suc at) (set bs at x) xs

length-copy_to : (bs xs : List ℕ) (at : ℕ) → length (copy_to bs at xs) ≡ length bs
unfolding copy_to
length-copy_to bs [] at = refl
length-copy_to bs (x ∷ xs) at = length-copy_to (set bs at x) xs (suc at) ∙ length-set bs at x

-- What `memcpy` leaves, up to the end of the copy: the front as it was, then the copy.
take-copy_to :
    (n at : ℕ) (bs xs : List ℕ)
    → n ≡ at + length xs
    → n ≤ length bs
    → take n (copy_to bs at xs) ≡ take at bs ++ xs
unfolding copy_to
take-copy_to zero zero bs [] e h = refl
take-copy_to zero zero bs (x ∷ xs) e h = absurd (omega arith)
take-copy_to zero (suc at) bs xs e h = absurd (omega arith)
take-copy_to (suc n) at [] xs e h = absurd (omega arith)
take-copy_to (suc n) zero (b ∷ bs) [] e h = absurd (omega arith)
take-copy_to (suc n) zero (b ∷ bs) (x ∷ xs) e h =
    ap (take (suc n)) (copy_to-suc x zero bs xs)
    ∙ ap (λ l. x ∷ l) (take-copy_to n zero bs xs (omega arith) (omega arith))
take-copy_to (suc n) (suc at) (b ∷ bs) xs e h =
    ap (take (suc n)) (copy_to-suc b at bs xs)
    ∙ ap (λ l. b ∷ l) (take-copy_to n at bs xs (omega arith) (omega arith))

take-all : (n : ℕ) (xs : List ℕ) → length xs ≤ n → take n xs ≡ xs
take-all zero [] h = refl
take-all (suc n) [] h = refl
take-all zero (x ∷ xs) h = absurd (omega arith)
take-all (suc n) (x ∷ xs) h = ap (λ l. x ∷ l) (take-all n xs (omega arith))

length-drop : (n : ℕ) (xs : List ℕ) → length (drop n xs) ≡ length xs - n
length-drop zero xs = omega arith
length-drop (suc n) [] = omega arith
length-drop (suc n) (x ∷ xs) = omega (arith, length-drop n xs)

-- A full queue is the end of the array and then its front.
contents-full :
    {q : Circqueue}
    → IsValid q
    → q.count ≡ q.array_elements
    → contents q ≡ take (q.array_elements - q.head) (drop q.head q.entries) ++ take q.head q.entries
contents-full {q} v full =
    let es = q.entries in
    let size = q.array_elements in
    let h = q.head in
    let whole : q.count ≡ (size - h) + h = omega (arith, v.head_in) in
    let back : (h + (size - h)) % size ≡ 0 =
      ap (λ t. t % size) (omega (arith, v.head_in)) ∙ mod_self size in
    ap (λ n. entries_from es size h n) whole
    ∙ entries_from-append es size h (size - h) h (omega (arith, v.head_in)) v.head_in
    ∙ ap₂ ◌++◌
        (entries_from-straight es size h (size - h) (omega (arith, v.storage))
          (omega (arith, v.head_in)))
        (ap (λ t. entries_from es size t h) back
          ∙ entries_from-straight es size 0 h (omega (arith, v.storage)) (omega (arith, v.head_in)))

-- What `malloc` promises: a block of the length that was asked for.
abbrev pub Allocates : (ℕ → Option (List ℕ)) → Type 0
Allocates malloc = (n : ℕ) (block : List ℕ) → malloc n ≡ some block → length block ≡ n

-- A full queue's `tail` has come round to its `head`.
full-tail : {q : Circqueue} → IsValid q → q.count ≡ q.array_elements → q.tail ≡ q.head
full-tail {q} v full =
    let size = q.array_elements in
    v.tail_at
    ∙ ap (λ n. (q.head + n) % size) full
    ∙ add-mod_right q.head size
    ∙ mod-eq_of_lt v.head_in

-- The array after `circqueue_grow` begins with the messages in order.
grown-front :
    {q : Circqueue} (v : IsValid q) (block : List ℕ)
    → q.count ≡ q.array_elements
    → length block ≡ q.array_elements * 2
    → take q.array_elements (
        copy_to
          (copy_to block 0 (take (q.array_elements - q.head) (drop q.head q.entries)))
          (q.array_elements - q.head)
          (take q.head q.entries))
      ≡ contents q
grown-front {q} v block full len =
    let size = q.array_elements in
    let h = q.head in
    let front = take (size - h) (drop h q.entries) in
    let back = take h q.entries in
    let front_length : length front ≡ size - h =
      omega
        (arith, length-take (size - h) (drop h q.entries), length-drop h q.entries, v.storage) in
    let back_length : length back ≡ h =
      omega (arith, length-take h q.entries, v.storage, v.head_in) in
    let inner = copy_to block 0 front in
    take-copy_to size (size - h) inner back (omega (arith, back_length, v.head_in))
      (omega (arith, length-copy_to block front 0, len))
    ∙ ap (λ l. l ++ back)
        (take-copy_to (size - h) 0 block front (omega (arith, front_length)) (omega (arith, len)))
    ∙ sym (contents-full v full)

module _ {q : Circqueue} (v : IsValid q) (block : List ℕ) (unbounded : q.max_entries ≡ 0)
    (full : q.count ≡ q.array_elements) (small : q.array_elements ≤ 2 ^ 30)
    (len : length block ≡ q.array_elements * 2) where
  -- The two chunks are the array from `head` on and before it.
  chunks : (head_chunk q ≡ q.array_elements - q.head) × (tail_chunk q ≡ q.head)
  unfolding head_chunk tail_chunk
  chunks = ground (arith, full-tail v full)

  same_entries :
      (grown q block).entries
      ≡ copy_to
          (copy_to block 0 (take (q.array_elements - q.head) (drop q.head q.entries)))
          (q.array_elements - q.head)
          (take q.head q.entries)
  unfolding grown
  same_entries = rw (chunks.0, chunks.1) refl

  pub twice : q.array_elements * 2 % u32_mod ≡ q.array_elements * 2
  twice = omega arith

  length-grown : length (grown q block).entries ≡ q.array_elements * 2
  length-grown =
      ap length same_entries
      ∙ length-copy_to _ (take q.head q.entries) (q.array_elements - q.head)
      ∙ length-copy_to block _ 0
      ∙ len

  pub grown-contents : contents (grown q block) ≡ contents q
  unfolding grown
  grown-contents =
      ap (λ n. entries_from (grown q block).entries (q.array_elements * 2 % u32_mod) 0 n) full
      ∙ ap (λ n. entries_from (grown q block).entries n 0 q.array_elements) twice
      ∙ entries_from-straight (grown q block).entries (q.array_elements * 2) 0 q.array_elements
          (omega (arith, length-grown)) (omega arith)
      ∙ ap (take q.array_elements) same_entries
      ∙ grown-front v block full len

  sum : add32 (head_chunk q) (tail_chunk q) ≡ q.array_elements
  sum = omega (arith, chunks.0, chunks.1, v.head_in)

  pub grown-IsValid : IsValid (grown q block)
  unfolding grown
  grown-IsValid = record {
    bits = suc v.bits;
    power = twice ∙ omega (arith, v.power, pow-suc 2 v.bits);
    small = omega (arith, twice);
    storage = omega (arith, length-grown, twice);
    head_in = omega (arith, twice, v.head_in);
    tail_at =
        sum
        ∙ sym (
            ap (λ n. (0 + q.count) % n) twice
            ∙ mod-eq_of_lt (omega (arith, v.head_in))
            ∙ omega arith);
    count_in = omega (arith, twice);
    bounded = λ m. absurd (m unbounded);
    limit = λ m. absurd (m unbounded);
  }
