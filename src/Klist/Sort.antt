-- ===== src/Klist/Sort.antt =====
-- The sort and the searches by halving of ovlfs-2.0.1/lists/kernel_lists.c, on an array of pointers.
-- The count of elements that goes with an array is its length.
pub mod Selection
pub mod Halving
pub mod Insertion
use reading_comment.Common.{
  ℕ, zero, suc, ◌+◌, ◌-◌, ◌/◌, Bool, true, false, not, ◌&&◌, ◌||◌, Option, none, some, List, ltb,
  ◌==◌, length, get_or, set, if◌then◌else◌,
}
use reading_comment.Common.Strings.{Sign, below, equal, above, is_above}
use reading_comment.Klist.{Comparison}

-- `swap_bytes` of the elements at `i` and `j`
abbrev pub swap_bytes : List ℕ → ℕ → ℕ → List ℕ
swap_bytes l i j = set (set l i (get_or l j 0)) j (get_or l i 0)

module _ (compar : Comparison) where
  -- The loop over `cur`, with that many elements to go.
  unfoldable pub smallest_from : ℕ → List ℕ → ℕ → ℕ → ℕ
  smallest_from zero l smallest cur = smallest
  smallest_from (suc n) l smallest cur =
      smallest_from n l
        (if is_above (compar (get_or l smallest 0) (get_or l cur 0)) then cur else smallest)
        (cur + 1)

  -- The round of `ssort` at `pos`
  unfoldable pub select : ℕ → List ℕ → List ℕ
  select pos l =
      let smallest = smallest_from (length l - (pos + 1)) l pos (pos + 1) in
      if smallest == pos then l else swap_bytes l pos smallest

  -- The loop over `pos`, with that many rounds to go.
  unfoldable pub ssort_from : ℕ → ℕ → List ℕ → List ℕ
  ssort_from zero pos l = l
  ssort_from (suc n) pos l = ssort_from n (pos + 1) (select pos l)

  -- `ssort` of an array of pointers, `length l` of them.
  unfoldable pub ssort : List ℕ → List ℕ
  ssort l = ssort_from (length l - 1) 0 l

abbrev pub is_equal : Sign → Bool
is_equal equal = true
is_equal _ = false

abbrev pub next_low : Sign → ℕ → ℕ → ℕ
next_low above low cur = cur + 1
next_low _ low cur = low

abbrev pub next_end : Sign → ℕ → ℕ → ℕ
next_end below end cur = cur
next_end _ end cur = end

-- The `do` loop that `bsearch` and `__find_insert_pos` share, where `f` is the comparison with what is
-- looked for: the last `cur`, and what the comparison there returned. `end` is `high + 1`, and `fuel`
-- bounds the rounds.
unfoldable pub halve : ℕ → (ℕ → Sign) → ℕ → ℕ → ℕ × Sign
halve zero f low end = (0, equal)
halve (suc fuel) f low end =
    let cur = (low + end - 1) / 2 in
    let rest = halve fuel f (next_low (f cur) low cur) (next_end (f cur) end cur) in
    if not (is_equal (f cur)) && ltb (next_low (f cur) low cur) (next_end (f cur) end cur)
    then rest
    else (cur, f cur)

-- The comparison with the element at each index
abbrev pub signs : Comparison → ℕ → List ℕ → ℕ → Sign
signs compar value l i = compar value (get_or l i 0)

abbrev pub if_equal : ℕ × Sign → Option ℕ
if_equal (cur, equal) = some cur
if_equal _ = none

-- `bsearch`: the index of what it returns. An array without elements stands for the null pointer too.
unfoldable pub bsearch : Comparison → ℕ → List ℕ → Option ℕ
bsearch compar value l =
    if length l == 0
    then none
    else if_equal (halve (suc (length l)) (signs compar value l) 0 (length l))

abbrev pub goes_to : ℕ × Sign → ℕ
goes_to (cur, above) = cur + 1
goes_to (cur, _) = cur

-- `__find_insert_pos`, for a list of `n` elements
unfoldable pub find_insert_pos : ℕ → ℕ → Comparison → List ℕ → ℕ
find_insert_pos n new_data comp_cb l = goes_to (halve (suc n) (signs comp_cb new_data l) 0 n)
