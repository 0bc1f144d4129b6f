-- ===== src/Klist/Sort/Halving.antt =====
-- The searches by halving of ovlfs-2.0.1/lists/kernel_lists.c find what they look for.
use native.Mathlib.Decide.{ℕ_discrete}
use reading_comment.Common.{
  ℕ, zero, suc, ◌+◌, ◌-◌, ◌/◌, ◌≤◌, ◌<◌, ◌≡◌, ◌≢◌, refl, sym, false, List, ltb, ◌==◌, length, not,
  ◌&&◌, get_or, arith, Bool-cases, inl, inr, Option, none, some,
}
use reading_comment.Common.Strings.{Sign, below, equal, above, is_above}
use reading_comment.Klist.{Comparison}
use reading_comment.Klist.Order.{IsOrdered, IsSearch}
use reading_comment.Klist.Sort.{
  halve, next_low, next_end, signs, bsearch, if_equal, goes_to, is_equal,
}

-- Of `n` places, those in front of `p` are before what is looked for, and the others after it.
abbrev pub Divides : (ℕ → Sign) → ℕ → ℕ → Type 0
Divides f n p = (p ≤ n) × ((i : ℕ) → i < p → f i ≡ above) × ((i : ℕ) → p ≤ i → i < n → f i ≡ below)

-- What the loop finds: an equal element, or where it would stand.
abbrev pub Located : (ℕ → Sign) → ℕ → ℕ × Sign → Type 0
Located f n (cur, below) = Divides f n cur
Located f n (cur, above) = Divides f n (cur + 1)
Located f n (cur, equal) = (cur < n) × (f cur ≡ equal)

-- The signs fall from `above` to `below`.
pub record Falls (f : ℕ → Sign) (n : ℕ) : Type 0 where
  pub after : (i j : ℕ) → i ≤ j → j < n → f j ≡ above → f i ≡ above
  pub before : (i j : ℕ) → i ≤ j → j < n → f i ≡ below → f j ≡ below

record Narrowed (f : ℕ → Sign) (n low end : ℕ) : Type 0 where
  inside : end ≤ n
  ordered : low ≤ end
  front : (i : ℕ) → i < low → f i ≡ above
  behind : (i : ℕ) → end ≤ i → i < n → f i ≡ below

module _ (f : ℕ → Sign) (n : ℕ) (falls : Falls f n) where
  narrowed :
      {low end : ℕ} (cur : ℕ)
      → low ≤ cur
      → cur < end
      → Narrowed f n low end
      → Narrowed f n (next_low (f cur) low cur) (next_end (f cur) end cur)
  narrowed cur h k v = record {
    inside = ground (arith, v.inside);
    ordered = ground (arith, v.ordered);
    front = λ i m. ground (arith, v.front i, v.inside, falls.after i cur);
    behind = λ i m o. ground (arith, v.behind i, v.inside, falls.before cur i);
  }

  finished :
      {low end : ℕ} (cur : ℕ) (s : Sign)
      → f cur ≡ s
      → low ≤ cur
      → cur < end
      → end ≤ n
      → (not (is_equal s) && ltb (next_low s low cur) (next_end s end cur)) ≡ false
      → Narrowed f n (next_low s low cur) (next_end s end cur)
      → Located f n (cur, s)
  finished cur below e h k m o v = (omega arith, λ i p. v.front i (ground arith), v.behind)
  finished cur equal e h k m o v = (omega arith, e)
  finished cur above e h k m o v = (omega arith, v.front, λ i p q. v.behind i (ground arith) q)

  halve-Located :
      (fuel low end : ℕ)
      → end - low < fuel
      → low < end
      → Narrowed f n low end
      → Located f n (halve fuel f low end)
  unfolding halve
  halve-Located zero low end h k v = absurd (omega arith)
  halve-Located (suc fuel) low end h k v =
      let cur = (low + end - 1) / 2 in
      let next = narrowed cur (omega arith) (omega arith) v in
      let low' = next_low (f cur) low cur in
      let end' = next_end (f cur) end cur in
      elim (Bool-cases (not (is_equal (f cur)) && ltb low' end')) [
        | inl y ↦ rw y (halve-Located fuel low' end' (ground arith) (ground arith) next)
        | inr o ↦ rw o (finished cur (f cur) refl (omega arith) (omega arith) v.inside o next)
      ]

module _ (compare search : Comparison) (v : IsSearch compare search) (l : List ℕ)
    (ordered : IsOrdered compare l) (value : ℕ) where
  pub signs-Falls : Falls (signs search value l) (length l)
  signs-Falls = record {
    after = λ i j h k m. elim (ℕ_discrete i j) [
      | yes e ↦ rw e m
      | no d ↦ v.after value (get_or l i 0) (get_or l j 0) (ordered i j (omega arith) k) m
    ];
    before = λ i j h k m. elim (ℕ_discrete i j) [
      | yes e ↦ rw (sym e) m
      | no d ↦ v.before value (get_or l i 0) (get_or l j 0) (ordered i j (omega arith) k) m
    ];
  }

  pub located :
      0 < length l
      → Located
          (signs search value l)
          (length l)
          (halve (suc (length l)) (signs search value l) 0 (length l))
  located h =
      halve-Located (signs search value l) (length l) signs-Falls (suc (length l)) 0 (length l)
        (omega arith) h
        (record {
          inside = omega arith;
          ordered = omega arith;
          front = λ i k. absurd (omega arith);
          behind = λ i k m. absurd (omega arith);
        })

-- The result of a search: an index with an equal element, or none if no element is equal.
abbrev pub IsFound : (ℕ → Sign) → ℕ → Option ℕ → Type 0
IsFound f n (some i) = (i < n) × (f i ≡ equal)
IsFound f n none = (i : ℕ) → i < n → f i ≢ equal

if_equal-IsFound : (f : ℕ → Sign) (n : ℕ) (r : ℕ × Sign) → Located f n r → IsFound f n (if_equal r)
if_equal-IsFound f n (cur, below) (a, b, c) = λ i h e. ground (arith, b i, c i)
if_equal-IsFound f n (cur, equal) h = h
if_equal-IsFound f n (cur, above) (a, b, c) = λ i h e. ground (arith, b i, c i)

-- Where the element of the place can be inserted: what is in front is not after it, what is behind is
-- not before it.
pub goes_to-Fits :
    (f : ℕ → Sign) (n : ℕ) (r : ℕ × Sign)
    → Falls f n
    → Located f n r
    → (goes_to r ≤ n)
      × ((i : ℕ) → i < goes_to r → f i ≢ below)
      × ((i : ℕ) → goes_to r ≤ i → i < n → is_above (f i) ≡ false)
goes_to-Fits f n (cur, below) v (a, b, c) =
    (a, λ i h e. ground (arith, b i), λ i h k. ground (arith, c i))
goes_to-Fits f n (cur, equal) v (a, b) =
    (omega arith, λ i h e. ground (arith, v.before i cur), λ i h k. ground (arith, v.after cur i))
goes_to-Fits f n (cur, above) v (a, b, c) =
    (a, λ i h e. ground (arith, b i), λ i h k. ground (arith, c i))

module _ (compare search : Comparison) (v : IsSearch compare search) (l : List ℕ)
    (ordered : IsOrdered compare l) (value : ℕ) where
  -- On an array in the order of a comparison, and for a search that agrees with that order, bsearch ends
  -- and returns a place whose element is equal to the value; if it returns none, no element is equal.
  pub bsearch-IsFound : IsFound (signs search value l) (length l) (bsearch search value l)
  unfolding bsearch
  bsearch-IsFound = elim (Bool-cases (length l == 0)) [
    | inl y ↦ rw y (λ i h. absurd (ground arith))
    | inr n ↦ rw n (
        if_equal-IsFound (signs search value l) (length l) _
          (located compare search v l ordered value (ground arith)))
  ]
