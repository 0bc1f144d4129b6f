-- ===== src/Klist/Sort/Selection.antt =====
-- `ssort` of ovlfs-2.0.1/lists/kernel_lists.c sorts.
use mathlib.Core.List.{Perm}
use mathlib.Core.List.Perm
use native.Mathlib.Decide.{ℕ_discrete}
use reading_comment.Common.{
  ℕ, zero, suc, ◌+◌, ◌-◌, ◌≤◌, ◌<◌, ◌≡◌, ◌≢◌, refl, ◌∙◌, false, List, [], ◌∷◌, ◌==◌, length, get_or,
  set, length-set, get_or-set_self, get_or-set_ne, arith, if◌then◌else◌, Bool-cases, inl, inr,
}
use reading_comment.Common.Strings.{is_above}
use reading_comment.Klist.{Comparison}
use reading_comment.Klist.Order.{IsComparison, IsOrdered, not_above_self}
use reading_comment.Klist.Sort.{swap_bytes, smallest_from, select, ssort_from, ssort}

length-swap_bytes : (l : List ℕ) (i j : ℕ) → length (swap_bytes l i j) ≡ length l
length-swap_bytes l i j =
    length-set (set l i (get_or l j 0)) j (get_or l i 0) ∙ length-set l i (get_or l j 0)

get_or-swap_bytes :
    (l : List ℕ) (i j k : ℕ)
    → i < length l
    → j < length l
    → get_or (swap_bytes l i j) k 0
      ≡ (if k == j then get_or l i 0 else if k == i then get_or l j 0 else get_or l k 0)
get_or-swap_bytes l i j k h m =
    let first = set l i (get_or l j 0) in
    elim (ℕ_discrete j k) [
      | yes e ↦
          ground (arith, get_or-set_self first j (get_or l i 0) 0, length-set l i (get_or l j 0))
      | no d ↦ get_or-set_ne first (get_or l i 0) 0 d ∙ elim (ℕ_discrete i k) [
        | yes e ↦ ground (arith, get_or-set_self l i (get_or l j 0) 0)
        | no f ↦ ground (arith, get_or-set_ne l (get_or l j 0) 0 f)
      ]
    ]

Perm-set : (x : ℕ) (l : List ℕ) (j : ℕ) → j < length l → Perm (get_or l j 0 ∷ set l j x) (x ∷ l)
Perm-set x [] j h = absurd (omega arith)
Perm-set x (y ∷ l) zero h = Perm.swap x y l
Perm-set x (y ∷ l) (suc j) h =
    Perm.trans (Perm.swap y _ (set l j x))
      (Perm.trans (Perm.cons y (Perm-set x l j (omega arith))) (Perm.swap x y l))

Perm-swap_bytes : (l : List ℕ) (i j : ℕ) → i < j → j < length l → Perm (swap_bytes l i j) l
Perm-swap_bytes [] i j h m = absurd (omega arith)
Perm-swap_bytes (x ∷ l) zero zero h m = absurd (omega arith)
Perm-swap_bytes (x ∷ l) zero (suc j) h m = Perm-set x l j (omega arith)
Perm-swap_bytes (x ∷ l) (suc i) zero h m = absurd (omega arith)
Perm-swap_bytes (x ∷ l) (suc i) (suc j) h m =
    Perm.cons x (Perm-swap_bytes l i j (omega arith) (omega arith))

module _ (compare : Comparison) (v : IsComparison compare) where
  -- `p` is in [from, length l), and none of the elements in [from, end) is before the one at `p`.
  abbrev IsLeast : List ℕ → ℕ → ℕ → ℕ → Type 0
  IsLeast l from end p =
      (from ≤ p)
      × (p < length l)
      × ((k : ℕ) → from ≤ k → k < end → is_above (compare (get_or l p 0) (get_or l k 0)) ≡ false)

  next-IsLeast :
      (l : List ℕ) (from p cur : ℕ)
      → from ≤ cur
      → cur < length l
      → IsLeast l from cur p
      → IsLeast l from
          (cur + 1)
          (if is_above (compare (get_or l p 0) (get_or l cur 0)) then cur else p)
  next-IsLeast l from p cur h k (a, b, c) =
      elim (Bool-cases (is_above (compare (get_or l p 0) (get_or l cur 0)))) [
        | inl y ↦ rw y (
          h,
          k,
          λ i m n. elim (ℕ_discrete i cur) [
            | yes e ↦ rw e (not_above_self compare v (get_or l cur 0))
            | no d ↦
                v.trans (get_or l cur 0) (get_or l p 0) (get_or l i 0)
                  (ground (arith, v.flip (get_or l p 0) (get_or l cur 0))) (c i m (omega arith))
          ],
        )
        | inr n ↦
            rw n (
              a,
              b,
              λ i m o. elim (ℕ_discrete i cur) [ yes e ↦ rw e n | no d ↦ c i m (omega arith) ],
            )
      ]

  smallest_from-IsLeast :
      (n : ℕ) (l : List ℕ) (from p cur : ℕ)
      → from ≤ cur
      → cur + n ≡ length l
      → IsLeast l from cur p
      → IsLeast l from (length l) (smallest_from compare n l p cur)
  unfolding smallest_from
  smallest_from-IsLeast zero l from p cur h k (a, b, c) = (a, b, λ i m n. c i m (omega arith))
  smallest_from-IsLeast (suc n) l from p cur h k m =
      smallest_from-IsLeast n l from _ (cur + 1) (omega arith) (omega arith)
        (next-IsLeast l from p cur h (omega arith) m)

  -- The elements in front of `pos` are in order, and none behind them is before one of them.
  abbrev IsOrderedTo : ℕ → List ℕ → Type 0
  IsOrderedTo pos l =
      (i j : ℕ)
      → i < pos
      → i < j
      → j < length l
      → is_above (compare (get_or l i 0) (get_or l j 0)) ≡ false

  IsOrderedTo-swap_bytes :
      (pos p : ℕ) (l : List ℕ)
      → IsLeast l pos (length l) p
      → p ≢ pos
      → IsOrderedTo pos l
      → IsOrderedTo (pos + 1) (swap_bytes l pos p)
  IsOrderedTo-swap_bytes pos p l (a, b, c) d h i j k m n =
      let bound = length-swap_bytes l pos p in
      let inside : j < length l = omega (arith, bound) in
      ground (
        arith,
        d,
        get_or-swap_bytes l pos p i (omega arith) b,
        get_or-swap_bytes l pos p j (omega arith) b,
        c pos,
        c j,
        h i pos,
        h i p,
        h i j,
      )

  -- What a round of the outer loop leaves.
  abbrev Selected : ℕ → List ℕ → List ℕ → Type 0
  Selected pos l l' = IsOrderedTo (pos + 1) l' × Perm l' l × (length l' ≡ length l)

  swapped :
      (pos p : ℕ) (l : List ℕ)
      → IsLeast l pos (length l) p
      → IsOrderedTo pos l
      → Selected pos l (if p == pos then l else swap_bytes l pos p)
  swapped pos p l (a, b, c) h = elim (Bool-cases (p == pos)) [
    | inl y ↦ rw y (
      (λ i j k m n. elim (ℕ_discrete i pos) [
        | yes e ↦ ground (arith, c j)
        | no d ↦ h i j (omega arith) m n
      ]),
      Perm.refl l,
      refl,
    )
    | inr n ↦ rw n (
      IsOrderedTo-swap_bytes pos p l (a, b, c) (ground arith) h,
      Perm-swap_bytes l pos p (ground arith) b,
      length-swap_bytes l pos p,
    )
  ]

  select-Selected :
      (pos : ℕ) (l : List ℕ)
      → pos < length l
      → IsOrderedTo pos l
      → Selected pos l (select compare pos l)
  unfolding select
  select-Selected pos l inside h =
      swapped pos _ l
        (smallest_from-IsLeast (length l - (pos + 1)) l pos pos (pos + 1) (omega arith)
          (omega arith)
          (
            omega arith,
            inside,
            λ i m n.
                let e : i ≡ pos = omega arith in rw e (not_above_self compare v (get_or l pos 0)),
          ))
        h

  ssort_from-IsOrderedTo :
      (n pos : ℕ) (l : List ℕ)
      → pos + n ≤ length l
      → IsOrderedTo pos l
      → IsOrderedTo (pos + n) (ssort_from compare n pos l)
        × Perm (ssort_from compare n pos l) l
        × (length (ssort_from compare n pos l) ≡ length l)
  unfolding ssort_from
  ssort_from-IsOrderedTo zero pos l h k = (λ i j m. k i j (omega arith), Perm.refl l, refl)
  ssort_from-IsOrderedTo (suc n) pos l h k =
      let (o, perm, e) = select-Selected pos l (omega arith) k in
      let (o', perm', e') =
        ssort_from-IsOrderedTo n (pos + 1) (select compare pos l) (omega (arith, e)) o in
      (λ i j m. o' i j (omega arith), Perm.trans perm' perm, e' ∙ e)

  -- For a comparison that is an order, ssort returns the same pointers, as many times each, in an order
  -- in which none is after one behind it.
  pub ssort-IsOrdered :
      (l : List ℕ)
      → IsOrdered compare (ssort compare l)
        × Perm (ssort compare l) l
        × (length (ssort compare l) ≡ length l)
  unfolding ssort
  ssort-IsOrdered l =
      let (o, perm, e) =
        ssort_from-IsOrderedTo (length l - 1) 0 l (omega arith) (λ i j h. absurd (omega arith)) in
      (λ i j h k. o i j (omega (arith, e)) h k, perm, e)
