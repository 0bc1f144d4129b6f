-- ===== src/Klist/Sort/Insertion.antt =====
-- An element put into an array at the place that `__find_insert_pos` of
-- ovlfs-2.0.1/lists/kernel_lists.c finds.
use mathlib.Core.List.{Perm}
use mathlib.Core.List.Perm
use reading_comment.Common.{
  ℕ, zero, suc, ◌-◌, ◌≤◌, ◌<◌, ◌≡◌, refl, ap, false, List, [], ◌∷◌, ◌++◌, ltb, ◌==◌, length, get_or,
  take, drop, arith, if◌then◌else◌,
}
use reading_comment.Common.Strings.{is_above}
use reading_comment.Klist.{Comparison}
use reading_comment.Klist.Order.{IsComparison, IsOrdered, IsComparison-IsSearch}
use reading_comment.Klist.Sort.{find_insert_pos, signs}
use reading_comment.Klist.Sort.Halving.{signs-Falls, located, goes_to-Fits}

abbrev pub inserted : List ℕ → ℕ → ℕ → List ℕ
inserted l pos x = take pos l ++ (x ∷ drop pos l)

pub length-inserted : (l : List ℕ) (pos x : ℕ) → length (inserted l pos x) ≡ suc (length l)
length-inserted l zero x = refl
length-inserted [] (suc pos) x = refl
length-inserted (y ∷ l) (suc pos) x = ap suc (length-inserted l pos x)

get_or-inserted :
    (l : List ℕ) (pos x i : ℕ)
    → pos ≤ length l
    → get_or (inserted l pos x) i 0
      ≡ (if ltb i pos then get_or l i 0 else if i == pos then x else get_or l (i - 1) 0)
get_or-inserted l zero x zero h = refl
get_or-inserted l zero x (suc i) h = ground arith
get_or-inserted [] (suc pos) x i h = absurd (omega arith)
get_or-inserted (y ∷ l) (suc pos) x zero h = ground arith
get_or-inserted (y ∷ l) (suc pos) x (suc zero) h = ground (arith, get_or-inserted l pos x 0)
get_or-inserted (y ∷ l) (suc pos) x (suc (suc i)) h =
    ground (arith, get_or-inserted l pos x (suc i))

pub Perm-inserted : (l : List ℕ) (pos x : ℕ) → Perm (inserted l pos x) (x ∷ l)
Perm-inserted l zero x = Perm.refl (x ∷ l)
Perm-inserted [] (suc pos) x = Perm.refl (x ∷ [])
Perm-inserted (y ∷ l) (suc pos) x =
    Perm.trans (Perm.cons y (Perm-inserted l pos x)) (Perm.swap x y l)

module _ (compare : Comparison) (v : IsComparison compare) (l : List ℕ)
    (ordered : IsOrdered compare l) (x : ℕ) where
  inserted-IsOrdered :
      (pos : ℕ)
      → pos ≤ length l
      → ((i : ℕ) → i < pos → is_above (compare (get_or l i 0) x) ≡ false)
      → ((i : ℕ) → pos ≤ i → i < length l → is_above (compare x (get_or l i 0)) ≡ false)
      → IsOrdered compare (inserted l pos x)
  inserted-IsOrdered pos h front behind i j k m =
      let bound : j < suc (length l) = omega (arith, length-inserted l pos x) in
      ground (
        arith,
        get_or-inserted l pos x i,
        get_or-inserted l pos x j,
        front i,
        behind (j - 1),
        ordered i j,
        ordered i (j - 1),
        ordered (i - 1) (j - 1),
      )

  -- For a comparison that is an order, and an array with an element, in that order: the place that
  -- __find_insert_pos returns is one of the array, or the one behind it, and an element that is put
  -- there leaves the array in order.
  pub find_insert_pos-IsOrdered :
      0 < length l
      → (find_insert_pos (length l) x compare l ≤ length l)
        × IsOrdered compare (inserted l (find_insert_pos (length l) x compare l) x)
  unfolding find_insert_pos
  find_insert_pos-IsOrdered h =
      let s = IsComparison-IsSearch compare v in
      let (a, b, c) =
        goes_to-Fits (signs compare x l) (length l) _ (signs-Falls compare compare s l ordered x)
          (located compare compare s l ordered x h) in
      (a, inserted-IsOrdered _ a (λ i m. ground (arith, b i, v.flip (get_or l i 0) x)) c)
