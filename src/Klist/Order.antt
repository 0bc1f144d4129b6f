-- ===== src/Klist/Order.antt =====
-- The comparisons that a list of ovlfs-2.0.1/lists/kernel_lists.c needs, and the order that they give.
use reading_comment.Common.{ℕ, ◌<◌, ◌≡◌, false, List, length, get_or, arith}
use reading_comment.Common.Strings.{Sign, below, equal, above, is_above}
use reading_comment.Klist.{Comparison}

abbrev pub opposite : Sign → Sign
opposite below = above
opposite equal = equal
opposite above = below

-- What a comparison for a sort must satisfy: the sign turns when its arguments are exchanged, and what
-- is not after a second thing is not after what the second one is not after.
pub record IsComparison (compare : Comparison) : Type 0 where
  pub flip : (a b : ℕ) → compare b a ≡ opposite (compare a b)
  pub trans :
      (a b d : ℕ)
      → is_above (compare a b) ≡ false
      → is_above (compare b d) ≡ false
      → is_above (compare a d) ≡ false

-- What a comparison for a search must satisfy in an order: what is after an element is after each one in
-- front of it, and what is before an element is before each one behind it.
pub record IsSearch (compare search : Comparison) : Type 0 where
  pub after : (v a b : ℕ) → is_above (compare a b) ≡ false → search v b ≡ above → search v a ≡ above
  pub before :
      (v a b : ℕ) → is_above (compare a b) ≡ false → search v a ≡ below → search v b ≡ below

-- No element is after one behind it.
abbrev pub IsOrdered : Comparison → List ℕ → Type 0
IsOrdered compare l =
    (i j : ℕ) → i < j → j < length l → is_above (compare (get_or l i 0) (get_or l j 0)) ≡ false

module _ (compare : Comparison) (v : IsComparison compare) where
  pub IsComparison-IsSearch : IsSearch compare compare
  IsComparison-IsSearch = record {
    after = λ x a b h k. ground (arith, v.flip a x, v.flip x b, v.trans x a b, v.trans a b x);
    before = λ x a b h k. ground (arith, v.flip a x, v.flip x b, v.trans x a b, v.trans a b x);
  }

  pub not_above_self : (a : ℕ) → is_above (compare a a) ≡ false
  not_above_self a = ground (arith, v.flip a a)
