-- ===== src/Ktap/Str/Order.antt =====
-- `kp_str_cmp` (ktap-master/runtime/kp_str.c) is the lexicographic order of the bytes.
use reading_comment.Common.{
  ℕ, zero, suc, ◌<◌, ◌≡◌, inl, inr, refl, false, some, [], ◌∷◌, ltb, ◌==◌, if◌then◌else◌, length,
  drop, arith, Bool-cases,
}
use reading_comment.Common.Bytes.{Bytes}
use reading_comment.Common.Strings.{Sign, Sign-cases, below, equal, above, strcmp, strlen}
use reading_comment.Ktap.Str.{kp_str_cmp}

-- The lexicographic order, in which a zero is a byte like the others.
abbrev pub lexicographic : Bytes → Bytes → Sign
lexicographic [] [] = equal
lexicographic [] (b ∷ r) = below
lexicographic (a ∷ l) [] = above
lexicographic (a ∷ l) (b ∷ r) =
    if ltb a b then below else if ltb b a then above else lexicographic l r

strcmp-below : (l r : Bytes) → strcmp l r ≡ below → lexicographic l r ≡ below
unfolding strcmp
strcmp-below [] [] h = ground arith
strcmp-below [] (b ∷ r) h = refl
strcmp-below (a ∷ l) [] h = ground arith
strcmp-below (a ∷ l) (b ∷ r) h = ground (arith, strcmp-below l r)

strcmp-above : (l r : Bytes) → strcmp l r ≡ above → lexicographic l r ≡ above
unfolding strcmp
strcmp-above [] [] h = ground arith
strcmp-above [] (b ∷ r) h = ground arith
strcmp-above (a ∷ l) [] h = refl
strcmp-above (a ∷ l) (b ∷ r) h = ground (arith, strcmp-above l r)

-- Strings that are equal up to the first zero, where the second one ends.
ends_right :
    (l r : Bytes)
    → strcmp l r ≡ equal
    → strlen l ≡ length r
    → lexicographic l r ≡ (if strlen l == length l then equal else above)
unfolding strcmp strlen
ends_right [] [] h k = refl
ends_right [] (b ∷ r) h k = ground arith
ends_right (a ∷ l) [] h k = ground arith
ends_right (a ∷ l) (b ∷ r) h k = ground (arith, ends_right l r)

-- Where only the first one ends.
ends_left :
    (l r : Bytes)
    → strcmp l r ≡ equal
    → (strlen l == length r) ≡ false
    → strlen l ≡ length l
    → lexicographic l r ≡ below
unfolding strcmp strlen
ends_left [] [] h k m = ground arith
ends_left [] (b ∷ r) h k m = refl
ends_left (a ∷ l) [] h k m = ground arith
ends_left (a ∷ l) (b ∷ r) h k m = ground (arith, ends_left l r)

-- Where both go on behind a zero.
goes_on :
    (l r : Bytes)
    → strcmp l r ≡ equal
    → (strlen l == length r) ≡ false
    → (strlen l == length l) ≡ false
    → (lexicographic l r ≡ lexicographic (drop (suc (strlen l)) l) (drop (suc (strlen l)) r))
      × (length (drop (suc (strlen l)) l) < length l)
unfolding strcmp strlen
goes_on [] [] h k m = ground arith
goes_on [] (b ∷ r) h k m = ground arith
goes_on (a ∷ l) [] h k m = ground arith
goes_on (a ∷ l) (b ∷ r) h k m = ground (arith, goes_on l r)

-- `kp_str_cmp`, with fuel for each byte of the first string and its terminator, returns the sign of the
-- lexicographic order of the bytes.
pub kp_str_cmp_lem :
    (fuel : ℕ) (l r : Bytes) → length l < fuel → kp_str_cmp fuel l r ≡ some (lexicographic l r)
unfolding kp_str_cmp
kp_str_cmp_lem zero l r h = absurd (omega arith)
kp_str_cmp_lem (suc fuel) l r h = elim (Sign-cases (strcmp l r)) [
  | inl e ↦ ground (arith, strcmp-below l r e)
  | inr (inl e) ↦ ground (arith, strcmp-above l r e)
  | inr (inr e) ↦ elim (Bool-cases (strlen l == length r)) [
    | inl right ↦ ground (arith, ends_right l r e)
    | inr more ↦ elim (Bool-cases (strlen l == length l)) [
      | inl left ↦ ground (arith, ends_left l r e more)
      | inr both ↦
          let (same, shorter) = goes_on l r e more both in
          let rest =
            kp_str_cmp_lem fuel (drop (suc (strlen l)) l) (drop (suc (strlen l)) r) (omega arith) in
          ground (arith, rest)
    ]
  ]
]
