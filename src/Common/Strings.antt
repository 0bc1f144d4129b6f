-- ===== src/Common/Strings.antt =====
-- Texts as the C library prints and compares them: lists of bytes.
use Prim.Native.Nat.{ℕ, zero, suc, ◌+◌, ◌/◌, ◌%◌}
use mathlib.Core.Bool.{Bool, true, false}
use mathlib.Core.List.{[], ◌∷◌}
use mathlib.Core.Logic.{◌⊎◌, inl, inr}
use mathlib.Core.Path.{◌≡◌, refl}
use native.Mathlib.Omega.{arith}
use reading_comment.Common.Tests.{ltb, ◌==◌, if◌then◌else◌}
use reading_comment.Common.Bytes.{Bytes}

-- The decimal digits of a number, with at most `fuel` digits, in front of `rest`.
unfoldable pub decimal_onto : ℕ → ℕ → Bytes → Bytes
decimal_onto zero n rest = rest
decimal_onto (suc fuel) n rest =
    let more = decimal_onto fuel (n / 10) ((b'0' + n % 10) ∷ rest) in
    if n / 10 == 0 then (b'0' + n % 10) ∷ rest else more

-- The sign of a comparison.
pub data Sign : Type 0 where
  below equal above : Sign

pub Sign-cases : (s : Sign) → (s ≡ below) ⊎ ((s ≡ above) ⊎ (s ≡ equal))
Sign-cases below = inl refl
Sign-cases above = inr (inl refl)
Sign-cases equal = inr (inr refl)

abbrev pub is_above : Sign → Bool
is_above above = true
is_above _ = false

-- The sign of `strcmp`: the bytes up to the first zero, which may be the terminator.
unfoldable pub strcmp : Bytes → Bytes → Sign
strcmp [] [] = equal
strcmp [] (b ∷ r) = if b == 0 then equal else below
strcmp (a ∷ l) [] = if a == 0 then equal else above
strcmp (a ∷ l) (b ∷ r) =
    let rest = strcmp l r in
    if ltb a b then below else if ltb b a then above else if a == 0 then equal else rest

unfoldable pub strlen : Bytes → ℕ
strlen [] = 0
strlen (a ∷ l) = let rest = strlen l in if a == 0 then 0 else suc rest

pub strcmp-above_asym : (l r : Bytes) → strcmp l r ≡ above → is_above (strcmp r l) ≡ false
unfolding strcmp
strcmp-above_asym [] [] h = ground arith
strcmp-above_asym [] (b ∷ r) h = ground arith
strcmp-above_asym (a ∷ l) [] h = ground arith
strcmp-above_asym (a ∷ l) (b ∷ r) h = ground (arith, strcmp-above_asym l r)

pub strcmp-not_above_trans :
    (l m r : Bytes)
    → is_above (strcmp l m) ≡ false
    → is_above (strcmp m r) ≡ false
    → is_above (strcmp l r) ≡ false
unfolding strcmp
strcmp-not_above_trans [] m [] h k = refl
strcmp-not_above_trans [] m (c ∷ r) h k = ground arith
strcmp-not_above_trans (a ∷ l) [] [] h k = ground arith
strcmp-not_above_trans (a ∷ l) [] (c ∷ r) h k = ground arith
strcmp-not_above_trans (a ∷ l) (b ∷ m) [] h k = ground arith
strcmp-not_above_trans (a ∷ l) (b ∷ m) (c ∷ r) h k = ground (arith, strcmp-not_above_trans l m r)
