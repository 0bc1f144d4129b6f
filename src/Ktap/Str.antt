-- ===== src/Ktap/Str.antt =====
-- The order of strings in ktap-master/runtime/kp_str.c. A string is its bytes, zeros included, and has a
-- terminator behind them.
pub mod Order
use reading_comment.Common.{
  ℕ, zero, suc, ◌+◌, Option, none, some, [], ◌∷◌, ltb, ◌==◌, if◌then◌else◌, length, drop,
}
use reading_comment.Common.Bytes.{Bytes}
use reading_comment.Common.Strings.{Sign, below, equal, above, strcmp, strlen}

-- `kp_str_cmp`; `none` is a loop that has used up its fuel.
unfoldable pub kp_str_cmp : ℕ → Bytes → Bytes → Option Sign
kp_str_cmp zero l r = none
kp_str_cmp (suc fuel) l r = elim (strcmp l r) [
  | below ↦ some below
  | above ↦ some above
  | equal ↦
      let rest = kp_str_cmp fuel (drop (suc (strlen l)) l) (drop (suc (strlen l)) r) in
      if strlen l == length r
      then some (if strlen l == length l then equal else above)
      else if strlen l == length l
      then some below
      else rest
]
