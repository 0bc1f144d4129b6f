-- ===== src/Iotop/Sort.antt =====
-- `sort_diff` of iotop-master/src/views.c and the keys that change the order. The array from `i` on is a
-- list whose first element is the one that is compared with each of the others.
pub mod Exchange
pub mod Keys
use reading_comment.Common.{
  ℕ, zero, suc, ◌+◌, Bool, true, false, not, Option, none, some, List, [], ◌∷◌, ◌++◌, length, slt32,
  if◌then◌else◌,
}
use reading_comment.Common.Strings.{strcmp, is_above}
use reading_comment.Iotop.Types.{Doubles, XxxidStats}

pub data SortBy : Type 0 where
  by_pid by_prio by_user by_read by_write by_swapin by_io by_command : SortBy

pub data SortOrder : Type 0 where
  desc asc : SortOrder

-- `found` for `d[k]` and `d[i]`
abbrev pub found : {D : Type 0} ⦃d : Doubles D⦄ → SortBy → XxxidStats D → XxxidStats D → Bool
found by_prio k i = slt32 i.io_prio k.io_prio
found by_command k i = is_above (strcmp k.cmdline i.cmdline)
found by_pid k i = slt32 i.tid k.tid
found by_user k i = slt32 i.euid k.euid
found ⦃d⦄ by_read k i = d.gt k.read_val i.read_val
found ⦃d⦄ by_write k i = d.gt k.write_val i.write_val
found ⦃d⦄ by_swapin k i = d.gt k.swapin_val i.swapin_val
found ⦃d⦄ by_io k i = d.gt k.blkio_val i.blkio_val

module _ {A : Type 0} (greater : A → A → Bool) where
  -- The loop over `k`, with `d[i]` apart: what `d[i]` is at the end, and what stands behind it.
  unfoldable pub sweep : A → List A → A × List A
  sweep h [] = (h, [])
  sweep h (x ∷ xs) =
      if greater x h
      then ((sweep x xs).0, h ∷ (sweep x xs).1)
      else ((sweep h xs).0, x ∷ (sweep h xs).1)

  -- The loop over `i`, of as many rounds as there are elements. At `k = i` the element is compared with
  -- itself, and an exchange with itself changes nothing.
  unfoldable pub exchange : ℕ → List A → List A
  exchange zero xs = xs
  exchange (suc n) [] = []
  exchange (suc n) (x ∷ xs) = (sweep x xs).0 ∷ exchange n (sweep x xs).1

-- The copy into `rev` and back
unfoldable pub reversed : {A : Type 0} → List A → List A
reversed [] = []
reversed (x ∷ xs) = reversed xs ++ (x ∷ [])

abbrev pub in_order : {A : Type 0} → SortOrder → List A → List A
in_order desc xs = xs
in_order asc xs = reversed xs

-- `sort_diff`; `none` is the write in front of the array that the last line makes when there is no
-- element.
unfoldable pub sort_diff :
    {D : Type 0} ⦃d : Doubles D⦄
    → SortBy
    → SortOrder
    → List (XxxidStats D)
    → Option (List (XxxidStats D))
sort_diff by order [] = none
sort_diff by order (x ∷ xs) = some (in_order order (exchange (found by) (length (x ∷ xs)) (x ∷ xs)))

-- KEY_RIGHT and KEY_LEFT in `curses_sleep`
unfoldable pub next_key : SortBy → SortBy
next_key by_pid = by_prio
next_key by_prio = by_user
next_key by_user = by_read
next_key by_read = by_write
next_key by_write = by_swapin
next_key by_swapin = by_io
next_key by_io = by_command
next_key by_command = by_pid

unfoldable pub previous_key : SortBy → SortBy
previous_key by_pid = by_command
previous_key by_prio = by_pid
previous_key by_user = by_prio
previous_key by_read = by_user
previous_key by_write = by_read
previous_key by_swapin = by_write
previous_key by_io = by_swapin
previous_key by_command = by_io
