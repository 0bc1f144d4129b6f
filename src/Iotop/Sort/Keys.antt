-- ===== src/Iotop/Sort/Keys.antt =====
-- The orders of `sort_diff` (iotop-master/src/views.c).
use mathlib.Core.List.{Perm}
use mathlib.Core.List.Perm
use reading_comment.Common.{ℕ, Bool, ◌≡◌, refl, true, false, List, ◌∷◌, length, slt32, arith, some}
use reading_comment.Common.Strings.{
  Sign, above, is_above, strcmp, strcmp-above_asym, strcmp-not_above_trans,
}
use reading_comment.Iotop.Types.{Doubles, XxxidStats}
use reading_comment.Iotop.Sort.{
  SortBy, by_pid, by_prio, by_user, by_read, by_write, by_swapin, by_io, by_command, SortOrder,
  desc, asc, found, exchange, in_order, sort_diff, next_key, previous_key,
}
use reading_comment.Iotop.Sort.Exchange.{
  IsOrder, Descending, Perm-exchange, Descending-exchange, Ascending, Ascending-reversed,
  Perm-reversed,
}

slt32_asym : (a b : ℕ) → slt32 b a ≡ true → slt32 a b ≡ false
slt32_asym a b h = ground arith

not_slt32_trans : (a b c : ℕ) → slt32 b a ≡ false → slt32 c b ≡ false → slt32 c a ≡ false
not_slt32_trans a b c h k = ground arith

is_above-eq : (s : Sign) → is_above s ≡ true → s ≡ above
is_above-eq s h = ground arith

module _ {D : Type 0} ⦃d : Doubles D⦄ (v : IsOrder d.gt) where
  found-IsOrder : (by : SortBy) → IsOrder (found {D = D} by)
  found-IsOrder by_pid = record {
    asym = λ a b. slt32_asym a.tid b.tid;
    trans = λ a b c. not_slt32_trans a.tid b.tid c.tid;
  }
  found-IsOrder by_prio = record {
    asym = λ a b. slt32_asym a.io_prio b.io_prio;
    trans = λ a b c. not_slt32_trans a.io_prio b.io_prio c.io_prio;
  }
  found-IsOrder by_user = record {
    asym = λ a b. slt32_asym a.euid b.euid;
    trans = λ a b c. not_slt32_trans a.euid b.euid c.euid;
  }
  found-IsOrder by_read = record {
    asym = λ a b. v.asym a.read_val b.read_val;
    trans = λ a b c. v.trans a.read_val b.read_val c.read_val;
  }
  found-IsOrder by_write = record {
    asym = λ a b. v.asym a.write_val b.write_val;
    trans = λ a b c. v.trans a.write_val b.write_val c.write_val;
  }
  found-IsOrder by_swapin = record {
    asym = λ a b. v.asym a.swapin_val b.swapin_val;
    trans = λ a b c. v.trans a.swapin_val b.swapin_val c.swapin_val;
  }
  found-IsOrder by_io = record {
    asym = λ a b. v.asym a.blkio_val b.blkio_val;
    trans = λ a b c. v.trans a.blkio_val b.blkio_val c.blkio_val;
  }
  found-IsOrder by_command = record {
    asym = λ a b h. strcmp-above_asym a.cmdline b.cmdline (is_above-eq _ h);
    trans = λ a b c. strcmp-not_above_trans a.cmdline b.cmdline c.cmdline;
  }

  -- Element `a` is above `b` in the chosen key: numbers are signed ones of 32 bits, and commands are
  -- in the order of `strcmp`.
  abbrev pub exceeds : SortBy → XxxidStats D → XxxidStats D → Bool
  exceeds by_pid a b = slt32 b.tid a.tid
  exceeds by_prio a b = slt32 b.io_prio a.io_prio
  exceeds by_user a b = slt32 b.euid a.euid
  exceeds by_read a b = d.gt a.read_val b.read_val
  exceeds by_write a b = d.gt a.write_val b.write_val
  exceeds by_swapin a b = d.gt a.swapin_val b.swapin_val
  exceeds by_io a b = d.gt a.blkio_val b.blkio_val
  exceeds by_command a b = is_above (strcmp a.cmdline b.cmdline)

  found-exceeds : (by : SortBy) → found {D = D} by ≡ exceeds by
  found-exceeds by_pid = refl
  found-exceeds by_prio = refl
  found-exceeds by_user = refl
  found-exceeds by_read = refl
  found-exceeds by_write = refl
  found-exceeds by_swapin = refl
  found-exceeds by_io = refl
  found-exceeds by_command = refl

  -- From the greatest element to the least one, or the other way.
  abbrev pub Sorted : SortBy → SortOrder → List (XxxidStats D) → Type 0
  Sorted by desc l = Descending (exceeds by) l
  Sorted by asc l = Ascending (exceeds by) l

  -- A sorted array, and as many elements as before: from the greatest on, or to it.
  in_order-Sorted :
      (by : SortBy) (order : SortOrder) (xs : List (XxxidStats D))
      → let l = in_order order (exchange (found {D = D} by) (length xs) xs) in
        Perm l xs × Sorted by order l
  in_order-Sorted by desc xs = (
    Perm-exchange (found {D = D} by) (length xs) xs,
    rw⁻¹ (found-exceeds by)
        (Descending-exchange (found {D = D} by) (found-IsOrder by) (length xs) xs (omega arith)),
  )
  in_order-Sorted by asc xs =
      let l = exchange (found {D = D} by) (length xs) xs in
      (
        Perm.trans (Perm-reversed l) (Perm-exchange (found {D = D} by) (length xs) xs),
        rw⁻¹ (found-exceeds by) (
            Ascending-reversed (found {D = D} by) l (
              Descending-exchange (found {D = D} by) (found-IsOrder by) (length xs) xs
                (omega arith))),
      )

  -- For a `>` of doubles that is an order, `sort_diff` on an array with an element puts the same
  -- elements in an order in which none is greater, in the chosen key, than one in front of it; in the
  -- ascending order, than one behind it.
  pub sort_diff-Sorted :
      (by : SortBy) (order : SortOrder) (x : XxxidStats D) (xs : List (XxxidStats D))
      → (l : List (XxxidStats D)) × (sort_diff by order (x ∷ xs) ≡ some l)
        × Perm l (x ∷ xs)
        × Sorted by order l
  unfolding sort_diff
  sort_diff-Sorted by order x xs =
      let (perm, sorted) = in_order-Sorted by order (x ∷ xs) in (_, refl, perm, sorted)

-- KEY_LEFT takes KEY_RIGHT back.
previous_key-next_key : (by : SortBy) → previous_key (next_key by) ≡ by
unfolding previous_key next_key
previous_key-next_key by = ground arith
