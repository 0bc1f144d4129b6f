-- ===== src/Iotop/Tests.antt =====
-- iotop-master on concrete inputs, with rounded numbers for the doubles.
use reading_comment.Common.{
  ℕ, ◌+◌, ◌*◌, ◌/◌, ◌^◌, ◌<◌, ◌≤◌, ◌≡◌, ◌⊎◌, refl, true, false, Option, none, some, List, [], ◌∷◌,
  length, ltb, ◌==◌, if◌then◌else◌, arith,
}
use mathlib.Core.List.{Perm}
use reading_comment.Common.Bytes.{Bytes, codes}
use reading_comment.Common.Strings.{decimal_onto}
use reading_comment.Iotop.Types.{Doubles, XxxidStats, Params, minus_one32}
use reading_comment.Iotop.Diff.{create_diff, humanize_val, prefix}
use reading_comment.Iotop.Diff.Counters.{AllInRange, Created, create_diff-Created}
use reading_comment.Iotop.Diff.Units.{AllLarge, humanize_val_lem, thousandth}
use reading_comment.Iotop.Sort.{by_pid, asc, sort_diff}
use reading_comment.Iotop.Sort.Exchange.{IsOrder, Ascending}
use reading_comment.Iotop.Sort.Keys.{exceeds, sort_diff-Sorted}
use reading_comment.Iotop.Pids.{all_pids, whole, strtol, read_digits, skip_blanks, take_sign}
use reading_comment.Iotop.Pids.Listing.{all_pids_lem}
use reading_comment.Iotop.Prio.{str_ioprio, str_ioprio-text}
use reading_comment.Iotop.Loop.{rounds, Event}
use reading_comment.Iotop.Loop.Ownership.{rounds-monitor, monitor, fetches}

-- Division by zero does not occur.
instance rounded : Doubles ℕ
rounded = record {
  from_uint64 = λ n. n;
  from_int = λ n. n;
  plus = λ a b. a + b;
  times = λ a b. a * b;
  over = λ a b. a / b;
  gt = λ a b. ltb b a;
}

rounded-IsOrder : IsOrder rounded.gt
unfolding rounded
rounded-IsOrder = record { asym = λ a b h. ground arith; trans = λ a b c h k. ground arith }

abbrev by_second : Params
by_second = record {
  processes = 0;
  accumulated = false;
  delay = 1;
  pid = minus_one32;
  user_id = 1000;
}

abbrev sample : ℕ → ℕ → XxxidStats ℕ
sample tid read = record {
  tid = tid;
  swapin_delay_total = 0;
  blkio_delay_total = 0;
  read_bytes = read;
  write_bytes = 0;
  blkio_val = 0;
  swapin_val = 0;
  read_val = 0;
  write_val = 0;
  io_prio = 0;
  euid = 1000;
  cmdline = codes "init";
}

sample-InRange : (tid read : ℕ) → read < 2 ^ 64 → AllInRange (sample tid read ∷ [])
sample-InRange tid read h =
    (record { read = h; write = omega arith; swapin = omega arith; blkio = omega arith }, tt)

-- A counter that has fallen by 10
create_diff-Created_example :
    Created by_second
      (sample 7 90 ∷ [])
      (sample 7 100 ∷ [])
      (create_diff by_second (sample 7 90 ∷ []) (sample 7 100 ∷ []))
create_diff-Created_example =
    create_diff-Created by_second (sample 7 90 ∷ []) (sample 7 100 ∷ [])
      (sample-InRange 7 90 (omega arith)) (sample-InRange 7 100 (omega arith))

humanize_val_lem_example :
    (n : ℕ) × (humanize_val (10 ^ 30) ≡ (thousandth n (10 ^ 30), prefix n))
    × AllLarge n (10 ^ 30)
    × (((n < 5) × (ltb 10000 (thousandth n (10 ^ 30)) ≡ false)) ⊎ ((n ≡ 5) × (prefix n ≡ none)))
unfolding rounded
humanize_val_lem_example = humanize_val_lem (10 ^ 30)

sort_diff-Sorted_example :
    (l : List (XxxidStats ℕ)) × (sort_diff by_pid asc (sample 3 0 ∷ sample 9 0 ∷ sample 5 0 ∷ [])
      ≡ some l)
    × Perm l (sample 3 0 ∷ sample 9 0 ∷ sample 5 0 ∷ [])
    × Ascending (exceeds rounded-IsOrder by_pid) l
sort_diff-Sorted_example =
    sort_diff-Sorted rounded-IsOrder by_pid asc (sample 3 0) (sample 9 0 ∷ sample 5 0 ∷ [])

abbrev proc : List Bytes
proc = codes "1" ∷ codes "self" ∷ codes "23" ∷ []

-- Process 23 has gone when its directory is opened.
abbrev tasks_of : ℕ → Option (List Bytes)
tasks_of pid = if pid == 1 then some (codes "1" ∷ codes "5" ∷ []) else none

all_pids_lem_example :
    all_pids tasks_of 7 4 (record { proc = proc; task = none; tasks = true }) ≡ some (1 ∷ 5 ∷ [])
unfolding whole strtol read_digits skip_blanks take_sign
all_pids_lem_example = all_pids_lem tasks_of true proc 7 4 (omega arith) (omega arith)

-- The kernel knows no process 5.
abbrev known : ℕ → Option (XxxidStats ℕ)
known pid = if pid == 5 then none else some (sample pid 0)

str_ioprio-text_example :
    ((2 ^ 14 + 4 < 2 ^ 31)
      × (text : Bytes) × (str_ioprio (2 ^ 14 + 4) ≡ some text)
      × (length text ≡ 4))
    ⊎ ((2 ^ 31 ≤ 2 ^ 14 + 4) × (str_ioprio (2 ^ 14 + 4) ≡ none))
str_ioprio-text_example = str_ioprio-text (2 ^ 14 + 4) (omega arith)

rounds-monitor_example :
    (es : List Event) × (rounds (λ n. n == 1) 3 3 0 none ≡ some es)
    × (monitor [] es ≡ some [])
    × (fetches es ≤ 3)
rounds-monitor_example =
    rounds-monitor (λ n. n == 1) 3 3 0 none (omega arith) (omega arith) (omega arith) tt

-- 16386 is class "be", level 2.
shown : str_ioprio 16386 ≡ some (codes "be/2")
unfolding str_ioprio decimal_onto
shown = refl
