-- ===== src/Iotop/Pids.antt =====
-- The generator of process numbers in iotop-master/src/utils.c: the entries of /proc, or with the flag
-- PIDGEN_FLAGS_TASK those of each /proc/PID/task. A directory is the list of the names that `readdir`
-- has still to return, and `opendir` is an argument.
pub mod Listing
use reading_comment.Common.{
  ℕ, zero, suc, ◌+◌, ◌-◌, ◌*◌, ◌%◌, ◌^◌, Bool, true, false, ◌&&◌, ◌||◌, Option, none, some, List,
  [], ◌∷◌, ltb, leb, ◌==◌, if◌then◌else◌, u32_mod,
}
use reading_comment.Common.Bytes.{Bytes, is_digit}

-- The digits in front, as a number behind `n`, and what is left.
unfoldable pub read_digits : ℕ → Bytes → ℕ × Bytes
read_digits n [] = (n, [])
read_digits n (c ∷ s) =
    let rest = read_digits (n * 10 + (c - b'0')) s in if is_digit c then rest else (n, c ∷ s)

-- `isspace` in the C locale
abbrev is_blank : ℕ → Bool
is_blank c = c == b' ' || (leb 9 c && leb c 13)

unfoldable pub skip_blanks : Bytes → Bytes
skip_blanks [] = []
skip_blanks (c ∷ s) = let rest = skip_blanks s in if is_blank c then rest else c ∷ s

-- Whether there is a minus sign, and what stands behind the sign.
unfoldable pub take_sign : Bytes → Bool × Bytes
take_sign [] = (false, [])
take_sign (c ∷ s) =
    if c == b'-' then (true, s) else if c == b'+' then (false, s) else (false, c ∷ s)

abbrev has_digit : Bytes → Bool
has_digit [] = false
has_digit (c ∷ s) = is_digit c

-- The `long` of the sign and the digits, which is cut at its bounds, as an `int`.
abbrev int_of : Bool → ℕ → ℕ
int_of false n = if ltb n (2 ^ 63) then n % u32_mod else (2 ^ 63 - 1) % u32_mod
int_of true n = if ltb n (2 ^ 63) then (2 ^ 64 - n) % u32_mod else 2 ^ 63 % u32_mod

-- `strtol` in base 10, stored in an `int`: the number, and what is left at `eol`, which is the whole
-- text when there is no digit.
unfoldable pub strtol : Bytes → ℕ × Bytes
strtol name =
    let (negative, s) = take_sign (skip_blanks name) in
    if has_digit s then (int_of negative (read_digits 0 s).0, (read_digits 0 s).1) else (0, name)

-- `*eol == '\0'`
unfoldable pub whole : ℕ × Bytes → Option ℕ
whole (n, []) = some n
whole (n, c ∷ s) = none

-- `__next_pid`: the number of the next name that `strtol` uses up, 0 at the end of the directory, and
-- what is left of the directory.
unfoldable pub __next_pid : List Bytes → ℕ × List Bytes
__next_pid [] = (0, [])
__next_pid (name ∷ dir) =
    let rest = __next_pid dir in elim (whole (strtol name)) [ none ↦ rest | some pid ↦ (pid, dir) ]

-- `struct pidgen`
pub record Pidgen : Type 0 where
  pub proc : List Bytes
  pub task : Option (List Bytes)
  pub tasks : Bool

-- `pid < 1` of an `int`
abbrev pub not_positive : ℕ → Bool
not_positive pid = if pid == 0 then true else ltb (2 ^ 31 - 1) pid

abbrev not_zero : ℕ → Bool
not_zero pid = if pid == 0 then false else true

abbrev pub cons_pid : ℕ → Option (List ℕ) → Option (List ℕ)
cons_pid pid none = none
cons_pid pid (some pids) = some (pid ∷ pids)

-- `pidgen_next`: `none` is a recursion deeper than the fuel.
unfoldable pub pidgen_next : (ℕ → Option (List Bytes)) → ℕ → Pidgen → Option (ℕ × Pidgen)
pidgen_next opendir zero pg = none
pidgen_next opendir (suc fuel) pg = elim pg.task [
  | some dir ↦
      let (pid, left) = __next_pid dir in
      if not_positive pid
      then pidgen_next opendir fuel (record pg { task = none })
      else some (pid, record pg { task = some left })
  | none ↦
      let (pid, left) = __next_pid pg.proc in
      if not_zero pid && pg.tasks
      then pidgen_next opendir fuel (record pg { proc = left; task = opendir pid })
      else some (pid, record pg { proc = left })
]

-- The loop of `fetch_data`, up to a number that is not positive: the numbers in order.
unfoldable pub all_pids : (ℕ → Option (List Bytes)) → ℕ → ℕ → Pidgen → Option (List ℕ)
all_pids opendir depth zero pg = none
all_pids opendir depth (suc fuel) pg = elim (pidgen_next opendir depth pg) [
  | none ↦ none
  | some (pid, pg') ↦
      if not_positive pid then some [] else cons_pid pid (all_pids opendir depth fuel pg')
]
