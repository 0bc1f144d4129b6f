-- ===== src/Iotop/Diff.antt =====
-- `create_diff`, `calc_total` and `humanize_val` of iotop-master/src/views.c. A chain is a list, and so is
-- the array of differences.
pub mod Counters
pub mod Units
use reading_comment.Common.{
  ℕ, zero, suc, ◌+◌, ◌-◌, ◌%◌, ◌^◌, Bool, true, false, Option, none, some, List, [], ◌∷◌, ltb, ◌==◌,
  if◌then◌else◌, sub64, add64, minus_one64,
}
use reading_comment.Iotop.Types.{Doubles, XxxidStats, Params}

module _ {D : Type 0} where
  unfoldable pub findpid : List (XxxidStats D) → ℕ → Option (XxxidStats D)
  findpid [] tid = none
  findpid (s ∷ chain) tid = let rest = findpid chain tid in if s.tid == tid then some s else rest

  unfoldable pub chainlen : List (XxxidStats D) → ℕ
  chainlen [] = 0
  chainlen (s ∷ chain) = suc (chainlen chain)

-- The macro RRV on two `uint64_t`s
unfoldable pub rrv : ℕ → ℕ → ℕ
rrv to from = if ltb to from then add64 (sub64 minus_one64 to) from else sub64 to from

module _ {D : Type 0} ⦃d : Doubles D⦄ (p : Params) where
  -- A delay in nanoseconds as a share of the interval.
  abbrev percent : ℕ → D
  percent total =
      d.times (d.over (d.over (d.from_uint64 total) (d.from_uint64 (10 ^ 9))) (d.from_int p.delay))
        (d.from_int 100)

  abbrev rate : ℕ → D
  rate total =
      d.over (d.from_uint64 total) (if p.accumulated then d.from_int 1 else d.from_int p.delay)

  -- One element of the array, for a process `c` and what `findpid` has found.
  unfoldable pub difference : XxxidStats D → Option (XxxidStats D) → XxxidStats D
  difference c none = record c {
    read_bytes = 0;
    write_bytes = 0;
    swapin_delay_total = 0;
    blkio_delay_total = 0;
  }
  difference c (some s) = record c {
    read_bytes = rrv c.read_bytes s.read_bytes;
    write_bytes = rrv c.write_bytes s.write_bytes;
    swapin_delay_total = rrv c.swapin_delay_total s.swapin_delay_total;
    blkio_delay_total = rrv c.blkio_delay_total s.blkio_delay_total;
    blkio_val = percent (rrv c.blkio_delay_total s.blkio_delay_total);
    swapin_val = percent (rrv c.swapin_delay_total s.swapin_delay_total);
    read_val = rate (rrv c.read_bytes s.read_bytes);
    write_val = rate (rrv c.write_bytes s.write_bytes);
  }

  unfoldable pub differences : List (XxxidStats D) → List (XxxidStats D) → List (XxxidStats D)
  differences [] ps = []
  differences (c ∷ cs) ps = difference c (findpid ps c.tid) ∷ differences cs ps

  -- `create_diff`, where `malloc` gives memory; NULL is `none`.
  unfoldable pub create_diff :
      List (XxxidStats D) → List (XxxidStats D) → Option (List (XxxidStats D) × ℕ)
  create_diff [] ps = none
  create_diff (c ∷ cs) ps = some (differences (c ∷ cs) ps, chainlen (c ∷ cs))

  -- The loop of `calc_total`
  unfoldable pub add_totals : List (XxxidStats D) → D → D → D × D
  add_totals [] read write = (read, write)
  add_totals (s ∷ diff) read write =
      add_totals diff (d.plus read (d.from_uint64 s.read_bytes))
        (d.plus write (d.from_uint64 s.write_bytes))

  unfoldable pub calc_total : List (XxxidStats D) → D × D
  calc_total diff =
      let (read, write) = add_totals diff (d.from_int 0) (d.from_int 0) in
      if p.accumulated
      then (read, write)
      else (d.over read (d.from_int p.delay), d.over write (d.from_int p.delay))

-- The units of `prefix` and `prefix_acc`; `none` lies behind the five.
pub data Magnitude : Type 0 where
  bytes kilo mega giga tera : Magnitude

abbrev pub prefix : ℕ → Option Magnitude
prefix zero = some bytes
prefix (suc zero) = some kilo
prefix (suc (suc zero)) = some mega
prefix (suc (suc (suc zero))) = some giga
prefix (suc (suc (suc (suc zero)))) = some tera
prefix (suc (suc (suc (suc (suc _))))) = none

module _ {D : Type 0} ⦃d : Doubles D⦄ where
  -- The loop of `humanize_val`, with `left` rounds before `p` is 5.
  unfoldable pub scale : ℕ → D → ℕ → D × ℕ
  scale zero value p = (value, p)
  scale (suc left) value p =
      let rest = scale left (d.over value (d.from_int 1000)) (suc p) in
      if d.gt value (d.from_int 10000) then rest else (value, p)

  -- The value and its unit
  unfoldable pub humanize_val : D → D × Option Magnitude
  humanize_val value = let (scaled, p) = scale 5 value 0 in (scaled, prefix p)
