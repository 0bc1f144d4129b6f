-- ===== src/Iotop/Types.antt =====
-- The data of iotop-master/src/iotop.h. Signed `int`s are 32-bit patterns. The floating-point type is a
-- parameter with the operations that the source uses.
use reading_comment.Common.{ℕ, ◌-◌, Bool, u32_mod}
use reading_comment.Common.Bytes.{Bytes}

-- `double`, and the conversions to it
pub record Doubles (D : Type 0) : Type 0 where
  pub from_uint64 : ℕ → D
  pub from_int : ℕ → D
  pub plus : D → D → D
  pub times : D → D → D
  pub over : D → D → D
  pub gt : D → D → Bool

-- `struct xxxid_stats`; `__next` is the place in a list.
pub record XxxidStats (D : Type 0) : Type 0 where
  pub tid : ℕ
  pub swapin_delay_total : ℕ
  pub blkio_delay_total : ℕ
  pub read_bytes : ℕ
  pub write_bytes : ℕ
  pub blkio_val : D
  pub swapin_val : D
  pub read_val : D
  pub write_val : D
  pub io_prio : ℕ
  pub euid : ℕ
  pub cmdline : Bytes

-- The part of `config.f` and of `params` that the computations read.
pub record Params : Type 0 where
  pub processes : ℕ
  pub accumulated : Bool
  pub delay : ℕ
  pub pid : ℕ
  pub user_id : ℕ

-- -1 as an `int`
abbrev pub minus_one32 : ℕ
minus_one32 = u32_mod - 1
