-- ===== src/Weighttp/Number.antt =====
-- Numbers in text: `str_to_uint64` of weighttp-master/src/weighttp.c, and the `atoi` and `%d` of the
-- C library that the program calls.
pub mod Values
use reading_comment.Common.{
  ℕ, zero, suc, ◌+◌, ◌-◌, ◌*◌, ◌/◌, ◌%◌, ◌^◌, ◌≤◌, ◌<◌, Bool, true, ◌&&◌, ◌||◌, if◌then◌else◌, leb,
  u32_mod, u64_mod, minus_one64, [], ◌∷◌, ◌++◌, ◌==◌,
}
use reading_comment.Common.Bytes.{Bytes, is_digit}
use reading_comment.Common.Strings.{decimal_onto}

-- The loop from the accumulator `i` on, over the bytes before the terminator.
unfoldable pub to_uint64_from : ℕ → Bytes → ℕ
to_uint64_from i [] = i
to_uint64_from i (c ∷ s) =
    let rest = to_uint64_from ((i * 10 % u64_mod + (c - b'0')) % u64_mod) s in
    if is_digit c then rest else minus_one64

unfoldable pub str_to_uint64 : Bytes → ℕ
str_to_uint64 s = to_uint64_from 0 s

-- The digits that `strtol` reads.
unfoldable pub digits_from : ℕ → Bytes → ℕ
digits_from i [] = i
digits_from i (c ∷ s) =
    let rest = digits_from (i * 10 + (c - b'0')) s in if is_digit c then rest else i

-- Behind the white space: an optional sign, then digits, as the bit pattern of an `int`.
unfoldable pub signed_digits : Bytes → ℕ
signed_digits [] = 0
signed_digits (c ∷ s) =
    if c == b'-'
    then (u32_mod - digits_from 0 s % u32_mod) % u32_mod
    else if c == b'+'
    then digits_from 0 s % u32_mod
    else digits_from 0 (c ∷ s) % u32_mod

-- `atoi`. Beyond the range of an `int` C leaves it open; here the value wraps.
unfoldable pub atoi : Bytes → ℕ
atoi [] = 0
atoi (c ∷ s) =
    let rest = atoi s in if c == b' ' || (leb 9 c && leb c 13) then rest else signed_digits (c ∷ s)

-- `%PRIu16`: a 16-bit number has five digits at most.
unfoldable pub decimal16 : ℕ → Bytes
decimal16 n = decimal_onto 5 n []
