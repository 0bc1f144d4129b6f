-- ===== src/Weighttp/Number/Values.antt =====
-- The values that `str_to_uint64` (weighttp-master/src/weighttp.c) and `atoi` give to text.
use reading_comment.Common.{
  ℕ, zero, suc, ◌+◌, ◌-◌, ◌*◌, ◌/◌, ◌%◌, ◌<◌, Bool, true, false, ◌&&◌, [], ◌∷◌, ◌≡◌, arith,
  if◌then◌else◌, Bool-cases, inl, inr, u16_mod, u32_mod, u64_mod, minus_one64,
}
use reading_comment.Common.Bytes.{Bytes, is_digit}
use reading_comment.Weighttp.Number.{
  to_uint64_from, str_to_uint64, digits_from, signed_digits, atoi, decimal16,
}
use reading_comment.Common.Strings.{decimal_onto}

abbrev pub all_digits : Bytes → Bool
all_digits [] = true
all_digits (c ∷ s) = is_digit c && all_digits s

-- The number that digits stand for behind those of `i`.
abbrev pub value_from : ℕ → Bytes → ℕ
value_from i [] = i
value_from i (c ∷ s) = value_from (i * 10 + (c - b'0')) s

value_from-mod :
    (s : Bytes) (i j : ℕ)
    → i % u64_mod ≡ j % u64_mod
    → value_from i s % u64_mod ≡ value_from j s % u64_mod
value_from-mod [] i j h = h
value_from-mod (c ∷ s) i j h = value_from-mod s _ _ (omega arith)

to_uint64_from-value :
    (s : Bytes) (i : ℕ)
    → all_digits s ≡ true
    → i < u64_mod
    → to_uint64_from i s ≡ value_from i s % u64_mod
unfolding to_uint64_from
to_uint64_from-value [] i h k = omega arith
to_uint64_from-value (c ∷ s) i h k =
    let i' = (i * 10 % u64_mod + (c - b'0')) % u64_mod in
    ground (arith, to_uint64_from-value s i', value_from-mod s i' (i * 10 + (c - b'0')))

to_uint64_from-other : (s : Bytes) (i : ℕ) → all_digits s ≡ false → to_uint64_from i s ≡ minus_one64
unfolding to_uint64_from
to_uint64_from-other [] i h = cc
to_uint64_from-other (c ∷ s) i h =
    ground (arith, to_uint64_from-other s ((i * 10 % u64_mod + (c - b'0')) % u64_mod))

-- `str_to_uint64` gives digits their value modulo 2^64, and any other text UINT64_MAX.
pub str_to_uint64_lem :
    (s : Bytes) → str_to_uint64 s ≡ (if all_digits s then value_from 0 s % u64_mod else minus_one64)
unfolding str_to_uint64
str_to_uint64_lem s = elim (Bool-cases (all_digits s)) [
  | inl y ↦ rw y (to_uint64_from-value s 0 y (omega arith))
  | inr n ↦ rw n (to_uint64_from-other s 0 n)
]

abbrev pow10 : ℕ → ℕ
pow10 zero = 1
pow10 (suc f) = 10 * pow10 f

-- The digits printed are read back in front of any text.
digits_from-decimal_onto :
    (f n : ℕ) (rest : Bytes)
    → n < pow10 f
    → digits_from 0 (decimal_onto f n rest) ≡ digits_from n rest
unfolding digits_from decimal_onto
digits_from-decimal_onto zero n rest h = ground arith
digits_from-decimal_onto (suc f) n rest h =
    ground (arith, digits_from-decimal_onto f (n / 10) ((b'0' + n % 10) ∷ rest))

abbrev starts_digit : Bytes → Bool
starts_digit [] = false
starts_digit (c ∷ s) = is_digit c

starts_digit-decimal_onto :
    (f n : ℕ) (rest : Bytes)
    → starts_digit rest ≡ true
    → starts_digit (decimal_onto f n rest) ≡ true
unfolding decimal_onto
starts_digit-decimal_onto zero n rest h = h
starts_digit-decimal_onto (suc f) n rest h =
    ground (arith, starts_digit-decimal_onto f (n / 10) ((b'0' + n % 10) ∷ rest))

atoi-digits : (s : Bytes) → starts_digit s ≡ true → atoi s ≡ digits_from 0 s % u32_mod
unfolding atoi signed_digits
atoi-digits [] h = cc
atoi-digits (c ∷ s) h = ground arith

starts_digit-decimal16 : (p : ℕ) → starts_digit (decimal16 p) ≡ true
unfolding decimal16 decimal_onto
starts_digit-decimal16 p =
    ground (arith, starts_digit-decimal_onto 4 (p / 10) ((b'0' + p % 10) ∷ []))

-- `atoi` reads back what `%PRIu16` prints.
pub atoi-decimal16 : (p : ℕ) → p < u16_mod → atoi (decimal16 p) ≡ p
unfolding decimal16 digits_from
atoi-decimal16 p h =
    let reads = digits_from-decimal_onto 5 p [] (omega arith) in
    rw (atoi-digits (decimal16 p) (starts_digit-decimal16 p)) (omega (arith, reads))

pub str_to_uint64-lt : (s : Bytes) → str_to_uint64 s < u64_mod
str_to_uint64-lt s = rw (str_to_uint64_lem s) (ground arith)
