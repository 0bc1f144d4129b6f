-- ===== src/Iotop/Prio.antt =====
-- `str_ioprio` of iotop-master/src/ioprio.c.
use reading_comment.Common.{
  ℕ, zero, suc, ◌+◌, ◌-◌, ◌/◌, ◌%◌, ◌^◌, ◌<◌, ◌≤◌, ◌≡◌, ◌⊎◌, inl, inr, refl, true, false, Option,
  none, some, [], ◌∷◌, ◌++◌, ltb, ◌==◌, if◌then◌else◌, take, length, arith, slt32, u32_mod,
  Bool-cases,
}
use native.Mathlib.Decide.{dec_lt}
use reading_comment.Common.Bytes.{Bytes, codes}
use reading_comment.Common.Strings.{decimal_onto}

-- `str_ioprio_class`; `none` is outside the array.
abbrev str_ioprio_class : ℕ → Option Bytes
str_ioprio_class zero = some (codes "-")
str_ioprio_class (suc zero) = some (codes "rt")
str_ioprio_class (suc (suc zero)) = some (codes "be")
str_ioprio_class (suc (suc (suc zero))) = some (codes "id")
str_ioprio_class (suc (suc (suc (suc _)))) = none

-- `io_prio >> IOPRIO_CLASS_SHIFT` of an `int`, which keeps the sign
abbrev io_class : ℕ → ℕ
io_class io_prio =
    if ltb io_prio (2 ^ 31) then io_prio / 2 ^ 13 else io_prio / 2 ^ 13 + (u32_mod - 2 ^ 19)

-- "%2s" for a text that is not empty
abbrev pad : Bytes → Bytes
pad class = if length class == 1 then b' ' ∷ class else class

-- "%2s/%1i"
abbrev format : Bytes → ℕ → Bytes
format class n = pad class ++ (b'/' ∷ decimal_onto 3 n [])

-- `str_ioprio`: the text, cut to the 4 bytes that `snprintf` leaves room for. `none` is a class in
-- front of the array, which a negative `io_prio` has: only classes from 4 on are refused.
unfoldable pub str_ioprio : ℕ → Option Bytes
str_ioprio io_prio =
    if slt32 (io_class io_prio) 4
    then elim (str_ioprio_class (io_class io_prio)) [
      | none ↦ none
      | some class ↦ some (take 4 (format class (io_prio % 256)))
    ]
    else some (codes "xx/x")

grows : (fuel n : ℕ) (l : Bytes) → length l ≤ length (decimal_onto fuel n l)
unfolding decimal_onto
grows zero n l = omega arith
grows (suc fuel) n l =
    let more = grows fuel (n / 10) ((b'0' + n % 10) ∷ l) in
    elim (Bool-cases (n / 10 == 0)) [
      | inl y ↦ rw y (omega arith)
      | inr m ↦ rw m (omega (arith, more))
    ]

-- A number has a digit.
has_digit : (fuel n : ℕ) → 1 ≤ length (decimal_onto (suc fuel) n [])
unfolding decimal_onto
has_digit fuel n =
    let more = grows fuel (n / 10) ((b'0' + n % 10) ∷ []) in
    elim (Bool-cases (n / 10 == 0)) [
      | inl y ↦ rw y (omega arith)
      | inr m ↦ rw m (omega (arith, more))
    ]

cut : (a b : ℕ) (digits : Bytes) → 1 ≤ length digits → length (take 4 (a ∷ b ∷ b'/' ∷ digits)) ≡ 4
cut a b [] h = absurd (omega arith)
cut a b (x ∷ digits) h = refl

class_lem :
    (c n : ℕ)
    → c < 4
    → (class : Bytes) × (str_ioprio_class c ≡ some class) × (length (take 4 (format class n)) ≡ 4)
class_lem zero n h = (codes "-", refl, cut b' ' b'-' (decimal_onto 3 n []) (has_digit 2 n))
class_lem (suc zero) n h = (codes "rt", refl, cut b'r' b't' (decimal_onto 3 n []) (has_digit 2 n))
class_lem (suc (suc zero)) n h =
    (codes "be", refl, cut b'b' b'e' (decimal_onto 3 n []) (has_digit 2 n))
class_lem (suc (suc (suc zero))) n h =
    (codes "id", refl, cut b'i' b'd' (decimal_onto 3 n []) (has_digit 2 n))
class_lem (suc (suc (suc (suc c)))) n h = absurd (omega arith)

out_of_range : (c : ℕ) → 3 < c → str_ioprio_class c ≡ none
out_of_range c h = ground arith

small_class : (n : ℕ) → n < 2 ^ 15 → (io_class n < 4) × (slt32 (io_class n) 4 ≡ true)
small_class n h = (ground arith, ground arith)

large_class : (n : ℕ) → n < 2 ^ 31 → 2 ^ 15 ≤ n → slt32 (io_class n) 4 ≡ false
large_class n h k = ground arith

negative_class :
    (n : ℕ) → n < u32_mod → 2 ^ 31 ≤ n → (3 < io_class n) × (slt32 (io_class n) 4 ≡ true)
negative_class n h k = (ground arith, ground arith)

-- `str_ioprio` of a 32-bit `io_prio` gives a text of 4 bytes if `io_prio` is not negative, and else
-- reads in front of the array of class names.
pub str_ioprio-text :
    (io_prio : ℕ)
    → io_prio < u32_mod
    → ((io_prio < 2 ^ 31) × (text : Bytes) × (str_ioprio io_prio ≡ some text) × (length text ≡ 4))
      ⊎ ((2 ^ 31 ≤ io_prio) × (str_ioprio io_prio ≡ none))
unfolding str_ioprio
str_ioprio-text n h = elim (dec_lt n (2 ^ 31)) [
  | yes y ↦ elim (dec_lt n (2 ^ 15)) [
    | yes small ↦
        let (bound, signed) = small_class n small in
        let (class, e, four) = class_lem (io_class n) (n % 256) bound in
        inl (y, take 4 (format class (n % 256)), rw (signed, e) refl, four)
    | no large ↦ inl (y, codes "xx/x", rw (large_class n y (omega arith)) refl, refl)
  ]
  | no negative ↦
      let (bound, signed) = negative_class n h (omega arith) in
      inr (omega arith, rw (signed, out_of_range (io_class n) bound) refl)
]
