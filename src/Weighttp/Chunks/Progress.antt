-- ===== src/Weighttp/Chunks/Progress.antt =====
-- The chunks of a body (`client_parse`, weighttp-master/src/client.c) come to an end.
use reading_comment.Common.{
  ℕ, zero, suc, ◌+◌, ◌^◌, ◌≤◌, ◌<◌, some, ◌≡◌, ◌⊎◌, arith, Option-cases, inl, inr, minus_one64,
  u32_mod, u64_mod, ◌*◌, ◌%◌, add64,
}
use native.Mathlib.Decide.{ℕ_discrete, dec_lt}
use reading_comment.Common.Bytes.{Memory, strstr_crlf}
use reading_comment.Weighttp.Types.{Client, buffer_size}
use reading_comment.Weighttp.Status.{go_on}
use reading_comment.Weighttp.Headers.Progress.{Flow-cases}
use reading_comment.Weighttp.Chunks.{
  chunk_digit, chunk_digits, chunk_rounds, chunk_open, chunk_header, chunk_data, chunk_case,
}

-- A chunk of less than 2^31 bytes is being read.
abbrev pub InChunk : Client → Type 0
InChunk c = (c.chunk_size < 2 ^ 31) × (c.chunk_received ≤ c.chunk_size)

chunk_data-moves :
    (c : Client) (size : ℕ)
    → InChunk c
    → size < u32_mod
    → (chunk_data c size).0 ≡ go_on
    → (size < 2 ^ 31)
      × ((chunk_data c size).2 < size)
      × ((chunk_data c size).1.chunk_size ≡ minus_one64)
unfolding chunk_data
chunk_data-moves c size i b g = ground arith

strstr_crlf-bounds :
    (fuel : ℕ) (m : Memory) (i : ℕ) {e : ℕ}
    → strstr_crlf fuel m i ≡ some e
    → (i ≤ e) × (e < i + fuel)
unfolding strstr_crlf
strstr_crlf-bounds zero m i h = absurd cc
strstr_crlf-bounds (suc fuel) m i {e} h = ground (arith, strstr_crlf-bounds fuel m (i + 1) {e = e})

chunk_digits-bounds :
    (n : ℕ) (m : Memory) (str size : ℕ)
    → (str ≤ (chunk_digits n m str size).2) × ((chunk_digits n m str size).2 ≤ str + n)
unfolding chunk_digits
chunk_digits-bounds zero m str size = omega arith
chunk_digits-bounds (suc n) m str size = elim (Option-cases (chunk_digit (m str))) [
  | inl e ↦ ground (arith, e)
  | inr (d, e) ↦
      ground (arith, e, chunk_digits-bounds n m (str + 1) (add64 (size * 16 % u64_mod) d))
]

-- A chunk is in progress, or its size has still to be read.
abbrev pub FitsChunk : Client → Type 0
FitsChunk c = (c.chunk_size ≡ minus_one64) ⊎ InChunk c

-- The size line of a chunk of 2^31 bytes or more has been read.
abbrev pub ReadsLarge : Client → ℕ → Type 0
ReadsLarge c size =
    (c.chunk_size ≡ minus_one64)
    × ((chunk_header c size).0 ≡ go_on)
    × (2 ^ 31 ≤ (chunk_header c size).1.chunk_size)

-- The size line ends at `e + 2`; the rest of `size` is less, or negative.
chunk_open-moves :
    (c : Client) (size n str : ℕ)
    → c.parser_offset ≤ str
    → str ≤ c.parser_offset + size
    → size < buffer_size
    → (chunk_open c size n (strstr_crlf buffer_size c.buffer str)).0 ≡ go_on
    → let r = chunk_open c size n (strstr_crlf buffer_size c.buffer str) in
      (r.1.chunk_received ≡ 0) × (r.2 < u32_mod) × ((r.2 ≤ size) ⊎ (2 ^ 31 ≤ r.2))
unfolding chunk_open
chunk_open-moves c size n str lo hi small g =
    elim (Option-cases (strstr_crlf buffer_size c.buffer str)) [
      | inl e ↦ absurd (ground (arith, e, g))
      | inr (e, found) ↦
          ground (arith, found, strstr_crlf-bounds buffer_size c.buffer str {e = e} found)
    ]

-- After the size line a chunk is in progress, unless it is a large one.
chunk_header-moves :
    (c : Client) (size : ℕ)
    → FitsChunk c
    → size < buffer_size
    → (chunk_header c size).0 ≡ go_on
    → ReadsLarge c size
      ⊎ (InChunk (chunk_header c size).1
          × ((chunk_header c size).2 < u32_mod)
          × (((chunk_header c size).2 ≤ size) ⊎ (2 ^ 31 ≤ (chunk_header c size).2)))
unfolding chunk_header
chunk_header-moves c size fits small g =
    let digits = chunk_digits (chunk_rounds size) c.buffer c.parser_offset 0 in
    let bounds = chunk_digits-bounds (chunk_rounds size) c.buffer c.parser_offset 0 in
    elim (ℕ_discrete c.chunk_size minus_one64) [
      | no d ↦ ground (arith, fits, d)
      | yes e ↦ elim (dec_lt (chunk_header c size).1.chunk_size (2 ^ 31)) [
        | no large ↦ inl (e, g, omega (arith, large))
        | yes less ↦ ground (arith, e, less, bounds, chunk_open-moves c size digits.1 digits.2)
      ]
    ]

-- A round that goes on has left less of `size`, unless it has read the size of a large chunk.
pub chunk_case-moves :
    (c : Client) (size : ℕ)
    → FitsChunk c
    → size < buffer_size
    → (chunk_case c size).0 ≡ go_on
    → ReadsLarge c size ⊎ (FitsChunk (chunk_case c size).1 × ((chunk_case c size).2 < size))
unfolding chunk_case
chunk_case-moves c size fits small g = elim (Flow-cases (chunk_header c size).0) [
  | inl a ↦ absurd (ground (arith, a, g))
  | inr (inl a) ↦ absurd (ground (arith, a, g))
  | inr (inr a) ↦ elim (chunk_header-moves c size fits small a) [
    | inl large ↦ inl large
    | inr (now, bound, left) ↦
        ground (
          arith,
          a,
          left,
          chunk_data-moves (chunk_header c size).1 (chunk_header c size).2 now bound,
        )
  ]
]
