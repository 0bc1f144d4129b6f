-- ===== src/Weighttp/Chunks.antt =====
-- `case PARSER_BODY` of `client_parse` (weighttp-master/src/client.c): plain and chunked bodies.
pub mod Progress
pub mod Rounds
use reading_comment.Common.{
  ℕ, zero, suc, ◌+◌, ◌-◌, ◌*◌, ◌%◌, ◌^◌, Bool, true, false, not, ◌&&◌, ◌||◌, Option, none, some,
  ltb, leb, ◌==◌, if◌then◌else◌, u32_mod, u64_mod, add32, sub32, add64, sub64, minus_one64, slt32,
  extend32,
}
use reading_comment.Common.Bytes.{Memory, is_digit, strstr_crlf}
use reading_comment.Weighttp.Types.{end, Client, buffer_size}
use reading_comment.Weighttp.Status.{Flow, accept, reject, go_on}

-- The value that the chunk size line gives a letter or digit; `none` for another byte. The source
-- takes every letter, not only `A` to `F`.
unfoldable pub chunk_digit : ℕ → Option ℕ
chunk_digit b =
    if is_digit b
    then some (b - b'0')
    else if leb b'A' b && leb b b'Z'
    then some (10 + b - b'A')
    else if leb b'a' b && leb b b'z'
    then some (10 + b - b'a')
    else none

-- The loop over the chunk size, over `n` bytes from `str`: whether every byte was taken, the size,
-- and where the loop stopped.
unfoldable pub chunk_digits : ℕ → Memory → ℕ → ℕ → Bool × ℕ × ℕ
chunk_digits zero m str size = (true, size, str)
chunk_digits (suc n) m str size =
    if m str == b';' || m str == b'\r' then (true, size, str) else elim (chunk_digit (m str)) [
      | none ↦ (false, size * 16 % u64_mod, str)
      | some d ↦ chunk_digits n m (str + 1) (add64 (size * 16 % u64_mod) d)
    ]

-- `str < end` for `end = str + size` and a signed `size`: how many rounds the loop has at most.
abbrev pub chunk_rounds : ℕ → ℕ
chunk_rounds size = if ltb size (2 ^ 31) then size else 0

-- Behind the chunk size `n`, from the line end that `strstr` found.
unfoldable pub chunk_open : Client → ℕ → ℕ → Option ℕ → Flow × Client × ℕ
chunk_open c size n none = (reject, record c { chunk_size = n; chunk_received = 0 }, size)
chunk_open c size n (some e) =
    if n == 0
    then (
      accept,
      record c { chunk_size = n; chunk_received = 0; state = end; success = c.status_success },
      size,
    )
    else (
      go_on,
      record c { chunk_size = n; chunk_received = 0; parser_offset = e + 2 },
      sub32 size (e + 2 - c.parser_offset),
    )

-- The chunk size line, which is read when `chunk_size` is -1. `go_on` comes with the rest of `size`.
unfoldable pub chunk_header : Client → ℕ → Flow × Client × ℕ
chunk_header c size =
    let (taken, n, str) = chunk_digits (chunk_rounds size) c.buffer c.parser_offset 0 in
    if not (c.chunk_size == minus_one64)
    then (go_on, c, size)
    else if not taken
    then (reject, record c { chunk_size = n; chunk_received = 0 }, size)
    else chunk_open c size n (strstr_crlf buffer_size c.buffer str)

-- The bytes of the chunk that are there, as an `int`.
abbrev pub consume_max : Client → ℕ → ℕ
consume_max c size =
    let left = sub64 c.chunk_size c.chunk_received % u32_mod in
    if slt32 size left then size else left

-- The chunk's bytes are passed over.
abbrev pub consume : Client → ℕ → Client
consume c n = record c {
  chunk_received = add64 c.chunk_received (extend32 n);
  parser_offset = add32 c.parser_offset n;
}

-- All that arrived is used up: the next bytes go to the front of the buffer.
abbrev pub rewind : Client → Client
rewind c = record c { parser_offset = 0; buffer_offset = 0 }

-- The end of a chunk, if it has arrived. `go_on` is a return to `client_parse` with the rest of `size`.
unfoldable pub chunk_data : Client → ℕ → Flow × Client × ℕ
chunk_data c size =
    let n = consume_max c size in
    let c' = consume c n in
    let next = record c' {
      chunk_size = minus_one64;
      chunk_received = 0;
      parser_offset = add32 c'.parser_offset 2;
    } in
    let left = sub32 size (add32 n 2) in
    if not (c'.chunk_received == c'.chunk_size)
    then (accept, rewind c', size)
    else if not
        (c'.buffer c'.parser_offset == b'\r' && c'.buffer (add32 c'.parser_offset 1) == b'\n')
    then (reject, c', size)
    else if slt32 0 left
    then (go_on, next, left)
    else (accept, rewind next, left)

-- One call of `client_parse` in a chunked body.
unfoldable pub chunk_case : Client → ℕ → Flow × Client × ℕ
chunk_case c size =
    let (flow, c', size') = chunk_header c size in
    elim flow [
      | accept ↦ (accept, c', size')
      | reject ↦ (reject, c', size')
      | go_on ↦ chunk_data c' size'
    ]

-- A body that is not chunked: it is read until its length is reached.
unfoldable pub plain_case : Client → Bool × Client
plain_case c =
    if c.content_length == minus_one64
    then (false, record c { buffer_offset = 0 })
    else if c.bytes_received == add64 c.header_size c.content_length
    then (true, record c { buffer_offset = 0; state = end; success = c.status_success })
    else (true, record c { buffer_offset = 0 })

-- The chunks that have arrived, one after the other.
unfoldable pub chunk_loop : ℕ → Client → ℕ → Option (Bool × Client)
chunk_loop zero c size = none
chunk_loop (suc fuel) c size = elim (chunk_case c size).0 [
  | accept ↦ some (true, (chunk_case c size).1)
  | reject ↦ some (false, (chunk_case c size).1)
  | go_on ↦ chunk_loop fuel (chunk_case c size).1 (chunk_case c size).2
]

-- `case PARSER_BODY`. `none` stands for a loop of more than `buffer_size` rounds.
unfoldable pub body_case : Client → ℕ → Option (Bool × Client)
body_case c size = if c.chunked then chunk_loop buffer_size c size else some (plain_case c)
