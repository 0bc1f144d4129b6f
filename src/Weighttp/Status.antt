-- ===== src/Weighttp/Status.antt =====
-- `case PARSER_START` of `client_parse` (weighttp-master/src/client.c): the status line.
pub mod Counting
use reading_comment.Common.{
  ℕ, zero, suc, ◌+◌, ◌-◌, ◌*◌, ◌%◌, true, not, ◌&&◌, Option, none, some, ltb, leb, ◌==◌,
  if◌then◌else◌, u16_mod, add16, add64,
}
use reading_comment.Common.Bytes.{Memory, codes, is_digit, has_prefix, strchr}
use reading_comment.Weighttp.Types.{parse_header, Client, Stats, buffer_size}

-- What a part of the parser does next: return 1 or 0 to the caller, or fall into the next case.
pub data Flow : Type 0 where
  accept reject go_on : Flow

-- The three digits of the status code; `status_code` is a `uint16_t`.
unfoldable pub status_digits : ℕ → Memory → ℕ → ℕ → Option ℕ
status_digits zero m i code = some code
status_digits (suc n) m i code =
    let rest = status_digits n m (i + 1) (add16 (code * 10 % u16_mod) (m i - b'0')) in
    if is_digit (m i) then rest else none

-- The counters for a status code; `none` for one that is refused.
unfoldable pub count_status : ℕ → Client → Stats → Option (Client × Stats)
count_status code c s =
    if leb 200 code && ltb code 300
    then some (record c { status_success = true }, record s { req_2xx = add64 s.req_2xx 1 })
    else if ltb code 400
    then some (record c { status_success = true }, record s { req_3xx = add64 s.req_3xx 1 })
    else if ltb code 500
    then some (c, record s { req_4xx = add64 s.req_4xx 1 })
    else if ltb code 600
    then some (c, record s { req_5xx = add64 s.req_5xx 1 })
    else none

-- The rest of the status line, from `end`.
unfoldable pub status_line_end : Client → Stats → Option ℕ → Flow × Client × Stats
status_line_end c s none = (reject, c, s)
status_line_end c s (some e) =
    if c.buffer (e + 1) == b'\n'
    then (go_on, record c { parser_offset = e + 2; parser_state = parse_header }, s)
    else (reject, c, s)

-- `case PARSER_START`. The status line must be whole once 15 bytes are there.
unfoldable pub start_case : Client → Stats → Flow × Client × Stats
start_case c s =
    if ltb c.buffer_offset 15
    then (accept, c, s)
    else if not (has_prefix c.buffer 0 (codes "HTTP/1.1 "))
    then (reject, c, s)
    else elim (status_digits 3 c.buffer 9 0) [
      | none ↦ (reject, c, s)
      | some code ↦ elim (count_status code c s) [
        | none ↦ (reject, c, s)
        | some (c', s') ↦ status_line_end c' s' (strchr buffer_size c'.buffer 12 b'\r')
      ]
    ]
