-- ===== src/Weighttp/Headers.antt =====
-- `case PARSER_HEADER` of `client_parse` (weighttp-master/src/client.c): the header lines. A result
-- `none` is a loop that ran out of fuel.
pub mod Progress
use reading_comment.Common.{
  ℕ, zero, suc, ◌+◌, ◌%◌, Bool, true, false, not, ◌&&◌, Option, none, some, [], ◌∷◌, ◌==◌,
  if◌then◌else◌, u16_mod,
}
use reading_comment.Common.Bytes.{Bytes, Memory, codes, store, has_prefix_nocase, strchr}
use reading_comment.Weighttp.Types.{parse_body, Client, buffer_size}
use reading_comment.Weighttp.Status.{Flow, accept, reject, go_on}
use reading_comment.Weighttp.Number.{str_to_uint64}

-- The C string that begins at offset `i`, of at most `fuel` bytes.
unfoldable pub c_string : ℕ → Memory → ℕ → Bytes
c_string zero m i = []
c_string (suc fuel) m i = let rest = c_string fuel m (i + 1) in if m i == 0 then [] else m i ∷ rest

-- One header line, which stands at `str` as a C string; `none` for a header that is refused.
unfoldable pub header_line : Bool → Client → ℕ → Option Client
header_line keep_alive c str =
    if has_prefix_nocase c.buffer str (codes "Content-Length: ")
    then some
        (record c { content_length = str_to_uint64 (c_string buffer_size c.buffer (str + 16)) })
    else if has_prefix_nocase c.buffer str (codes "Connection: ")
    then (if has_prefix_nocase c.buffer (str + 12) (codes "close")
        then some (record c { keepalive = false })
        else if has_prefix_nocase c.buffer (str + 12) (codes "keep-alive")
        then some (record c { keepalive = keep_alive })
        else none)
    else if has_prefix_nocase c.buffer str (codes "Transfer-Encoding: ")
    then (if has_prefix_nocase c.buffer (str + 19) (codes "chunked")
        then some (record c { chunked = true })
        else none)
    else some c

-- One round of the header loop, for a carriage return at `e`. `go_on` enters the body, `accept`
-- goes on with the next line.
unfoldable pub header_round : Bool → Client → ℕ → Flow × Client
header_round keep_alive c e =
    if not (c.buffer (e + 1) == b'\n')
    then (reject, c)
    else if e == c.parser_offset
    then (go_on, record c { parser_state = parse_body; header_size = (e + 2) % u16_mod })
    else elim (header_line keep_alive (record c { buffer = store c.buffer e 0 }) c.parser_offset) [
      | none ↦ (reject, record c { buffer = store c.buffer e 0 })
      | some c' ↦
          if c'.buffer (e + 2) == b'\r' && c'.buffer (e + 3) == b'\n'
          then (
            go_on,
            record c' {
              parser_state = parse_body;
              header_size = (e + 4) % u16_mod;
              parser_offset = (e + 4) % u16_mod;
            },
          )
          else (accept, record c' { parser_offset = e + 2 })
    ]

-- `case PARSER_HEADER`: the loop over the header lines.
unfoldable pub header_case : ℕ → Bool → Client → Option (Flow × Client)
header_case zero keep_alive c = none
header_case (suc fuel) keep_alive c = elim (strchr buffer_size c.buffer c.parser_offset b'\r') [
  | none ↦ some (accept, c)
  | some e ↦ elim (header_round keep_alive c e).0 [
    | accept ↦ header_case fuel keep_alive (header_round keep_alive c e).1
    | reject ↦ some (reject, (header_round keep_alive c e).1)
    | go_on ↦ some (go_on, (header_round keep_alive c e).1)
  ]
]
