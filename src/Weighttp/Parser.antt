-- ===== src/Weighttp/Parser.antt =====
-- `client_parse` of weighttp-master/src/client.c: the response parser, which resumes at
-- `parser_state` each time that bytes arrive. A result `none` is a loop that ran out of fuel.
pub mod ShortRead
use reading_comment.Common.{ℕ, Bool, true, false, Option, none, some, sub32}
use reading_comment.Weighttp.Types.{
  parse_start, parse_header, parse_body, Client, Stats, buffer_size,
}
use reading_comment.Weighttp.Status.{Flow, accept, reject, go_on}
use reading_comment.Weighttp.Status.{start_case}
use reading_comment.Weighttp.Headers.{header_case}
use reading_comment.Weighttp.Chunks.{body_case}

-- `case PARSER_HEADER` and what it falls into.
unfoldable pub from_header : Bool → Client → ℕ → Option (Bool × Client)
from_header keep_alive c size = elim (header_case buffer_size keep_alive c) [
  | none ↦ none
  | some (f, c') ↦ elim f [
    | accept ↦ some (true, c')
    | reject ↦ some (false, c')
    | go_on ↦ body_case c' (sub32 size c'.header_size)
  ]
]

abbrev with_stats : Stats → Option (Bool × Client) → Option (Bool × Client × Stats)
with_stats s none = none
with_stats s (some (b, c)) = some (b, c, s)

-- Behind `case PARSER_START`.
unfoldable pub from_start : Bool → ℕ → Flow × Client × Stats → Option (Bool × Client × Stats)
from_start keep_alive size (accept, c, s) = some (true, c, s)
from_start keep_alive size (reject, c, s) = some (false, c, s)
from_start keep_alive size (go_on, c, s) = with_stats s (from_header keep_alive c size)

-- `client_parse`: whether it returns 1, with the client and the worker's counters.
unfoldable pub client_parse : Bool → Client → Stats → ℕ → Option (Bool × Client × Stats)
client_parse keep_alive c s size = elim c.parser_state [
  | parse_start ↦ from_start keep_alive size (start_case c s)
  | parse_header ↦ with_stats s (from_header keep_alive c size)
  | parse_body ↦ with_stats s (body_case c size)
]
