-- ===== src/Weighttp/Parser/ShortRead.antt =====
-- A chunked response whose headers take more than one read (`client_parse`,
-- weighttp-master/src/client.c): the size that is left for the body is negative.
use reading_comment.Common.{ℕ, suc, ◌^◌, ◌≤◌, ◌<◌, Bool, true, some, ◌≡◌, arith, sub32, minus_one64}
use reading_comment.Common.Bytes.{strstr_crlf}
use reading_comment.Weighttp.Types.{end, Client, buffer_size}
use reading_comment.Weighttp.Status.{accept, go_on}
use reading_comment.Weighttp.Headers.{header_case}
use reading_comment.Weighttp.Chunks.{
  chunk_digits, chunk_open, chunk_header, chunk_case, chunk_loop, body_case,
}
use reading_comment.Weighttp.Parser.{from_header}

module _ (c : Client) (size e : ℕ) (negative : 2 ^ 31 ≤ size) (unread : c.chunk_size ≡ minus_one64)
    (line_end : strstr_crlf buffer_size c.buffer c.parser_offset ≡ some e) where
  chunk_case-negative :
      ((chunk_case c size).0 ≡ accept)
      × ((chunk_case c size).1.state ≡ end)
      × ((chunk_case c size).1.success ≡ c.status_success)
  unfolding chunk_case chunk_header chunk_open chunk_digits
  chunk_case-negative = ground arith

  chunk_loop-negative :
      (fuel : ℕ) → chunk_loop (suc fuel) c size ≡ some (true, (chunk_case c size).1)
  unfolding chunk_loop
  chunk_loop-negative fuel = ground (arith, chunk_case-negative)

-- When the headers of a chunked response, of at most 32768 bytes, end in a read that brought fewer
-- bytes than they are long, before any chunk, and a line end stands behind them in the buffer: the
-- response is accepted at once, and the client is at its end, with the success that the status gives.
pub from_header-short_read :
    (k : Bool) (c : Client) (size : ℕ) {c' : Client} (e : ℕ)
    → header_case buffer_size k c ≡ some (go_on, c')
    → c'.chunked ≡ true
    → c'.chunk_size ≡ minus_one64
    → size < c'.header_size
    → c'.header_size ≤ buffer_size
    → strstr_crlf buffer_size c'.buffer c'.parser_offset ≡ some e
    → (d : Client) × (from_header k c size ≡ some (true, d))
      × (d.state ≡ end)
      × (d.success ≡ c'.status_success)
unfolding from_header body_case
from_header-short_read k c size {c'} e headers chunked unread short bound line_end =
    let left = sub32 size c'.header_size in
    let negative : 2 ^ 31 ≤ left = omega arith in
    let (accepted, ended, success) = chunk_case-negative c' left e negative unread line_end in
    (
      (chunk_case c' left).1,
      ground (arith, chunk_loop-negative c' left e negative unread line_end 32767),
      ended,
      success,
    )
