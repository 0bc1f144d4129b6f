-- ===== src/Weighttp/Frame.antt =====
-- What `client_parse` (weighttp-master/src/client.c) leaves alone, whatever bytes arrive.
use reading_comment.Common.{
  ℕ, zero, suc, ◌≤◌, Bool, Option, none, some, ◌≡◌, refl, ◌⊎◌, inl, inr, arith, Option-cases, sub32,
}
use reading_comment.Common.Bytes.{store, strchr, strstr_crlf}
use reading_comment.Weighttp.Types.{end, Client, Stats, buffer_size}
use reading_comment.Weighttp.Status.{Flow, status_digits, count_status, status_line_end, start_case}
use reading_comment.Weighttp.Headers.{header_line, header_round, header_case}
use reading_comment.Weighttp.Chunks.{
  chunk_digits, chunk_rounds, chunk_open, chunk_header, chunk_data, chunk_case, plain_case,
  chunk_loop, body_case,
}
use reading_comment.Weighttp.Parser.{from_header, from_start, client_parse}

-- The connection is the same, the buffer is not fuller, and the state has not changed or is the end.
pub record Keeps (c c' : Client) : Type 0 where
  pub watcher : c'.watcher ≡ c.watcher
  pub offset : c'.buffer_offset ≤ c.buffer_offset
  pub state : (c'.state ≡ c.state) ⊎ (c'.state ≡ end)

-- The counters of the requests and bytes are the same.
pub record KeepsStats (s s' : Stats) : Type 0 where
  pub todo : s'.req_todo ≡ s.req_todo
  pub started : s'.req_started ≡ s.req_started
  pub done : s'.req_done ≡ s.req_done
  pub success : s'.req_success ≡ s.req_success
  pub failed : s'.req_failed ≡ s.req_failed
  pub error : s'.req_error ≡ s.req_error

Keeps-refl : (c : Client) → Keeps c c
Keeps-refl c = record { watcher = refl; offset = omega arith; state = inl refl }

Keeps-trans : {c d e : Client} → Keeps c d → Keeps d e → Keeps c e
Keeps-trans k l = ground arith

status_line_end-Keeps :
    (c : Client) (s : Stats) (o : Option ℕ)
    → Keeps c (status_line_end c s o).1 × KeepsStats s (status_line_end c s o).2
unfolding status_line_end
status_line_end-Keeps c s none = ground arith
status_line_end-Keeps c s (some e) = ground arith

count_status-Keeps :
    (code : ℕ) (c : Client) (s : Stats) {c' : Client} {s' : Stats}
    → count_status code c s ≡ some (c', s')
    → Keeps c c' × KeepsStats s s'
unfolding count_status
count_status-Keeps code c s h = ground arith

start_case-Keeps :
    (c : Client) (s : Stats) → Keeps c (start_case c s).1 × KeepsStats s (start_case c s).2
unfolding start_case
start_case-Keeps c s = elim (Option-cases (status_digits 3 c.buffer 9 0)) [
  | inl e ↦ rw e (ground arith)
  | inr (code, e) ↦ rw e (elim (Option-cases (count_status code c s)) [
    | inl f ↦ rw f (ground arith)
    | inr (p, f) ↦ rw f (
        ground (
          arith,
          count_status-Keeps code c s {c' = p.0} {s' = p.1} f,
          status_line_end-Keeps p.0 p.1 (strchr buffer_size p.0.buffer 12 b'\r'),
        ))
  ])
]

header_line-Keeps :
    (k : Bool) (c : Client) (str : ℕ) {c' : Client} → header_line k c str ≡ some c' → Keeps c c'
unfolding header_line
header_line-Keeps k c str h = ground arith

header_round-Keeps : (k : Bool) (c : Client) (e : ℕ) → Keeps c (header_round k c e).1
unfolding header_round
header_round-Keeps k c e =
    let cut : Client = record c { buffer = store c.buffer e 0 } in
    elim (Option-cases (header_line k cut c.parser_offset)) [
      | inl f ↦ rw f (ground arith)
      | inr (c', f) ↦ rw f (ground (arith, header_line-Keeps k cut c.parser_offset {c' = c'} f))
    ]

chunk_data-Keeps : (c : Client) (size : ℕ) → Keeps c (chunk_data c size).1
unfolding chunk_data
chunk_data-Keeps c size = ground arith

chunk_open-Keeps : (c : Client) (size n : ℕ) (o : Option ℕ) → Keeps c (chunk_open c size n o).1
unfolding chunk_open
chunk_open-Keeps c size n none = ground arith
chunk_open-Keeps c size n (some e) = ground arith

chunk_header-Keeps : (c : Client) (size : ℕ) → Keeps c (chunk_header c size).1
unfolding chunk_header
chunk_header-Keeps c size =
    let (taken, n, str) = chunk_digits (chunk_rounds size) c.buffer c.parser_offset 0 in
    ground (arith, chunk_open-Keeps c size n (strstr_crlf buffer_size c.buffer str))

plain_case-Keeps : (c : Client) → Keeps c (plain_case c).1
unfolding plain_case
plain_case-Keeps c = ground arith

chunk_case-Keeps : (c : Client) (size : ℕ) → Keeps c (chunk_case c size).1
unfolding chunk_case
chunk_case-Keeps c size = ground (
  arith,
  chunk_header-Keeps c size,
  chunk_data-Keeps (chunk_header c size).1 (chunk_header c size).2,
)

chunk_loop-Keeps :
    (fuel : ℕ) (c : Client) (size : ℕ) {b : Bool} {c' : Client}
    → chunk_loop fuel c size ≡ some (b, c')
    → Keeps c c'
unfolding chunk_loop
chunk_loop-Keeps zero c size h = cc
chunk_loop-Keeps (suc fuel) c size {b} {c'} h = ground (
  arith,
  chunk_case-Keeps c size,
  chunk_loop-Keeps fuel (chunk_case c size).1 (chunk_case c size).2 {b = b} {c' = c'},
)

body_case-Keeps :
    (c : Client) (size : ℕ) {b : Bool} {c' : Client} → body_case c size ≡ some (b, c') → Keeps c c'
unfolding body_case
body_case-Keeps c size {b} {c'} h =
    ground (arith, plain_case-Keeps c, chunk_loop-Keeps buffer_size c size {b = b} {c' = c'})

header_case-Keeps :
    (fuel : ℕ) (k : Bool) (c : Client) {f : Flow} {c' : Client}
    → header_case fuel k c ≡ some (f, c')
    → Keeps c c'
unfolding header_case
header_case-Keeps zero k c h = cc
header_case-Keeps (suc fuel) k c {f} {c'} h =
    elim (Option-cases (strchr buffer_size c.buffer c.parser_offset b'\r')) [
      | inl none_left ↦ ground arith
      | inr (e, found) ↦ ground (
        arith,
        header_round-Keeps k c e,
        header_case-Keeps fuel k (header_round k c e).1 {f = f} {c' = c'},
      )
    ]

from_header-Keeps :
    (k : Bool) (c : Client) (size : ℕ) {b : Bool} {c' : Client}
    → from_header k c size ≡ some (b, c')
    → Keeps c c'
unfolding from_header
from_header-Keeps k c size {b} {c'} h = elim (Option-cases (header_case buffer_size k c)) [
  | inl e ↦ ground arith
  | inr (r, e) ↦ ground (
    arith,
    header_case-Keeps buffer_size k c {f = r.0} {c' = r.1} e,
    body_case-Keeps r.1 (sub32 size r.1.header_size) {b = b} {c' = c'},
  )
]

-- The parser keeps the connection and the request counters, never fills the buffer further, and
-- leaves the client's state as it was or ends it.
pub client_parse-Keeps :
    (k : Bool) (c : Client) (s : Stats) (size : ℕ) {b : Bool} {c' : Client} {s' : Stats}
    → client_parse k c s size ≡ some (b, c', s')
    → Keeps c c' × KeepsStats s s'
unfolding client_parse from_start
client_parse-Keeps k c s size {b} {c'} {s'} h = ground (
  arith,
  start_case-Keeps c s,
  from_header-Keeps k (start_case c s).1 size {b = b} {c' = c'},
  from_header-Keeps k c size {b = b} {c' = c'},
  body_case-Keeps c size {b = b} {c' = c'},
)
