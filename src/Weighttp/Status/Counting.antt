-- ===== src/Weighttp/Status/Counting.antt =====
-- The status line of a response (`client_parse`, weighttp-master/src/client.c) and the counters.
use reading_comment.Common.{
  ℕ, zero, suc, if◌then◌else◌, ◌+◌, ◌*◌, ◌≤◌, ◌<◌, true, false, some, ◌≡◌, arith, ltb, u64_mod,
}
use reading_comment.Common.Bytes.{Memory, codes, has_prefix, strchr}
use reading_comment.Weighttp.Types.{Client, Stats, buffer_size, parse_header}
use reading_comment.Weighttp.Status.{
  go_on, status_digits, count_status, status_line_end, start_case,
}

-- The responses counted by their status.
abbrev pub counted : Stats → ℕ
counted s = s.req_2xx + s.req_3xx + s.req_4xx + s.req_5xx

-- One more response whose code begins with the digit `a`, which is 5 at most.
abbrev pub one_more : ℕ → Stats → Stats
one_more zero s = record s { req_3xx = s.req_3xx + 1 }
one_more (suc zero) s = record s { req_3xx = s.req_3xx + 1 }
one_more (suc (suc zero)) s = record s { req_2xx = s.req_2xx + 1 }
one_more (suc (suc (suc zero))) s = record s { req_3xx = s.req_3xx + 1 }
one_more (suc (suc (suc (suc zero)))) s = record s { req_4xx = s.req_4xx + 1 }
one_more (suc (suc (suc (suc (suc _))))) s = record s { req_5xx = s.req_5xx + 1 }

abbrev succeeds : ℕ → Client → Client
succeeds a c = if ltb a 4 then record c { status_success = true } else c

count_status-one_more :
    (a b d : ℕ) (c : Client) (s : Stats)
    → a < 6
    → b < 10
    → d < 10
    → counted s + 1 < u64_mod
    → count_status (100 * a + 10 * b + d) c s ≡ some (succeeds a c, one_more a s)
unfolding count_status
count_status-one_more zero b d c s h k l r = ground arith
count_status-one_more (suc zero) b d c s h k l r = ground arith
count_status-one_more (suc (suc zero)) b d c s h k l r = ground arith
count_status-one_more (suc (suc (suc zero))) b d c s h k l r = ground arith
count_status-one_more (suc (suc (suc (suc zero)))) b d c s h k l r = ground arith
count_status-one_more (suc (suc (suc (suc (suc zero))))) b d c s h k l r = ground arith
count_status-one_more (suc (suc (suc (suc (suc (suc a)))))) b d c s h k l r = absurd (omega arith)

digits_value :
    (m : Memory) (i a b d : ℕ)
    → m i ≡ b'0' + a
    → m (i + 1) ≡ b'0' + b
    → m (i + 1 + 1) ≡ b'0' + d
    → a < 10
    → b < 10
    → d < 10
    → status_digits 3 m i 0 ≡ some (100 * a + 10 * b + d)
unfolding status_digits
digits_value m i a b d ha hb hd la lb ld = ground arith

-- With 15 bytes in the buffer, no status counted as a success before and room in the counters, a
-- whole status line with a code below 600 moves the parser on to the headers behind it, adds one to
-- the counter of the first digit and changes no other (2, 4 and 5 have their own; 0, 1 and 3 are
-- counted as 3xx), and marks the response a success just when the code is below 400.
pub start_case-counts :
    (c : Client) (s : Stats) (a b d e : ℕ)
    → 15 ≤ c.buffer_offset
    → has_prefix c.buffer 0 (codes "HTTP/1.1 ") ≡ true
    → c.buffer 9 ≡ b'0' + a
    → c.buffer 10 ≡ b'0' + b
    → c.buffer 11 ≡ b'0' + d
    → a < 6
    → b < 10
    → d < 10
    → strchr buffer_size c.buffer 12 b'\r' ≡ some e
    → c.buffer (e + 1) ≡ b'\n'
    → c.status_success ≡ false
    → counted s + 1 < u64_mod
    → let (flow, c', s') = start_case c s in
      (flow ≡ go_on)
      × (c'.parser_state ≡ parse_header)
      × (c'.parser_offset ≡ e + 2)
      × (s' ≡ one_more a s)
      × (c'.status_success ≡ ltb (100 * a + 10 * b + d) 400)
unfolding start_case status_line_end
start_case-counts c s a b d e ready prefix ha hb hd la lb ld found crlf fresh small = ground (
  arith,
  digits_value c.buffer 9 a b d ha hb hd (omega arith) lb ld,
  count_status-one_more a b d c s la lb ld small,
)
