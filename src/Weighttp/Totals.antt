-- ===== src/Weighttp/Totals.antt =====
-- The loop of `main` (weighttp-master/src/weighttp.c) that joins the threads and adds up their counters.
pub mod Sums
use reading_comment.Common.{ℕ, List, [], ◌∷◌, add64}
use reading_comment.Weighttp.Types.{Stats}

-- The counters of `stats` in `main` that the loop adds to; `req_error` and `req_todo` stay 0.
pub record Totals : Type 0 where
  pub req_started : ℕ
  pub req_done : ℕ
  pub req_success : ℕ
  pub req_failed : ℕ
  pub bytes_total : ℕ
  pub bytes_body : ℕ
  pub req_2xx : ℕ
  pub req_3xx : ℕ
  pub req_4xx : ℕ
  pub req_5xx : ℕ

-- `memset(&stats, 0, sizeof(stats))`
abbrev pub no_totals : Totals
no_totals = record {
  req_started = 0;
  req_done = 0;
  req_success = 0;
  req_failed = 0;
  bytes_total = 0;
  bytes_body = 0;
  req_2xx = 0;
  req_3xx = 0;
  req_4xx = 0;
  req_5xx = 0;
}

unfoldable pub add_worker : Totals → Stats → Totals
add_worker t s = record {
  req_started = add64 t.req_started s.req_started;
  req_done = add64 t.req_done s.req_done;
  req_success = add64 t.req_success s.req_success;
  req_failed = add64 t.req_failed s.req_failed;
  bytes_total = add64 t.bytes_total s.bytes_total;
  bytes_body = add64 t.bytes_body s.bytes_body;
  req_2xx = add64 t.req_2xx s.req_2xx;
  req_3xx = add64 t.req_3xx s.req_3xx;
  req_4xx = add64 t.req_4xx s.req_4xx;
  req_5xx = add64 t.req_5xx s.req_5xx;
}

-- The loop over the threads, none of which fails to be joined.
unfoldable pub add_workers : Totals → List Stats → Totals
add_workers t [] = t
add_workers t (s ∷ ss) = add_workers (add_worker t s) ss
