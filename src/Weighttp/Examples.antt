-- ===== src/Weighttp/Examples.antt =====
-- The settings, the url, the request, the addresses and the parser of weighttp-master/src on concrete
-- inputs.
use reading_comment.Common.{
  ℕ, ◌+◌, ◌<◌, ◌≤◌, ◌≡◌, refl, true, false, Option, some, none, List, [], ◌∷◌, arith, length, sum,
  map, minus_one64,
}
use reading_comment.Common.Bytes.{
  Bytes, codes, has_prefix, has_prefix_nocase, strchr, strstr_crlf, store_all,
}
use reading_comment.Weighttp.Types.{Client, parse_header, parse_body, reading, end, buffer_size}
use reading_comment.Weighttp.Number.{
  to_uint64_from, str_to_uint64, digits_from, signed_digits, atoi, decimal16,
}
use reading_comment.Common.Strings.{decimal_onto}
use reading_comment.Weighttp.Number.Values.{str_to_uint64_lem}
use reading_comment.Weighttp.Status.{Flow, go_on, start_case}
use reading_comment.Weighttp.Status.Counting.{start_case-counts}
use reading_comment.Weighttp.Headers.{header_line, header_round, header_case}
use reading_comment.Weighttp.Headers.Progress.{header_case_total}
use reading_comment.Weighttp.Parser.{from_header}
use reading_comment.Weighttp.Chunks.{
  chunk_case, chunk_header, chunk_open, chunk_data, chunk_digits, chunk_digit,
}
use reading_comment.Weighttp.Parser.ShortRead.{from_header-short_read}
use reading_comment.Weighttp.Machine.{client_new}
use reading_comment.Weighttp.Pool.{fresh_stats}
use reading_comment.Weighttp.Options.{
  Opt, requests, threads, clients, Settings, run, defaults, take_option, take_options,
  check_settings, read_arguments,
}
use reading_comment.Weighttp.Options.Sane.{IsSane, read_arguments-IsSane}
use reading_comment.Weighttp.Split.{shares}
use reading_comment.Weighttp.Split.Shares.{All, IsFair, shares_lem}
use reading_comment.Weighttp.Request.{
  Forged, made, none_found, forge_request, raw_size, request_size, request_text, host_value,
  other_headers, strip_scheme, starts_with, split_at, with_port, check_target, scan_headers,
  split_url,
}
use reading_comment.Weighttp.Request.Size.{overruns, forge_request-size}
use reading_comment.Weighttp.Request.Url.{split_url-with_port}

-- `weighttp -n 10 -t 2 -c 3`
abbrev options : List Opt
options = requests (codes "10") ∷ threads (codes "2") ∷ clients (codes "3") ∷ []

abbrev settings : Settings
settings = record defaults { req_count = 10; thread_count = 2; concur_count = 3 }

abbrev one : ℕ
one = 1

settings_read : read_arguments options 1 ≡ run settings
unfolding read_arguments take_options take_option check_settings str_to_uint64 to_uint64_from atoi
    signed_digits digits_from
settings_read = refl

read_arguments-IsSane_example : IsSane settings × (one ≡ 1)
read_arguments-IsSane_example = read_arguments-IsSane options one settings_read

shares_lem_example :
    (length (shares settings) ≡ 2)
    × (sum (map (λ h. h.concur) (shares settings)) ≡ 3)
    × (sum (map (λ h. h.reqs) (shares settings)) ≡ 10)
    × All (IsFair 1 5) (shares settings)
    × (0 < 1)
shares_lem_example = shares_lem settings read_arguments-IsSane_example.0

str_to_uint64_lem_example : str_to_uint64 (codes "1024") ≡ 1024
str_to_uint64_lem_example = str_to_uint64_lem (codes "1024")

split_url-with_port_example :
    split_url (codes "host:8080/a") ≡ record { host = codes "host"; port = 8080; path = codes "/a" }
unfolding decimal16 decimal_onto
split_url-with_port_example =
    split_url-with_port (codes "host") 8080 (codes "a") (ground arith) (omega arith)

-- A request with the port and the connection that `len` leaves no room for.
abbrev long_url : Bytes
long_url = codes "http://h:10000/"

abbrev forged : Forged
forged = record {
  target = record { host = codes "h"; port = 10000; path = codes "/" };
  found = none_found;
  size = 83;
  text =
      codes
        "GET / HTTP/1.1\r\nHost: h:10000\r\nUser-Agent: weighttp/0.3\r\nConnection: keep-alive\r\n\r\n";
}

request_forged : forge_request long_url true [] ≡ made forged
unfolding forge_request strip_scheme starts_with split_url split_at with_port check_target
    scan_headers request_size raw_size request_text host_value other_headers atoi signed_digits
    digits_from decimal16 decimal_onto
request_forged = refl

forge_request-size_example :
    (overruns true forged ≡ false → length forged.text + 1 ≤ 83)
    × (overruns true forged ≡ true → length forged.text + 1 ≡ 84)
unfolding raw_size
forge_request-size_example = forge_request-size long_url true [] request_forged (omega arith)

abbrev response : Bytes
response = codes "HTTP/1.1 200 OK\r\nTransfer-Encoding: chunked\r\n\r\n3\r\nabc\r\n0\r\n\r\n"

-- The response stands in the buffer.
abbrev client : Client
client = record (client_new false) {
  state = reading;
  buffer_offset = length response;
  buffer = store_all (λ _. 0) 0 response;
}

-- Its status line is read.
abbrev at_headers : Client
at_headers = record client {
  parser_state = parse_header;
  parser_offset = 17;
  status_success = true;
}

start_case-counts_example :
    let (flow, c', s') = start_case client (fresh_stats 1) in
    (flow ≡ go_on)
    × (c'.parser_state ≡ parse_header)
    × (c'.parser_offset ≡ 17)
    × (s' ≡ record (fresh_stats 1) { req_2xx = 1 })
    × (c'.status_success ≡ true)
unfolding client_new store_all has_prefix strchr
start_case-counts_example =
    start_case-counts client (fresh_stats 1) 2 0 0 15 (omega arith) refl refl refl refl
      (omega arith) (omega arith) (omega arith) refl refl refl (omega arith)

header_case_total_example : (r : Flow × Client) × (header_case 100 false at_headers ≡ some r)
unfolding client_new store_all
header_case_total_example =
    header_case_total 100 false at_headers (length response) refl (omega arith) (omega arith)

abbrev headers_read : Option (Flow × Client) → Client
headers_read none = at_headers
headers_read (some (f, c)) = c

from_header-short_read_example :
    (d : Client) × (from_header false at_headers 2 ≡ some (true, d))
    × (d.state ≡ end)
    × (d.success ≡ true)
unfolding client_new store_all has_prefix_nocase strchr strstr_crlf header_case header_round
    header_line
from_header-short_read_example =
    from_header-short_read false at_headers 2
      {c' = headers_read (header_case buffer_size false at_headers)} 48 refl refl refl (omega arith)
      (omega arith) refl

-- Its headers are read.
abbrev in_body : Client
in_body = record at_headers {
  parser_state = parse_body;
  parser_offset = 47;
  chunked = true;
  chunk_size = minus_one64;
}

-- A chunk of -20 bytes: the parser is back at its size line.
abbrev endless : Client
endless = record in_body {
  buffer = store_all (λ _. 0) 0 (codes "\r\nFFFFFFFFFFFFFFEC\r\n");
  parser_offset = 2;
}

endless_chunk : chunk_case endless 18 ≡ (go_on, endless, 18)
unfolding client_new store_all chunk_case chunk_header chunk_open chunk_data chunk_digits
    chunk_digit strstr_crlf
endless_chunk = refl
