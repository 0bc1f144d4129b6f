-- ===== src/Weighttp/Options.antt =====
-- The options of `main` in weighttp-master/src/weighttp.c, as `getopt` hands them over, and the
-- checks on them. The result is an exit status or the settings to run with.
pub mod Sane
use reading_comment.Common.{
  ℕ, zero, suc, ◌+◌, ◌%◌, ◌<◌, ◌≤◌, Bool, true, false, not, ◌&&◌, ◌||◌, List, [], ◌∷◌, ◌++◌, ◌==◌,
  ltb, if◌then◌else◌, take, length, u8_mod, u16_mod, minus_one64,
}
use reading_comment.Common.Bytes.{Bytes}
use reading_comment.Weighttp.Number.{str_to_uint64, atoi}

-- What one call of `getopt` with ":hv6kn:t:c:H:" finds.
pub data Opt : Type 0 where
  help version ipv6 keep_alive unknown missing : Opt
  requests threads clients header : Bytes → Opt

-- The part of `config` that the options set, with the array of headers and its 8-bit count.
pub record Settings : Type 0 where
  pub use_ipv6 : Bool
  pub keep_alive : Bool
  pub req_count : ℕ
  pub thread_count : ℕ
  pub concur_count : ℕ
  pub headers : List Bytes
  pub headers_num : ℕ

pub data Parsed : Type 0 where
  exit : ℕ → Parsed
  run : Settings → Parsed

abbrev pub defaults : Settings
defaults = record {
  use_ipv6 = false;
  keep_alive = false;
  req_count = 0;
  thread_count = 1;
  concur_count = 1;
  headers = [];
  headers_num = 0;
}

-- One option. `W_REALLOC` makes the array one longer than `headers_num`.
unfoldable pub take_option : Opt → Settings → Parsed
take_option help s = exit 0
take_option version s = exit 0
take_option ipv6 s = run (record s { use_ipv6 = true })
take_option keep_alive s = run (record s { keep_alive = true })
take_option (requests arg) s = run (record s { req_count = str_to_uint64 arg })
take_option (threads arg) s = run (record s { thread_count = atoi arg % u8_mod })
take_option (clients arg) s = run (record s { concur_count = atoi arg % u16_mod })
take_option (header arg) s = run (record s {
  headers = take s.headers_num s.headers ++ (arg ∷ []);
  headers_num = (s.headers_num + 1) % u8_mod;
})
take_option unknown s = exit 1
take_option missing s = exit 1

-- The loop over the options.
unfoldable pub take_options : List Opt → Settings → Parsed
take_options [] s = run s
take_options (o ∷ os) s = elim (take_option o s) [
  | exit status ↦ exit status
  | run s' ↦ take_options os s'
]

-- The checks behind the loop; `left` is `argc - optind`.
unfoldable pub check_settings : ℕ → Settings → Parsed
check_settings left s =
    if ltb left 1
    then exit 1
    else if ltb 1 left
    then exit 1
    else if s.thread_count == 0
    then exit 1
    else if s.concur_count == 0
    then exit 1
    else if s.req_count == 0
    then exit 1
    else if s.req_count == minus_one64
        || ltb s.req_count s.thread_count
        || ltb s.concur_count s.thread_count
        || ltb s.req_count s.concur_count
    then exit 1
    else run s

unfoldable pub read_arguments : List Opt → ℕ → Parsed
read_arguments os left = elim (take_options os defaults) [
  | exit status ↦ exit status
  | run s ↦ check_settings left s
]
