-- ===== src/Weighttp/Types.antt =====
-- The data of weighttp: weighttp-master/src/client.h, worker.h and weighttp.h.
use reading_comment.Common.{ℕ, ◌*◌, Option, Bool, List}
use reading_comment.Common.Bytes.{Memory}

pub data ClientState : Type 0 where
  start connecting writing reading error end : ClientState

pub data ParserState : Type 0 where
  parse_start parse_header parse_body : ParserState

-- `ev_io sock_watcher`: its descriptor (`none` for -1), the two event bits that the program uses,
-- and whether it is started on the worker's loop.
pub record Watcher : Type 0 where
  pub fd : Option ℕ
  pub read : Bool
  pub write : Bool
  pub active : Bool

-- `struct Client`, without the two time stamps, which are only ever set to 0. The signed fields
-- `chunk_size`, `chunk_received` and `content_length` are 64-bit patterns.
pub record Client : Type 0 where
  pub state : ClientState
  pub parser_state : ParserState
  pub watcher : Watcher
  pub buffer_offset : ℕ
  pub parser_offset : ℕ
  pub request_offset : ℕ
  pub keepalive : Bool
  pub success : Bool
  pub status_success : Bool
  pub chunked : Bool
  pub chunk_size : ℕ
  pub chunk_received : ℕ
  pub content_length : ℕ
  pub bytes_received : ℕ
  pub header_size : ℕ
  pub buffer : Memory

-- `struct Stats`, without the fields that nothing writes.
pub record Stats : Type 0 where
  pub req_todo : ℕ
  pub req_started : ℕ
  pub req_done : ℕ
  pub req_success : ℕ
  pub req_failed : ℕ
  pub req_error : ℕ
  pub bytes_total : ℕ
  pub bytes_body : ℕ
  pub req_2xx : ℕ
  pub req_3xx : ℕ
  pub req_4xx : ℕ
  pub req_5xx : ℕ

-- `struct Config`, without the address, which only `connect` sees.
pub record Config : Type 0 where
  pub req_count : ℕ
  pub thread_count : ℕ
  pub concur_count : ℕ
  pub keep_alive : Bool
  pub request_size : ℕ

-- `sizeof(client->buffer)`, CLIENT_BUFFER_SIZE
abbrev pub buffer_size : ℕ
buffer_size = 32 * 1024

-- `struct Worker` with the client that its event loop is running. `unrefs` counts the calls of
-- `ev_unref`, and `printed` holds the percentages that were printed, the last one first.
pub record Session : Type 0 where
  pub id : ℕ
  pub config : Config
  pub progress_interval : ℕ
  pub stats : Stats
  pub unrefs : ℕ
  pub printed : List ℕ
  pub client : Client
