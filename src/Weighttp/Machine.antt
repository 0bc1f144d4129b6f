-- ===== src/Weighttp/Machine.antt =====
-- `client_new`, `client_reset`, `client_connect` and `client_state_machine` of
-- weighttp-master/src/client.c. A run of the state machine is a sequence of steps, each with one
-- system call at most, whose result the environment chooses.
use reading_comment.Common.{
  ℕ, ◌+◌, ◌-◌, ◌*◌, ◌/◌, ◌%◌, Bool, true, false, not, ◌&&◌, Option, none, some, [], ◌∷◌, leb, ◌==◌,
  if◌then◌else◌, add32, add64, sub64, minus_one64, length, u32_mod, u64_mod,
}
use reading_comment.Common.Bytes.{Bytes, store, store_all}
use reading_comment.Weighttp.Types.{
  ClientState, start, connecting, writing, reading, error, end, parse_start, parse_body, Watcher,
  Client, Stats, Session, buffer_size,
}
use reading_comment.Weighttp.Parser.{client_parse}

-- What the system calls give back. EINPROGRESS and EALREADY are `in_progress`; any `errno` but
-- those that the code names is `failed`, with the text that `strerror_r` leaves in the buffer.
pub data SocketResult : Type 0 where
  interrupted : SocketResult
  failed : Bytes → SocketResult
  descriptor : ℕ → SocketResult

pub data ConnectResult : Type 0 where
  connected in_progress is_connected interrupted : ConnectResult
  failed : Bytes → ConnectResult

pub data WriteResult : Type 0 where
  interrupted : WriteResult
  failed : Bytes → WriteResult
  wrote : ℕ → WriteResult

pub data ReadResult : Type 0 where
  interrupted : ReadResult
  failed : Bytes → ReadResult
  received : Bytes → ReadResult

-- Where the state machine stands: at its switch, in the two loops of `case CLIENT_START`, in the
-- connect of `case CLIENT_CONNECTING`, at a loop's system call, at the two last cases, or out.
pub data Pc : Type 0 where
  at_switch at_socket at_first_connect at_connect at_write at_read at_error at_end returned : Pc

abbrev pub closed_watcher : Watcher
closed_watcher = record { fd = none; read = false; write = false; active = false }

-- `client_new`, in memory that `calloc` has cleared.
unfoldable pub client_new : Bool → Client
client_new keep_alive = record {
  state = start;
  parser_state = parse_start;
  watcher = closed_watcher;
  buffer_offset = 0;
  parser_offset = 0;
  request_offset = 0;
  keepalive = keep_alive;
  success = false;
  status_success = false;
  chunked = false;
  chunk_size = minus_one64;
  chunk_received = 0;
  content_length = minus_one64;
  bytes_received = 0;
  header_size = 0;
  buffer = λ _. 0;
}

abbrev pub same_bits : Bool → Bool → Bool
same_bits true b = b
same_bits false b = not b

-- `client_set_events`: nothing if the two bits are set so already; else stop, set and start.
unfoldable pub set_events : Watcher → Bool → Bool → Watcher
set_events w r wr =
    if same_bits w.read r && same_bits w.write wr
    then w
    else record w { read = r; write = wr; active = true }

-- The watcher is stopped and its descriptor closed, if it has one.
unfoldable pub close_watcher : Watcher → Watcher
close_watcher w = elim w.fd [ none ↦ w | some fd ↦ record w { fd = none; active = false } ]

-- The assignments at the end of `client_reset`.
unfoldable pub clear : Bool → Client → Client
clear keep_alive c = record c {
  parser_state = parse_start;
  buffer_offset = 0;
  parser_offset = 0;
  request_offset = 0;
  status_success = false;
  success = false;
  content_length = minus_one64;
  bytes_received = 0;
  header_size = 0;
  keepalive = keep_alive;
  chunked = false;
  chunk_size = minus_one64;
  chunk_received = 0;
}

-- `client_reset`
unfoldable pub client_reset : Session → Session
client_reset x =
    let c = x.client in
    if not c.keepalive
    then record x {
      client =
          clear x.config.keep_alive (record c { watcher = close_watcher c.watcher; state = start });
    }
    else record x {
      client =
          clear x.config.keep_alive
            (record c { watcher = set_events c.watcher false true; state = writing });
      stats = record x.stats { req_started = add64 x.stats.req_started 1 };
    }

-- `strerror_r(errno, client->buffer, sizeof(client->buffer))`
unfoldable pub describe : Bytes → Client → Client
describe text c = record c { buffer = store_all c.buffer 0 text }

-- What `client_connect` does with the result of `connect`: `none` calls it again, and the flag is
-- what it returns.
unfoldable pub client_connect : ConnectResult → Client → Option (Bool × Client)
client_connect connected c = some (true, record c { state = writing })
client_connect is_connected c = some (true, record c { state = writing })
client_connect in_progress c = some (true, record c { state = connecting })
client_connect interrupted c = none
client_connect (failed text) c = some (false, describe text c)

abbrev pub to_error : Session → Client → Session
to_error x c = record x { client = record c { state = error } }

-- `switch (client->state)`; `case CLIENT_START` counts the request at once.
unfoldable pub on_switch : Session → Pc × Session
on_switch x = elim x.client.state [
  | start ↦
      (at_socket, record x { stats = record x.stats { req_started = add64 x.stats.req_started 1 } })
  | connecting ↦ (at_connect, x)
  | writing ↦ (at_write, x)
  | reading ↦ (at_read, x)
  | error ↦ (at_error, x)
  | end ↦ (at_end, x)
]

-- `socket`, then the set-up of the watcher.
unfoldable pub on_socket : SocketResult → Session → Pc × Session
on_socket interrupted x = (at_socket, x)
on_socket (failed text) x = (at_switch, to_error x (describe text x.client))
on_socket (descriptor fd) x = (
  at_first_connect,
  record x {
    client = record x.client {
      watcher = record { fd = some fd; read = false; write = true; active = true };
    };
  },
)

abbrev first_connected : Session → Option (Bool × Client) → Pc × Session
first_connected x none = (at_first_connect, x)
first_connected x (some (true, c)) =
    (returned, record x { client = record c { watcher = set_events c.watcher false true } })
first_connected x (some (false, c)) = (at_switch, to_error x c)

-- `connect` in `case CLIENT_START`
unfoldable pub on_first_connect : ConnectResult → Session → Pc × Session
on_first_connect r x = first_connected x (client_connect r x.client)

abbrev connected_again : Session → Option (Bool × Client) → Pc × Session
connected_again x none = (at_connect, x)
connected_again x (some (true, c)) = (at_write, record x { client = c })
connected_again x (some (false, c)) = (at_switch, to_error x c)

-- `connect` in `case CLIENT_CONNECTING`, which falls into `case CLIENT_WRITING`.
unfoldable pub on_connect : ConnectResult → Session → Pc × Session
on_connect r x = connected_again x (client_connect r x.client)

-- `write`: `r` bytes went out, 0 of them if the peer is gone.
unfoldable pub on_write : WriteResult → Session → Pc × Session
on_write interrupted x = (at_write, x)
on_write (failed text) x = (at_switch, to_error x (describe text x.client))
on_write (wrote r) x =
    let c = record x.client { request_offset = add32 x.client.request_offset r } in
    if r == 0
    then (at_switch, record x { client = record x.client { state = end } })
    else if c.request_offset == x.config.request_size
    then (
      returned,
      record x { client = record c { state = reading; watcher = set_events c.watcher true false } },
    )
    else (returned, record x { client = c })

-- What `read` asks for: the room that is left, but for a terminator.
abbrev pub room : Client → ℕ
room c = buffer_size - c.buffer_offset - 1

-- The bytes are stored and counted.
unfoldable pub take_in : Session → Bytes → Session
take_in x bs =
    let c = x.client in
    let r = length bs in
    record x {
      client = record c {
        bytes_received = add64 c.bytes_received r;
        buffer_offset = add32 c.buffer_offset r;
        buffer = store_all c.buffer c.buffer_offset bs;
      };
      stats = record x.stats { bytes_total = add64 x.stats.bytes_total r };
    }

abbrev is_end : ClientState → Bool
is_end end = true
is_end _ = false

-- Behind `client_parse`. `break` leaves the loop and falls into `case CLIENT_ERROR`.
abbrev pub after_parse : Session → Bool × Client × Stats → Pc × Session
after_parse x (true, c, s) =
    (if is_end c.state then at_switch else returned, record x { client = c; stats = s })
after_parse x (false, c, s) = (at_error, to_error (record x { stats = s }) c)

-- The peer has closed the connection: that ends a body with no length, if nothing is kept alive.
abbrev peer_closed : Client → Client
peer_closed c = elim c.parser_state [
  | parse_body ↦
      if not c.keepalive && c.status_success && not c.chunked && c.content_length == minus_one64
      then record c { success = true; state = end }
      else record c { state = error }
  | _ ↦ record c { state = error }
]

-- `client->buffer[client->buffer_offset] = 0`
abbrev pub terminate : Client → Client
terminate c = record c { buffer = store c.buffer c.buffer_offset 0 }

abbrev parsed : Session → Option (Bool × Client × Stats) → Option (Pc × Session)
parsed x none = none
parsed x (some r) = some (after_parse x r)

-- A read that brought bytes. `none` is a parse that ran out of fuel.
unfoldable pub on_bytes : Session → Bytes → Option (Pc × Session)
on_bytes x bs =
    let y = take_in x bs in
    if leb buffer_size y.client.buffer_offset
    then some (at_error, to_error y y.client)
    else parsed y
        (client_parse x.config.keep_alive (terminate y.client) y.stats (length bs % u32_mod))

-- `read`. After an error other than EINTR the state is CLIENT_ERROR, but nothing leaves the loop.
unfoldable pub on_read : ReadResult → Session → Option (Pc × Session)
on_read interrupted x = some (at_read, x)
on_read (failed text) x = some (at_read, to_error x (describe text x.client))
on_read (received []) x = some (at_switch, record x { client = peer_closed x.client })
on_read (received (b ∷ bs)) x = on_bytes x (b ∷ bs)

-- `case CLIENT_ERROR`
unfoldable pub on_error : Session → Pc × Session
on_error x = (
  at_end,
  record x {
    client = record x.client { keepalive = false; success = false; state = end };
    stats = record x.stats { req_error = add64 x.stats.req_error 1 };
  },
)

-- The counters of a request that is done.
unfoldable pub count_done : Client → Stats → Stats
count_done c s =
    if c.success
    then record s {
      req_done = add64 s.req_done 1;
      req_success = add64 s.req_success 1;
      bytes_body = add64 s.bytes_body (sub64 c.bytes_received c.header_size);
    }
    else record s { req_done = add64 s.req_done 1; req_failed = add64 s.req_failed 1 }

-- Worker 1 prints its progress at each tenth.
unfoldable pub print_progress : Session → Session
print_progress x =
    if x.id == 1 && x.stats.req_done % x.progress_interval == 0
    then record x {
      printed = (x.stats.req_done * 100 % u64_mod / x.stats.req_todo % u32_mod) ∷ x.printed;
    }
    else x

-- What `case CLIENT_END` does once the request is counted.
unfoldable pub next_request : Session → Pc × Session
next_request y =
    let last = client_reset (record y { client = record y.client { keepalive = false } }) in
    if y.stats.req_started == y.stats.req_todo
    then (
      returned,
      if last.stats.req_done == last.stats.req_todo
          then record last { unrefs = last.unrefs + 1 }
          else last,
    )
    else (at_switch, client_reset y)

-- `case CLIENT_END`
unfoldable pub on_end : Session → Pc × Session
on_end x = next_request (print_progress (record x { stats = count_done x.client x.stats }))
