-- ===== src/Weighttp/Polling.antt =====
-- The watcher of a client along a run of `client_state_machine` (weighttp-master/src/client.c).
use reading_comment.Common.{
  ◌==◌, ◌%◌, inl, inr, ◌≤◌, ◌<◌, Bool, true, false, none, some, ◌≡◌, ◌⊎◌, arith, Option-cases,
  Bool-cases, length, u32_mod, [], ◌∷◌,
}
use reading_comment.Common.Bytes.{Bytes}
use reading_comment.Weighttp.Types.{
  ClientState, start, connecting, writing, reading, error, end, Watcher, Session, buffer_size,
}
use reading_comment.Weighttp.Machine.{
  SocketResult, ConnectResult, WriteResult, ReadResult, received, interrupted, failed, Pc,
  at_switch, at_socket, at_first_connect, at_connect, at_write, at_read, at_error, at_end, returned,
  room, on_switch, on_socket, on_first_connect, on_connect, on_write, on_read, on_error, on_end,
  next_request, on_bytes, take_in, terminate, client_connect, count_done, describe, set_events,
  close_watcher,
}
use reading_comment.Weighttp.Parser.{client_parse}
use reading_comment.Weighttp.Frame.{client_parse-Keeps}
use reading_comment.Weighttp.Reset.{print_progress-keeps, client_reset-closes, client_reset-reuses}
use reading_comment.Weighttp.Run.{Step, Steps, here, next, Fits}
use reading_comment.Weighttp.Run

abbrev pub has_fd : Watcher → Bool
has_fd w = elim w.fd [ none ↦ false | some _ ↦ true ]

-- No descriptor, and nothing started on the loop.
abbrev pub Closed : Watcher → Type 0
Closed w = (has_fd w ≡ false) × (w.active ≡ false)

-- A descriptor, started on the loop.
abbrev pub Connected : Watcher → Type 0
Connected w = (has_fd w ≡ true) × (w.active ≡ true)

-- Started on the loop for just these events.
abbrev pub Polls : Watcher → Bool → Bool → Type 0
Polls w r wr = (has_fd w ≡ true) × (w.active ≡ true) × (w.read ≡ r) × (w.write ≡ wr)

-- What is known of the watcher of a client in this state, at this place.
abbrev pub WatcherOk : Pc → ClientState → Bool → Watcher → Type 0
WatcherOk at_switch start k w = Closed w
WatcherOk at_switch connecting k w = Polls w false true
WatcherOk at_switch writing k w = Polls w false true
WatcherOk at_switch reading k w = Polls w true false
WatcherOk at_switch error k w = (has_fd w ≡ true) ⊎ (w.active ≡ false)
WatcherOk at_switch end k w = Connected w
WatcherOk at_socket start k w = Closed w
WatcherOk at_first_connect start k w = Polls w false true
WatcherOk at_connect connecting k w = Polls w false true
WatcherOk at_write connecting k w = Polls w false true
WatcherOk at_write writing k w = Polls w false true
WatcherOk at_read reading k w = Polls w true false
WatcherOk at_read error k w = Polls w true false
WatcherOk at_error error k w = (has_fd w ≡ true) ⊎ (w.active ≡ false)
WatcherOk at_end end true w = Connected w
WatcherOk at_end end false w = (has_fd w ≡ true) ⊎ (w.active ≡ false)
WatcherOk returned start k w = Closed w
WatcherOk returned connecting k w = Polls w false true
WatcherOk returned writing k w = Polls w false true
WatcherOk returned reading k w = Polls w true false
WatcherOk returned error k w = Polls w true false
WatcherOk _ _ _ _ = ⊥

-- With the buffer's bound: there is always room for the terminator.
pub record IsPolled (m : Pc × Session) : Type 0 where
  pub watcher : WatcherOk m.0 m.1.client.state m.1.client.keepalive m.1.client.watcher
  pub bound : m.1.client.buffer_offset < buffer_size

module _ {x : Session} where
  on_switch-IsPolled : IsPolled (at_switch, x) → IsPolled (on_switch x)
  unfolding on_switch
  on_switch-IsPolled v = ground arith

  on_socket-IsPolled : (r : SocketResult) → IsPolled (at_socket, x) → IsPolled (on_socket r x)
  unfolding on_socket describe
  on_socket-IsPolled r v = ground arith

  on_error-IsPolled : IsPolled (at_error, x) → IsPolled (on_error x)
  unfolding on_error
  on_error-IsPolled v = ground arith

  on_write-IsPolled : (r : WriteResult) → IsPolled (at_write, x) → IsPolled (on_write r x)
  unfolding on_write describe set_events
  on_write-IsPolled r v = ground arith

  on_first_connect-IsPolled :
      (r : ConnectResult) → IsPolled (at_first_connect, x) → IsPolled (on_first_connect r x)
  unfolding on_first_connect client_connect describe set_events
  on_first_connect-IsPolled r v = ground arith

  on_connect-IsPolled : (r : ConnectResult) → IsPolled (at_connect, x) → IsPolled (on_connect r x)
  unfolding on_connect client_connect describe
  on_connect-IsPolled r v = ground arith

  on_bytes-IsPolled :
      (bs : Bytes) {y : Pc × Session}
      → length bs ≤ room x.client
      → on_bytes x bs ≡ some y
      → IsPolled (at_read, x)
      → IsPolled y
  unfolding on_bytes take_in
  on_bytes-IsPolled bs {y} f h v =
      let c = terminate (take_in x bs).client in
      elim (Option-cases
        (client_parse x.config.keep_alive c (take_in x bs).stats (length bs % u32_mod))) [
          | inl e ↦ ground arith
          | inr (r, e) ↦ ground (
            arith,
            client_parse-Keeps x.config.keep_alive c (take_in x bs).stats (length bs % u32_mod)
                {b = r.0} {c' = r.1} {s' = r.2} e,
          )
        ]

  on_read-IsPolled :
      (r : ReadResult) {y : Pc × Session}
      → Fits r x
      → on_read r x ≡ some y
      → IsPolled (at_read, x)
      → IsPolled y
  unfolding on_read describe
  on_read-IsPolled interrupted {y} f h v = ground arith
  on_read-IsPolled (failed text) {y} f h v = ground arith
  on_read-IsPolled (received []) {y} f h v = ground arith
  on_read-IsPolled (received (b ∷ bs)) {y} f h v = on_bytes-IsPolled (b ∷ bs) f h v

next_request-IsPolled :
    (x : Session)
    → WatcherOk at_end x.client.state x.client.keepalive x.client.watcher
    → IsPolled (next_request x)
unfolding next_request close_watcher set_events
next_request-IsPolled x v =
    let last = record x { client = record x.client { keepalive = false } } in
    elim (Bool-cases (x.stats.req_started == x.stats.req_todo)) [
      | inl all ↦ ground (arith, client_reset-closes last)
      | inr more ↦ elim (Bool-cases x.client.keepalive) [
        | inl kept ↦ ground (arith, client_reset-reuses x kept)
        | inr closed ↦ ground (arith, client_reset-closes x closed)
      ]
    ]

on_end-IsPolled : {x : Session} → IsPolled (at_end, x) → IsPolled (on_end x)
unfolding on_end
on_end-IsPolled {x} v =
    let (stats, client, unrefs) =
      print_progress-keeps (record x { stats = count_done x.client x.stats }) in
    next_request-IsPolled _ (rw client v.watcher)

Step-IsPolled : {m n : Pc × Session} → Step m n → IsPolled m → IsPolled n
Step-IsPolled Run.switch v = on_switch-IsPolled v
Step-IsPolled (Run.socket r) v = on_socket-IsPolled r v
Step-IsPolled (Run.first_connect r) v = on_first_connect-IsPolled r v
Step-IsPolled (Run.connect r) v = on_connect-IsPolled r v
Step-IsPolled (Run.write r) v = on_write-IsPolled r v
Step-IsPolled (Run.read r f e) v = on_read-IsPolled r f e v
Step-IsPolled Run.error v = on_error-IsPolled v
Step-IsPolled Run.end v = on_end-IsPolled v

-- Along every run of the state machine, from a client in order, in which `read` returns no more bytes than it was asked
-- for: the buffer keeps room for a terminator, and a client whose request is under way when the
-- machine returns has its descriptor started on the loop for the event that its state waits for.
pub Steps-IsPolled : {m n : Pc × Session} → IsPolled m → Steps m n → IsPolled n
Steps-IsPolled v here = v
Steps-IsPolled v (next r s) = Step-IsPolled s (Steps-IsPolled v r)
