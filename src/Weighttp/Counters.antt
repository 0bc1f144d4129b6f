-- ===== src/Weighttp/Counters.antt =====
-- The request counters along a run of `client_state_machine` (weighttp-master/src/client.c).
use reading_comment.Common.{
  ℕ, ◌+◌, ◌%◌, inl, inr, ◌∷◌, ◌≤◌, ◌<◌, Bool, true, false, some, ◌≡◌, arith, Option-cases,
  Bool-cases, length, if◌then◌else◌, ◌==◌, u64_mod, u32_mod, [],
}
use reading_comment.Common.Bytes.{Bytes}
use reading_comment.Weighttp.Types.{
  ClientState, start, connecting, writing, reading, error, end, Session, Stats,
}
use reading_comment.Weighttp.Machine.{
  SocketResult, ConnectResult, WriteResult, ReadResult, received, interrupted, failed, Pc,
  at_switch, at_socket, at_first_connect, at_connect, at_write, at_read, at_error, at_end, returned,
  on_switch, on_socket, on_first_connect, on_connect, on_write, on_read, on_error, on_end,
  next_request, on_bytes, take_in, terminate, client_connect, describe, count_done,
}
use reading_comment.Weighttp.Parser.{client_parse}
use reading_comment.Weighttp.Frame.{client_parse-Keeps}
use reading_comment.Weighttp.Reset.{
  print_progress-keeps, client_reset-closes, client_reset-reuses, count_done-counts,
}
use reading_comment.Weighttp.Run.{Step, Steps, here, next, Fits}
use reading_comment.Weighttp.Run

-- 1 for a client whose request is started and not yet counted as done.
abbrev pub busy : ClientState → ℕ
busy start = 0
busy _ = 1

abbrev pub pending : Pc → ClientState → ℕ
pending at_switch st = busy st
pending returned st = busy st
pending _ st = 1

-- 1 where an error may be counted whose failure is not.
abbrev pub error_ahead : Pc → Bool → ℕ
error_ahead at_end false = 1
error_ahead _ _ = 0

-- 1 if the state machine is about to start a request.
abbrev pub starting : Pc → ClientState → ℕ
starting at_switch start = 1
starting _ _ = 0

-- 1 for a client that the machine has left with no request.
abbrev pub idle : Pc → ClientState → ℕ
idle returned start = 1
idle _ _ = 0

-- The states in which the machine stands at each place.
abbrev pub in_case : Pc → ClientState → Bool
in_case at_socket start = true
in_case at_first_connect start = true
in_case at_connect connecting = true
in_case at_write connecting = true
in_case at_write writing = true
in_case at_read reading = true
in_case at_read error = true
in_case at_error error = true
in_case at_end end = true
in_case at_switch _ = true
in_case returned end = false
in_case returned _ = true
in_case _ _ = false

-- The counters of a worker with `todo` requests, of which `others` more clients have one under way,
-- and at least `least` are started.
pub record Counts (others todo least : ℕ) (m : Pc × Session) : Type 0 where
  pub started : m.1.stats.req_started ≡ m.1.stats.req_done + pending m.0 m.1.client.state + others
  pub within : m.1.stats.req_started + starting m.0 m.1.client.state ≤ m.1.stats.req_todo
  pub todo_is : m.1.stats.req_todo ≡ todo
  pub grows : least ≤ m.1.stats.req_started
  pub idle_last : idle m.0 m.1.client.state ≡ 1 → m.1.stats.req_started ≡ m.1.stats.req_todo
  pub todo_pos : 0 < m.1.stats.req_todo
  pub small : m.1.stats.req_todo < u64_mod
  pub split : m.1.stats.req_done ≡ m.1.stats.req_success + m.1.stats.req_failed
  pub errors : m.1.stats.req_error ≤ m.1.stats.req_failed + error_ahead m.0 m.1.client.success
  pub unrefs : m.1.unrefs ≡ (if m.1.stats.req_done == m.1.stats.req_todo then 1 else 0)
  pub place : in_case m.0 m.1.client.state ≡ true

-- The counters once a request is counted as done, and before the next one begins.
record Counted (others todo least : ℕ) (s : Stats) (unrefs : ℕ) : Type 0 where
  started : s.req_started ≡ s.req_done + others
  within : s.req_started ≤ s.req_todo
  todo_is : s.req_todo ≡ todo
  grows : least ≤ s.req_started
  small : s.req_todo < u64_mod
  todo_pos : 0 < s.req_todo
  split : s.req_done ≡ s.req_success + s.req_failed
  errors : s.req_error ≤ s.req_failed
  first_unref : unrefs ≡ 0

module _ {others todo least : ℕ} {x : Session} where
  on_switch-Counts :
      Counts others todo least (at_switch, x) → Counts others todo least (on_switch x)
  unfolding on_switch
  on_switch-Counts v = ground arith

  on_socket-Counts :
      (r : SocketResult)
      → Counts others todo least (at_socket, x)
      → Counts others todo least (on_socket r x)
  unfolding on_socket
  on_socket-Counts r v = ground arith

  on_error-Counts : Counts others todo least (at_error, x) → Counts others todo least (on_error x)
  unfolding on_error
  on_error-Counts v = ground arith

  on_write-Counts :
      (r : WriteResult)
      → Counts others todo least (at_write, x)
      → Counts others todo least (on_write r x)
  unfolding on_write describe
  on_write-Counts r v = ground arith

  on_first_connect-Counts :
      (r : ConnectResult)
      → Counts others todo least (at_first_connect, x)
      → Counts others todo least (on_first_connect r x)
  unfolding on_first_connect client_connect describe
  on_first_connect-Counts r v = ground arith

  on_connect-Counts :
      (r : ConnectResult)
      → Counts others todo least (at_connect, x)
      → Counts others todo least (on_connect r x)
  unfolding on_connect client_connect describe
  on_connect-Counts r v = ground arith

  count_done-Counted :
      Counts others todo least (at_end, x)
      → Counted others todo least (count_done x.client x.stats) x.unrefs
  count_done-Counted v = elim (Bool-cases x.client.success) [
    | inl y ↦ ground (arith, count_done-counts x.client x.stats)
    | inr n ↦ ground (arith, count_done-counts x.client x.stats)
  ]

  on_bytes-Counts :
      (bs : Bytes) {y : Pc × Session}
      → on_bytes x bs ≡ some y
      → Counts others todo least (at_read, x)
      → Counts others todo least y
  unfolding on_bytes take_in
  on_bytes-Counts bs {y} h v =
      let c = terminate (take_in x bs).client in
      elim (Option-cases
        (client_parse x.config.keep_alive c (take_in x bs).stats (length bs % u32_mod))) [
          | inl e ↦ ground arith
          | inr (r, e) ↦ ground (
            arith,
            client_parse-Keeps x.config.keep_alive c (take_in x bs).stats (length bs % u32_mod)
                {b = r.0} {c' = r.1} {s' = r.2} e,
          )
        ]

  on_read-Counts :
      (r : ReadResult) {y : Pc × Session}
      → on_read r x ≡ some y
      → Counts others todo least (at_read, x)
      → Counts others todo least y
  unfolding on_read describe
  on_read-Counts interrupted {y} h v = ground arith
  on_read-Counts (failed text) {y} h v = ground arith
  on_read-Counts (received []) {y} h v = ground arith
  on_read-Counts (received (b ∷ bs)) {y} h v = on_bytes-Counts (b ∷ bs) h v

next_request-Counts :
    {others todo least : ℕ} (x : Session)
    → Counted others todo least x.stats x.unrefs
    → Counts others todo least (next_request x)
unfolding next_request
next_request-Counts x v =
    let last = record x { client = record x.client { keepalive = false } } in
    elim (Bool-cases (x.stats.req_started == x.stats.req_todo)) [
      | inl all ↦ ground (arith, client_reset-closes last)
      | inr more ↦ elim (Bool-cases x.client.keepalive) [
        | inl kept ↦ ground (arith, client_reset-reuses x kept)
        | inr closed ↦ ground (arith, client_reset-closes x closed)
      ]
    ]

on_end-Counts :
    {others todo least : ℕ} {x : Session}
    → Counts others todo least (at_end, x)
    → Counts others todo least (on_end x)
unfolding on_end
on_end-Counts {x} v =
    let counted = count_done-Counted v in
    let (stats, client, unrefs) =
      print_progress-keeps (record x { stats = count_done x.client x.stats }) in
    next_request-Counts _ (rw (stats, unrefs) counted)

Step-Counts :
    {others todo least : ℕ} {m n : Pc × Session}
    → Step m n
    → Counts others todo least m
    → Counts others todo least n
Step-Counts Run.switch v = on_switch-Counts v
Step-Counts (Run.socket r) v = on_socket-Counts r v
Step-Counts (Run.first_connect r) v = on_first_connect-Counts r v
Step-Counts (Run.connect r) v = on_connect-Counts r v
Step-Counts (Run.write r) v = on_write-Counts r v
Step-Counts (Run.read r f e) v = on_read-Counts r e v
Step-Counts Run.error v = on_error-Counts v
Step-Counts Run.end v = on_end-Counts v

-- Along every run of the state machine from counters that are in order, whatever the system calls
-- return, except that `read` brings no more bytes than it was asked for: each started request is
-- done or under way, no more requests are started than there are to do, each one done is counted
-- once, as a success or as a failure, and `ev_unref` has been called once if all are done, else never.
pub Steps-Counts :
    {others todo least : ℕ} {m n : Pc × Session}
    → Counts others todo least m
    → Steps m n
    → Counts others todo least n
Steps-Counts v here = v
Steps-Counts v (next r s) = Step-Counts s (Steps-Counts v r)
