-- ===== src/Weighttp/Tests.antt =====
-- weighttp-master/src on concrete inputs.
use reading_comment.Common.{
  ◌∷◌, ℕ, ◌+◌, ◌≤◌, ◌≡◌, refl, Bool, Option, true, false, some, none, [], arith, length,
}
use reading_comment.Common.Bytes.{
  Bytes, codes, has_prefix, has_prefix_nocase, strchr, strstr_crlf, store_all,
}
use reading_comment.Weighttp.Types.{Client, Stats, Config, Session, reading}
use reading_comment.Weighttp.Number.{to_uint64_from, str_to_uint64}
use reading_comment.Weighttp.Status.{status_digits, count_status, status_line_end, start_case}
use reading_comment.Weighttp.Headers.{c_string, header_line, header_round, header_case}
use reading_comment.Weighttp.Chunks.{
  chunk_digit, chunk_digits, chunk_open, chunk_header, chunk_data, chunk_case, plain_case,
  chunk_loop, body_case,
}
use reading_comment.Weighttp.Parser.{from_header, from_start, client_parse}
use reading_comment.Weighttp.Machine.{
  client_new, on_switch, on_socket, on_first_connect, client_connect, set_events, descriptor,
  in_progress, failed, at_switch, returned, take_in, terminate, on_error, on_end, next_request,
  count_done, print_progress, client_reset, clear, close_watcher,
}
use reading_comment.Weighttp.Run
use reading_comment.Weighttp.Run.{Steps}
use reading_comment.Weighttp.Pool.{
  worker_new, session, put_back, Pool, PoolSteps, launch, here, next,
}
use reading_comment.Weighttp.Pool.Live.{Waits, PoolSteps-Waits, PoolSteps-done}
use reading_comment.Weighttp.Pool.Work.{busy_all}
use reading_comment.Weighttp.Options.{Settings, defaults}
use reading_comment.Weighttp.Options.Sane.{IsSane}
use reading_comment.Weighttp.Split.{shares, shares_from}
use reading_comment.Weighttp.Totals.{add_workers, no_totals}
use reading_comment.Weighttp.Totals.Sums.{add_workers_lem}
use reading_comment.Weighttp.Counters.{Counts, Steps-Counts}
use reading_comment.Weighttp.Polling.{IsPolled, Steps-IsPolled}

abbrev config : Config
config = record {
  req_count = 1;
  thread_count = 1;
  concur_count = 1;
  keep_alive = false;
  request_size = 10;
}

abbrev worker : Pool
worker = worker_new 1 config 1 1

abbrev after_connect : Session
after_connect =
    (on_first_connect in_progress
      (on_socket (descriptor 3) (on_switch (session worker (client_new false))).1).1).1

first_run : Steps (at_switch, session worker (client_new false)) (returned, after_connect)
unfolding on_switch on_socket on_first_connect client_connect set_events client_new worker_new
first_run =
    Run.next (Run.next (Run.next Run.here Run.switch) (Run.socket (descriptor 3)))
      (Run.first_connect in_progress)

-- The worker with its one client launched.
abbrev launched_worker : Pool
launched_worker = record (put_back worker [] after_connect []) { launched = 1 }

launched_run : PoolSteps worker launched_worker
unfolding worker_new
launched_run = next here (launch [] [] refl refl (ground arith) first_run)

PoolSteps-Waits_example : Waits launched_worker.clients × (launched_worker.unrefs ≡ 0)
unfolding on_switch on_socket on_first_connect client_connect set_events client_new worker_new
PoolSteps-Waits_example =
    PoolSteps-Waits 1 config 1 1 (omega arith) (omega arith) launched_run (omega arith)
      (omega arith)

-- `socket` fails, so that the one request is an error.
abbrev after_failure : Session
after_failure =
    (on_end
      (on_error
        (on_switch
          (on_socket (failed []) (on_switch (session worker (client_new false))).1).1).1).1).1

failed_run : Steps (at_switch, session worker (client_new false)) (returned, after_failure)
unfolding on_switch on_socket on_error on_end next_request print_progress count_done client_reset
    clear close_watcher client_new worker_new
failed_run =
    Run.next
      (Run.next
        (Run.next (Run.next (Run.next Run.here Run.switch) (Run.socket (failed []))) Run.switch)
        Run.error)
      Run.end

abbrev failed_worker : Pool
failed_worker = record (put_back worker [] after_failure []) { launched = 1 }

failed_worker_run : PoolSteps worker failed_worker
unfolding worker_new
failed_worker_run = next here (launch [] [] refl refl (ground arith) failed_run)

failed_worker_done : failed_worker.stats.req_done ≡ failed_worker.stats.req_todo
unfolding on_switch on_socket on_error on_end next_request print_progress count_done client_reset
    clear close_watcher client_new worker_new
failed_worker_done = refl

PoolSteps-done_example :
    (failed_worker.unrefs ≡ 1)
    × (busy_all failed_worker.clients ≡ 0)
    × (failed_worker.stats.req_started ≡ failed_worker.stats.req_todo)
    × (failed_worker.stats.req_success + failed_worker.stats.req_failed
        ≡ failed_worker.stats.req_todo)
    × (failed_worker.stats.req_error ≤ failed_worker.stats.req_failed)
unfolding on_switch on_socket on_error on_end next_request print_progress count_done client_reset
    clear close_watcher client_new worker_new
PoolSteps-done_example =
    PoolSteps-done 1 config 1 1 (omega arith) (omega arith) failed_worker_run failed_worker_done

-- `weighttp -n 1`
abbrev settings : Settings
settings = record defaults { req_count = 1 }

settings-IsSane : IsSane settings
settings-IsSane = record {
  threads_pos = omega arith;
  threads_le = omega arith;
  clients_le = omega arith;
  in_range = record { requests = omega arith; threads = omega arith; clients = omega arith };
  requests_given = omega arith;
}

add_workers_lem_example :
    let t = add_workers no_totals (failed_worker.stats ∷ []) in
    (t.req_started ≡ 1) × (t.req_done ≡ 1) × (t.req_success + t.req_failed ≡ 1)
unfolding shares shares_from
add_workers_lem_example =
    add_workers_lem config settings (failed_worker ∷ []) settings-IsSane
      (failed_worker_run, failed_worker_done, tt)

fresh-Counts : Counts 0 1 0 (at_switch, session worker (client_new false))
unfolding client_new worker_new
fresh-Counts = record {
  started = refl;
  within = omega arith;
  todo_is = refl;
  grows = omega arith;
  idle_last = λ h. absurd (ground (arith, h));
  todo_pos = omega arith;
  small = omega arith;
  split = refl;
  errors = omega arith;
  unrefs = refl;
  place = refl;
}

Steps-Counts_example : Counts 0 1 0 (returned, after_failure)
Steps-Counts_example = Steps-Counts fresh-Counts failed_run

fresh-IsPolled : IsPolled (at_switch, session worker (client_new false))
unfolding client_new worker_new
fresh-IsPolled = record { watcher = (refl, refl); bound = omega arith }

Steps-IsPolled_example : IsPolled (returned, after_connect)
Steps-IsPolled_example = Steps-IsPolled fresh-IsPolled first_run

-- The bytes arrive in one read, and are parsed: the verdict, whether the response is over and a
-- success, and the 2xx count.
abbrev arrived : Bytes → Session
arrived bs =
    take_in
      (record (session worker (client_new false)) {
        client = record (client_new false) { state = reading };
      })
      bs

abbrev summary : Option (Bool × Client × Stats) → Option (Bool × Bool × ℕ)
summary none = none
summary (some (b, c, s)) = some (b, c.success, s.req_2xx)

abbrev outcome : Bytes → Option (Bool × Bool × ℕ)
outcome bs =
    summary (client_parse false (terminate (arrived bs).client) (arrived bs).stats (length bs))

plain_response :
    outcome (codes "HTTP/1.1 200 OK\r\nContent-Length: 3\r\n\r\nabc") ≡ some (true, true, 1)
unfolding client_new worker_new take_in store_all client_parse start_case status_digits count_status
    status_line_end has_prefix has_prefix_nocase strchr from_start from_header header_case
    header_round header_line c_string str_to_uint64 to_uint64_from body_case plain_case
plain_response = refl

chunked_response :
    outcome (codes "HTTP/1.1 200 OK\r\nTransfer-Encoding: chunked\r\n\r\n3\r\nabc\r\n0\r\n\r\n")
    ≡ some (true, true, 1)
unfolding client_new worker_new take_in store_all client_parse start_case status_digits count_status
    status_line_end has_prefix has_prefix_nocase strchr strstr_crlf from_start from_header
    header_case header_round header_line c_string str_to_uint64 to_uint64_from body_case chunk_loop
    chunk_case chunk_header chunk_open chunk_data chunk_digits chunk_digit
chunked_response = refl

bad_header :
    outcome (codes "HTTP/1.1 404 No\r\nConnection: upgrade\r\n\r\n") ≡ some (false, false, 0)
unfolding client_new worker_new take_in store_all client_parse start_case status_digits count_status
    status_line_end has_prefix has_prefix_nocase strchr from_start from_header header_case
    header_round header_line
bad_header = refl
