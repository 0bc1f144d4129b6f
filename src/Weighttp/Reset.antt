-- ===== src/Weighttp/Reset.antt =====
-- What the steps of `case CLIENT_END` (weighttp-master/src/client.c) leave: the counters, the progress
-- and the reset of the client.
use reading_comment.Common.{
  ◌%◌, true, false, ◌≡◌, inl, inr, refl, Bool-cases, add64, if◌then◌else◌, ◌==◌, ◌&&◌,
}
use reading_comment.Weighttp.Types.{start, writing, Client, Stats, Session}
use reading_comment.Weighttp.Machine.{
  count_done, print_progress, client_reset, clear, close_watcher, set_events,
}

-- Printing touches nothing but what is printed.
pub print_progress-keeps :
    (x : Session)
    → ((print_progress x).stats ≡ x.stats)
      × ((print_progress x).client ≡ x.client)
      × ((print_progress x).unrefs ≡ x.unrefs)
unfolding print_progress
print_progress-keeps x =
    elim (Bool-cases (x.id == 1 && x.stats.req_done % x.progress_interval == 0)) [
      | inl y ↦ rw y (refl, refl, refl)
      | inr n ↦ rw n (refl, refl, refl)
    ]

-- A connection that is not kept is closed.
pub client_reset-closes :
    (x : Session)
    → x.client.keepalive ≡ false
    → ((client_reset x).stats ≡ x.stats)
      × ((client_reset x).unrefs ≡ x.unrefs)
      × ((client_reset x).client.state ≡ start)
      × ((client_reset x).client.watcher ≡ close_watcher x.client.watcher)
      × ((client_reset x).client.buffer_offset ≡ 0)
unfolding client_reset clear
client_reset-closes x h = rw h (refl, refl, refl, refl, refl)

-- A connection that is kept starts the next request.
pub client_reset-reuses :
    (x : Session)
    → x.client.keepalive ≡ true
    → ((client_reset x).stats ≡ record x.stats { req_started = add64 x.stats.req_started 1 })
      × ((client_reset x).unrefs ≡ x.unrefs)
      × ((client_reset x).client.state ≡ writing)
      × ((client_reset x).client.watcher ≡ set_events x.client.watcher false true)
      × ((client_reset x).client.buffer_offset ≡ 0)
unfolding client_reset clear
client_reset-reuses x h = rw h (refl, refl, refl, refl, refl)

-- One more request is done, as a success or as a failure.
pub count_done-counts :
    (c : Client) (s : Stats)
    → ((count_done c s).req_todo ≡ s.req_todo)
      × ((count_done c s).req_started ≡ s.req_started)
      × ((count_done c s).req_done ≡ add64 s.req_done 1)
      × ((count_done c s).req_error ≡ s.req_error)
      × ((count_done c s).req_success
          ≡ (if c.success then add64 s.req_success 1 else s.req_success))
      × ((count_done c s).req_failed ≡ (if c.success then s.req_failed else add64 s.req_failed 1))
unfolding count_done
count_done-counts c s = elim (Bool-cases c.success) [
  | inl y ↦ rw y (refl, refl, refl, refl, refl, refl)
  | inr n ↦ rw n (refl, refl, refl, refl, refl, refl)
]
