-- ===== src/Weighttp/Pool.antt =====
-- `worker_new` and `worker_thread` of weighttp-master/src/worker.c: the clients of one thread, and its
-- event loop. One thread runs one client at a time, until the state machine returns.
pub mod Work
pub mod Live
use reading_comment.Common.{
  ℕ, zero, suc, ◌+◌, ◌/◌, ◌<◌, ◌≤◌, Bool, true, List, [], ◌∷◌, ◌++◌, ◌==◌, ◌≡◌, if◌then◌else◌,
  length, replicate,
}
use reading_comment.Weighttp.Types.{Client, Stats, Config, Session}
use reading_comment.Weighttp.Machine.{client_new, at_switch, returned}
use reading_comment.Weighttp.Run.{Steps}

-- `struct Worker`; `launched` is how far the loop of `worker_thread` over the clients is.
pub record Pool : Type 0 where
  pub id : ℕ
  pub config : Config
  pub progress_interval : ℕ
  pub stats : Stats
  pub unrefs : ℕ
  pub printed : List ℕ
  pub clients : List Client
  pub launched : ℕ

abbrev pub fresh_stats : ℕ → Stats
fresh_stats todo = record {
  req_todo = todo;
  req_started = 0;
  req_done = 0;
  req_success = 0;
  req_failed = 0;
  req_error = 0;
  bytes_total = 0;
  bytes_body = 0;
  req_2xx = 0;
  req_3xx = 0;
  req_4xx = 0;
  req_5xx = 0;
}

-- `worker_new`, where no allocation fails.
unfoldable pub worker_new : ℕ → Config → ℕ → ℕ → Pool
worker_new id config num_clients num_requests = record {
  id = id;
  config = config;
  progress_interval = if num_requests / 10 == 0 then 1 else num_requests / 10;
  stats = fresh_stats num_requests;
  unrefs = 0;
  printed = [];
  clients = replicate num_clients (client_new config.keep_alive);
  launched = 0;
}

-- The worker as the state machine of one of its clients sees it.
abbrev pub session : Pool → Client → Session
session p c = record {
  id = p.id;
  config = p.config;
  progress_interval = p.progress_interval;
  stats = p.stats;
  unrefs = p.unrefs;
  printed = p.printed;
  client = c;
}

-- The worker with the client between `l` and `r` as the state machine left it.
abbrev pub put_back : Pool → List Client → Session → List Client → Pool
put_back p l y r = record p {
  stats = y.stats;
  unrefs = y.unrefs;
  printed = y.printed;
  clients = l ++ (y.client ∷ r);
}

-- What the thread does next: a round of its loop over the clients, or an event of the loop behind it.
pub data PoolStep : Pool → Pool → Type 0 where
  launch :
      {p : Pool} (l r : List Client) {c : Client} {y : Session}
      → p.clients ≡ l ++ (c ∷ r)
      → p.launched ≡ length l
      → p.stats.req_started < p.stats.req_todo
      → Steps (at_switch, session p c) (returned, y)
      → PoolStep p (record (put_back p l y r) { launched = suc p.launched })
  skip :
      {p : Pool}
      → p.launched < length p.clients
      → p.stats.req_todo ≤ p.stats.req_started
      → PoolStep p (record p { launched = suc p.launched })
  event :
      {p : Pool} (l r : List Client) {c : Client} {y : Session}
      → p.launched ≡ length p.clients
      → p.clients ≡ l ++ (c ∷ r)
      → c.watcher.active ≡ true
      → Steps (at_switch, session p c) (returned, y)
      → PoolStep p (put_back p l y r)

pub data PoolSteps (p : Pool) : Pool → Type 0 where
  here : PoolSteps p p
  next : {q r : Pool} → PoolSteps p q → PoolStep q r → PoolSteps p r
