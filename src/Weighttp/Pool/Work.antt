-- ===== src/Weighttp/Pool/Work.antt =====
-- The requests of one thread (weighttp-master/src/worker.c and client.c): none is lost.
use reading_comment.Common.{
  ℕ, suc, ◌+◌, ◌<◌, ◌≤◌, true, List, [], ◌∷◌, ◌++◌, ◌==◌, ◌≡◌, ◌⊎◌, refl, ap, ◌∙◌, arith,
  if◌then◌else◌, length, drop, u64_mod,
}
use reading_comment.Weighttp.Types.{Client, Session, buffer_size}
use reading_comment.Weighttp.Machine.{at_switch, returned}
use reading_comment.Weighttp.Run.{Steps}
use reading_comment.Weighttp.Counters.{busy, in_case, Counts, Steps-Counts}
use reading_comment.Weighttp.Polling.{WatcherOk, IsPolled, Steps-IsPolled}
use reading_comment.Weighttp.Split.Shares.{All}
use reading_comment.Weighttp.Pool.{Pool, session, put_back}

-- How many clients have a request under way.
abbrev pub busy_all : List Client → ℕ
busy_all [] = 0
busy_all (c ∷ cs) = busy c.state + busy_all cs

-- A client that the state machine has left.
pub record ClientOk (c : Client) : Type 0 where
  pub place : in_case returned c.state ≡ true
  pub watcher : WatcherOk returned c.state c.keepalive c.watcher
  pub bound : c.buffer_offset < buffer_size

pub record PoolOk (p : Pool) : Type 0 where
  pub started : p.stats.req_started ≡ p.stats.req_done + busy_all p.clients
  pub within : p.stats.req_started ≤ p.stats.req_todo
  pub todo_pos : 0 < p.stats.req_todo
  pub small : p.stats.req_todo < u64_mod
  pub split : p.stats.req_done ≡ p.stats.req_success + p.stats.req_failed
  pub errors : p.stats.req_error ≤ p.stats.req_failed
  pub unrefs : p.unrefs ≡ (if p.stats.req_done == p.stats.req_todo then 1 else 0)
  pub clients : All ClientOk p.clients
  pub launched : p.launched ≤ length p.clients
  pub unlaunched : busy_all (drop p.launched p.clients) ≡ 0
  pub waiting : (p.launched ≤ busy_all p.clients) ⊎ (p.stats.req_started ≡ p.stats.req_todo)

pub busy_all-append : (l r : List Client) → busy_all (l ++ r) ≡ busy_all l + busy_all r
busy_all-append [] r = omega arith
busy_all-append (c ∷ l) r = omega (arith, busy_all-append l r)

drop-length : (l r : List Client) → drop (length l) (l ++ r) ≡ r
drop-length [] r = refl
drop-length (c ∷ l) r = drop-length l r

All-middle : (l r : List Client) {c : Client} → All ClientOk (l ++ (c ∷ r)) → ClientOk c
All-middle [] r h = h.0
All-middle (d ∷ l) r h = All-middle l r h.1

All-put :
    (l r : List Client) (c : Client) {d : Client}
    → ClientOk d
    → All ClientOk (l ++ (c ∷ r))
    → All ClientOk (l ++ (d ∷ r))
All-put [] r c k h = (k, h.1)
All-put (e ∷ l) r c k h = (h.0, All-put l r c k h.1)

length-put : (l r : List Client) (c d : Client) → length (l ++ (d ∷ r)) ≡ length (l ++ (c ∷ r))
length-put [] r c d = refl
length-put (e ∷ l) r c d = ap suc (length-put l r c d)

enter-IsPolled : (p : Pool) (c : Client) → ClientOk c → IsPolled (at_switch, session p c)
enter-IsPolled p c v = ground arith

leave-ClientOk :
    {others todo least : ℕ} {y : Session}
    → Counts others todo least (returned, y)
    → IsPolled (returned, y)
    → ClientOk y.client
leave-ClientOk v w = record { place = v.place; watcher = w.watcher; bound = w.bound }

-- A client that the loop calls has a request under way.
pub active-busy : (c : Client) → ClientOk c → c.watcher.active ≡ true → busy c.state ≡ 1
active-busy c v h = ground arith

-- A client is busy when the machine has left it, or every request is started.
busy_or_last :
    {others todo least : ℕ} {y : Session}
    → Counts others todo least (returned, y)
    → (busy y.client.state ≡ 1) ⊎ (y.stats.req_started ≡ y.stats.req_todo)
busy_or_last v = ground arith

module _ {p : Pool} (v : PoolOk p) (l r : List Client) (c : Client)
    (e : p.clients ≡ l ++ (c ∷ r)) where
  pub All-ok : All ClientOk (l ++ (c ∷ r))
  All-ok = rw e at v.clients

  pub middle_ok : ClientOk c
  middle_ok = All-middle l r All-ok

  pub busy_parts : busy_all p.clients ≡ busy_all l + (busy c.state + busy_all r)
  busy_parts = ap busy_all e ∙ busy_all-append l (c ∷ r)

  enter-Counts :
      (busy c.state ≡ 1) ⊎ (p.stats.req_started < p.stats.req_todo)
      → Counts
          (busy_all l + busy_all r)
          p.stats.req_todo
          p.stats.req_started
          (at_switch, session p c)
  enter-Counts h = ground (arith, v, busy_parts)

  module _ {y : Session} (h : (busy c.state ≡ 1) ⊎ (p.stats.req_started < p.stats.req_todo))
      (run : Steps (at_switch, session p c) (returned, y)) where
    ran-Counts : Counts (busy_all l + busy_all r) p.stats.req_todo p.stats.req_started (returned, y)
    ran-Counts = Steps-Counts (enter-Counts h) run

    pub ran-todo : y.stats.req_todo ≡ p.stats.req_todo
    ran-todo = ran-Counts.todo_is

    ran-ClientOk : ClientOk y.client
    ran-ClientOk = leave-ClientOk ran-Counts (Steps-IsPolled (enter-IsPolled p c middle_ok) run)

    busy_after : busy_all (l ++ (y.client ∷ r)) ≡ busy_all l + (busy y.client.state + busy_all r)
    busy_after = busy_all-append l (y.client ∷ r)

    -- The pool after the run, if the clients beyond the first `k` are idle.
    pub ran-PoolOk :
        (k : ℕ)
        → k ≤ length p.clients
        → busy_all (drop k (l ++ (y.client ∷ r))) ≡ 0
        → (k ≤ busy_all l + (1 + busy_all r)) ⊎ (p.stats.req_started ≡ p.stats.req_todo)
        → PoolOk (record (put_back p l y r) { launched = k })
    ran-PoolOk k in_list rest wait = record {
      started = omega (arith, ran-Counts.started, busy_after);
      within = omega (arith, ran-Counts.within);
      todo_pos = ran-Counts.todo_pos;
      small = ran-Counts.small;
      split = ran-Counts.split;
      errors = omega (arith, ran-Counts.errors);
      unrefs = ran-Counts.unrefs;
      clients = All-put l r c ran-ClientOk All-ok;
      launched = omega (arith, in_list, ap length e, length-put l r c y.client);
      unlaunched = rest;
      waiting = ground (
        arith,
        ran-Counts.todo_is,
        ran-Counts.grows,
        ran-Counts.within,
        busy_or_last ran-Counts,
        busy_after,
      );
    }
