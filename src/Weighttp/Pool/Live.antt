-- ===== src/Weighttp/Pool/Live.antt =====
-- A worker (weighttp-master/src/worker.c) goes on until its requests are done.
use reading_comment.Common.{
  ℕ, zero, suc, ◌+◌, ◌<◌, ◌≤◌, Bool, true, List, [], ◌∷◌, ◌++◌, ◌≡◌, inl, inr, refl, ap, arith,
  length, length-append, replicate, drop, u64_mod,
}
use native.Mathlib.Decide.{dec_lt}
use reading_comment.Weighttp.Types.{Client, Config}
use reading_comment.Weighttp.Machine.{client_new}
use reading_comment.Weighttp.Counters.{busy}
use reading_comment.Weighttp.Split.Shares.{All}
use reading_comment.Weighttp.Pool.{
  Pool, worker_new, PoolStep, launch, skip, event, PoolSteps, here, next,
}
use reading_comment.Weighttp.Pool.Work.{
  busy_all, ClientOk, PoolOk, active-busy, ran-PoolOk, busy_parts, middle_ok,
}

drop-suc-middle : (l r : List Client) (d : Client) → drop (suc (length l)) (l ++ (d ∷ r)) ≡ r
drop-suc-middle [] r d = refl
drop-suc-middle (e ∷ l) r d = drop-suc-middle l r d

drop-length-middle : (l r : List Client) (d : Client) → drop (length l) (l ++ (d ∷ r)) ≡ d ∷ r
drop-length-middle [] r d = refl
drop-length-middle (e ∷ l) r d = drop-length-middle l r d

drop_all : (n : ℕ) (cs : List Client) → length cs ≤ n → drop n cs ≡ []
drop_all zero [] h = refl
drop_all (suc n) [] h = refl
drop_all zero (c ∷ cs) h = absurd (omega arith)
drop_all (suc n) (c ∷ cs) h = drop_all n cs (omega arith)

busy_all-drop-suc : (n : ℕ) (cs : List Client) → busy_all (drop (suc n) cs) ≤ busy_all (drop n cs)
busy_all-drop-suc zero [] = omega arith
busy_all-drop-suc (suc n) [] = omega arith
busy_all-drop-suc zero (c ∷ cs) = omega arith
busy_all-drop-suc (suc n) (c ∷ cs) = busy_all-drop-suc n cs

length-middle : (l r : List Client) (d : Client) → length (l ++ (d ∷ r)) ≡ suc (length l + length r)
length-middle l r d = omega (arith, length-append l (d ∷ r))

-- Nothing of the tail that the loop has not reached is busy.
tail_idle :
    {p : Pool} (v : PoolOk p) (l r : List Client) (c : Client)
    → p.clients ≡ l ++ (c ∷ r)
    → p.launched ≡ length l
    → busy c.state + busy_all r ≡ 0
tail_idle {p} v l r c e k = rw (e, k, drop-length-middle l r c) at v.unlaunched

PoolStep-PoolOk : {p q : Pool} → PoolStep p q → PoolOk p → PoolOk q
PoolStep-PoolOk {p} (launch l r {c} {y} e k lt run) v =
    ran-PoolOk v l r c e (inr lt) run (suc p.launched)
      (omega (arith, k, ap length e, length-middle l r c))
      (rw (k, drop-suc-middle l r y.client) (omega (arith, tail_idle v l r c e k)))
      (ground (arith, v.waiting, busy_parts v l r c e, tail_idle v l r c e k))
PoolStep-PoolOk {p} (skip below all_started) v = record {
  started = v.started;
  within = v.within;
  todo_pos = v.todo_pos;
  small = v.small;
  split = v.split;
  errors = v.errors;
  unrefs = v.unrefs;
  clients = v.clients;
  launched = below;
  unlaunched = omega (arith, v.unlaunched, busy_all-drop-suc p.launched p.clients);
  waiting = inr (omega (arith, v.within));
}
PoolStep-PoolOk {p} (event l r {c} {y} k e active run) v =
    let b = active-busy c (middle_ok v l r c e) active in
    ran-PoolOk v l r c e (inl b) run p.launched v.launched
      (rw
        (drop_all p.launched (l ++ (y.client ∷ r))
          (omega (arith, k, ap length e, length-middle l r c, length-middle l r y.client)))
        refl)
      (ground (arith, v.waiting, busy_parts v l r c e, b))

busy_all-replicate : (n : ℕ) (k : Bool) → busy_all (replicate n (client_new k)) ≡ 0
unfolding client_new
busy_all-replicate zero k = refl
busy_all-replicate (suc n) k = omega (arith, busy_all-replicate n k)

client_new-ClientOk : (k : Bool) → ClientOk (client_new k)
unfolding client_new
client_new-ClientOk k = ground arith

All-replicate : (n : ℕ) (k : Bool) → All ClientOk (replicate n (client_new k))
All-replicate zero k = tt
All-replicate (suc n) k = (client_new-ClientOk k, All-replicate n k)

worker_new-PoolOk :
    (id : ℕ) (config : Config) (n todo : ℕ)
    → 0 < todo
    → todo < u64_mod
    → PoolOk (worker_new id config n todo)
unfolding worker_new
worker_new-PoolOk id config n todo h k = record {
  started = omega (arith, busy_all-replicate n config.keep_alive);
  within = omega arith;
  todo_pos = h;
  small = k;
  split = refl;
  errors = omega arith;
  unrefs = ground arith;
  clients = All-replicate n config.keep_alive;
  launched = omega arith;
  unlaunched = busy_all-replicate n config.keep_alive;
  waiting = inl (omega arith);
}

-- Every state that the thread of a worker can reach, from a worker with at least one request, keeps
-- the request counters and the clients in order.
pub PoolSteps-PoolOk :
    (id : ℕ) (config : Config) (n todo : ℕ) {p : Pool}
    → 0 < todo
    → todo < u64_mod
    → PoolSteps (worker_new id config n todo) p
    → PoolOk p
PoolSteps-PoolOk id config n todo h k here = worker_new-PoolOk id config n todo h k
PoolSteps-PoolOk id config n todo h k (next r s) =
    PoolStep-PoolOk s (PoolSteps-PoolOk id config n todo h k r)

-- A client with a request under way stands somewhere in the list, started on the loop.
pub record Waits (cs : List Client) : Type 0 where
  pub before : List Client
  pub client : Client
  pub after : List Client
  pub splits : cs ≡ before ++ (client ∷ after)
  pub active : client.watcher.active ≡ true

busy-active : (c : Client) → ClientOk c → 0 < busy c.state → c.watcher.active ≡ true
busy-active c v h = ground arith

find_Waits : (cs : List Client) → All ClientOk cs → 0 < busy_all cs → Waits cs
find_Waits [] v h = absurd (omega arith)
find_Waits (c ∷ cs) v h = elim (dec_lt 0 (busy c.state)) [
  | yes b ↦ record {
    before = [];
    client = c;
    after = cs;
    splits = refl;
    active = busy-active c v.0 b;
  }
  | no nb ↦
      let w = find_Waits cs v.1 (omega arith) in
      record {
        before = c ∷ w.before;
        client = w.client;
        after = w.after;
        splits = ap (λ l. c ∷ l) w.splits;
        active = w.active;
      }
]

-- From a worker with at least one request, fewer than 2^64, whatever the system calls return: once a
-- client is launched, and while requests are left, some client is started on the event loop, and
-- `ev_unref` has not been called, so that the thread does not stop short.
pub PoolSteps-Waits :
    (id : ℕ) (config : Config) (n todo : ℕ) {p : Pool}
    → 0 < todo
    → todo < u64_mod
    → PoolSteps (worker_new id config n todo) p
    → 0 < p.launched
    → p.stats.req_done < p.stats.req_todo
    → Waits p.clients × (p.unrefs ≡ 0)
PoolSteps-Waits id config n todo {p} h k r l d =
    let v = PoolSteps-PoolOk id config n todo h k r in
    (
      find_Waits p.clients v.clients (ground (arith, v.waiting, v.started)),
      ground (arith, v.unrefs),
    )

-- Once every request of a worker with at least one, fewer than 2^64, is done: `ev_unref` has been
-- called once, no client is busy, each request is started and counted as a success or a failure, and
-- the errors are among the failures.
pub PoolSteps-done :
    (id : ℕ) (config : Config) (n todo : ℕ) {p : Pool}
    → 0 < todo
    → todo < u64_mod
    → PoolSteps (worker_new id config n todo) p
    → p.stats.req_done ≡ p.stats.req_todo
    → (p.unrefs ≡ 1)
      × (busy_all p.clients ≡ 0)
      × (p.stats.req_started ≡ p.stats.req_todo)
      × (p.stats.req_success + p.stats.req_failed ≡ p.stats.req_todo)
      × (p.stats.req_error ≤ p.stats.req_failed)
PoolSteps-done id config n todo {p} h k r d =
    let v = PoolSteps-PoolOk id config n todo h k r in ground (arith, v)
