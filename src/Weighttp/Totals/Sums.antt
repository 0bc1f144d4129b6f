-- ===== src/Weighttp/Totals/Sums.antt =====
-- The totals that `main` (weighttp-master/src/weighttp.c) prints once all threads are done.
use reading_comment.Common.{
  ℕ, suc, ◌+◌, ◌<◌, ◌≡◌, refl, List, [], ◌∷◌, map, sum, arith, u64_mod, inl, inr, ◌/◌,
}
use reading_comment.Weighttp.Types.{Config}
use reading_comment.Weighttp.Pool.{
  Pool, worker_new, PoolStep, launch, skip, event, PoolSteps, here, next,
}
use reading_comment.Weighttp.Pool.Work.{PoolOk, active-busy, middle_ok, ran-todo}
use reading_comment.Weighttp.Pool.Live.{PoolSteps-PoolOk, PoolSteps-done}
use reading_comment.Weighttp.Options.{Settings}
use reading_comment.Weighttp.Options.Sane.{IsSane}
use reading_comment.Weighttp.Split.{Share, shares}
use reading_comment.Weighttp.Split.Shares.{All, IsFair, shares_lem}
use reading_comment.Weighttp.Totals.{Totals, no_totals, add_worker, add_workers}

PoolStep-todo : {p q : Pool} → PoolStep p q → PoolOk p → q.stats.req_todo ≡ p.stats.req_todo
PoolStep-todo (launch l r {c} e k lt run) v = ran-todo v l r c e (inr lt) run
PoolStep-todo (skip below all_started) v = refl
PoolStep-todo (event l r {c} k e active run) v =
    ran-todo v l r c e (inl (active-busy c (middle_ok v l r c e) active)) run

PoolSteps-todo :
    (id : ℕ) (config : Config) (n todo : ℕ) {p : Pool}
    → 0 < todo
    → todo < u64_mod
    → PoolSteps (worker_new id config n todo) p
    → p.stats.req_todo ≡ todo
unfolding worker_new
PoolSteps-todo id config n todo h k here = refl
PoolSteps-todo id config n todo h k (next r s) = omega (
  arith,
  PoolStep-todo s (PoolSteps-PoolOk id config n todo h k r),
  PoolSteps-todo id config n todo h k r,
)

-- One worker for each share, numbered from `id` on, whose requests are all done.
abbrev pub AllDone : Config → ℕ → List Share → List Pool → Type 0
AllDone config id [] [] = Unit
AllDone config id (h ∷ hs) (p ∷ ps) =
    PoolSteps (worker_new id config h.concur h.reqs) p
    × (p.stats.req_done ≡ p.stats.req_todo)
    × AllDone config (suc id) hs ps
AllDone config id _ _ = ⊥

-- What the totals have grown by.
record Adds (t t' : Totals) (n : ℕ) : Type 0 where
  started : t'.req_started ≡ t.req_started + n
  done : t'.req_done ≡ t.req_done + n
  split : t'.req_success + t'.req_failed ≡ t.req_success + t.req_failed + n

add_workers-Adds :
    (config : Config) (id a b : ℕ) (hs : List Share) (ps : List Pool) (t : Totals)
    → 0 < a
    → All (IsFair a b) hs
    → AllDone config id hs ps
    → t.req_started + sum (map (λ h. h.reqs) hs) < u64_mod
    → t.req_done + sum (map (λ h. h.reqs) hs) < u64_mod
    → t.req_success + t.req_failed + sum (map (λ h. h.reqs) hs) < u64_mod
    → Adds t (add_workers t (map (λ p. p.stats) ps)) (sum (map (λ h. h.reqs) hs))
unfolding add_workers add_worker
add_workers-Adds config id a b [] [] t pos f d k l m = record {
  started = omega arith;
  done = omega arith;
  split = omega arith;
}
add_workers-Adds config id a b [] (p ∷ ps) t pos f d k l m = elim d [ ]
add_workers-Adds config id a b (h ∷ hs) [] t pos f d k l m = elim d [ ]
add_workers-Adds config id a b (h ∷ hs) (p ∷ ps) t pos (fair, f) (run, done, d) k l m =
    let some_left : 0 < h.reqs = omega (arith, fair.concur_lower, fair.enough) in
    let small : h.reqs < u64_mod = omega arith in
    let (unrefs, idle, started, split, errors) =
      PoolSteps-done id config h.concur h.reqs some_left small run done in
    let todo = PoolSteps-todo id config h.concur h.reqs some_left small run in
    let rest =
      add_workers-Adds config (suc id) a b hs ps (add_worker t p.stats) pos f d (omega arith)
        (omega arith) (omega arith) in
    record {
      started = omega (arith, rest.started);
      done = omega (arith, rest.done);
      split = omega (arith, rest.split);
    }

-- For sane settings, once each worker that `main` starts has done all of its requests, the totals show
-- every request that was asked for as started and as done, and each as a success or a failure.
pub add_workers_lem :
    (config : Config) (s : Settings) (ps : List Pool)
    → IsSane s
    → AllDone config 1 (shares s) ps
    → let t = add_workers no_totals (map (λ p. p.stats) ps) in
      (t.req_started ≡ s.req_count)
      × (t.req_done ≡ s.req_count)
      × (t.req_success + t.req_failed ≡ s.req_count)
add_workers_lem config s ps v d =
    let (threads, clients, requests, fair, pos) = shares_lem s v in
    let total : sum (map (λ h. h.reqs) (shares s)) < u64_mod =
      omega (arith, requests, v.in_range.requests) in
    let added =
      add_workers-Adds config 1 (s.concur_count / s.thread_count) (s.req_count / s.thread_count)
        (shares s) ps no_totals pos fair d (omega (arith, total)) (omega (arith, total))
        (omega (arith, total)) in
    (
      omega (arith, added.started, requests),
      omega (arith, added.done, requests),
      omega (arith, added.split, requests),
    )
