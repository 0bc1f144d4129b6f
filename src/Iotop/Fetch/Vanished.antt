-- ===== src/Iotop/Fetch/Vanished.antt =====
-- What `fetch_data` (iotop-master/src/xxxid_info.c) returns, and when it fails.
use reading_comment.Common.{ℕ, Option, none, some, List, [], ◌∷◌, if◌then◌else◌}
use reading_comment.Common.Bytes.{Bytes}
use reading_comment.Iotop.Types.{XxxidStats, Params}
use reading_comment.Iotop.Fetch.{filter1, make_stats}

module _ {D : Type 0} where
  -- The processes that `filter1` lets through
  abbrev pub kept : Params → List (XxxidStats D) → List (XxxidStats D)
  kept p [] = []
  kept p (s ∷ l) = if filter1 p s then kept p l else s ∷ kept p l

  abbrev pub cons_stats : XxxidStats D → Option (List (XxxidStats D)) → Option (List (XxxidStats D))
  cons_stats s none = none
  cons_stats s (some l) = some (s ∷ l)

module _ {D : Type 0} (info : ℕ → Option (XxxidStats D)) (cmdline : ℕ → Option Bytes) where
  -- The statistics of all processes, if none of them has gone
  abbrev pub all_stats : List ℕ → Option (List (XxxidStats D))
  all_stats [] = some []
  all_stats (pid ∷ pids) = elim (make_stats info cmdline pid) [
    | none ↦ none
    | some s ↦ cons_stats s (all_stats pids)
  ]
