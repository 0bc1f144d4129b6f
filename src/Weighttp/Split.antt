-- ===== src/Weighttp/Split.antt =====
-- How `main` in weighttp-master/src/weighttp.c shares clients and requests out among the threads.
pub mod Shares
use reading_comment.Common.{
  ℕ, zero, suc, ◌-◌, ◌/◌, ◌%◌, List, [], ◌∷◌, ◌==◌, if◌then◌else◌, add16, add64,
}
use reading_comment.Weighttp.Options.{Settings}

-- What `worker_new` is given for one thread.
pub record Share : Type 0 where
  pub concur : ℕ
  pub reqs : ℕ

-- The loop over the threads, with the rests that are left to share out.
unfoldable pub shares_from : ℕ → ℕ → ℕ → ℕ → ℕ → List Share
shares_from zero concur reqs rest_concur rest_req = []
shares_from (suc n) concur reqs rest_concur rest_req =
    record {
      concur = if rest_concur == 0 then concur else add16 concur 1;
      reqs = if rest_req == 0 then reqs else add64 reqs 1;
    }
    ∷ shares_from n concur reqs (rest_concur - 1) (rest_req - 1)

unfoldable pub shares : Settings → List Share
shares s =
    shares_from s.thread_count (s.concur_count / s.thread_count) (s.req_count / s.thread_count)
      (s.concur_count % s.thread_count) (s.req_count % s.thread_count)
