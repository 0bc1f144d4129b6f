-- ===== src/Iotop/Loop.antt =====
-- The loop of `main` in iotop-master/src/main.c, which compares each sample with the one before it and
-- frees it. Samples are numbered, and a sample with no process is freed like the others, which does
-- nothing.
pub mod Ownership
use reading_comment.Common.{
  ℕ, zero, suc, ◌+◌, ◌-◌, ◌%◌, ◌^◌, Bool, true, false, not, ◌&&◌, Option, none, some, List, [], ◌∷◌,
  ◌++◌, ltb, ◌==◌, if◌then◌else◌, sub32, u32_mod,
}

-- `fetch_data`, `view(cs, ps)` and `free_stats_chain`
pub data Event : Type 0 where
  fetched : ℕ → Event
  viewed : ℕ → Option ℕ → Event
  freed : ℕ → Event

abbrev free_previous : Option ℕ → List Event
free_previous none = []
free_previous (some ps) = freed ps ∷ []

-- `params.iter > -1 && --params.iter == 0`, and `params.iter` behind it
unfoldable pub count_down : ℕ → Bool × ℕ
count_down iter = if ltb iter (2 ^ 31) then (sub32 iter 1 == 0, sub32 iter 1) else (false, iter)

abbrev pub after : List Event → Option (List Event) → Option (List Event)
after es none = none
after es (some fs) = some (es ++ fs)

-- The loop from the round that fetches sample `cs`, with the sample `ps` at hand; `stops` is what
-- `do_sleep` returns behind each round. `none` is a loop of more than `fuel` rounds.
unfoldable pub rounds : (ℕ → Bool) → ℕ → ℕ → ℕ → Option ℕ → Option (List Event)
rounds stops zero iter cs ps = none
rounds stops (suc fuel) iter cs ps =
    let round = fetched cs ∷ viewed cs ps ∷ free_previous ps in
    let rest = rounds stops fuel (count_down iter).1 (suc cs) (some cs) in
    if (count_down iter).0
    then some (round ++ (freed cs ∷ []))
    else if stops cs
    then some (round ++ (freed cs ∷ []))
    else after round rest
