-- ===== src/Iotop/Fetch.antt =====
-- `make_stats` and `fetch_data` of iotop-master/src/xxxid_info.c, with `filter1` of main.c. The kernel's
-- answer to `nl_xxxid_info` and the file that `read_cmdline2` reads are arguments; `none` as a result is
-- an access through a NULL pointer.
pub mod Vanished
use reading_comment.Common.{
  ℕ, ◌+◌, ◌*◌, Bool, true, false, not, ◌&&◌, ◌||◌, Option, none, some, List, [], ◌∷◌, ◌++◌, length,
  ◌==◌, if◌then◌else◌,
}
use reading_comment.Common.Bytes.{Bytes, codes}
use reading_comment.Iotop.Types.{XxxidStats, Params, minus_one32}
use reading_comment.Iotop.Pids.{Pidgen, all_pids}

-- Whether `filter1` looks at the process at all
abbrev pub watches : Params → Bool
watches p = not (p.user_id == minus_one32) || not (p.pid == minus_one32)

-- `filter1`: true for a process that is not to be shown
unfoldable pub filter1 : {D : Type 0} → Params → XxxidStats D → Bool
filter1 p s =
    if not (p.user_id == minus_one32) && not (s.euid == p.user_id)
    then true
    else not (p.pid == minus_one32) && not (s.tid == p.pid)

-- The list from `schain`, and whether `p` is NULL behind it
pub record Chain (D : Type 0) : Type 0 where
  pub schain : List (XxxidStats D)
  pub lost : Bool

-- `s` is put behind a list that is not empty.
abbrev put_behind : {D : Type 0} → Chain D → Option (XxxidStats D) → Option (Chain D)
put_behind c none = if c.lost then none else some (record c { lost = true })
put_behind c (some s) = if c.lost then none else some (record c { schain = c.schain ++ (s ∷ []) })

-- The branches of `if (!schain)`
unfoldable pub link : {D : Type 0} → Chain D → Option (XxxidStats D) → Option (Chain D)
link c s = elim c.schain [
  | [] ↦ elim s [ none ↦ some c | some s' ↦ some (record { schain = s' ∷ []; lost = false }) ]
  | t ∷ ts ↦ put_behind c s
]

-- `make_stats`
unfoldable pub make_stats :
    {D : Type 0} → (ℕ → Option (XxxidStats D)) → (ℕ → Option Bytes) → ℕ → Option (XxxidStats D)
make_stats info cmdline pid = elim (info pid) [
  | none ↦ none
  | some s ↦ some (record s {
    tid = pid;
    cmdline = elim (cmdline pid) [ none ↦ codes "<unknown>" | some text ↦ text ];
  })
]

-- `filter(s)`: `filter1` reads `*s` when it looks at the process.
unfoldable pub filter : {D : Type 0} → Params → Option (XxxidStats D) → Option Bool
filter p none = if watches p then none else some false
filter p (some s) = some (filter1 p s)

-- One round of the loop of `fetch_data`
unfoldable pub add_process :
    {D : Type 0} → Params → Chain D → Option (XxxidStats D) → Option (Chain D)
add_process p c s = elim (filter p s) [ none ↦ none | some true ↦ some c | some false ↦ link c s ]

module _ {D : Type 0} (info : ℕ → Option (XxxidStats D)) (cmdline : ℕ → Option Bytes)
    (p : Params) where
  unfoldable pub fetch_loop : Chain D → List ℕ → Option (Chain D)
  fetch_loop c [] = some c
  fetch_loop c (pid ∷ pids) = elim (add_process p c (make_stats info cmdline pid)) [
    | none ↦ none
    | some c' ↦ fetch_loop c' pids
  ]

abbrev schain_of : {D : Type 0} → Option (Chain D) → Option (List (XxxidStats D))
schain_of none = none
schain_of (some c) = some c.schain

-- `fetch_data` on the names in /proc, which opens. `fuel` bounds the rounds.
unfoldable pub fetch_data :
    {D : Type 0}
    → (ℕ → Option (XxxidStats D))
    → (ℕ → Option Bytes)
    → Params
    → (ℕ → Option (List Bytes))
    → ℕ
    → List Bytes
    → Option (List (XxxidStats D))
fetch_data info cmdline p opendir fuel proc =
    elim (all_pids opendir (2 * length proc + 1) fuel
      (record { proc = proc; task = none; tasks = p.processes == 0 })) [
        | none ↦ none
        | some pids ↦
            schain_of (fetch_loop info cmdline p (record { schain = []; lost = false }) pids)
      ]
