-- ===== src/Iotop/Pids/Listing.antt =====
-- Which process numbers iotop-master/src/utils.c generates.
use reading_comment.Common.{
  ℕ, zero, suc, ◌+◌, ◌*◌, ◌<◌, ◌≤◌, ◌≡◌, ◌⊎◌, inl, inr, refl, ap, Bool, true, false, Option, none,
  some, List, [], ◌∷◌, ◌++◌, length, arith, Bool-cases, Option-cases, ◌==◌, if◌then◌else◌, ltb,
  ◌&&◌, ◌^◌,
}
use reading_comment.Common.Bytes.{Bytes}
use reading_comment.Iotop.Pids.{
  strtol, whole, __next_pid, Pidgen, not_positive, cons_pid, pidgen_next, all_pids,
}

abbrev is_empty : Bytes → Bool
is_empty [] = true
is_empty (c ∷ s) = false

-- The names that `strtol` reads to their end, as numbers.
abbrev pub numbers : List Bytes → List ℕ
numbers [] = []
numbers (name ∷ dir) =
    if is_empty (strtol name).1 then (strtol name).0 ∷ numbers dir else numbers dir

-- An `int` from 1 to 2^31 - 1
abbrev pub is_positive : ℕ → Bool
is_positive n = ltb 0 n && ltb n (2 ^ 31)

-- Up to the first that is not positive.
abbrev pub positives : List ℕ → List ℕ
positives [] = []
positives (n ∷ ns) = if is_positive n then n ∷ positives ns else []

whole-none : (r : ℕ × Bytes) → whole r ≡ none → is_empty r.1 ≡ false
unfolding whole
whole-none (n, []) h = absurd (ground (arith, h))
whole-none (n, c ∷ s) h = refl

whole-some : (r : ℕ × Bytes) (pid : ℕ) → whole r ≡ some pid → (is_empty r.1 ≡ true) × (r.0 ≡ pid)
unfolding whole
whole-some (n, []) pid h = ground (arith, h)
whole-some (n, c ∷ s) pid h = absurd (ground (arith, h))

is_positive-no : (p : ℕ) → not_positive p ≡ true → is_positive p ≡ false
is_positive-no p h = ground arith

is_positive-yes : (p : ℕ) → not_positive p ≡ false → is_positive p ≡ true
is_positive-yes p h = ground arith

abbrev pub entries : Option (List Bytes) → List ℕ
entries none = []
entries (some dir) = positives (numbers dir)

-- The threads of each process, up to a process 0.
abbrev pub threads : (ℕ → Option (List Bytes)) → List ℕ → List ℕ
threads opendir [] = []
threads opendir (p ∷ ps) = if p == 0 then [] else entries (opendir p) ++ threads opendir ps

module _ (opendir : ℕ → Option (List Bytes)) where
  abbrev pub listed : Bool → List ℕ → List ℕ
  listed true ps = threads opendir ps
  listed false ps = positives ps

  -- What a generator has still to give.
  abbrev pub pending : Pidgen → List ℕ
  pending pg = entries pg.task ++ listed pg.tasks (numbers pg.proc)

abbrev open_dirs : Option (List Bytes) → ℕ
open_dirs none = 0
open_dirs (some dir) = 1

-- How deep the recursion may go.
abbrev pub depth_of : Pidgen → ℕ
depth_of pg = 2 * length pg.proc + open_dirs pg.task

open_dirs-le : (o : Option (List Bytes)) → open_dirs o ≤ 1
open_dirs-le none = omega arith
open_dirs-le (some dir) = omega arith

positive-nonzero : (p : ℕ) → not_positive p ≡ false → (p == 0) ≡ false
positive-nonzero p h = ground arith

zero-not_positive : (p : ℕ) → (p == 0) ≡ true → not_positive p ≡ true
zero-not_positive p h = ground arith

next_number :
    (dir : List Bytes)
    → ((numbers dir ≡ []) × (__next_pid dir ≡ (0, [])))
      ⊎ ((p : ℕ) × (left : List Bytes) × (numbers dir ≡ p ∷ numbers left)
          × (__next_pid dir ≡ (p, left))
          × (length left < length dir))
unfolding __next_pid
next_number [] = inl (refl, refl)
next_number (name ∷ dir) = elim (Option-cases (whole (strtol name))) [
  | inr (p, e) ↦
      let (empty, same) = whole-some (strtol name) p e in
      inr (p, dir, rw (empty, same) refl, ground (arith, e), omega arith)
  | inl e ↦ elim (next_number dir) [
    | inl (f, g) ↦ inl (rw (whole-none (strtol name) e) f, ground (arith, e, g))
    | inr (p, left, f, g, h) ↦
        inr (p, left, rw (whole-none (strtol name) e) f, ground (arith, e, g), omega (arith, h))
  ]
]

module _ (opendir : ℕ → Option (List Bytes)) where
  -- What a call of `pidgen_next` returns, where `l` is left to give: the first of `l`, or no positive
  -- number.
  abbrev Yields : Option (ℕ × Pidgen) → List ℕ → ℕ → Type 0
  Yields none l n = ⊥
  Yields (some (pid, pg)) [] n = not_positive pid ≡ true
  Yields (some (pid, pg)) (p ∷ l) n =
      (pid ≡ p) × (not_positive p ≡ false) × (pending opendir pg ≡ l) × (depth_of pg ≤ n)

  Yields-le : (o : Option (ℕ × Pidgen)) (l : List ℕ) (m n : ℕ) → m ≤ n → Yields o l m → Yields o l n
  Yields-le none l m n h y = y
  Yields-le (some (pid, pg)) [] m n h y = y
  Yields-le (some (pid, pg)) (p ∷ l) m n h (a, b, c, k) = (a, b, c, omega (arith, k, h))

  -- The recursion out of a directory that is used up
  module _ (depth : ℕ)
      (again : (pg : Pidgen)
        → depth_of pg < depth
        → Yields (pidgen_next opendir depth pg) (pending opendir pg) (depth_of pg)) where
    from_task :
        (proc dir : List Bytes) (tasks : Bool)
        → let pg : Pidgen = record { proc = proc; task = some dir; tasks = tasks } in
          depth_of pg < suc depth
          → Yields (pidgen_next opendir (suc depth) pg) (pending opendir pg) (depth_of pg)
    unfolding pidgen_next
    from_task proc dir tasks h =
        let pg : Pidgen = record { proc = proc; task = none; tasks = tasks } in
        elim (next_number dir) [
          | inl (f, g) ↦ rw (g, f) (Yields-le _ _ _ _ (omega arith) (again pg (omega arith)))
          | inr (p, left, f, g, k) ↦ elim (Bool-cases (not_positive p)) [
            | inl y ↦
                rw (g, f, y, is_positive-no p y)
                  (Yields-le _ _ _ _ (omega arith) (again pg (omega arith)))
            | inr n ↦ rw (g, f, n, is_positive-yes p n) (refl, n, refl, omega arith)
          ]
        ]

    from_proc :
        (proc : List Bytes) (tasks : Bool)
        → let pg : Pidgen = record { proc = proc; task = none; tasks = tasks } in
          depth_of pg < suc depth
          → Yields (pidgen_next opendir (suc depth) pg) (pending opendir pg) (depth_of pg)
    unfolding pidgen_next
    from_proc proc false h = elim (next_number proc) [
      | inl (f, g) ↦ rw (g, f) refl
      | inr (p, left, f, g, k) ↦ elim (Bool-cases (not_positive p)) [
        | inl y ↦ elim (Bool-cases (p == 0)) [
          | inl z ↦ rw (g, f, is_positive-no p y, z) y
          | inr z ↦ rw (g, f, is_positive-no p y, z) y
        ]
        | inr n ↦ rw (g, f, is_positive-yes p n, positive-nonzero p n) (refl, n, refl, omega arith)
      ]
    ]
    from_proc proc true h = elim (next_number proc) [
      | inl (f, g) ↦ rw (g, f) refl
      | inr (p, left, f, g, k) ↦ elim (Bool-cases (p == 0)) [
        | inl z ↦ rw (g, f, z) (zero-not_positive p z)
        | inr z ↦
            rw (g, f, z)
              (let pg : Pidgen = record { proc = left; task = opendir p; tasks = true } in
                let bound = open_dirs-le (opendir p) in
                Yields-le _ _ _ _ (omega (arith, bound, k)) (again pg (omega (arith, bound, k))))
      ]
    ]

  next-Yields :
      (depth : ℕ) (proc : List Bytes) (task : Option (List Bytes)) (tasks : Bool)
      → let pg : Pidgen = record { proc = proc; task = task; tasks = tasks } in
        depth_of pg < depth
        → Yields (pidgen_next opendir depth pg) (pending opendir pg) (depth_of pg)
  next-Yields zero proc task tasks h = absurd (omega arith)
  next-Yields (suc depth) proc none tasks h =
      from_proc depth (λ pg. next-Yields depth pg.proc pg.task pg.tasks) proc tasks h
  next-Yields (suc depth) proc (some dir) tasks h =
      from_task depth (λ pg. next-Yields depth pg.proc pg.task pg.tasks) proc dir tasks h

  pidgen_next-Yields :
      (depth : ℕ) (pg : Pidgen)
      → depth_of pg < depth
      → Yields (pidgen_next opendir depth pg) (pending opendir pg) (depth_of pg)
  pidgen_next-Yields depth pg = next-Yields depth pg.proc pg.task pg.tasks

  all_pids-step :
      (depth fuel : ℕ) (r : Option (ℕ × Pidgen)) (l : List ℕ) (n : ℕ)
      → Yields r l n
      → length l < suc fuel
      → ((pg : Pidgen)
          → depth_of pg ≤ n
          → length (pending opendir pg) < fuel
          → all_pids opendir depth fuel pg ≡ some (pending opendir pg))
      → (elim r [
        | none ↦ none
        | some (pid, pg') ↦
            if not_positive pid then some [] else cons_pid pid (all_pids opendir depth fuel pg')
      ])
        ≡ some l
  all_pids-step depth fuel none l n y h again = elim y [ ]
  all_pids-step depth fuel (some (pid, pg)) [] n y h again = rw y refl
  all_pids-step depth fuel (some (pid, pg)) (p ∷ l) n (same, positive, rest, bound) h again =
      let done = again pg bound (omega (arith, ap length rest)) in
      rw (same, positive, done, rest) refl

  all_pids-pending :
      (depth fuel : ℕ) (pg : Pidgen)
      → depth_of pg < depth
      → length (pending opendir pg) < fuel
      → all_pids opendir depth fuel pg ≡ some (pending opendir pg)
  unfolding all_pids
  all_pids-pending depth zero pg h k = absurd (omega arith)
  all_pids-pending depth (suc fuel) pg h k =
      all_pids-step depth fuel _ _ _ (pidgen_next-Yields depth pg h) k
        (λ pg' b l. all_pids-pending depth fuel pg' (omega arith) l)

  -- The numbers that `fetch_data` gets from a new generator over a directory, with a depth of more
  -- than twice its names, and a round for each number and one more: without PIDGEN_FLAGS_TASK the
  -- names that `strtol` reads to their end, and with it the threads in the directory of each of these
  -- that opens, in order, each list up to its first number that is not an `int` from 1 to 2^31 - 1.
  pub all_pids_lem :
      (tasks : Bool) (proc : List Bytes) (depth fuel : ℕ)
      → 2 * length proc < depth
      → length (listed opendir tasks (numbers proc)) < fuel
      → all_pids opendir depth fuel (record { proc = proc; task = none; tasks = tasks })
        ≡ some (listed opendir tasks (numbers proc))
  all_pids_lem tasks proc depth fuel h k =
      all_pids-pending depth fuel (record { proc = proc; task = none; tasks = tasks }) (omega arith)
        k
