-- ===== src/Iotop/Loop/Ownership.antt =====
-- Each sample of iotop (iotop-master/src/main.c) is freed once, and not used behind that.
use reading_comment.Common.{
  ℕ, zero, suc, ◌-◌, ◌^◌, ◌<◌, ◌≤◌, ◌≡◌, refl, Bool, true, false, ◌&&◌, Option, none, some, List,
  [], ◌∷◌, ◌++◌, ◌==◌, if◌then◌else◌, arith, Bool-cases, inl, inr, ◌∙◌,
}
use native.Mathlib.Decide.{ℕ_discrete}
use reading_comment.Iotop.Loop.{Event, fetched, viewed, freed, count_down, free_previous, rounds}

abbrev pub is_live : ℕ → List ℕ → Bool
is_live n [] = false
is_live n (m ∷ ms) = if n == m then true else is_live n ms

abbrev pub without : ℕ → List ℕ → List ℕ
without n [] = []
without n (m ∷ ms) = if n == m then ms else m ∷ without n ms

abbrev pub may_view : Option ℕ → List ℕ → Bool
may_view none live = true
may_view (some n) live = is_live n live

-- The samples that are in use after some events; `none` if one was viewed or freed that was not in use.
abbrev pub monitor : List ℕ → List Event → Option (List ℕ)
monitor live [] = some live
monitor live (fetched n ∷ es) = monitor (n ∷ live) es
monitor live (viewed n ps ∷ es) =
    if is_live n live && may_view ps live then monitor live es else none
monitor live (freed n ∷ es) = if is_live n live then monitor (without n live) es else none

abbrev pub samples : Option ℕ → List ℕ
samples none = []
samples (some n) = n ∷ []

-- The sample at hand is the one in front of the next.
abbrev InFront : ℕ → Option ℕ → Type 0
InFront cs none = Unit
InFront cs (some ps) = cs ≡ suc ps

last_round :
    (cs : ℕ) (ps : Option ℕ)
    → InFront cs ps
    → monitor (samples ps) ((fetched cs ∷ viewed cs ps ∷ free_previous ps) ++ (freed cs ∷ []))
      ≡ some []
last_round cs none h = ground arith
last_round cs (some ps) h = ground arith

one_round :
    (cs : ℕ) (ps : Option ℕ) (es : List Event)
    → InFront cs ps
    → monitor (samples ps) ((fetched cs ∷ viewed cs ps ∷ free_previous ps) ++ es)
      ≡ monitor (cs ∷ []) es
one_round cs none es h = ground arith
one_round cs (some ps) es h = ground arith

-- How many samples were taken
abbrev pub fetches : List Event → ℕ
fetches [] = 0
fetches (fetched n ∷ es) = suc (fetches es)
fetches (viewed n ps ∷ es) = fetches es
fetches (freed n ∷ es) = fetches es

fetches-last :
    (cs : ℕ) (ps : Option ℕ)
    → fetches ((fetched cs ∷ viewed cs ps ∷ free_previous ps) ++ (freed cs ∷ [])) ≡ 1
fetches-last cs none = refl
fetches-last cs (some ps) = refl

fetches-round :
    (cs : ℕ) (ps : Option ℕ) (es : List Event)
    → fetches ((fetched cs ∷ viewed cs ps ∷ free_previous ps) ++ es) ≡ suc (fetches es)
fetches-round cs none es = refl
fetches-round cs (some ps) es = refl

counted_last : (iter : ℕ) → iter ≡ 1 → (count_down iter).0 ≡ true
unfolding count_down
counted_last iter h = ground arith

counted_more : (iter : ℕ) → 1 < iter → iter < 2 ^ 31 → count_down iter ≡ (false, iter - 1)
unfolding count_down
counted_more iter h k = ground arith

-- The loop of `main`, with a round for each of the `iter` that `-n` asks for, ends: with at most
-- `iter` samples taken, each used only between its `fetch_data` and its one `free_stats_chain`, and
-- each freed.
pub rounds-monitor :
    (stops : ℕ → Bool) (fuel iter cs : ℕ) (ps : Option ℕ)
    → 0 < iter
    → iter < 2 ^ 31
    → iter ≤ fuel
    → InFront cs ps
    → (es : List Event) × (rounds stops fuel iter cs ps ≡ some es)
      × (monitor (samples ps) es ≡ some [])
      × (fetches es ≤ iter)
unfolding rounds
rounds-monitor stops zero iter cs ps h k l f = absurd (omega arith)
rounds-monitor stops (suc fuel) iter cs ps h k l f = elim (ℕ_discrete iter 1) [
  | yes last ↦ (
    (fetched cs ∷ viewed cs ps ∷ free_previous ps) ++ (freed cs ∷ []),
    rw (counted_last iter last) refl,
    last_round cs ps f,
    omega (arith, fetches-last cs ps),
  )
  | no more ↦ elim (Bool-cases (stops cs)) [
    | inl y ↦ (
      (fetched cs ∷ viewed cs ps ∷ free_previous ps) ++ (freed cs ∷ []),
      rw (counted_more iter (omega arith) k, y) refl,
      last_round cs ps f,
      omega (arith, fetches-last cs ps),
    )
    | inr n ↦
        let (es, run, clean, few) =
          rounds-monitor stops fuel (iter - 1) (suc cs) (some cs) (omega arith) (omega arith)
            (omega arith) refl in
        (
          (fetched cs ∷ viewed cs ps ∷ free_previous ps) ++ es,
          rw (counted_more iter (omega arith) k, n, run) refl,
          one_round cs ps es f ∙ clean,
          omega (arith, few, fetches-round cs ps es),
        )
  ]
]
