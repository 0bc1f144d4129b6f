-- ===== src/Ktap/Tab/Walk/Scan.antt =====
-- The two loops of `kp_tab_next` (ktap-master/runtime/kp_tab.c).
use reading_comment.Common.{
  ℕ, zero, suc, ◌+◌, ◌<◌, ◌≤◌, ◌≡◌, inl, inr, sym, ap, ◌∙◌, Bool, true, false, Option, none, some,
  arith, Bool-cases,
}
use native.Mathlib.Decide.{ℕ_discrete}
use reading_comment.Ktap.Tab.{Val, is_nil, Node}
use reading_comment.Ktap.Tab.Walk.{scan_array, scan_nodes}

-- The first of the places from `i` to `i + left` where `blank` does not hold
abbrev pub First : (ℕ → Bool) → Option ℕ → ℕ → ℕ → Type 0
First blank none left i = (m : ℕ) → i ≤ m → m < i + left → blank m ≡ true
First blank (some j) left i =
    (i ≤ j) × (j < i + left) × (blank j ≡ false) × ((m : ℕ) → i ≤ m → m < j → blank m ≡ true)

First-suc :
    (blank : ℕ → Bool) (o : Option ℕ) (left i : ℕ)
    → blank i ≡ true
    → First blank o left (suc i)
    → First blank o (suc left) i
First-suc blank none left i b f = λ m h k. elim (ℕ_discrete i m) [
  | yes e ↦ ap blank (sym e) ∙ b
  | no d ↦ f m (omega arith) (omega arith)
]
First-suc blank (some j) left i b (h, k, full, f) = (
  omega arith,
  omega arith,
  full,
  λ m o p. elim (ℕ_discrete i m) [
    | yes e ↦ ap blank (sym e) ∙ b
    | no d ↦ f m (omega arith) (omega arith)
  ],
)

pub scan_array-First :
    (array : ℕ → Val) (left i : ℕ) → First (λ m. is_nil (array m)) (scan_array array left i) left i
unfolding scan_array
scan_array-First array zero i = λ m h k. absurd (omega arith)
scan_array-First array (suc left) i = elim (Bool-cases (is_nil (array i))) [
  | inl b ↦ rw b (First-suc _ _ left i b (scan_array-First array left (suc i)))
  | inr n ↦ rw n (omega arith, omega arith, n, λ m h k. absurd (omega arith))
]

pub scan_nodes-First :
    (node : ℕ → Node) (left i : ℕ)
    → First (λ m. is_nil (node m).val) (scan_nodes node left i) left i
unfolding scan_nodes
scan_nodes-First node zero i = λ m h k. absurd (omega arith)
scan_nodes-First node (suc left) i = elim (Bool-cases (is_nil (node i).val)) [
  | inl b ↦ rw b (First-suc _ _ left i b (scan_nodes-First node left (suc i)))
  | inr n ↦ rw n (omega arith, omega arith, n, λ m h k. absurd (omega arith))
]
