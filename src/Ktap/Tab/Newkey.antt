-- ===== src/Ktap/Tab/Newkey.antt =====
-- `kp_tab_newkey` of ktap-master/runtime/kp_tab.c keeps the chains of a table.
use reading_comment.Common.{
  ℕ, zero, suc, ◌<◌, ◌≤◌, ◌≡◌, refl, ap, ◌∙◌, true, false, none, some, arith, inl, inr, Bool-cases,
  Option-cases,
}
use native.Mathlib.Decide.{ℕ_discrete, dec_lt}
use reading_comment.Ktap.Tab.{
  Val, nil, boolean, number, string, eventstr, kstack, object, is_nil, Node, Tab, Env, hashkey,
}
use reading_comment.Ktap.Tab.Set.{free_below, predecessor, is_string_of, rechain}
use reading_comment.Ktap.Tab.Chains.{Reach, here, step, Linked}

pub free_below-free :
    (node : ℕ → Node) (k f : ℕ) → free_below node k ≡ some f → is_nil (node f).key ≡ true
unfolding free_below
free_below-free node zero f e = ground (arith, e)
free_below-free node (suc k) f e = elim (Bool-cases (is_nil (node k).key)) [
  | inl y ↦ ground (arith, e, y)
  | inr n ↦ free_below-free node k f (ground (arith, e, n))
]

-- No node from `freetop` on is free.
abbrev pub TakenFromTop : Tab → Type 0
TakenFromTop t = (i : ℕ) → t.freetop ≤ i → i ≤ t.hmask → is_nil (t.node i).key ≡ false

-- No node is free.
abbrev pub IsFull : Tab → Type 0
IsFull t = (i : ℕ) → i ≤ t.hmask → is_nil (t.node i).key ≡ false

free_below-taken :
    (node : ℕ → Node) (k : ℕ)
    → free_below node k ≡ none
    → (i : ℕ) → i < k
    → is_nil (node i).key ≡ false
unfolding free_below
free_below-taken node zero e i h = absurd (omega arith)
free_below-taken node (suc k) e i h = elim (Bool-cases (is_nil (node k).key)) [
  | inl y ↦ absurd (ground (arith, e, y))
  | inr n ↦ elim (ℕ_discrete i k) [
    | yes same ↦ ap (λ x. is_nil (node x).key) same ∙ n
    | no d ↦ free_below-taken node k (ground (arith, e, n)) i (omega (arith, d))
  ]
]

pub free_below-taken_above :
    (node : ℕ → Node) (k f : ℕ)
    → free_below node k ≡ some f
    → (i : ℕ) → f < i
    → i < k
    → is_nil (node i).key ≡ false
unfolding free_below
free_below-taken_above node zero f e i g h = absurd (omega arith)
free_below-taken_above node (suc k) f e i g h = elim (Bool-cases (is_nil (node k).key)) [
  | inl y ↦ let same : k ≡ f = ground (arith, e, y) in absurd (omega (arith, same))
  | inr n ↦ elim (ℕ_discrete i k) [
    | yes same ↦ ap (λ x. is_nil (node x).key) same ∙ n
    | no d ↦ free_below-taken_above node k f (ground (arith, e, n)) i g (omega (arith, d))
  ]
]

pub free_below-IsFull : (t : Tab) → TakenFromTop t → free_below t.node t.freetop ≡ none → IsFull t
free_below-IsFull t taken e i h = elim (dec_lt i t.freetop) [
  | yes below ↦ free_below-taken t.node t.freetop e i below
  | no above ↦ taken i (omega (arith, above)) h
]

-- The search for the node in front ends there.
pub predecessor_lem :
    {node : ℕ → Node} {fuel : ℕ} (l : Linked node fuel) (k n a : ℕ)
    → l.rank a < k
    → Reach node a n
    → (a ≡ n → ⊥)
    → (c : ℕ) × (predecessor node k n a ≡ some c) × ((node c).next ≡ some n)
unfolding predecessor
predecessor_lem l zero n a b r d = absurd (omega arith)
predecessor_lem l (suc k) n a b here d = absurd (d refl)
predecessor_lem l (suc k) n a b (step x e r) d = elim (ℕ_discrete x n) [
  | yes same ↦ (a, rw (e, predecessor) (ground (arith, same)), e ∙ ap some same)
  | no far ↦
      let (c, found, next) = predecessor_lem l k n x (omega (arith, b, l.down a x e)) r far in
      (c, rw (e, predecessor) (ground (arith, far, found)), next)
]

module _ (env : Env) (t : Tab) where
  not_string_of :
      (n : ℕ) (v key : Val) → (hashkey env t.hmask key ≡ n → ⊥) → is_string_of env t n v key ≡ false
  not_string_of n v nil d = refl
  not_string_of n v (boolean a) d = refl
  not_string_of n v (number a) d = refl
  not_string_of n v (string a) d = ground (arith, d)
  not_string_of n v (eventstr a) d = refl
  not_string_of n v (kstack a) d = refl
  not_string_of n v (object a b) d = refl

  -- The part of a chain below rank `top` stays as it is, where no key has main node `n`.
  module _ {node : ℕ → Node} (rank : ℕ → ℕ) (top n : ℕ)
      (down : (y z : ℕ) → rank y < top → (node y).next ≡ some z → rank z < rank y)
      (far : (y z : ℕ)
        → rank y < top
        → (node y).next ≡ some z
        → hashkey env t.hmask (node z).key ≡ n
        → ⊥) where
    rechain_walk : (k x : ℕ) → rank x < top → rank x < k → rechain env t k n x node ≡ some node
    unfolding rechain
    rechain_walk zero x o b = absurd (omega arith)
    rechain_walk (suc k) x o b = elim (Option-cases (node x).next) [
      | inl last ↦ rw (last, rechain) refl
      | inr (y, e) ↦
          let less = down x y o e in
          rw (e, rechain, not_string_of n (node y).val (node y).key (far x y o e))
            (rechain_walk k y (omega (arith, o, less)) (omega (arith, b, less)))
    ]

    pub rechain_from :
        (k f : ℕ)
        → ((y : ℕ)
            → (node f).next ≡ some y
            → (rank y < top) × (hashkey env t.hmask (node y).key ≡ n → ⊥))
        → top < k
        → rechain env t k n f node ≡ some node
    unfolding rechain
    rechain_from zero f first b = absurd (omega arith)
    rechain_from (suc k) f first b = elim (Option-cases (node f).next) [
      | inl last ↦ rw (last, rechain) refl
      | inr (y, e) ↦
          let (o, foreign) = first y e in
          rw (e, rechain, not_string_of n (node y).val (node y).key foreign)
            (rechain_walk k y o (omega (arith, b, o)))
    ]
