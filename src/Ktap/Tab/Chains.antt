-- ===== src/Ktap/Tab/Chains.antt =====
-- The chains of a table (ktap-master/runtime/kp_tab.c), and what a search along one finds.
use reading_comment.Common.{
  ℕ, zero, suc, ◌<◌, ◌≡◌, refl, sym, ap, ◌∙◌, true, false, none, some, arith, Bool-cases,
  Option-cases, inl, inr, ◌⊎◌,
}
use reading_comment.Ktap.Tab.{
  Val, nil, number, string, eventstr, kstack, object, boolean, is_nil, kp_obj_equal, Node, find,
}

pub kp_obj_equal-eq : (a b : Val) → kp_obj_equal a b ≡ true → a ≡ b
unfolding kp_obj_equal
kp_obj_equal-eq nil b h = ground arith
kp_obj_equal-eq (boolean a) b h = ground arith
kp_obj_equal-eq (number a) b h = ground arith
kp_obj_equal-eq (string a) b h = ground arith
kp_obj_equal-eq (eventstr a) b h = ground arith
kp_obj_equal-eq (kstack a) b h = ground arith
kp_obj_equal-eq (object s a) b h = ground arith

-- `m` stands in the chain from `a` on.
pub data Reach (node : ℕ → Node) : ℕ → ℕ → Type 0 where
  here : {a : ℕ} → Reach node a a
  step : {a m : ℕ} (b : ℕ) → (node a).next ≡ some b → Reach node b m → Reach node a m

-- The chains end, and no two run together; a node without key is in none.
pub record Linked (node : ℕ → Node) (fuel : ℕ) : Type 0 where
  pub rank : ℕ → ℕ
  pub bound : (x : ℕ) → rank x < fuel
  pub down : (x y : ℕ) → (node x).next ≡ some y → rank y < rank x
  pub one_in_front : (x y z : ℕ) → (node x).next ≡ some z → (node y).next ≡ some z → x ≡ y
  pub behind_used : (x y : ℕ) → (node x).next ≡ some y → is_nil (node y).key ≡ false
  pub unused : (x : ℕ) → is_nil (node x).key ≡ true → ((node x).next ≡ none) × ((node x).val ≡ nil)

-- Node `a` has a key, and is the main node of its key.
abbrev pub Owned : (Val → ℕ) → (ℕ → Node) → ℕ → Type 0
Owned h node a = (is_nil (node a).key ≡ false) × (h (node a).key ≡ a)

-- Each key stands once, in the chain from its main node, which is its own key's main node.
pub record Chained (h : Val → ℕ) (node : ℕ → Node) (fuel : ℕ) : Type 0 where
  pub links : Linked node fuel
  pub owned : (m : ℕ) → is_nil (node m).key ≡ false → Owned h node (h (node m).key)
  pub reached : (m : ℕ) → is_nil (node m).key ≡ false → Reach node (h (node m).key) m
  pub unique :
      (i j : ℕ)
      → is_nil (node i).key ≡ false
      → kp_obj_equal (node i).key (node j).key ≡ true
      → i ≡ j

-- No node has the key.
abbrev pub Absent : (ℕ → Node) → Val → Type 0
Absent node key = (m : ℕ) → kp_obj_equal (node m).key key ≡ false

module _ {h : Val → ℕ} {node : ℕ → Node} {fuel : ℕ} (c : Chained h node fuel) (key : Val)
    (proper : is_nil key ≡ false) where
  pub one_holder :
      (i j : ℕ)
      → kp_obj_equal (node i).key key ≡ true
      → kp_obj_equal (node j).key key ≡ true
      → i ≡ j
  one_holder i j e f =
      let p = kp_obj_equal-eq (node i).key key e in
      let q = kp_obj_equal-eq (node j).key key f in
      c.unique i j (rw p proper) (rw (p, q) (sym (ap (λ v. kp_obj_equal v key) q) ∙ f))

  -- A search that reaches a node with the key ends there.
  find-reached :
      (k a m : ℕ)
      → c.links.rank a < k
      → Reach node a m
      → kp_obj_equal (node m).key key ≡ true
      → find key node k a ≡ some (some m)
  unfolding find
  find-reached zero a m b r e = absurd (omega arith)
  find-reached (suc k) a m b here e = rw e refl
  find-reached (suc k) a m b (step b' n r) e = elim (Bool-cases (kp_obj_equal (node a).key key)) [
    | inl y ↦ rw y (ap (λ x. some (some x)) (one_holder a m y e))
    | inr other ↦ rw (other, n) (find-reached k b' m (omega (arith, b, c.links.down a b' n)) r e)
  ]

  -- A search ends, with a node that has the key if it ends at one.
  pub find_ends :
      (k a : ℕ)
      → c.links.rank a < k
      → (find key node k a ≡ some none)
        ⊎ ((m : ℕ) × (find key node k a ≡ some (some m)) × (kp_obj_equal (node m).key key ≡ true))
  unfolding find
  find_ends zero a b = absurd (omega arith)
  find_ends (suc k) a b = elim (Bool-cases (kp_obj_equal (node a).key key)) [
    | inl y ↦ inr (a, rw y refl, y)
    | inr other ↦ elim (Option-cases (node a).next) [
      | inl last ↦ inl (rw (other, last) refl)
      | inr (b', n) ↦ elim (find_ends k b' (omega (arith, b, c.links.down a b' n))) [
        | inl e ↦ inl (rw (other, n) e)
        | inr (m, e, f) ↦ inr (m, rw (other, n) e, f)
      ]
    ]
  ]

  -- If some node has the key, it is found.
  pub find-present :
      (m : ℕ) → kp_obj_equal (node m).key key ≡ true → find key node fuel (h key) ≡ some (some m)
  find-present m e =
      let p = kp_obj_equal-eq (node m).key key e in
      find-reached fuel (h key) m (c.links.bound (h key))
        (rw (sym (ap h p)) (c.reached m (rw p proper))) e

  -- If none has, the search ends without a node.
  pub find_nowhere : Absent node key → find key node fuel (h key) ≡ some none
  find_nowhere none_has = elim (find_ends fuel (h key) (c.links.bound (h key))) [
    | inl e ↦ e
    | inr (m, e, f) ↦ absurd (ground (arith, f, none_has m))
  ]

  -- A search without a node tells that none has the key.
  pub find-Absent : find key node fuel (h key) ≡ some none → Absent node key
  find-Absent e m = elim (Bool-cases (kp_obj_equal (node m).key key)) [
    | inr other ↦ other
    | inl y ↦ absurd (ground (arith, e, find-present m y))
  ]
