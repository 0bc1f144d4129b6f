-- ===== src/Ktap/Tab/Rebuilt.antt =====
-- The nodes of a table (ktap-master/runtime/kp_tab.c) before and behind the entry of a new key.
use reading_comment.Common.{
  ℕ, ◌≡◌, refl, sym, ap, ◌∙◌, true, false, none, some, arith, inl, inr, ◌⊎◌,
}
use native.Mathlib.Decide.{ℕ_discrete}
use reading_comment.Ktap.Tab.{Val, nil, is_nil, kp_obj_equal, Node, find}
use reading_comment.Ktap.Tab.Get.{value_at}
use reading_comment.Ktap.Tab.Chains.{
  kp_obj_equal-eq, Reach, Linked, Owned, Chained, Absent, find-present, find_ends,
}

-- `other` has the new key at `p`, and what stood at node `y` of `node` stands at `at y`, unless it was
-- dead and gave way to the new key.
pub record Rebuilt (h : Val → ℕ) (node other : ℕ → Node) (fuel p : ℕ) (key : Val) (at : ℕ → ℕ)
    : Type 0 where
  pub links : Linked other fuel
  pub stored : (other p).key ≡ key
  pub empty : (other p).val ≡ nil
  pub from_old :
      (x : ℕ)
      → (p ≡ x → ⊥)
      → is_nil (other x).key ≡ false
      → (y : ℕ) × (is_nil (node y).key ≡ false) × (at y ≡ x)
  pub kept :
      (y : ℕ)
      → is_nil (node y).key ≡ false
      → ((p ≡ at y) × ((node y).val ≡ nil))
        ⊎ ((p ≡ at y → ⊥)
            × ((other (at y)).key ≡ (node y).key)
            × ((other (at y)).val ≡ (node y).val))
  pub own : Owned h other (h key)
  pub owners : (a : ℕ) → Owned h node a → Owned h other a
  pub at_end : Reach other (h key) p
  pub moved : (a y : ℕ) → Owned h node a → Reach node a y → Reach other a (at y)

module _ {h : Val → ℕ} {node other : ℕ → Node} {fuel fuel' p : ℕ} {key : Val} {at : ℕ → ℕ}
    (c : Chained h node fuel) (new : Absent node key)
    (r : Rebuilt h node other fuel' p key at) where
  -- A node with a key other than `p` comes from an old one, with the same key and value.
  origin :
      (x : ℕ)
      → (p ≡ x → ⊥)
      → is_nil (other x).key ≡ false
      → (y : ℕ) × (is_nil (node y).key ≡ false)
        × (at y ≡ x)
        × ((other x).key ≡ (node y).key)
        × ((other x).val ≡ (node y).val)
  origin x d used =
      let (y, used_y, e) = r.from_old x d used in
      elim (r.kept y used_y) [
        | inl (f, n) ↦ absurd (d (f ∙ e))
        | inr (d', k, v) ↦
            (y, used_y, e, sym (ap (λ z. (other z).key) e) ∙ k, sym (ap (λ z. (other z).val) e) ∙ v)
      ]

  Owned-rebuilt : (m : ℕ) → is_nil (other m).key ≡ false → Owned h other (h (other m).key)
  Owned-rebuilt m used = elim (ℕ_discrete p m) [
    | yes e ↦ rw (ap h (sym (ap (λ z. (other z).key) e) ∙ r.stored)) r.own
    | no d ↦
        let (y, used_y, e, k, v) = origin m d used in
        rw (ap h k) (r.owners (h (node y).key) (c.owned y used_y))
  ]

  reached_rebuilt : (m : ℕ) → is_nil (other m).key ≡ false → Reach other (h (other m).key) m
  reached_rebuilt m used = elim (ℕ_discrete p m) [
    | yes e ↦ rw (sym e, ap h r.stored) r.at_end
    | no d ↦
        let (y, used_y, e, k, v) = origin m d used in
        rw (ap h k, sym e) (r.moved (h (node y).key) y (c.owned y used_y) (c.reached y used_y))
  ]

  not_new : (y : ℕ) (a b : Val) → (node y).key ≡ a → b ≡ key → kp_obj_equal a b ≡ true → ⊥
  not_new y a b e f same = absurd (ground (arith, e, f, same, new y))

  unique_rebuilt :
      (i j : ℕ)
      → is_nil (other i).key ≡ false
      → kp_obj_equal (other i).key (other j).key ≡ true
      → i ≡ j
  unique_rebuilt i j used same =
      let keys = kp_obj_equal-eq (other i).key (other j).key same in
      let used' = ap is_nil (sym keys) ∙ used in
      elim (ℕ_discrete p i) [
        | yes e ↦ elim (ℕ_discrete p j) [
          | yes f ↦ sym e ∙ f
          | no f ↦
              let (y, used_y, e', k, v) = origin j f used' in
              absurd (
                not_new y (other i).key (other j).key (sym k ∙ sym keys)
                  (sym keys ∙ (sym (ap (λ z. (other z).key) e) ∙ r.stored)) same)
        ]
        | no d ↦ elim (ℕ_discrete p j) [
          | yes f ↦
              let (y, used_y, e', k, v) = origin i d used in
              absurd (
                not_new y (other i).key (other j).key (sym k)
                  (sym (ap (λ z. (other z).key) f) ∙ r.stored) same)
          | no f ↦
              let (y, used_y, e, k, v) = origin i d used in
              let (z, used_z, e', k', v') = origin j f used' in
              sym e ∙ (ap at (c.unique y z used_y (rw (sym k, sym k') same)) ∙ e')
        ]
      ]

  pub Chained-rebuilt : Chained h other fuel'
  Chained-rebuilt = record {
    links = r.links;
    owned = Owned-rebuilt;
    reached = reached_rebuilt;
    unique = unique_rebuilt;
  }

  dead_key :
      (k : Val) (m : ℕ)
      → is_nil k ≡ false
      → find k other fuel' (h k) ≡ some none
      → kp_obj_equal (node m).key k ≡ true
      → (node m).val ≡ nil
  dead_key k m proper gone e =
      let used = ap is_nil (kp_obj_equal-eq (node m).key k e) ∙ proper in
      elim (r.kept m used) [
        | inl (f, dead) ↦ dead
        | inr (d, same, v) ↦ absurd (
            ground (
              arith,
              gone,
              find-present Chained-rebuilt k proper (at m) (ap (λ x. kp_obj_equal x k) same ∙ e),
            ))
      ]

  -- A search for another key finds the value that it found before.
  pub find-rebuilt :
      (k : Val)
      → is_nil k ≡ false
      → kp_obj_equal key k ≡ false
      → value_at other (find k other fuel' (h k)) ≡ value_at node (find k node fuel (h k))
  find-rebuilt k proper d =
      elim (find_ends Chained-rebuilt k proper fuel' (h k) (Chained-rebuilt.links.bound (h k))) [
        | inl gone ↦ elim (find_ends c k proper fuel (h k) (c.links.bound (h k))) [
          | inl e ↦ rw (gone, e) refl
          | inr (m, e, f) ↦ rw (gone, e, dead_key k m proper gone f) refl
        ]
        | inr (x, e, f) ↦ elim (ℕ_discrete p x) [
          | yes same ↦ absurd (ground (arith, ap (λ z. (other z).key) same, r.stored, f, d))
          | no far ↦
              let used = ap is_nil (kp_obj_equal-eq (other x).key k f) ∙ proper in
              let (y, used_y, at_x, keys, vals) = origin x far used in
              rw (e, find-present c k proper y (ap (λ z. kp_obj_equal z k) (sym keys) ∙ f))
                (ap some vals)
        ]
      ]
