-- ===== src/Ktap/Tab/Stored.antt =====
-- A value stored at a node of a table (`set_obj` in ktap-master/runtime/kp_tab.c).
use reading_comment.Common.{
  ℕ, zero, suc, ◌≡◌, refl, sym, ap, ◌∙◌, true, false, some, arith, inl, inr, Bool-cases,
  Option-cases,
}
use native.Mathlib.Decide.{ℕ_discrete}
use reading_comment.Ktap.Tab.{Val, nil, is_nil, kp_obj_equal, Node, find, update}
use reading_comment.Ktap.Tab.Get.{value_at}
use reading_comment.Ktap.Tab.Chains.{
  kp_obj_equal-eq, Chained, find-present, find_nowhere, find-Absent, find_ends,
}
use reading_comment.Ktap.Tab.Insert.{Reach-next}

module _ (node other : ℕ → Node) (keys : (x : ℕ) → (other x).key ≡ (node x).key)
    (nexts : (x : ℕ) → (other x).next ≡ (node x).next) where
  find-same : (k : Val) (fuel a : ℕ) → find k other fuel a ≡ find k node fuel a
  unfolding find
  find-same k zero a = refl
  find-same k (suc fuel) a = elim (Bool-cases (kp_obj_equal (node a).key k)) [
    | inl y ↦ rw (keys a, y) refl
    | inr n ↦ elim (Option-cases (node a).next) [
      | inl last ↦ rw (keys a, n, nexts a, last) refl
      | inr (b, e) ↦ rw (keys a, n, nexts a, e) (find-same k fuel b)
    ]
  ]

  Chained-same :
      {h : Val → ℕ} {fuel : ℕ}
      → Chained h node fuel
      → ((x : ℕ) → is_nil (node x).key ≡ true → (other x).val ≡ nil)
      → Chained h other fuel
  Chained-same {h = h} c blank = record {
    links = record {
      rank = c.links.rank;
      bound = c.links.bound;
      down = λ x y e. c.links.down x y (sym (nexts x) ∙ e);
      one_in_front =
          λ x y z e f. c.links.one_in_front x y z (sym (nexts x) ∙ e) (sym (nexts y) ∙ f);
      behind_used = λ x y e. rw (keys y) (c.links.behind_used x y (sym (nexts x) ∙ e));
      unused = λ x e.
          let before = ap is_nil (sym (keys x)) ∙ e in
          (nexts x ∙ (c.links.unused x before).0, blank x before);
    };
    owned = λ m e. rw (keys m, keys (h (node m).key)) (c.owned m (ap is_nil (sym (keys m)) ∙ e));
    reached =
        λ m e. rw (keys m) (Reach-next nexts _ _ (c.reached m (ap is_nil (sym (keys m)) ∙ e)));
    unique =
        λ i j e f. c.unique i j (ap is_nil (sym (keys i)) ∙ e) (rw (sym (keys i), sym (keys j)) f);
  }

module _ {h : Val → ℕ} {node : ℕ → Node} {fuel : ℕ} (c : Chained h node fuel) where
  -- More fuel makes no difference.
  pub Chained-suc : Chained h node (suc fuel)
  Chained-suc = record {
    links = record {
      rank = c.links.rank;
      bound = λ x. omega (arith, c.links.bound x);
      down = c.links.down;
      one_in_front = c.links.one_in_front;
      behind_used = c.links.behind_used;
      unused = c.links.unused;
    };
    owned = c.owned;
    reached = c.reached;
    unique = c.unique;
  }

  pub find-suc :
      (k : Val) → is_nil k ≡ false → find k node (suc fuel) (h k) ≡ find k node fuel (h k)
  find-suc k proper = elim (find_ends c k proper fuel (h k) (c.links.bound (h k))) [
    | inl e ↦ find_nowhere Chained-suc k proper (find-Absent c k proper e) ∙ sym e
    | inr (m, e, f) ↦ find-present Chained-suc k proper m f ∙ sym e
  ]

  module _ (p : ℕ) (key v : Val) (proper : is_nil key ≡ false)
      (at_p : kp_obj_equal (node p).key key ≡ true) where
    abbrev pub stored : ℕ → Node
    stored = update node p (record (node p) { val = v })

    stored-key : (x : ℕ) → (stored x).key ≡ (node x).key
    stored-key x = ground arith

    stored-next : (x : ℕ) → (stored x).next ≡ (node x).next
    stored-next x = ground arith

    stored-val : (x : ℕ) → (p ≡ x → ⊥) → (stored x).val ≡ (node x).val
    stored-val x d = ground (arith, d)

    stored-val_p : (stored p).val ≡ v
    stored-val_p = ground arith

    not_p :
        (k : Val) (m : ℕ)
        → kp_obj_equal key k ≡ false
        → kp_obj_equal (node m).key k ≡ true
        → p ≡ m
        → ⊥
    not_p k m d e same =
        let keys = sym (kp_obj_equal-eq (node p).key key at_p) ∙ ap (λ w. (node w).key) same in
        absurd (ground (arith, ap (λ w. kp_obj_equal w k) keys, d, e))

    blank_stored : (x : ℕ) → is_nil (node x).key ≡ true → (stored x).val ≡ nil
    blank_stored x blank = elim (ℕ_discrete p x) [
      | yes same ↦ absurd (
          ground (
            arith,
            blank,
            ap (λ w. is_nil (node w).key) same,
            ap is_nil (kp_obj_equal-eq (node p).key key at_p),
            proper,
          ))
      | no d ↦ stored-val x d ∙ (c.links.unused x blank).1
    ]

    pub Chained-stored : Chained h stored fuel
    Chained-stored = Chained-same node stored stored-key stored-next c blank_stored

    pub get_stored : value_at stored (find key stored fuel (h key)) ≡ some v
    get_stored =
        rw
          (
            find-same node stored stored-key stored-next key fuel (h key),
            find-present c key proper p at_p,
          )
          (ap some stored-val_p)

    pub get_others :
        (k : Val)
        → is_nil k ≡ false
        → kp_obj_equal key k ≡ false
        → value_at stored (find k stored fuel (h k)) ≡ value_at node (find k node fuel (h k))
    get_others k own d =
        rw (find-same node stored stored-key stored-next k fuel (h k))
          (elim (find_ends c k own fuel (h k) (c.links.bound (h k))) [
            | inl e ↦ rw e refl
            | inr (m, e, f) ↦ rw e (ap some (stored-val m (not_p k m d f)))
          ])
