-- ===== src/Ktap/Tab/Insert.antt =====
-- How `kp_tab_newkey` (ktap-master/runtime/kp_tab.c) changes the chains.
use reading_comment.Common.{
  ℕ, suc, ◌≡◌, refl, sym, ap, ◌∙◌, true, false, arith, Bool-cases, inl, inr,
}
use native.Mathlib.Decide.{ℕ_discrete}
use reading_comment.Ktap.Tab.{Val, nil, is_nil, Node, update}
use reading_comment.Ktap.Tab.Rebuilt.{Rebuilt}
use reading_comment.Ktap.Tab.Chains.{Reach, here, step, Linked, Chained}

pub update-same : {A : Type 0} (f : ℕ → A) (i : ℕ) (a : A) → update f i a i ≡ a
update-same f i a = ground arith

pub update-other : {A : Type 0} (f : ℕ → A) (i j : ℕ) (a : A) → (i ≡ j → ⊥) → update f i a j ≡ f j
update-other f i j a h = ground arith

pub Reach-next :
    {node other : ℕ → Node}
    → ((x : ℕ) → (other x).next ≡ (node x).next)
    → (a m : ℕ) → Reach node a m
    → Reach other a m
Reach-next e a m here = here
Reach-next e a m (step b n r) = step b (e a ∙ n) (Reach-next e b m r)

-- A key goes to its main node, where there is no key or a dead one.
module _ {h : Val → ℕ} {node other : ℕ → Node} {fuel : ℕ} (c : Chained h node fuel) (key : Val)
    (proper : is_nil key ≡ false) (dead : (node (h key)).val ≡ nil)
    (nexts : (x : ℕ) → (other x).next ≡ (node x).next)
    (vals : (x : ℕ) → (other x).val ≡ (node x).val) (stored : (other (h key)).key ≡ key)
    (keys : (x : ℕ) → (h key ≡ x → ⊥) → (other x).key ≡ (node x).key) where
  pub used_then : (x : ℕ) → is_nil (node x).key ≡ false → is_nil (other x).key ≡ false
  used_then x used = elim (ℕ_discrete (h key) x) [
    | yes e ↦ rw (sym e, stored) proper
    | no d ↦ rw (keys x d) used
  ]

  unused_before : (x : ℕ) → is_nil (other x).key ≡ true → is_nil (node x).key ≡ true
  unused_before x free = elim (Bool-cases (is_nil (node x).key)) [
    | inl y ↦ y
    | inr used ↦ absurd (ground (arith, free, used_then x used))
  ]

  Linked-own : Linked other (suc fuel)
  Linked-own = record {
    rank = c.links.rank;
    bound = λ x. omega (arith, c.links.bound x);
    down = λ x y e. c.links.down x y (sym (nexts x) ∙ e);
    one_in_front = λ x y z e f. c.links.one_in_front x y z (sym (nexts x) ∙ e) (sym (nexts y) ∙ f);
    behind_used = λ x y e. used_then y (c.links.behind_used x y (sym (nexts x) ∙ e));
    unused = λ x e.
        let (end, blank) = c.links.unused x (unused_before x e) in (nexts x ∙ end, vals x ∙ blank);
  }

  pub Rebuilt-own : Rebuilt h node other (suc fuel) (h key) key (λ y. y)
  Rebuilt-own = record {
    links = Linked-own;
    stored = stored;
    empty = vals (h key) ∙ dead;
    from_old = λ x d used. (x, rw (sym (keys x d)) used, refl);
    kept = λ y used. elim (ℕ_discrete (h key) y) [
      | yes e ↦ inl (e, ap (λ z. (node z).val) (sym e) ∙ dead)
      | no d ↦ inr (d, keys y d, vals y)
    ];
    own = (rw stored proper, ap h stored);
    owners = λ a (used, main). (
      used_then a used,
      elim (ℕ_discrete (h key) a) [
        | yes e ↦ ap (λ z. h (other z).key) (sym e) ∙ (ap h stored ∙ e)
        | no d ↦ ap h (keys a d) ∙ main
      ],
    );
    at_end = here;
    moved = λ a y o r. Reach-next nexts a y r;
  }
