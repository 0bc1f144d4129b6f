-- ===== src/Ktap/Tab/Collide.antt =====
-- A new key whose main node is taken (`kp_tab_newkey`, ktap-master/runtime/kp_tab.c): it goes to the free
-- node if the key at its main node belongs there, and otherwise that key moves to the free node.
use reading_comment.Common.{
  ℕ, suc, ◌<◌, ◌≡◌, refl, sym, ap, ◌∙◌, false, some, ◌==◌, if◌then◌else◌, arith, inr,
}
use native.Mathlib.Decide.{ℕ_discrete}
use reading_comment.Ktap.Tab.{Val, nil, is_nil, Node}
use reading_comment.Ktap.Tab.Chains.{Reach, here, step, Linked, Owned, Chained}
use reading_comment.Ktap.Tab.Rebuilt.{Rebuilt}
use reading_comment.Ktap.Tab.Splice.{Spliced, Linked-spliced, used_not_free, some_eq}

-- A free node is the end of a chain.
no_link_from_free :
    {node other : ℕ → Node} {c n f fuel : ℕ}
    → Linked node fuel
    → Spliced node other c n f
    → (x b : ℕ) → (node x).next ≡ some b
    → f ≡ x
    → ⊥
no_link_from_free {node = node} l s x b e at_f =
    absurd (ground (arith, (l.unused _ s.free).0, ap (λ w. (node w).next) at_f, e))

module _ {h : Val → ℕ} {node other : ℕ → Node} {fuel f : ℕ} (c : Chained h node fuel) (key : Val)
    (owned : Owned h node (h key)) (s : Spliced node other (h key) (h key) f)
    (stored : (other f).key ≡ key) (empty : (other f).val ≡ nil)
    (keys : (x : ℕ) → (f ≡ x → ⊥) → (other x).key ≡ (node x).key)
    (vals : (x : ℕ) → (f ≡ x → ⊥) → (other x).val ≡ (node x).val) where
  apart_behind : (x : ℕ) → is_nil (node x).key ≡ false → f ≡ x → ⊥
  apart_behind = used_not_free c.links s (omega arith)

  Reach-behind : (a m : ℕ) → Reach node a m → Reach other a m
  Reach-behind a m here = here
  Reach-behind a m (step b e r) = elim (ℕ_discrete (h key) a) [
    | yes at_n ↦ rw (sym at_n) (
        step f s.next_c
          (step b (s.next_f ∙ (ap (λ w. (node w).next) at_n ∙ e)) (Reach-behind b m r)))
    | no far ↦
        step b (s.next_kept a far (no_link_from_free c.links s a b e) far ∙ e) (Reach-behind b m r)
  ]

  owners_behind : (a : ℕ) → Owned h node a → Owned h other a
  owners_behind a (used, main) = (s.still_used a used, ap h (keys a (apart_behind a used)) ∙ main)

  pub Rebuilt-behind : Rebuilt h node other (suc fuel) f key (λ y. y)
  Rebuilt-behind = record {
    links = Linked-spliced c.links s (omega arith);
    stored = stored;
    empty = empty;
    from_old = λ x d used. (x, rw (sym (keys x d)) used, refl);
    kept = λ y used.
        inr (apart_behind y used, keys y (apart_behind y used), vals y (apart_behind y used));
    own = owners_behind (h key) owned;
    owners = owners_behind;
    at_end = step f s.next_c here;
    moved = λ a y o r. Reach-behind a y r;
  }

module _ {h : Val → ℕ} {node other : ℕ → Node} {fuel d f : ℕ} (c : Chained h node fuel) (key : Val)
    (proper : is_nil key ≡ false) (foreign : h (node (h key)).key ≡ h key → ⊥)
    (in_front : (node d).next ≡ some (h key)) (s : Spliced node other d (h key) f)
    (stored : (other (h key)).key ≡ key) (empty : (other (h key)).val ≡ nil)
    (key_f : (other f).key ≡ (node (h key)).key) (val_f : (other f).val ≡ (node (h key)).val)
    (keys : (x : ℕ) → (f ≡ x → ⊥) → (h key ≡ x → ⊥) → (other x).key ≡ (node x).key) where
  abbrev pub moved_to : ℕ → ℕ
  moved_to x = if h key == x then f else x

  moved-main : (x : ℕ) → h key ≡ x → moved_to x ≡ f
  moved-main x e = ground (arith, e)

  moved-other : (x : ℕ) → (h key ≡ x → ⊥) → moved_to x ≡ x
  moved-other x e = ground (arith, e)

  closer : c.links.rank (h key) < c.links.rank d
  closer = c.links.down d (h key) in_front

  apart_moved : (x : ℕ) → is_nil (node x).key ≡ false → f ≡ x → ⊥
  apart_moved = used_not_free c.links s (omega (arith, closer))

  link_moved : (x b : ℕ) → (node x).next ≡ some b → (other (moved_to x)).next ≡ some (moved_to b)
  link_moved x b e = elim (ℕ_discrete (h key) x) [
    | yes at_n ↦
        let down = c.links.down x b e in
        let far : h key ≡ b → ⊥ =
          λ k. absurd (omega (arith, down, ap c.links.rank (sym at_n ∙ k))) in
        rw (moved-main x at_n, moved-other b far) (s.next_f ∙ (ap (λ w. (node w).next) at_n ∙ e))
    | no far ↦ elim (ℕ_discrete d x) [
      | yes at_d ↦
          let same = some_eq (sym in_front ∙ (ap (λ w. (node w).next) at_d ∙ e)) in
          rw (moved-other x far, moved-main b same, sym at_d) s.next_c
      | no far_d ↦
          let not_b : h key ≡ b → ⊥ =
            λ k. absurd (far_d (c.links.one_in_front d x (h key) in_front (e ∙ ap some (sym k)))) in
          rw (moved-other x far, moved-other b not_b)
            (s.next_kept x far_d (no_link_from_free c.links s x b e) far ∙ e)
    ]
  ]

  Reach-moved : (a m : ℕ) → Reach node a m → Reach other (moved_to a) (moved_to m)
  Reach-moved a m here = here
  Reach-moved a m (step b e r) = step (moved_to b) (link_moved a b e) (Reach-moved b m r)

  not_foreign : (a : ℕ) → Owned h node a → h key ≡ a → ⊥
  not_foreign a (used, main) e = foreign (ap (λ w. h (node w).key) e ∙ (main ∙ sym e))

  owners_moved : (a : ℕ) → Owned h node a → Owned h other a
  owners_moved a (used, main) =
      (s.still_used a used, ap h (keys a (apart_moved a used) (not_foreign a (used, main))) ∙ main)

  kept_moved :
      (y : ℕ)
      → is_nil (node y).key ≡ false
      → (h key ≡ moved_to y → ⊥)
        × ((other (moved_to y)).key ≡ (node y).key)
        × ((other (moved_to y)).val ≡ (node y).val)
  kept_moved y used = elim (ℕ_discrete (h key) y) [
    | yes e ↦ rw (moved-main y e, sym e) (λ k. apart_moved (h key) s.n_used (sym k), key_f, val_f)
    | no far ↦
        rw (moved-other y far)
          (far, keys y (apart_moved y used) far, s.vals y (apart_moved y used) far)
  ]

  from_old_moved :
      (x : ℕ)
      → (h key ≡ x → ⊥)
      → is_nil (other x).key ≡ false
      → (y : ℕ) × (is_nil (node y).key ≡ false) × (moved_to y ≡ x)
  from_old_moved x far used = elim (ℕ_discrete f x) [
    | yes e ↦ (h key, s.n_used, moved-main (h key) refl ∙ e)
    | no far_f ↦ (x, rw (sym (keys x far_f far)) used, moved-other x far)
  ]

  pub Rebuilt-moved : Rebuilt h node other (suc fuel) (h key) key moved_to
  Rebuilt-moved = record {
    links = Linked-spliced c.links s (omega (arith, closer));
    stored = stored;
    empty = empty;
    from_old = from_old_moved;
    kept = λ y used. inr (kept_moved y used);
    own = (rw stored proper, ap h stored);
    owners = owners_moved;
    at_end = here;
    moved = λ a y o r. rw (sym (moved-other a (not_foreign a o))) (Reach-moved a y r);
  }
