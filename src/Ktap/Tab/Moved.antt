-- ===== src/Ktap/Tab/Moved.antt =====
-- The key at a taken main node moves to the free node (`kp_tab_newkey`, ktap-master/runtime/kp_tab.c).
use reading_comment.Common.{
  ℕ, ◌<◌, ◌≤◌, ◌≡◌, refl, sym, ap, ◌∙◌, true, false, some, ◌==◌, if◌then◌else◌, arith, inl, inr,
  Bool-cases,
}
use native.Mathlib.Decide.{ℕ_discrete}
use reading_comment.Ktap.Tab.{Val, is_nil, Node, Tab, Env, hashkey}
use reading_comment.Ktap.Tab.Set.{relink, rechain, collided, store_key}
use reading_comment.Ktap.Tab.Chains.{Chained}
use reading_comment.Ktap.Tab.Splice.{Spliced}
use reading_comment.Ktap.Tab.Collide.{Rebuilt-moved}
use reading_comment.Ktap.Tab.Newkey.{predecessor_lem, rechain_from}
use reading_comment.Ktap.Tab.Enter.{
  with_key, relink-next_c, relink-next_f, relink-next_n, relink-next, relink-key_f, relink-key,
  relink-val_n, relink-val_f, relink-val,
}
use reading_comment.Ktap.Tab.Entered.{Entered, not_free}

module _ (env : Env) (t : Tab) (fuel : ℕ) (c : Chained (hashkey env t.hmask) t.node fuel)
    (key : Val) (proper : is_nil key ≡ false) where
  abbrev main_node : ℕ
  main_node = hashkey env t.hmask key

  module _ (f : ℕ) (free : is_nil (t.node f).key ≡ true)
      (used : is_nil (t.node main_node).key ≡ false) where
    apart : main_node ≡ f → ⊥
    apart e = not_free t.node main_node f used free (sym e)

    module _ (foreign : hashkey env t.hmask (t.node main_node).key ≡ main_node → ⊥) where
      not_main :
          (z : ℕ)
          → is_nil (t.node z).key ≡ false
          → hashkey env t.hmask (t.node z).key ≡ main_node
          → ⊥
      not_main z u e =
          foreign (sym (ap (λ w. hashkey env t.hmask (t.node w).key) e) ∙ ((c.owned z u).1 ∙ e))

      module _ (d : ℕ) (in_front : (t.node d).next ≡ some main_node) where
        d_main : d ≡ main_node → ⊥
        d_main e =
            let down = c.links.down d main_node in_front in
            absurd (omega (arith, down, ap c.links.rank e))

        d_used : is_nil (t.node d).key ≡ false
        d_used = elim (Bool-cases (is_nil (t.node d).key)) [
          | inr used_d ↦ used_d
          | inl blank ↦ absurd (ground (arith, (c.links.unused d blank).0, in_front))
        ]

        d_free : d ≡ f → ⊥
        d_free e = not_free t.node d f d_used free (sym e)

        abbrev linked : ℕ → Node
        linked = relink t.node d main_node f

        abbrev rank_below : ℕ → ℕ
        rank_below x = if f == x then c.links.rank main_node else c.links.rank x

        -- What stands behind a node behind the main one
        rest_of :
            (y z : ℕ)
            → (t.node y).next ≡ some z
            → c.links.rank y ≤ c.links.rank main_node
            → (rank_below z < c.links.rank y) × (hashkey env t.hmask (linked z).key ≡ main_node → ⊥)
        rest_of y z e o =
            let u = c.links.behind_used y z e in
            let far = not_free t.node z f u free in
            let down = c.links.down y z e in
            (
              ground (arith, down, far),
              rw (relink-key t.node d main_node f d_main d_free apart z far) (not_main z u),
            )

        link_below :
            (y z : ℕ)
            → rank_below y < c.links.rank main_node
            → (linked y).next ≡ some z
            → ((t.node y).next ≡ some z) × (f ≡ y → ⊥) × (c.links.rank y < c.links.rank main_node)
        link_below y z o e =
            let far : f ≡ y → ⊥ = λ k. absurd (ground (arith, o, k)) in
            let less : c.links.rank y < c.links.rank main_node = ground (arith, o, far) in
            let closer = c.links.down d main_node in_front in
            let not_d : d ≡ y → ⊥ = λ k. absurd (omega (arith, less, closer, ap c.links.rank k)) in
            let not_n : main_node ≡ y → ⊥ = λ k. absurd (omega (arith, less, ap c.links.rank k)) in
            (
              sym (relink-next t.node d main_node f d_main d_free apart y not_d far not_n) ∙ e,
              far,
              less,
            )

        rechain-linked :
            rechain env (record t { freetop = f }) fuel main_node f linked ≡ some linked
        rechain-linked =
            rechain_from env (record t { freetop = f }) rank_below (c.links.rank main_node)
              main_node
              (λ y z o e.
                let (k, far, less) = link_below y z o e in
                let (down, foreign_z) = rest_of y z k (omega (arith, less)) in
                ground (arith, down, far))
              (λ y z o e.
                let (k, far, less) = link_below y z o e in (rest_of y z k (omega (arith, less))).1)
              fuel f
              (λ y e.
                rest_of main_node y
                  (sym (relink-next_f t.node d main_node f d_main d_free apart) ∙ e) (omega arith))
              (c.links.bound main_node)

        abbrev moved : ℕ → Node
        moved = with_key linked main_node key

        moved-next : (x : ℕ) → (moved x).next ≡ (linked x).next
        moved-next x = ground arith

        moved-val : (x : ℕ) → (moved x).val ≡ (linked x).val
        moved-val x = ground arith

        moved-key : (x : ℕ) → (main_node ≡ x → ⊥) → (moved x).key ≡ (linked x).key
        moved-key x far = ground (arith, far)

        moved-key_main : (moved main_node).key ≡ key
        moved-key_main = ground arith

        old_key : (x : ℕ) → (f ≡ x → ⊥) → (main_node ≡ x → ⊥) → (moved x).key ≡ (t.node x).key
        old_key x far other =
            moved-key x other ∙ relink-key t.node d main_node f d_main d_free apart x far

        key_of_free : (moved f).key ≡ (t.node main_node).key
        key_of_free = moved-key f apart ∙ relink-key_f t.node d main_node f d_main d_free apart

        used_moved : (x : ℕ) → is_nil (t.node x).key ≡ false → is_nil (moved x).key ≡ false
        used_moved x u = elim (ℕ_discrete main_node x) [
          | yes e ↦ rw (sym e, moved-key_main) proper
          | no other ↦ rw (old_key x (not_free t.node x f u free) other) u
        ]

        Spliced-moved : Spliced t.node moved d main_node f
        Spliced-moved = record {
          free = free;
          c_used = d_used;
          n_used = used;
          f_taken = rw key_of_free used;
          next_c = moved-next d ∙ relink-next_c t.node d main_node f d_main d_free apart;
          next_f = moved-next f ∙ relink-next_f t.node d main_node f d_main d_free apart;
          next_n =
              inr (moved-next main_node ∙ relink-next_n t.node d main_node f d_main d_free apart);
          next_kept = λ x p q r.
              moved-next x ∙ relink-next t.node d main_node f d_main d_free apart x p q r;
          still_used = used_moved;
          vals = λ x p q. moved-val x ∙ relink-val t.node d main_node f d_main d_free apart x p q;
        }

        Entered-moved :
            Entered env t fuel key main_node
              (store_key (record t { freetop = f }) main_node key linked)
        Entered-moved = record {
          at = λ x. if main_node == x then f else x;
          rebuilt =
              Rebuilt-moved c key proper foreign in_front Spliced-moved moved-key_main
                (moved-val main_node ∙ relink-val_n t.node d main_node f d_main d_free apart)
                key_of_free (moved-val f ∙ relink-val_f t.node d main_node f d_main d_free apart)
                old_key;
          still_used = used_moved;
          array = refl;
          asize = refl;
          hmask = refl;
        }

    pub collided-moved :
        (hashkey env t.hmask (t.node main_node).key ≡ main_node → ⊥)
        → (t' : Tab) × (collided env (record t { freetop = f }) fuel key main_node f
            ≡ some (main_node, t'))
          × Entered env t fuel key main_node t'
          × (t'.freetop ≡ f)
          × (is_nil (t'.node f).key ≡ false)
    unfolding collided
    collided-moved foreign =
        let a = hashkey env t.hmask (t.node main_node).key in
        let (d, found, in_front) =
          predecessor_lem c.links fuel main_node a (c.links.bound a) (c.reached main_node used)
            foreign in
        (
          store_key (record t { freetop = f }) main_node key (relink t.node d main_node f),
          rw (found, rechain-linked foreign d in_front) (ground (arith, foreign)),
          Entered-moved foreign d in_front,
          refl,
          rw (key_of_free foreign d in_front) used,
        )
