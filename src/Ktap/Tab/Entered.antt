-- ===== src/Ktap/Tab/Entered.antt =====
-- What `kp_tab_newkey` of ktap-master/runtime/kp_tab.c does to a table in order.
use reading_comment.Common.{ℕ, suc, ◌≡◌, refl, sym, ap, ◌∙◌, true, false, some, arith, inl}
use reading_comment.Ktap.Tab.{Val, nil, is_nil, Node, Tab, Env, hashkey}
use reading_comment.Ktap.Tab.Set.{insert_behind, collided, store_key}
use reading_comment.Ktap.Tab.Chains.{Chained}
use reading_comment.Ktap.Tab.Rebuilt.{Rebuilt}
use reading_comment.Ktap.Tab.Splice.{Spliced}
use reading_comment.Ktap.Tab.Insert.{Rebuilt-own, used_then}
use reading_comment.Ktap.Tab.Collide.{Rebuilt-behind}
use reading_comment.Ktap.Tab.Enter.{
  behind, behind-next_n, behind-next_f, behind-next, behind-key_f, behind-key, behind-val,
}

-- Table `t'` is `t` with the new key at node `p`.
pub record Entered (env : Env) (t : Tab) (fuel : ℕ) (key : Val) (p : ℕ) (t' : Tab) : Type 0 where
  pub at : ℕ → ℕ
  pub rebuilt : Rebuilt (hashkey env t.hmask) t.node t'.node (suc fuel) p key at
  pub still_used : (x : ℕ) → is_nil (t.node x).key ≡ false → is_nil (t'.node x).key ≡ false
  pub array : t'.array ≡ t.array
  pub asize : t'.asize ≡ t.asize
  pub hmask : t'.hmask ≡ t.hmask

pub is_nil-eq : (v : Val) → is_nil v ≡ true → v ≡ nil
is_nil-eq v h = ground (arith, h)

pub not_free :
    (node : ℕ → Node) (x f : ℕ)
    → is_nil (node x).key ≡ false
    → is_nil (node f).key ≡ true
    → f ≡ x
    → ⊥
not_free node x f used free e = absurd (ground (arith, used, free, ap (λ w. is_nil (node w).key) e))

module _ (env : Env) (t : Tab) (fuel : ℕ) (c : Chained (hashkey env t.hmask) t.node fuel)
    (key : Val) (proper : is_nil key ≡ false) where
  abbrev pub main_node : ℕ
  main_node = hashkey env t.hmask key

  pub Entered-own :
      (t.node main_node).val ≡ nil
      → Entered env t fuel key main_node (store_key t main_node key t.node)
  Entered-own dead = record {
    at = λ y. y;
    rebuilt =
        Rebuilt-own c key proper dead (λ x. ground arith) (λ x. ground arith) (ground arith)
          (λ x d. ground (arith, d));
    still_used =
        used_then {other = (store_key t main_node key t.node).node} c key proper dead
          (λ x. ground arith) (λ x. ground arith) (ground arith) (λ x d. ground (arith, d));
    array = refl;
    asize = refl;
    hmask = refl;
  }

  module _ (f : ℕ) (free : is_nil (t.node f).key ≡ true)
      (used : is_nil (t.node main_node).key ≡ false) where
    pub apart : main_node ≡ f → ⊥
    apart e = not_free t.node main_node f used free (sym e)

    Spliced-behind : Spliced t.node (behind t.node main_node f apart key) main_node main_node f
    Spliced-behind = record {
      free = free;
      c_used = used;
      n_used = used;
      f_taken = rw (behind-key_f t.node main_node f apart key) proper;
      next_c = behind-next_n t.node main_node f apart key;
      next_f = behind-next_f t.node main_node f apart key;
      next_n = inl refl;
      next_kept = λ x d e g. behind-next t.node main_node f apart key x d e;
      still_used =
          λ x u. rw (behind-key t.node main_node f apart key x (not_free t.node x f u free)) u;
      vals = λ x d e. behind-val t.node main_node f apart key x;
    }

    pub collided-behind :
        hashkey env t.hmask (t.node main_node).key ≡ main_node
        → (t' : Tab) × (collided env (record t { freetop = f }) fuel key main_node f ≡ some (f, t'))
          × Entered env t fuel key f t'
          × (t'.freetop ≡ f)
          × (is_nil (t'.node f).key ≡ false)
    unfolding collided
    collided-behind own =
        let other = behind t.node main_node f apart key in
        (
          store_key (record t { freetop = f }) f key (insert_behind t.node main_node f),
          rw (own, collided) (ground arith),
          record {
            at = λ y. y;
            rebuilt =
                Rebuilt-behind c key (used, own) Spliced-behind
                  (behind-key_f t.node main_node f apart key)
                  (behind-val t.node main_node f apart key f ∙ (c.links.unused f free).1)
                  (behind-key t.node main_node f apart key)
                  (λ x d. behind-val t.node main_node f apart key x);
            still_used = λ x u. Spliced-behind.still_used x u;
            array = refl;
            asize = refl;
            hmask = refl;
          },
          refl,
          rw (behind-key_f t.node main_node f apart key) proper,
        )
