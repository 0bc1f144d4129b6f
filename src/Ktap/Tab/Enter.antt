-- ===== src/Ktap/Tab/Enter.antt =====
-- The assignments of `kp_tab_newkey` (ktap-master/runtime/kp_tab.c), node by node.
use reading_comment.Common.{ℕ, ◌≡◌, none, some, arith}
use reading_comment.Ktap.Tab.{Val, nil, Node, update}
use reading_comment.Ktap.Tab.Set.{relink, insert_behind}

-- The nodes with the key at `n`
abbrev pub with_key : (ℕ → Node) → ℕ → Val → ℕ → Node
with_key node n key = update node n (record (node n) { key = key })

module _ (node : ℕ → Node) (n f : ℕ) (apart : n ≡ f → ⊥) (key : Val) where
  abbrev pub behind : ℕ → Node
  behind = with_key (insert_behind node n f) f key

  pub behind-next_n : (behind n).next ≡ some f
  unfolding insert_behind
  behind-next_n = ground (arith, apart)

  pub behind-next_f : (behind f).next ≡ (node n).next
  unfolding insert_behind
  behind-next_f = ground (arith, apart)

  pub behind-next : (x : ℕ) → (n ≡ x → ⊥) → (f ≡ x → ⊥) → (behind x).next ≡ (node x).next
  unfolding insert_behind
  behind-next x d e = ground (arith, d, e)

  pub behind-key_f : (behind f).key ≡ key
  behind-key_f = ground arith

  pub behind-key : (x : ℕ) → (f ≡ x → ⊥) → (behind x).key ≡ (node x).key
  unfolding insert_behind
  behind-key x d = ground (arith, d)

  pub behind-val : (x : ℕ) → (behind x).val ≡ (node x).val
  unfolding insert_behind
  behind-val x = ground arith

module _ (node : ℕ → Node) (c n f : ℕ) (c_n : c ≡ n → ⊥) (c_f : c ≡ f → ⊥) (n_f : n ≡ f → ⊥) where
  pub relink-next_c : (relink node c n f c).next ≡ some f
  unfolding relink
  relink-next_c = ground (arith, c_n, c_f)

  pub relink-next_f : (relink node c n f f).next ≡ (node n).next
  unfolding relink
  relink-next_f = ground (arith, c_n, n_f)

  pub relink-next_n : (relink node c n f n).next ≡ none
  unfolding relink
  relink-next_n = ground arith

  pub relink-next :
      (x : ℕ) → (c ≡ x → ⊥) → (f ≡ x → ⊥) → (n ≡ x → ⊥) → (relink node c n f x).next ≡ (node x).next
  unfolding relink
  relink-next x d e g = ground (arith, d, e, g)

  pub relink-key_f : (relink node c n f f).key ≡ (node n).key
  unfolding relink
  relink-key_f = ground (arith, c_n, n_f)

  pub relink-key : (x : ℕ) → (f ≡ x → ⊥) → (relink node c n f x).key ≡ (node x).key
  unfolding relink
  relink-key x d = ground (arith, c_n, n_f, c_f, d)

  pub relink-val_n : (relink node c n f n).val ≡ nil
  unfolding relink
  relink-val_n = ground arith

  pub relink-val_f : (relink node c n f f).val ≡ (node n).val
  unfolding relink
  relink-val_f = ground (arith, c_n, n_f)

  pub relink-val : (x : ℕ) → (f ≡ x → ⊥) → (n ≡ x → ⊥) → (relink node c n f x).val ≡ (node x).val
  unfolding relink
  relink-val x d e = ground (arith, c_n, n_f, c_f, d, e)
