-- ===== src/Ktap/Tab/Get.antt =====
-- The getters of ktap-master/runtime/kp_tab.c. `fuel` bounds the nodes of a chain; a chain that is longer
-- gives `none`.
use reading_comment.Common.{ℕ, Option, none, some, ltb, if◌then◌else◌, u32_mod}
use reading_comment.Ktap.Tab.{
  Val, nil, number, string, eventstr, kstack, object, boolean, Node, Tab, Env, hashkey, find,
}

-- The value at the node that was found, else nil
abbrev pub value_at : (ℕ → Node) → Option (Option ℕ) → Option Val
value_at node none = none
value_at node (some none) = some nil
value_at node (some (some n)) = some (node n).val

module _ (env : Env) (fuel : ℕ) where
  -- `genlookup`, and with a key of their kind the loops of `tab_getinth` and `tab_getstr`
  abbrev pub lookup : Tab → Val → Option Val
  lookup t key = value_at t.node (find key t.node fuel (hashkey env t.hmask key))

  unfoldable pub tab_getinth : Tab → ℕ → Option Val
  tab_getinth t key = lookup t (number key)

  unfoldable pub tab_getint : Tab → ℕ → Option Val
  tab_getint t key = if ltb key t.asize then some (t.array key) else tab_getinth t key

  unfoldable pub tab_getstr : Tab → ℕ → Option Val
  tab_getstr t key = lookup t (string key)

  -- `kp_tab_get`: an event string is looked up by its own union, not by the string that was made.
  unfoldable pub kp_tab_get : Tab → Val → Option Val
  kp_tab_get t nil = some nil
  kp_tab_get t (string s) = tab_getstr t s
  kp_tab_get t (number n) = if ltb n u32_mod then tab_getint t n else lookup t (number n)
  kp_tab_get t (eventstr gc) =
      if env.current_event
      then elim env.stringify [ none ↦ some nil | some ts ↦ tab_getstr t gc ]
      else some nil
  kp_tab_get t (boolean b) = lookup t (boolean b)
  kp_tab_get t (kstack gc) = lookup t (kstack gc)
  kp_tab_get t (object s gc) = lookup t (object s gc)
