-- ===== src/Ktap/Tab/Walk.antt =====
-- The traversal of a table (`kp_tab_next`, ktap-master/runtime/kp_tab.c).
pub mod Scan
pub mod Steps
use reading_comment.Common.{
  ℕ, zero, suc, ◌+◌, ◌-◌, ◌^◌, ◌%◌, ◌&&◌, Option, none, some, ltb, if◌then◌else◌, u32_mod, add32,
}
use reading_comment.Ktap.Tab.{
  Val, nil, boolean, number, string, eventstr, kstack, object, is_nil, Node, Tab, Env, hashkey,
  find,
}

abbrev node_index : Tab → Option (Option ℕ) → Option ℕ
node_index t none = none
node_index t (some none) = some 0
node_index t (some (some n)) = some (add32 t.asize n)

module _ (env : Env) (fuel : ℕ) (t : Tab) where
  abbrev pub hash_index : Val → Option ℕ
  hash_index key = node_index t (find key t.node fuel (hashkey env t.hmask key))

  -- `keyindex`: `none` is a chain longer than `fuel`.
  unfoldable pub keyindex : Val → Option ℕ
  keyindex nil = some (u32_mod - 1)
  keyindex (number n) = if ltb n u32_mod && ltb n t.asize then some n else hash_index (number n)
  keyindex (boolean b) = hash_index (boolean b)
  keyindex (string s) = hash_index (string s)
  keyindex (eventstr gc) = hash_index (eventstr gc)
  keyindex (kstack gc) = hash_index (kstack gc)
  keyindex (object s gc) = hash_index (object s gc)

-- The loop over the array from `i` on, of `left` rounds
unfoldable pub scan_array : (ℕ → Val) → ℕ → ℕ → Option ℕ
scan_array array zero i = none
scan_array array (suc left) i =
    let rest = scan_array array left (suc i) in if is_nil (array i) then rest else some i

-- The loop over the nodes
unfoldable pub scan_nodes : (ℕ → Node) → ℕ → ℕ → Option ℕ
scan_nodes node zero i = none
scan_nodes node (suc left) i =
    let rest = scan_nodes node left (suc i) in if is_nil (node i).val then rest else some i

unfoldable pub next_node : Tab → ℕ → Option (Val × Val)
next_node t i = elim (scan_nodes t.node (t.hmask + 1 - i) i) [
  | none ↦ none
  | some j ↦ some ((t.node j).key, (t.node j).val)
]

unfoldable pub next_from : Tab → ℕ → Option (Val × Val)
next_from t i = elim (scan_array t.array (t.asize - i) i) [
  | some j ↦ some (number j, t.array j)
  | none ↦ next_node t (if ltb i t.asize then 0 else i - t.asize)
]

-- `kp_tab_next`: the key and the value behind a key, or none at the end
unfoldable pub kp_tab_next : Env → ℕ → Tab → Val → Option (Option (Val × Val))
kp_tab_next env fuel t key = elim (keyindex env fuel t key) [
  | none ↦ none
  | some i ↦ some (next_from t (add32 i 1))
]
