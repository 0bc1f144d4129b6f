-- ===== src/Ktap/Tab/Set.antt =====
-- The setters of ktap-master/runtime/kp_tab.c. `fuel` bounds the nodes of a chain; a chain that is longer,
-- and one that ends before the node that is looked for, give `none`.
use reading_comment.Common.{
  ℕ, zero, suc, ◌%◌, ◌/◌, Bool, false, not, ◌&&◌, Option, none, some, ltb, ◌==◌, if◌then◌else◌,
  u32_mod, u16_mod, add32, add64,
}
use reading_comment.Ktap.Tab.{
  Val, nil, number, string, eventstr, kstack, object, boolean, is_nil, Node, Tab, Env, update,
  hashkey, find,
}

-- The search for a free node downwards from `freetop`
unfoldable pub free_below : (ℕ → Node) → ℕ → Option ℕ
free_below node zero = none
free_below node (suc f) =
    let rest = free_below node f in if is_nil (node f).key then some f else rest

-- The loop to the node in front of `n`
unfoldable pub predecessor : (ℕ → Node) → ℕ → ℕ → ℕ → Option ℕ
predecessor node zero n c = none
predecessor node (suc fuel) n c = elim (node c).next [
  | none ↦ none
  | some m ↦ let rest = predecessor node fuel n m in if m == n then some c else rest
]

abbrev pub set_next : (ℕ → Node) → ℕ → Option ℕ → ℕ → Node
set_next node i o = update node i (record (node i) { next = o })

-- Node `f` gets what stands at `n`, in the place of `n` in the chain, and `n` is emptied.
unfoldable pub relink : (ℕ → Node) → ℕ → ℕ → ℕ → ℕ → Node
relink node c n f =
    let linked = set_next node c (some f) in
    let copied = update linked f (linked n) in
    update copied n (record (copied n) { next = none; val = nil })

-- The new node `f` behind `n`
unfoldable pub insert_behind : (ℕ → Node) → ℕ → ℕ → ℕ → Node
insert_behind node n f = let linked = set_next node f (node n).next in set_next linked n (some f)

-- `nn`, which stands behind `f`, is put behind `n`.
unfoldable pub move_behind : (ℕ → Node) → ℕ → ℕ → ℕ → ℕ → Node
move_behind node n f nn =
    let without = set_next node f (node nn).next in
    let behind = set_next without nn (without n).next in set_next behind n (some nn)

-- The key is stored at `n`.
abbrev pub store_key : Tab → ℕ → Val → (ℕ → Node) → Tab
store_key t n key node = record t {
  node = update node n (record (node n) { key = key });
  hnum = add32 t.hnum 1;
}

module _ (env : Env) where
  -- A string that is in use and whose main node is `n`; the value and the key are given.
  abbrev pub is_string_of : Tab → ℕ → Val → Val → Bool
  is_string_of t n v (string s) = not (is_nil v) && hashkey env t.hmask (string s) == n
  is_string_of t n v _ = false

  -- The strings with main node `n` in the chain behind `f`
  unfoldable pub rechain : Tab → ℕ → ℕ → ℕ → (ℕ → Node) → Option (ℕ → Node)
  rechain t zero n f node = none
  rechain t (suc fuel) n f node = elim (node f).next [
    | none ↦ some node
    | some nn ↦
        let moved = rechain t fuel n f (move_behind node n f nn) in
        let rest = rechain t fuel n nn node in
        if is_string_of t n (node nn).val (node nn).key then moved else rest
  ]

  -- A free node `f` was found for a key whose main node `n` is taken.
  unfoldable pub collided : Tab → ℕ → Val → ℕ → ℕ → Option (ℕ × Tab)
  collided t fuel key n f =
      if hashkey env t.hmask (t.node n).key == n
      then some (f, store_key t f key (insert_behind t.node n f))
      else elim (predecessor t.node fuel n (hashkey env t.hmask (t.node n).key)) [
        | none ↦ none
        | some c ↦ elim (rechain t fuel n f (relink t.node c n f)) [
          | none ↦ none
          | some node ↦ some (n, store_key t n key node)
        ]
      ]

  abbrev place : Option (ℕ × Tab) → Option (Option ℕ × Tab)
  place none = none
  place (some (n, t)) = some (some n, t)

  -- `kp_tab_newkey`: the node with the new key, or NULL
  unfoldable pub kp_tab_newkey : Tab → ℕ → Val → Option (Option ℕ × Tab)
  kp_tab_newkey t fuel key =
      let n = hashkey env t.hmask key in
      if is_nil (t.node n).val && not (t.hmask == 0)
      then some (some n, store_key t n key t.node)
      else elim (free_below t.node t.freetop) [
        | none ↦ some (none, t)
        | some f ↦ place (collided (record t { freetop = f }) fuel key n f)
      ]

  -- The loop over the chain with the call of `kp_tab_newkey` behind it
  unfoldable pub find_or_new : Tab → ℕ → Val → Option (Option ℕ × Tab)
  find_or_new t fuel key = elim (find key t.node fuel (hashkey env t.hmask key)) [
    | none ↦ none
    | some none ↦ kp_tab_newkey t fuel key
    | some (some n) ↦ some (some n, t)
  ]

-- Where a value is stored
pub data Slot : Type 0 where
  in_array : ℕ → Slot
  in_node : ℕ → Slot

abbrev pub node_slot : Option (Option ℕ × Tab) → Option (Option Slot × Tab)
node_slot none = none
node_slot (some (none, t)) = some (none, t)
node_slot (some (some n, t)) = some (some (in_node n), t)

abbrev pub value_of : Tab → Slot → Val
value_of t (in_array i) = t.array i
value_of t (in_node n) = (t.node n).val

-- `set_obj`
abbrev pub put : Val → Tab → Slot → Tab
put v t (in_array i) = record t { array = update t.array i v }
put v t (in_node n) = record t { node = update t.node n (record (t.node n) { val = v }) }

-- The part of the setters behind the search: nothing is stored when the slot is NULL.
abbrev pub store_in : (Tab → Slot → Tab) → Option (Option Slot × Tab) → Option Tab
store_in change none = none
store_in change (some (none, t)) = some t
store_in change (some (some slot, t)) = some (change t slot)

module _ (env : Env) where
  unfoldable pub tab_setinth : Tab → ℕ → ℕ → Option (Option Slot × Tab)
  tab_setinth t fuel key = node_slot (find_or_new env t fuel (number key))

  unfoldable pub tab_setint : Tab → ℕ → ℕ → Option (Option Slot × Tab)
  tab_setint t fuel key =
      if ltb key t.asize then some (some (in_array key), t) else tab_setinth t fuel key

  unfoldable pub tab_setstr : Tab → ℕ → ℕ → Option (Option Slot × Tab)
  tab_setstr t fuel key = node_slot (find_or_new env t fuel (string key))

  -- `tab_set`
  unfoldable pub tab_set : Tab → ℕ → Val → Option (Option Slot × Tab)
  tab_set t fuel nil = some (none, t)
  tab_set t fuel (string s) = tab_setstr t fuel s
  tab_set t fuel (number n) =
      if ltb n u32_mod then tab_setint t fuel n else node_slot (find_or_new env t fuel (number n))
  tab_set t fuel (kstack gc) = elim (env.kstack2str (gc % u16_mod) (gc / u16_mod % u16_mod)) [
    | none ↦ some (none, t)
    | some bt ↦ tab_setstr t fuel bt
  ]
  tab_set t fuel (eventstr gc) =
      if env.current_event
      then elim env.stringify [ none ↦ some (none, t) | some ts ↦ tab_setstr t fuel ts ]
      else some (none, t)
  tab_set t fuel (boolean b) = node_slot (find_or_new env t fuel (boolean b))
  tab_set t fuel (object s gc) = node_slot (find_or_new env t fuel (object s gc))

  unfoldable pub kp_tab_set : Tab → ℕ → Val → Val → Option Tab
  kp_tab_set t fuel key v = store_in (put v) (tab_set t fuel key)

  unfoldable pub kp_tab_setint : Tab → ℕ → ℕ → Val → Option Tab
  kp_tab_setint t fuel key v = store_in (put v) (tab_setint t fuel key)

  unfoldable pub kp_tab_setstr : Tab → ℕ → ℕ → Val → Option Tab
  kp_tab_setstr t fuel key v = store_in (put v) (tab_setstr t fuel key)

  -- `+=` at a slot; on a value that is no number it is an error, and the table stays.
  unfoldable pub increase : ℕ → Tab → Slot → Tab
  increase n t slot = elim (value_of t slot) [
    | number m ↦ put (number (add64 m n)) t slot
    | nil ↦ put (number n) t slot
    | _ ↦ t
  ]

  unfoldable pub kp_tab_incr : Tab → ℕ → Val → ℕ → Option Tab
  kp_tab_incr t fuel key n = store_in (increase n) (tab_set t fuel key)

  unfoldable pub kp_tab_incrint : Tab → ℕ → ℕ → ℕ → Option Tab
  kp_tab_incrint t fuel key n = store_in (increase n) (tab_setint t fuel key)

  unfoldable pub kp_tab_incrstr : Tab → ℕ → ℕ → ℕ → Option Tab
  kp_tab_incrstr t fuel key n = store_in (increase n) (tab_setstr t fuel key)
