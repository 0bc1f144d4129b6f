-- ===== src/Ktap/Tab/Walk/Steps.antt =====
-- Where the traversal of a table (ktap-master/runtime/kp_tab.c) goes on.
use reading_comment.Common.{
  ℕ, suc, ◌+◌, ◌-◌, ◌<◌, ◌≤◌, ◌≡◌, ◌⊎◌, inl, inr, refl, sym, ap, ◌∙◌, true, false, Option, none,
  some, ltb, if◌then◌else◌, u32_mod, add32, arith,
}
use native.Mathlib.Decide.{dec_lt}
use reading_comment.Ktap.Tab.{
  Val, nil, boolean, number, string, eventstr, kstack, object, is_nil, kp_obj_equal, Tab, Env,
  hashkey,
}
use reading_comment.Ktap.Tab.Chains.{Chained, find-present}
use reading_comment.Ktap.Tab.Refine.{is_plain, plain_proper, in_array_part, index}
use reading_comment.Ktap.Tab.Walk.{hash_index, keyindex, next_node, next_from, kp_tab_next}
use reading_comment.Ktap.Tab.Walk.Scan.{First, scan_array-First, scan_nodes-First}

-- The key and the value at a place: the slots of the array, and behind them the nodes
abbrev pub entry : Tab → ℕ → Val × Val
entry t m =
    if ltb m t.asize
    then (number m, t.array m)
    else ((t.node (m - t.asize)).key, (t.node (m - t.asize)).val)

entry-array : (t : Tab) (m : ℕ) → m < t.asize → entry t m ≡ (number m, t.array m)
entry-array t m h = ground arith

no_slot : (a n : ℕ) → ltb (a + n) a ≡ false
no_slot a n = ground arith

entry-node : (t : Tab) (n : ℕ) → entry t (t.asize + n) ≡ ((t.node n).key, (t.node n).val)
entry-node t n = rw (no_slot t.asize n) (ap (λ x. ((t.node x).key, (t.node x).val)) (omega arith))

-- `o` is the first entry from place `i` on whose value is not nil.
abbrev pub Next : Tab → ℕ → Option (Val × Val) → Type 0
Next t i none = (m : ℕ) → i ≤ m → m < t.asize + (t.hmask + 1) → is_nil (entry t m).1 ≡ true
Next t i (some kv) =
    (j : ℕ) × (i ≤ j)
    × (j < t.asize + (t.hmask + 1))
    × (kv ≡ entry t j)
    × (is_nil kv.1 ≡ false)
    × ((m : ℕ) → i ≤ m → m < j → is_nil (entry t m).1 ≡ true)

module _ (t : Tab) (i : ℕ) (slots : (m : ℕ) → i ≤ m → m < t.asize → is_nil (t.array m) ≡ true) where
  abbrev start : ℕ
  start = if ltb i t.asize then 0 else i - t.asize

  start_lem : (i ≤ t.asize + start) × ((m : ℕ) → i ≤ t.asize + m → start ≤ m)
  start_lem = (ground arith, λ m h. ground (arith, h))

  blank_before :
      (j m : ℕ)
      → ((n : ℕ) → start ≤ n → n < j → is_nil (t.node n).val ≡ true)
      → i ≤ m
      → m < t.asize + j
      → is_nil (entry t m).1 ≡ true
  blank_before j m f h k = elim (dec_lt m t.asize) [
    | yes y ↦ rw (entry-array t m y) (slots m h y)
    | no far ↦
        let place : m ≡ t.asize + (m - t.asize) = omega arith in
        rw (place, entry-node t (m - t.asize))
          (f (m - t.asize) (start_lem.1 (m - t.asize) (omega arith)) (omega arith))
  ]

  nodes_Next :
      (o : Option ℕ)
      → First (λ m. is_nil (t.node m).val) o (t.hmask + 1 - start) start
      → Next t i (elim o [ none ↦ none | some j ↦ some ((t.node j).key, (t.node j).val) ])
  nodes_Next none f =
      λ m h k. blank_before (t.hmask + 1) m (λ n o p. f n o (omega (arith, o, p))) h k
  nodes_Next (some j) (h, k, full, f) = (
    t.asize + j,
    omega (arith, start_lem.0, h),
    omega (arith, h, k),
    sym (entry-node t j),
    full,
    λ m o p. blank_before j m f o p,
  )

  next_node-Next : Next t i (next_node t start)
  unfolding next_node
  next_node-Next = nodes_Next _ (scan_nodes-First t.node (t.hmask + 1 - start) start)

slots_Next :
    (t : Tab) (i : ℕ) (o : Option ℕ)
    → First (λ m. is_nil (t.array m)) o (t.asize - i) i
    → Next t i (elim o [
      | some j ↦ some (number j, t.array j)
      | none ↦ next_node t (if ltb i t.asize then 0 else i - t.asize)
    ])
slots_Next t i none f = next_node-Next t i (λ m h k. f m h (omega arith))
slots_Next t i (some j) (h, k, full, f) =
    let inside : j < t.asize = omega arith in
    (
      j,
      h,
      omega arith,
      sym (entry-array t j inside),
      full,
      λ m o p. rw (entry-array t m (omega (arith, inside, p))) (f m o p),
    )

next_from-Next : (t : Tab) (i : ℕ) → Next t i (next_from t i)
unfolding next_from
next_from-Next t i = slots_Next t i _ (scan_array-First t.array (t.asize - i) i)

-- The key is nil and the traversal starts, or the key stands in front of place `i`.
abbrev pub Behind : Tab → Val → ℕ → Type 0
Behind t key i =
    ((key ≡ nil) × (i ≡ 0))
    ⊎ (((in_array_part t key ≡ true) × (i ≡ suc (index key)))
        ⊎ ((m : ℕ) × (is_plain key ≡ true)
            × (in_array_part t key ≡ false)
            × (kp_obj_equal (t.node m).key key ≡ true)
            × (i ≡ suc (t.asize + m))))

-- What `kp_tab_next` returns from place `i` on
abbrev pub Returns : Tab → ℕ → Option (Option (Val × Val)) → Type 0
Returns t i none = ⊥
Returns t i (some o) = Next t i o

module _ (env : Env) (fuel : ℕ) (t : Tab) where
  index_array :
      (key : Val) → in_array_part t key ≡ true → keyindex env fuel t key ≡ some (index key)
  unfolding keyindex
  index_array nil h = absurd (ground (arith, h))
  index_array (boolean b) h = absurd (ground (arith, h))
  index_array (number n) h = rw h refl
  index_array (string s) h = absurd (ground (arith, h))
  index_array (eventstr gc) h = absurd (ground (arith, h))
  index_array (kstack gc) h = absurd (ground (arith, h))
  index_array (object s gc) h = absurd (ground (arith, h))

  index_node :
      (key : Val)
      → is_plain key ≡ true
      → in_array_part t key ≡ false
      → keyindex env fuel t key ≡ hash_index env fuel t key
  unfolding keyindex
  index_node nil p h = absurd (ground (arith, p))
  index_node (boolean b) p h = refl
  index_node (number n) p h = rw h refl
  index_node (string s) p h = refl
  index_node (eventstr gc) p h = absurd (ground (arith, p))
  index_node (kstack gc) p h = absurd (ground (arith, p))
  index_node (object s gc) p h = refl

  index_nil : (key : Val) → key ≡ nil → keyindex env fuel t key ≡ some (u32_mod - 1)
  unfolding keyindex
  index_nil key e = rw e refl

  index_lem :
      (key : Val) (i : ℕ)
      → Chained (hashkey env t.hmask) t.node fuel
      → i < u32_mod
      → Behind t key i
      → (n : ℕ) × (keyindex env fuel t key ≡ some n) × (add32 n 1 ≡ i)
  index_lem key i c b (inl (e, zero_i)) = (u32_mod - 1, index_nil key e, omega arith)
  index_lem key i c b (inr (inl (there, next))) = (index key, index_array key there, omega arith)
  index_lem key i c b (inr (inr (m, plain, away, same, next))) = (
    add32 t.asize m,
    index_node key plain away ∙ rw (find-present c key (plain_proper key plain) m same) refl,
    omega arith,
  )

-- From nil, or from a key of the table that is no light userdata, event string or stack, `kp_tab_next`
-- returns the first entry behind it whose value is not nil, the slots of the array in order and then
-- the nodes, or the end if there is none. The chains are in order, and the places are 32-bit numbers.
pub kp_tab_next-Returns :
    (env : Env) (fuel : ℕ) (t : Tab) (key : Val) (i : ℕ)
    → Chained (hashkey env t.hmask) t.node fuel
    → i < u32_mod
    → Behind t key i
    → Returns t i (kp_tab_next env fuel t key)
unfolding kp_tab_next
kp_tab_next-Returns env fuel t key i c b h =
    let (n, e, k) = index_lem env fuel t key i c b h in rw (kp_tab_next, e, k) (next_from-Next t i)
