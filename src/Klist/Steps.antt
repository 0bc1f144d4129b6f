-- ===== src/Klist/Steps.antt =====
-- The calls that change a list of ovlfs-2.0.1/lists/kernel_lists.c, one after the other.
use reading_comment.Common.{
  ℕ, zero, suc, ◌<◌, ◌≡◌, refl, ap, ◌∙◌, sym, Bool, true, List, [], ◌∷◌, length, arith, Option,
  none, some, Bool-cases, inl, inr, ◌&&◌, ◌==◌, ltb, leb,
}
use native.Mathlib.Decide.{ℕ_discrete}
use reading_comment.Klist.{Comparison, Nodes, ListStruct, create_list, is_sorted}
use reading_comment.Klist.Order.{IsComparison}
use reading_comment.Klist.Index.{check_index, sort_list, nth_element, search_for_element}
use reading_comment.Klist.Chain.{IsChain, NotIn}
use reading_comment.Klist.Insert.{Memory, insert_into_list, insert_into_list_sorted}
use reading_comment.Klist.Insert.Front.{
  insert_into_list-Holds, insert_into_list_sorted-Holds, length-data,
}
use reading_comment.Klist.Remove.{remove_nth, remove_element, remove_node}
use reading_comment.Klist.Remove.Keeps.{
  Loses, Removes, remove_nth-Removes, remove_node-Removes, remove_element-Removes,
}
use reading_comment.Klist.Holds.{Holds, check_index-Holds, sort_list-Holds}

-- The addresses of the first `n` nodes from `p` on
unfoldable pub addresses : Nodes → ℕ → ℕ → List ℕ
addresses nodes zero p = []
addresses nodes (suc n) p = p ∷ addresses nodes n (nodes p).next

-- A node that is not in the list, or the null pointer
abbrev pub IsFresh : ℕ → ListStruct → Type 0
IsFresh node s = NotIn node (addresses s.nodes s.number_of_elements s.first_element)

-- A call, whatever its allocations return. An insertion gets a node that is not in the list, or the null
-- pointer, and sort_list is called for a list that is not empty.
pub data Call : ListStruct → ListStruct → Type 0 where
  inserts :
      {s : ListStruct} (m : Memory) (x : ℕ) → IsFresh m.node s → Call s (insert_into_list m x s).0
  inserts_sorted :
      {s : ListStruct} (m : Memory) (x : ℕ)
      → IsFresh m.node s
      → Call s (insert_into_list_sorted m x s).0
  sorts : {s : ListStruct} (b : Bool) → 0 < s.number_of_elements → Call s (sort_list b s).0
  reads : {s : ListStruct} (b : Bool) (nth : ℕ) → Call s (nth_element b nth s).0
  searches : {s : ListStruct} (b : Bool) (value : ℕ) → Call s (search_for_element b value s).0
  removes_nth :
      {s : ListStruct} (blocks : ℕ → Option ℕ) (nth : ℕ) → Call s (remove_nth blocks nth s).0
  removes_element :
      {s : ListStruct} (fuel : ℕ) (blocks : ℕ → Option ℕ) (search_val : ℕ) (r : ListStruct × ℕ)
      → remove_element fuel blocks search_val s ≡ some r
      → s.number_of_elements < fuel
      → Call s r.0
  removes_node :
      {s : ListStruct} (fuel : ℕ) (blocks : ℕ → Option ℕ) (node_ptr : ℕ) (r : ListStruct × ℕ)
      → remove_node fuel blocks node_ptr s ≡ some r
      → s.number_of_elements < fuel
      → Call s r.0

pub data Calls : ListStruct → ListStruct → Type 0 where
  none_left : {s : ListStruct} → Calls s s
  then_calls : {s s' s'' : ListStruct} → Call s s' → Calls s' s'' → Calls s s''

addresses-IsChain :
    (nodes : Nodes) (p : ℕ) (ps : List ℕ) → IsChain nodes p ps → addresses nodes (length ps) p ≡ ps
unfolding addresses
addresses-IsChain nodes p [] h = refl
addresses-IsChain nodes p (q ∷ qs) (e, d, h) =
    rw (e, addresses-IsChain nodes (nodes q).next qs h) refl

-- The list has some nodes and some data.
abbrev pub IsKlist : Comparison → ListStruct → Type 0
IsKlist compare s = (ps : List ℕ) × (xs : List ℕ) × Holds compare s ps xs

module _ (compare : Comparison) where
  pub create_list-IsKlist :
      (nodes : Nodes) (search : Comparison)
      → IsKlist compare (create_list nodes (some compare) search)
  unfolding create_list
  create_list-IsKlist nodes search = (
    [],
    [],
    record {
      list = record { chain = refl; distinct = tt; count = refl; data_eq = refl };
      compares = refl;
      index = tt;
    },
  )

  fresh :
      {s : ListStruct} {ps xs : List ℕ} (node : ℕ)
      → Holds compare s ps xs
      → IsFresh node s
      → NotIn node ps
  fresh {s = s} {ps = ps} node h =
      let e = addresses-IsChain s.nodes s.first_element ps h.list.chain in
      λ n. rw (sym e, sym h.list.count) n

  Loses-Holds :
      {s t : ListStruct} {ps xs : List ℕ} {k y : ℕ}
      → Holds compare s ps xs
      → Loses s ps xs k t y
      → IsKlist compare t
  Loses-Holds h v = (
    _,
    _,
    record { list = v.list; compares = v.compares ∙ h.compares; index = rw v.unindexed tt },
  )

  Removes-Holds :
      {s : ListStruct} {ps xs : List ℕ} {k : ℕ} (r : ListStruct × ℕ)
      → Holds compare s ps xs
      → Removes s ps xs k r
      → IsKlist compare r.0
  Removes-Holds r h (inl (_, v)) = Loses-Holds h v
  Removes-Holds {ps = ps} {xs = xs} r h (inr (_, e)) = rw e (ps, xs, h)

some_injective :
    (q r : ListStruct × ℕ) (o : Option (ListStruct × ℕ)) → o ≡ some q → o ≡ some r → q ≡ r
some_injective q r o e f = ap (λ t. elim t [ none ↦ q | some p ↦ p ]) (sym e ∙ f)

module _ (compare : Comparison) (v : IsComparison compare) {s : ListStruct} {ps xs : List ℕ}
    (h : Holds compare s ps xs) where
  nth_element-Holds : (b : Bool) (nth : ℕ) → Holds compare (nth_element b nth s).0 ps xs
  unfolding nth_element
  nth_element-Holds b nth =
      let (h', indexed, same) = check_index-Holds compare h b in
      let (s', ok) = check_index b s in
      elim (Bool-cases (ok && (ltb 0 nth && leb nth s'.number_of_elements))) [
        | inl y ↦ rw y h'
        | inr n ↦ rw n h'
      ]

  search_for_element-Holds :
      (b : Bool) (value : ℕ) → Holds compare (search_for_element b value s).0 ps xs
  unfolding search_for_element
  search_for_element-Holds b value =
      let (h', indexed, same) = check_index-Holds compare h b in
      let (s', ok) = check_index b s in
      elim (Bool-cases (ok && is_sorted s'.index_mode)) [ inl y ↦ rw y h' | inr n ↦ rw n h' ]

  insert_into_list-IsKlist :
      (m : Memory) (x : ℕ) → IsFresh m.node s → IsKlist compare (insert_into_list m x s).0
  unfolding insert_into_list
  insert_into_list-IsKlist m x free = elim (ℕ_discrete m.node 0) [
    | yes e ↦ let null : (m.node == 0) ≡ true = ground (arith, e) in rw null (ps, xs, h)
    | no d ↦ (_, _, (insert_into_list-Holds compare v h m x d (fresh compare m.node h free)).0)
  ]

  insert_into_list_sorted-IsKlist :
      (m : Memory) (x : ℕ) → IsFresh m.node s → IsKlist compare (insert_into_list_sorted m x s).0
  unfolding insert_into_list_sorted
  insert_into_list_sorted-IsKlist m x free = elim (ℕ_discrete m.node 0) [
    | yes e ↦ let null : (m.node == 0) ≡ true = ground (arith, e) in rw null (ps, xs, h)
    | no d ↦
        (_, _, (insert_into_list_sorted-Holds compare v h m x d (fresh compare m.node h free)).0)
  ]

  remove_nth-suc-IsKlist :
      (blocks : ℕ → Option ℕ) (k : ℕ) → IsKlist compare (remove_nth blocks (suc k) s).0
  remove_nth-suc-IsKlist blocks k =
      let (r, e, w) = remove_nth-Removes {s = s} h.list blocks k in
      rw e (Removes-Holds compare r h w)

  remove_nth-IsKlist :
      (blocks : ℕ → Option ℕ) (nth : ℕ) → IsKlist compare (remove_nth blocks nth s).0
  unfolding remove_nth
  remove_nth-IsKlist blocks zero = (ps, xs, h)
  remove_nth-IsKlist blocks (suc k) = remove_nth-suc-IsKlist blocks k

module _ (compare : Comparison) (v : IsComparison compare) where
  Call-IsKlist : (s s' : ListStruct) → Call s s' → IsKlist compare s → IsKlist compare s'
  Call-IsKlist s s' (inserts m x free) (ps, xs, h) = insert_into_list-IsKlist compare v h m x free
  Call-IsKlist s s' (inserts_sorted m x free) (ps, xs, h) =
      insert_into_list_sorted-IsKlist compare v h m x free
  Call-IsKlist s s' (sorts b some_element) (ps, xs, h) =
      (ps, xs, sort_list-Holds compare v b h (omega (arith, length-data h.list)))
  Call-IsKlist s s' (reads b nth) (ps, xs, h) = (ps, xs, nth_element-Holds compare v h b nth)
  Call-IsKlist s s' (searches b value) (ps, xs, h) =
      (ps, xs, search_for_element-Holds compare v h b value)
  Call-IsKlist s s' (removes_nth blocks nth) (ps, xs, h) = remove_nth-IsKlist compare v h blocks nth
  Call-IsKlist s s' (removes_element fuel blocks search_val r e enough) (ps, xs, h) =
      let (q, f, w) =
        remove_element-Removes h.list blocks fuel search_val (omega (arith, length-data h.list)) in
      rw (ap (λ t. t.0) (some_injective r q _ e f)) (Removes-Holds compare q h w)
  Call-IsKlist s s' (removes_node fuel blocks node_ptr r e enough) (ps, xs, h) =
      let (q, f, w) =
        remove_node-Removes h.list blocks fuel node_ptr (omega (arith, length-data h.list)) in
      rw (ap (λ t. t.0) (some_injective r q _ e f)) (Removes-Holds compare q h w)

  -- From a list that is in order on, as create_list makes one, and with a comparison that is an order:
  -- after any sequence of insertions in front, removals, sorts, reads and searches, whatever their
  -- allocations return, a node that do_malloc returns not being in the list, and sort_list not being
  -- called for an empty list, the chain has as many different nodes as the list counts, a primary index
  -- has exactly their data, and one that is marked as sorted is in order.
  pub Calls-IsKlist : (s s' : ListStruct) → IsKlist compare s → Calls s s' → IsKlist compare s'
  Calls-IsKlist s s' h none_left = h
  Calls-IsKlist s s' h (then_calls {s' = t} c cs) = Calls-IsKlist t s' (Call-IsKlist s t c h) cs
