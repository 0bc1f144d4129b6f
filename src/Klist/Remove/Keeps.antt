-- ===== src/Klist/Remove/Keeps.antt =====
-- The removals from a list of ovlfs-2.0.1/lists/kernel_lists.c.
use reading_comment.Common.{
  ℕ, zero, suc, ◌≤◌, ◌<◌, ◌≡◌, refl, ap, ◌∙◌, sym, Bool, false, List, [], ◌∷◌, length, get_or,
  arith, inl, inr, ◌==◌, Option, some, ◌⊎◌,
}
use native.Mathlib.Decide.{dec_lt}
use reading_comment.Klist.{Nodes, ListStruct, not_indexed}
use reading_comment.Klist.Sort.{is_equal}
use reading_comment.Klist.Chain.{IsChain}
use reading_comment.Klist.Insert.Back.{last_or}
use reading_comment.Klist.Insert.Front.{length-data}
use reading_comment.Klist.Remove.{
  advance, unlink, remove_found, remove_matched, remove_nth, remove_element, remove_node,
}
use reading_comment.Klist.Remove.Unlink.{remove_at, first_of, seek-advance}
use reading_comment.Klist.Remove.Removed.{IsRemoved, advance-IsRemoved}
use reading_comment.Klist.Holds.{IsList}

-- The list `s` has lost the element at `k`: its node is the one that is released, the index is given
-- up, and the last node is the last one again.
pub record Loses (s : ListStruct) (ps xs : List ℕ) (k : ℕ) (s' : ListStruct) (removed_data : ℕ)
    : Type 0 where
  pub list :
      IsList s'.nodes s'.first_element s'.number_of_elements (remove_at k ps) (remove_at k xs)
  pub returned : removed_data ≡ get_or xs k 0
  pub released : s'.freed ≡ get_or ps k 0 ∷ s.freed
  pub unindexed : s'.index_mode ≡ not_indexed
  pub compares : s'.element_compare ≡ s.element_compare
  pub last : s.last_element ≡ last_or 0 ps → s'.last_element ≡ last_or 0 (remove_at k ps)

-- The result of a removal of the element at `k`, which may be behind the last one.
abbrev pub Removes : ListStruct → List ℕ → List ℕ → ℕ → ListStruct × ℕ → Type 0
Removes s ps xs k r = ((k < length xs) × Loses s ps xs k r.0 r.1) ⊎ ((length xs ≤ k) × (r ≡ (s, 0)))

-- Behind the last node there is none.
advance_beyond :
    (nodes : Nodes) (k last_node a : ℕ) (ps : List ℕ)
    → IsChain nodes a ps
    → length ps ≤ k
    → (advance nodes k last_node a).1 ≡ 0
unfolding advance
advance_beyond nodes zero l a [] h m = h
advance_beyond nodes zero l a (q ∷ qs) h m = absurd (omega arith)
advance_beyond nodes (suc k) l a [] h m = rw h refl
advance_beyond nodes (suc k) l a (q ∷ qs) (e, d, h) m =
    let taken : (q == 0) ≡ false = ground (arith, d) in
    rw (e, taken) (advance_beyond nodes k q (nodes q).next qs h (omega arith))

counted :
    {nodes : Nodes} {first n : ℕ} {ps xs : List ℕ}
    → IsList nodes first n ps xs
    → length ps ≡ length xs
counted list = sym list.count ∙ length-data list

module _ {s : ListStruct} {ps xs : List ℕ}
    (list : IsList s.nodes s.first_element s.number_of_elements ps xs) (blocks : ℕ → Option ℕ) where
  module _ (k : ℕ) (r : ℕ × ℕ) (v : IsRemoved s ps xs k r) where
    some_node : (r.1 == 0) ≡ false
    some_node = ground (arith, v.some_node)

    remove_found-Loses : Loses s ps xs k (remove_found blocks r s).0 (remove_found blocks r s).1
    unfolding remove_found unlink
    remove_found-Loses = rw some_node (record {
      list = v.rest;
      returned = v.wanted_eq;
      released = ap (λ p. p ∷ s.freed) v.node_eq;
      unindexed = refl;
      compares = refl;
      last = v.last_node;
    })

    remove_matched-Loses :
        Loses s ps xs k (remove_matched blocks r s).0 (remove_matched blocks r s).1
    unfolding remove_matched unlink
    remove_matched-Loses = rw some_node (record {
      list = v.rest;
      returned = v.wanted_eq;
      released = ap (λ p. p ∷ s.freed) v.node_eq;
      unindexed = refl;
      compares = refl;
      last = v.last_node;
    })

  remove_found-Removes :
      (k : ℕ) → Removes s ps xs k (remove_found blocks (advance s.nodes k 0 s.first_element) s)
  unfolding remove_found
  remove_found-Removes k = elim (dec_lt k (length xs)) [
    | yes h ↦
        inl (
          h,
          remove_found-Loses k _ (advance-IsRemoved s ps xs k list (omega (arith, counted list))),
        )
    | no h ↦ inr (
      omega arith,
      rw (advance_beyond s.nodes k 0 s.first_element ps list.chain (omega (arith, counted list)))
          refl,
    )
  ]

  remove_matched-Removes :
      (k : ℕ) → Removes s ps xs k (remove_matched blocks (advance s.nodes k 0 s.first_element) s)
  unfolding remove_matched
  remove_matched-Removes k = elim (dec_lt k (length xs)) [
    | yes h ↦ inl (
      h,
      remove_matched-Loses k _ (advance-IsRemoved s ps xs k list (omega (arith, counted list))),
    )
    | no h ↦ inr (
      omega arith,
      rw (advance_beyond s.nodes k 0 s.first_element ps list.chain (omega (arith, counted list)))
          refl,
    )
  ]

  pub remove_nth-Removes :
      (k : ℕ)
      → (r : ListStruct × ℕ) × (remove_nth blocks (suc k) s ≡ (r.0, some r.1)) × Removes s ps xs k r
  unfolding remove_nth
  remove_nth-Removes k = (_, refl, remove_found-Removes k)

  pub remove_node-Removes :
      (fuel node_ptr : ℕ)
      → length xs < fuel
      → (r : ListStruct × ℕ) × (remove_node fuel blocks node_ptr s ≡ some r)
        × Removes s ps xs (first_of (λ e. e == node_ptr) xs) r
  unfolding remove_node
  remove_node-Removes fuel node_ptr h =
      let e =
        seek-advance s.nodes (λ e. e == node_ptr) fuel 0 s.first_element ps list.chain
          (omega (arith, counted list)) in
      (
        _,
        rw (e, list.data_eq, remove_node) refl,
        remove_found-Removes (first_of (λ e. e == node_ptr) xs),
      )

  -- With a round for each element and one more, remove_element ends. It takes the first element that
  -- the search function calls equal to the value out of the chain, returns it, releases its node and no
  -- other, gives the primary index up and keeps the last node right; without such an element it
  -- returns the null pointer and changes nothing.
  pub remove_element-Removes :
      (fuel search_val : ℕ)
      → length xs < fuel
      → (r : ListStruct × ℕ) × (remove_element fuel blocks search_val s ≡ some r)
        × Removes s ps xs (first_of (λ e. is_equal (s.search_func search_val e)) xs) r
  unfolding remove_element
  remove_element-Removes fuel search_val h =
      let wanted : ℕ → Bool = λ e. is_equal (s.search_func search_val e) in
      let e =
        seek-advance s.nodes wanted fuel 0 s.first_element ps list.chain
          (omega (arith, counted list)) in
      (_, rw (e, list.data_eq, remove_element) refl, remove_matched-Removes (first_of wanted xs))
