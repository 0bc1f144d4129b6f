-- ===== src/Klist/Whole/Released.antt =====
-- `destroy_list` and `foreach_node` of ovlfs-2.0.1/lists/kernel_lists.c reach each node once.
use mathlib.Core.List.{Perm}
use mathlib.Core.List.Perm
use reading_comment.Common.{
  ℕ, zero, suc, ◌+◌, ◌-◌, ◌<◌, ◌≡◌, refl, ap, ◌∙◌, sym, true, false, List, [], ◌∷◌, length,
  length-Perm, get_or, arith, some, Bool-cases, inl, inr, ◌==◌, ltb, leb, ◌&&◌,
}
use reading_comment.Klist.{Comparison, Nodes, ListStruct, is_indexed, not_indexed}
use reading_comment.Klist.Index.{nth_element, check_index}
use reading_comment.Klist.Chain.{IsChain, Distinct, data_of}
use reading_comment.Klist.Holds.{IsList, Holds, IndexOf-Perm}
use reading_comment.Klist.Insert.Front.{length-data}
use reading_comment.Klist.Whole.{
  each_in_chain, each_in_index, foreach_node, free_nodes, destroy_list, destroyed,
}

-- The nodes `ps` released one after the other
abbrev pub released : List ℕ → List ℕ → List ℕ
released [] freed = freed
released (p ∷ ps) freed = released ps (p ∷ freed)

free_nodes-released :
    (fuel : ℕ) (nodes : Nodes) (a : ℕ) (ps freed : List ℕ)
    → IsChain nodes a ps
    → length ps < fuel
    → free_nodes fuel nodes a freed ≡ some (released ps freed)
unfolding free_nodes
free_nodes-released zero nodes a ps freed h m = absurd (omega arith)
free_nodes-released (suc fuel) nodes a [] freed h m = rw h refl
free_nodes-released (suc fuel) nodes a (q ∷ qs) freed (e, d, h) m =
    let taken : (q == 0) ≡ false = ground (arith, d) in
    rw (e, taken) (free_nodes-released fuel nodes (nodes q).next qs (q ∷ freed) h (omega arith))

-- With a round for each node and one more, destroy_list ends: it has released each node of the list,
-- from the first to the last, once, since they are different, and no other; the list has no first
-- element, no index, and no additional index.
pub destroy_list-released :
    (s : ListStruct) (ps xs : List ℕ) (fuel : ℕ)
    → IsList s.nodes s.first_element s.number_of_elements ps xs
    → s.number_of_elements < fuel
    → (s' : ListStruct) × (destroy_list fuel s ≡ some s')
      × (s'.freed ≡ released ps s.freed)
      × (s'.first_element ≡ 0)
      × (s'.index_mode ≡ not_indexed)
      × (s'.element_list ≡ [])
      × (s'.indexes ≡ [])
      × Distinct ps
unfolding destroy_list
destroy_list-released s ps xs fuel list enough =
    let e =
      free_nodes-released fuel s.nodes s.first_element ps s.freed list.chain
        (omega (arith, list.count)) in
    (
      destroyed (released ps s.freed) s,
      rw (e, destroy_list) refl,
      refl,
      refl,
      refl,
      refl,
      refl,
      list.distinct,
    )

each_in_chain-data_of :
    (fuel : ℕ) (nodes : Nodes) (a : ℕ) (ps : List ℕ)
    → IsChain nodes a ps
    → length ps < fuel
    → each_in_chain fuel nodes a ≡ some (data_of nodes ps)
unfolding each_in_chain
each_in_chain-data_of zero nodes a ps h m = absurd (omega arith)
each_in_chain-data_of (suc fuel) nodes a [] h m = rw h refl
each_in_chain-data_of (suc fuel) nodes a (q ∷ qs) (e, d, h) m =
    let taken : (q == 0) ≡ false = ground (arith, d) in
    rw (e, taken, each_in_chain-data_of fuel nodes (nodes q).next qs h (omega arith), e) refl

each_in_index-get_or :
    (s : ListStruct) (l : List ℕ) (pos : ℕ)
    → ((i : ℕ) → i < length l → (nth_element true (pos + i) s).1 ≡ get_or l i 0)
    → each_in_index (length l) pos s ≡ l
unfolding each_in_index
each_in_index-get_or s [] pos h = refl
each_in_index-get_or s (x ∷ l) pos h =
    let here : pos + 0 ≡ pos = omega arith in
    rw
      (
        sym (ap (λ p. (nth_element true p s).1) here) ∙ h 0 (omega arith),
        each_in_index-get_or s l (pos + 1) (λ i k.
            let e : pos + 1 + i ≡ pos + suc i = omega arith in rw e (h (suc i) (omega arith))),
      )
      refl

nth_element-indexed :
    (s : ListStruct) (i : ℕ)
    → is_indexed s.index_mode ≡ true
    → i < s.number_of_elements
    → (nth_element true (1 + i) s).1 ≡ get_or s.element_list i 0
unfolding nth_element check_index
nth_element-indexed s i y h =
    let inside : (ltb 0 (1 + i) && leb (1 + i) s.number_of_elements) ≡ true = ground arith in
    let place : 1 + i - 1 ≡ i = omega arith in rw (y, inside, place) refl

-- With a round for each node and one more, foreach_node ends: the function gets the data of the list,
-- each as many times as it is in the list.
pub foreach_node-Perm :
    (compare : Comparison) {s : ListStruct} {ps xs : List ℕ} (fuel : ℕ)
    → Holds compare s ps xs
    → s.number_of_elements < fuel
    → (l : List ℕ) × (foreach_node fuel s ≡ some l) × Perm l xs
unfolding foreach_node
foreach_node-Perm compare {s = s} {ps = ps} {xs = xs} fuel h enough =
    elim (Bool-cases (is_indexed s.index_mode)) [
      | inl y ↦
          let perm = IndexOf-Perm compare s.index_mode s.element_list xs y h.index in
          let full : s.number_of_elements ≡ length s.element_list =
            length-data h.list ∙ sym (length-Perm perm) in
          let e =
            each_in_index-get_or s s.element_list 1
              (λ i k. nth_element-indexed s i y (omega (arith, full))) in
          let all = ap (λ n. each_in_index n 1 s) full ∙ e in
          (s.element_list, rw (y, all) refl, perm)
      | inr n ↦
          let e =
            each_in_chain-data_of fuel s.nodes s.first_element ps h.list.chain
              (omega (arith, h.list.count)) in
          (xs, rw (n, e, h.list.data_eq) refl, Perm.refl xs)
    ]
