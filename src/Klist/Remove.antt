-- ===== src/Klist/Remove.antt =====
-- The removals from a list of ovlfs-2.0.1/lists/kernel_lists.c, of a list that is of the kind ABSTRACT.
pub mod Unlink
pub mod Removed
pub mod Keeps
use reading_comment.Common.{
  ℕ, zero, suc, ◌-◌, Bool, true, false, Option, none, some, List, ◌∷◌, ltb, ◌==◌, if◌then◌else◌,
}
use reading_comment.Klist.{Nodes, ListStruct, Comparison, set_next}
use reading_comment.Klist.Sort.{is_equal}
use reading_comment.Klist.Index.{cleanup_index}
use reading_comment.Klist.Alt.{delete_in_indexes}

-- The loop of `remove_nth`, with `n` for `nth - 1`: `last_node` and `cur_node` at its end.
unfoldable pub advance : Nodes → ℕ → ℕ → ℕ → ℕ × ℕ
advance nodes zero last_node cur_node = (last_node, cur_node)
advance nodes (suc n) last_node cur_node =
    let rest = advance nodes n cur_node (nodes cur_node).next in
    if cur_node == 0 then (last_node, cur_node) else rest

-- The loops of `remove_element` and `remove_node`, where `is_wanted` is the test of the user's data;
-- `none` stands for a loop of more than `fuel` rounds.
unfoldable pub seek : (ℕ → Bool) → Nodes → ℕ → ℕ → ℕ → Option (ℕ × ℕ)
seek is_wanted nodes zero last_node cur_node = none
seek is_wanted nodes (suc fuel) last_node cur_node =
    let rest = seek is_wanted nodes fuel cur_node (nodes cur_node).next in
    if cur_node == 0
    then some (last_node, cur_node)
    else if is_wanted (nodes cur_node).element
    then some (last_node, cur_node)
    else rest

-- The node is taken out of the chain and released.
unfoldable pub unlink : ℕ → ℕ → ListStruct → ListStruct
unlink last_node cur_node s =
    let behind = (s.nodes cur_node).next in
    record s {
      first_element = if last_node == 0 then behind else s.first_element;
      nodes = if last_node == 0 then s.nodes else set_next s.nodes last_node behind;
      last_element = if s.last_element == cur_node then last_node else s.last_element;
      freed = cur_node ∷ s.freed;
    }

abbrev pub discount : ListStruct → ListStruct
discount s = record s { number_of_elements = s.number_of_elements - 1 }

-- What `remove_nth` and `remove_node` do with the node that they have found, or not found.
unfoldable pub remove_found : (ℕ → Option ℕ) → ℕ × ℕ → ListStruct → ListStruct × ℕ
remove_found blocks (last_node, cur_node) s =
    let removed_data = (s.nodes cur_node).element in
    if cur_node == 0 then (s, 0) else (
      discount
          (cleanup_index (delete_in_indexes blocks removed_data (unlink last_node cur_node s))),
      removed_data,
    )

-- What `remove_element` does with it: the primary index is given up first.
unfoldable pub remove_matched : (ℕ → Option ℕ) → ℕ × ℕ → ListStruct → ListStruct × ℕ
remove_matched blocks (last_node, cur_node) s =
    let removed_data = (s.nodes cur_node).element in
    if cur_node == 0 then (s, 0) else (
      discount
          (delete_in_indexes blocks removed_data (cleanup_index (unlink last_node cur_node s))),
      removed_data,
    )

-- `remove_nth` for `nth` from 1 on, with what it returns; for the others, `(void *) -1` is `none`.
unfoldable pub remove_nth : (ℕ → Option ℕ) → ℕ → ListStruct → ListStruct × Option ℕ
remove_nth blocks zero s = (s, none)
remove_nth blocks (suc n) s =
    let (s', removed_data) = remove_found blocks (advance s.nodes n 0 s.first_element) s in
    (s', some removed_data)

-- `remove_element`; `none` stands for a loop of more than `fuel` rounds.
unfoldable pub remove_element : ℕ → (ℕ → Option ℕ) → ℕ → ListStruct → Option (ListStruct × ℕ)
remove_element fuel blocks search_val s =
    elim (seek (λ e. is_equal (s.search_func search_val e)) s.nodes fuel 0 s.first_element) [
      | none ↦ none
      | some r ↦ some (remove_matched blocks r s)
    ]

-- `remove_node`; `none` stands for a loop of more than `fuel` rounds.
unfoldable pub remove_node : ℕ → (ℕ → Option ℕ) → ℕ → ListStruct → Option (ListStruct × ℕ)
remove_node fuel blocks node_ptr s =
    elim (seek (λ e. e == node_ptr) s.nodes fuel 0 s.first_element) [
      | none ↦ none
      | some r ↦ some (remove_found blocks r s)
    ]
