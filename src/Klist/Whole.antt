-- ===== src/Klist/Whole.antt =====
-- The functions of ovlfs-2.0.1/lists/kernel_lists.c on a list as a whole.
pub mod Released
pub mod Merge
use reading_comment.Common.{
  ℕ, zero, suc, ◌+◌, Bool, true, false, Option, none, some, List, [], ◌∷◌, ◌==◌, if◌then◌else◌,
}
use reading_comment.Klist.{Nodes, ListStruct, not_indexed, is_indexed}
use reading_comment.Klist.Index.{nth_element}

-- `list_length`
abbrev pub list_length : ListStruct → ℕ
list_length s = s.number_of_elements

-- `first_element`; 0 is the null pointer.
unfoldable pub first_element : ListStruct → ℕ
first_element s = if s.first_element == 0 then 0 else (s.nodes s.first_element).element

-- The loop of `foreach_node` over a chain: the data in the order in which `user_func` gets it. `none`
-- stands for more than `fuel` rounds.
unfoldable pub each_in_chain : ℕ → Nodes → ℕ → Option (List ℕ)
each_in_chain zero nodes cur_node = none
each_in_chain (suc fuel) nodes cur_node =
    let rest = each_in_chain fuel nodes (nodes cur_node).next in
    if cur_node == 0
    then some []
    else elim rest [ none ↦ none | some xs ↦ some ((nodes cur_node).element ∷ xs) ]

-- The loop of `foreach_node` over an index, from `cur_pos` on, with that many elements to go. The list
-- is indexed, so `nth_element` allocates nothing and leaves it.
unfoldable pub each_in_index : ℕ → ℕ → ListStruct → List ℕ
each_in_index zero cur_pos s = []
each_in_index (suc n) cur_pos s = (nth_element true cur_pos s).1 ∷ each_in_index n (cur_pos + 1) s

-- `foreach_node` with a function that leaves the list
unfoldable pub foreach_node : ℕ → ListStruct → Option (List ℕ)
foreach_node fuel s =
    if is_indexed s.index_mode
    then some (each_in_index s.number_of_elements 1 s)
    else each_in_chain fuel s.nodes s.first_element

-- The loop of `destroy_list`: the nodes that are released, the last one first.
unfoldable pub free_nodes : ℕ → Nodes → ℕ → List ℕ → Option (List ℕ)
free_nodes zero nodes first freed = none
free_nodes (suc fuel) nodes first freed =
    let rest = free_nodes fuel nodes (nodes first).next (first ∷ freed) in
    if first == 0 then some freed else rest

abbrev pub destroyed : List ℕ → ListStruct → ListStruct
destroyed freed s = record s {
  indexes = [];
  element_list = [];
  index_mode = not_indexed;
  first_element = 0;
  freed = freed;
}

-- `destroy_list`, up to the release of the struct itself
unfoldable pub destroy_list : ℕ → ListStruct → Option ListStruct
destroy_list fuel s = elim (free_nodes fuel s.nodes s.first_element s.freed) [
  | none ↦ none
  | some freed ↦ some (destroyed freed s)
]
