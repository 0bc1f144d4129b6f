-- ===== src/Klist/Insert.antt =====
-- The insertions into a list of ovlfs-2.0.1/lists/kernel_lists.c.
pub mod Front
pub mod Back
pub mod Table
use reading_comment.Common.{
  ℕ, ◌+◌, ◌-◌, Bool, true, false, Option, none, some, ◌==◌, ltb, set, if◌then◌else◌,
}
use reading_comment.Klist.{
  Nodes, LinkNode, ListStruct, IndexMode, is_indexed, is_sorted, set_node, set_next,
}
use reading_comment.Klist.Index.{
  cleanup_index, grow_index, grow_index_ordered, sort_list, insert_pos,
}
use reading_comment.Klist.Alt.{insert_in_indexes}

-- What the allocations of an insertion return: the node, or the null pointer; the block for each of the
-- additional indexes; the block for the primary index; and if there is memory for a new one.
pub record Memory : Type 0 where
  pub node : ℕ
  pub blocks : ℕ → Option ℕ
  pub block : Option ℕ
  pub table : Bool

-- `add_abs_node` that gets the node `p`
abbrev pub add_abs_node : Nodes → ℕ → ℕ → ℕ → Nodes
add_abs_node nodes p data_ptr front_of_list =
    set_node nodes p (record { element = data_ptr; next = front_of_list })

-- `add_abs_node_at_end` that gets the node `p`
abbrev pub add_abs_node_at_end : Nodes → ℕ → ℕ → ℕ → Nodes
add_abs_node_at_end nodes p data_ptr end_of_list =
    let linked = if end_of_list == 0 then nodes else set_next nodes end_of_list p in
    set_node linked p (record { element = data_ptr; next = 0 })

-- The index of a list that counts one element more than `old_size`: grown with the new element as its
-- last, or given up.
unfoldable pub append_to_index : Option ℕ → ℕ → ℕ → ListStruct → ListStruct
append_to_index block ptr1 old_size s =
    let (s', ok) = grow_index block old_size s in
    if ok
    then record s' { element_list = set s'.element_list (s'.number_of_elements - 1) ptr1 }
    else cleanup_index s'

abbrev pub if_indexed : (ListStruct → ListStruct) → ListStruct → ListStruct
if_indexed f s = if is_indexed s.index_mode then f s else s

abbrev pub count_one : ListStruct → ListStruct
count_one s = record s { number_of_elements = s.number_of_elements + 1 }

-- The node in front of the chain
abbrev pub at_front : ℕ → ℕ → ListStruct → ListStruct
at_front p ptr1 s = record s {
  nodes = add_abs_node s.nodes p ptr1 s.first_element;
  first_element = p;
}

-- `insert_into_list`, and what it returns
unfoldable pub insert_into_list : Memory → ℕ → ListStruct → ListStruct × ℕ
insert_into_list m ptr1 s =
    let old_size = s.number_of_elements in
    let s' = count_one (insert_in_indexes m.blocks ptr1 (at_front m.node ptr1 s)) in
    if m.node == 0 then (s, 0) else (if_indexed (append_to_index m.block ptr1 old_size) s', ptr1)

-- The insertion into an index that is in order, at `pos`
abbrev pub insert_ordered : Option ℕ → ℕ → ℕ → ℕ → ListStruct → ListStruct
insert_ordered block ptr1 pos old_size s =
    let (s', ok) = grow_index_ordered block ptr1 pos old_size s in
    if ok then s' else cleanup_index s'

-- `insert_into_list_sorted`, and what it returns
unfoldable pub insert_into_list_sorted : Memory → ℕ → ListStruct → ListStruct × ℕ
insert_into_list_sorted m ptr1 s =
    let old_size = s.number_of_elements in
    let s' = insert_in_indexes m.blocks ptr1 (at_front m.node ptr1 s) in
    let pos = insert_pos s'.element_compare ptr1 s' in
    if m.node == 0 then (s, 0) else (
      if is_sorted s.index_mode
          then insert_ordered m.block ptr1 pos old_size (count_one s')
          else (sort_list m.table
              (if_indexed (append_to_index m.block ptr1 old_size) (count_one s'))).0,
      ptr1,
    )

-- `insert_at_end`, and what it returns
unfoldable pub insert_at_end : Memory → ℕ → ListStruct → ListStruct × ℕ
insert_at_end m ptr1 s =
    let old_size = s.number_of_elements in
    let s' = count_one (record s {
      nodes = add_abs_node_at_end s.nodes m.node ptr1 s.last_element;
      last_element = m.node;
      first_element = if s.first_element == 0 then m.node else s.first_element;
    }) in
    if m.node == 0 then (s, 0) else (if_indexed (append_to_index m.block ptr1 old_size) s', ptr1)
