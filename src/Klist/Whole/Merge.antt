-- ===== src/Klist/Whole/Merge.antt =====
-- `__merge_list` and `dup_list` of ovlfs-2.0.1/lists/kernel_lists.c.
pub mod Copied
use reading_comment.Common.{ℕ, zero, suc, ◌+◌}
use reading_comment.Klist.{Nodes, ListStruct, create_list}
use reading_comment.Klist.Index.{nth_element}
use reading_comment.Klist.Insert.{Memory, insert_at_end}

-- The two lists have their nodes in one memory.
abbrev pub in_memory : Nodes → ListStruct → ListStruct
in_memory nodes s = record s { nodes = nodes }

-- The loop of `__merge_list`, from `cur_el` on, with that many elements to go; `memory i` is what the
-- allocations return in the round of the element `i`.
unfoldable pub merge_from : (ℕ → Memory) → ℕ → ℕ → ListStruct → ListStruct → ListStruct × ListStruct
merge_from memory zero cur_el list1 list2 = (list1, list2)
merge_from memory (suc n) cur_el list1 list2 =
    let (list2', one_el) = nth_element (memory cur_el).table cur_el list2 in
    let (list1', ret) = insert_at_end (memory cur_el) one_el (in_memory list2'.nodes list1) in
    merge_from memory n (cur_el + 1) list1' (in_memory list1'.nodes list2')

-- `__merge_list` of two lists
unfoldable pub merge_list : (ℕ → Memory) → ListStruct → ListStruct → ListStruct × ListStruct
merge_list memory list1 list2 = merge_from memory list2.number_of_elements 1 list1 list2

-- `dup_list` when there is memory for the new list: the new one and the one that is copied.
unfoldable pub dup_list : (ℕ → Memory) → ListStruct → ListStruct × ListStruct
dup_list memory d_list =
    merge_list memory (create_list d_list.nodes d_list.element_compare d_list.search_func) d_list
