-- ===== src/Klist.antt =====
-- The lists of ovlfs-2.0.1/lists/kernel_lists.c and ovlfs-2.0.1/include/kernel_lists.h, of the kind
-- ABSTRACT: a chain of nodes that the library allocates, each with a pointer to the user's data, a
-- primary index over them, and additional indexes. A pointer is a number, 0 the null pointer. A read
-- through the null pointer gives what `nodes 0` holds. The functions get a list that is not null, under
-- its lock.
pub mod Order
pub mod Sort
pub mod Index
pub mod Chain
pub mod Holds
pub mod Alt
pub mod Insert
pub mod Remove
pub mod Whole
pub mod Steps
mod Tests
use reading_comment.Common.{
  ℕ, zero, suc, ◌≡◌, ◌≢◌, Bool, true, false, Option, none, some, List, [], ◌∷◌, map, if◌then◌else◌,
  ◌==◌,
}
use reading_comment.Common.Strings.{Sign}

-- `struct link_list_struct`
pub record LinkNode : Type 0 where
  pub element : ℕ
  pub next : ℕ

abbrev pub Nodes : Type 0
Nodes = ℕ → LinkNode

-- `comp_func_t`: the sign of what a comparison of two of the user's pointers returns.
abbrev pub Comparison : Type 0
Comparison = ℕ → ℕ → Sign

pub data IndexMode : Type 0 where
  not_indexed flat sorted : IndexMode

pub data IndexState : Type 0 where
  up_to_date needs_update : IndexState

-- `struct klist_index_struct`
pub record KlistIndex : Type 0 where
  pub comp_func : Comparison
  pub lazy_upd : Bool
  pub state : IndexState
  pub elements : Option (List ℕ)

-- `struct list_struct` of an ABSTRACT list, with the memory of its nodes, and the nodes that were
-- released, the last one first. The null pointer in `element_list` is an array without elements.
pub record ListStruct : Type 0 where
  pub nodes : Nodes
  pub freed : List ℕ
  pub number_of_elements : ℕ
  pub index_mode : IndexMode
  pub first_element : ℕ
  pub last_element : ℕ
  pub element_list : List ℕ
  pub element_compare : Option Comparison
  pub search_func : Comparison
  pub indexes : List (Option KlistIndex)

abbrev pub is_indexed : IndexMode → Bool
is_indexed not_indexed = false
is_indexed _ = true

abbrev pub is_sorted : IndexMode → Bool
is_sorted sorted = true
is_sorted _ = false

abbrev pub set_node : Nodes → ℕ → LinkNode → Nodes
set_node nodes p n q = if p == q then n else nodes q

-- `p->next = q`
abbrev pub set_next : Nodes → ℕ → ℕ → Nodes
set_next nodes p q = set_node nodes p (record (nodes p) { next = q })

-- `create_list` whose allocation succeeds, in a memory `nodes`.
unfoldable pub create_list : Nodes → Option Comparison → Comparison → ListStruct
create_list nodes element_compare search_function = record {
  nodes = nodes;
  freed = [];
  number_of_elements = 0;
  index_mode = not_indexed;
  first_element = 0;
  last_element = 0;
  element_list = [];
  element_compare = element_compare;
  search_func = search_function;
  indexes = [];
}
