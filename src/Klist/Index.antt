-- ===== src/Klist/Index.antt =====
-- The primary index of ovlfs-2.0.1/lists/kernel_lists.c, and what reads it.
pub mod Room
use reading_comment.Common.{
  ℕ, zero, suc, ◌+◌, ◌-◌, min, Bool, true, false, ◌&&◌, Option, none, some, List, [], ◌∷◌, ◌++◌,
  ltb, leb, ◌==◌, length, get_or, set, take, drop, replicate, if◌then◌else◌,
}
use reading_comment.Klist.{
  Comparison, Nodes, ListStruct, IndexMode, not_indexed, flat, sorted, is_indexed, is_sorted,
}
use reading_comment.Klist.Sort.{ssort, bsearch, find_insert_pos, is_equal}

-- `my_realloc` in units of elements: `some junk` is a new block that holds `junk`, `none` is no memory.
abbrev pub my_realloc : Option ℕ → List ℕ → ℕ → ℕ → Option (List ℕ)
my_realloc none l old_size new_size = none
my_realloc (some junk) l old_size new_size =
    some (take (min old_size new_size) l ++ replicate (new_size - min old_size new_size) junk)

-- `memmove` inside an array, of `n` elements from `src` to `dst`
abbrev pub memmove : List ℕ → ℕ → ℕ → ℕ → List ℕ
memmove l dst src n = take dst l ++ (take n (drop src l) ++ drop (dst + n) l)

-- `cleanup_index`
abbrev pub cleanup_index : ListStruct → ListStruct
cleanup_index s = record s { element_list = []; index_mode = not_indexed }

-- `grow_index` of an indexed list, and the result of the test for the null pointer
unfoldable pub grow_index : Option ℕ → ℕ → ListStruct → ListStruct × Bool
grow_index block old_size s = elim (my_realloc block s.element_list old_size s.number_of_elements) [
  | none ↦ (s, false)
  | some t ↦ (record s { element_list = t; index_mode = flat }, true)
]

-- `grow_index_ordered` of an indexed list
unfoldable pub grow_index_ordered : Option ℕ → ℕ → ℕ → ℕ → ListStruct → ListStruct × Bool
grow_index_ordered block new_data pos old_size s =
    elim (my_realloc block s.element_list old_size s.number_of_elements) [
      | none ↦ (record s { element_list = []; index_mode = not_indexed }, false)
      | some t ↦ (
        record s {
          element_list =
              set (memmove t (pos + 1) pos (s.number_of_elements - pos - 1)) pos new_data;
        },
        true,
      )
    ]

-- The loop of `make_index`, with that many elements to go.
unfoldable pub collect : Nodes → ℕ → ℕ → List ℕ
collect nodes zero p = []
collect nodes (suc n) p = (nodes p).element ∷ collect nodes n (nodes p).next

-- `make_index`; `has_memory` tells if `do_malloc` returns memory.
unfoldable pub make_index : Bool → ListStruct → Option (List ℕ)
make_index has_memory s =
    if has_memory then some (collect s.nodes s.number_of_elements s.first_element) else none

-- `__index_list`, and if it returns SUCCESS
unfoldable pub index_list : Bool → ListStruct → ListStruct × Bool
index_list has_memory s = elim (make_index has_memory s) [
  | none ↦ (record s { element_list = [] }, false)
  | some t ↦ (record s { element_list = t; index_mode = flat }, true)
]

-- `check_index`, and if it returns SUCCESS
unfoldable pub check_index : Bool → ListStruct → ListStruct × Bool
check_index has_memory s = if is_indexed s.index_mode then (s, true) else index_list has_memory s

abbrev pub sorted_by : Option Comparison → ListStruct → ListStruct × Bool
sorted_by none s = (s, false)
sorted_by (some compare) s =
    (record s { element_list = ssort compare s.element_list; index_mode = sorted }, true)

-- `__sort_list`, and what it returns
unfoldable pub sort_list : Bool → ListStruct → ListStruct × Bool
sort_list has_memory s =
    let (s', ok_to_sort) = check_index has_memory s in
    if ok_to_sort then sorted_by s'.element_compare s' else (s', false)

-- `__nth_element`; 0 is the null pointer.
unfoldable pub nth_element : Bool → ℕ → ListStruct → ListStruct × ℕ
nth_element has_memory nth s =
    let (s', ok_to_search) = check_index has_memory s in
    if ok_to_search && (ltb 0 nth && leb nth s'.number_of_elements)
    then (s', get_or s'.element_list (nth - 1) 0)
    else (s', 0)

-- `l_search`, with that many nodes to go
unfoldable pub l_search : Comparison → Nodes → ℕ → ℕ → ℕ → ℕ
l_search search nodes zero value p = 0
l_search search nodes (suc n) value p =
    let rest = l_search search nodes n value (nodes p).next in
    if is_equal (search value (nodes p).element) then (nodes p).element else rest

abbrev pub element_at : List ℕ → Option ℕ → ℕ
element_at l none = 0
element_at l (some i) = get_or l i 0

-- `search_for_element`
unfoldable pub search_for_element : Bool → ℕ → ListStruct → ListStruct × ℕ
search_for_element has_memory value s =
    let (s', ok) = check_index has_memory s in
    if ok && is_sorted s'.index_mode
    then (s', element_at s'.element_list (bsearch s'.search_func value s'.element_list))
    else (s', l_search s'.search_func s'.nodes s'.number_of_elements value s'.first_element)

-- `find_insert_pos`; a comparison that is the null pointer would be called.
abbrev pub insert_pos : Option Comparison → ℕ → ListStruct → ℕ
insert_pos none new_data s = 0
insert_pos (some compare) new_data s =
    find_insert_pos s.number_of_elements new_data compare s.element_list
