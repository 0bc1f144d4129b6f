-- ===== src/Klist/Tests.antt =====
-- The lists of ovlfs-2.0.1/lists/kernel_lists.c on concrete inputs.
use mathlib.Core.List.{Perm}
use mathlib.Core.List.Perm
use reading_comment.Common.{
  ℕ, zero, suc, ◌+◌, ◌≤◌, ◌<◌, ◌≡◌, refl, true, false, List, [], ◌∷◌, none, some, ltb, ◌==◌, get_or,
  if◌then◌else◌, arith,
}
use reading_comment.Common.Strings.{below, equal, above}
use reading_comment.Klist.{
  Comparison, Nodes, ListStruct, create_list, KlistIndex, not_indexed, up_to_date, needs_update,
}
use reading_comment.Klist.Order.{IsComparison, IsOrdered, IsComparison-IsSearch}
use reading_comment.Klist.Sort.{is_equal}
use reading_comment.Klist.Index.{
  search_for_element, nth_element, sort_list, check_index, index_list, make_index,
}
use reading_comment.Klist.Alt.{alt_index_insert, alt_index_delete, alt_index_resize}
use reading_comment.Klist.Alt.Calls.{read_index, put_index, done}
use reading_comment.Klist.Alt.Read.{index_with, read_index-done}
use reading_comment.Klist.Alt.Removed.{alt_index_delete-IsCurrent}
use reading_comment.Klist.Chain.{Distinct}
use reading_comment.Klist.Whole.Merge.{dup_list}
use reading_comment.Klist.Whole.Merge.Copied.{dup_list-Perm}
use reading_comment.Klist.Whole.{destroy_list}
use reading_comment.Klist.Whole.Released.{released, destroy_list-released}
use reading_comment.Klist.Alt.Current.{IsCurrent, alt_index_insert-IsCurrent}
use reading_comment.Klist.Insert.{Memory, insert_into_list_sorted, insert_at_end}
use reading_comment.Klist.Insert.Front.{insert_into_list_sorted-Holds}
use reading_comment.Klist.Insert.Table.{IsTable, nth_element-insert_at_end, insert_at_end-IsTable}
use reading_comment.Klist.Remove.{remove_element}
use reading_comment.Klist.Remove.Unlink.{first_of}
use reading_comment.Klist.Remove.Keeps.{Removes, remove_element-Removes}
use reading_comment.Klist.Holds.{Holds}
use reading_comment.Klist.Holds.Search.{Finds, search_for_element-Finds}
use reading_comment.Klist.Steps.{
  addresses, inserts_sorted, then_calls, none_left, IsKlist, create_list-IsKlist, Calls-IsKlist,
}

abbrev by_value : Comparison
by_value a b = if ltb a b then below else if a == b then equal else above

by_value-IsComparison : IsComparison by_value
by_value-IsComparison = record { flip = λ a b. ground arith; trans = λ a b d h k. ground arith }

abbrev no_nodes : Nodes
no_nodes p = record { element = 0; next = 0 }

abbrev start : ListStruct
start = create_list no_nodes (some by_value) by_value

-- An insertion that gets the node `p`, and memory for all the rest.
abbrev plenty : ℕ → Memory
plenty p = record { node = p; blocks = λ i. some 0; block = some 0; table = true }

two-IsOrdered : IsOrdered by_value (1 ∷ 3 ∷ [])
two-IsOrdered zero zero h k = absurd (omega arith)
two-IsOrdered zero (suc zero) h k = refl
two-IsOrdered zero (suc (suc j)) h k = absurd (omega arith)
two-IsOrdered (suc i) j h k = absurd (omega arith)

start-Holds : Holds by_value start [] []
unfolding create_list
start-Holds = record {
  list = record { chain = refl; distinct = tt; count = refl; data_eq = refl };
  compares = refl;
  index = tt;
}

-- The list of 3, with a sorted index.
abbrev one_element : ListStruct
one_element = (insert_into_list_sorted (plenty 10) 3 start).0

one_element-Holds : Holds by_value one_element (10 ∷ []) (3 ∷ [])
one_element-Holds =
    (insert_into_list_sorted-Holds by_value by_value-IsComparison start-Holds (plenty 10) 3
      (λ e. absurd (omega (arith, e))) tt).0

insert_into_list_sorted-Holds_example :
    Holds by_value (insert_into_list_sorted (plenty 12) 1 one_element).0 (12 ∷ 10 ∷ []) (1 ∷ 3 ∷ [])
    × ((insert_into_list_sorted (plenty 12) 1 one_element).1 ≡ 1)
insert_into_list_sorted-Holds_example =
    insert_into_list_sorted-Holds by_value by_value-IsComparison one_element-Holds (plenty 12) 1
      (λ e. absurd (omega (arith, e))) ((λ e. absurd (omega (arith, e))), tt)

search_for_element-Finds_example :
    Holds by_value (search_for_element true 3 one_element).0 (10 ∷ []) (3 ∷ [])
    × Finds by_value 3 (3 ∷ []) (search_for_element true 3 one_element).1
unfolding insert_into_list_sorted create_list sort_list check_index index_list make_index
search_for_element-Finds_example =
    search_for_element-Finds by_value one_element-Holds
      (IsComparison-IsSearch by_value by_value-IsComparison) true 3

remove_element-Removes_example :
    (r : ListStruct × ℕ) × (remove_element 2 (λ i. none) 3 one_element ≡ some r)
    × Removes one_element
        (10 ∷ [])
        (3 ∷ [])
        (first_of (λ e. is_equal (one_element.search_func 3 e)) (3 ∷ []))
        r
remove_element-Removes_example =
    remove_element-Removes {s = one_element} one_element-Holds.list (λ i. none) 2 3 (omega arith)

abbrev two_calls : ListStruct
two_calls = (insert_into_list_sorted (plenty 12) 1 one_element).0

Calls-IsKlist_example : IsKlist by_value two_calls
unfolding addresses create_list insert_into_list_sorted sort_list check_index index_list make_index
Calls-IsKlist_example =
    Calls-IsKlist by_value by_value-IsComparison start two_calls
      (create_list-IsKlist by_value no_nodes by_value)
      (then_calls (inserts_sorted (plenty 10) 3 tt) (
        then_calls (inserts_sorted (plenty 12) 1 ((λ e. absurd (omega (arith, e))), tt)) none_left))

abbrev table_of_one : ListStruct
table_of_one = (insert_at_end (plenty 10) 7 start).0

start-IsTable : IsTable start [] []
unfolding create_list
start-IsTable = record {
  list = record { chain = refl; distinct = tt; count = refl; data_eq = refl };
  last = refl;
  index = λ e. absurd (ground arith);
}

table_of_one-IsTable : IsTable table_of_one (10 ∷ []) (7 ∷ [])
table_of_one-IsTable =
    (insert_at_end-IsTable start-IsTable (plenty 10) 7 (λ e. absurd (omega (arith, e))) tt).0

nth_element-insert_at_end_example :
    let s' = (insert_at_end (plenty 12) 8 table_of_one).0 in
    let n = table_of_one.number_of_elements in
    IsTable s' (10 ∷ 12 ∷ []) (7 ∷ 8 ∷ [])
    × (s'.number_of_elements ≡ n + 1)
    × ((nth_element true (n + 1) s').1 ≡ 8)
    × ((i : ℕ) → 0 < i → i ≤ n → (nth_element true i s').1 ≡ (nth_element true i table_of_one).1)
nth_element-insert_at_end_example =
    nth_element-insert_at_end table_of_one-IsTable (plenty 12) 8 (λ e. absurd (omega (arith, e)))
      ((λ e. absurd (omega (arith, e))), tt)

abbrev up_to_date_index : KlistIndex
up_to_date_index = record {
  comp_func = by_value;
  lazy_upd = false;
  state = up_to_date;
  elements = some (1 ∷ 3 ∷ []);
}

alt_index_insert-IsCurrent_example :
    IsCurrent
      (alt_index_insert 2 2 (alt_index_resize (some 0) 2 (2 + 1) (some up_to_date_index)))
      (2 ∷ 3 ∷ 1 ∷ [])
alt_index_insert-IsCurrent_example =
    alt_index_insert-IsCurrent by_value by_value-IsComparison (3 ∷ 1 ∷ []) 2 2 refl (some 0) false
      up_to_date (some (1 ∷ 3 ∷ [])) (Perm.swap 3 1 [], two-IsOrdered, omega arith)

destroy_list-released_example :
    (s' : ListStruct) × (destroy_list 2 one_element ≡ some s')
    × (s'.freed ≡ released (10 ∷ []) one_element.freed)
    × (s'.first_element ≡ 0)
    × (s'.index_mode ≡ not_indexed)
    × (s'.element_list ≡ [])
    × (s'.indexes ≡ [])
    × Distinct (10 ∷ [])
unfolding insert_into_list_sorted create_list sort_list check_index index_list make_index
destroy_list-released_example =
    destroy_list-released one_element (10 ∷ []) (3 ∷ []) 2 one_element-Holds.list (omega arith)

-- The list of 3 with an additional index that has to be brought up to date.
abbrev with_index : ListStruct
with_index = record one_element {
  indexes = some (index_with by_value false needs_update none) ∷ [];
}

read_index-done_example :
    (l : List ℕ) × (read_index true 1 1 with_index ≡ (
      put_index with_index 1 (some (index_with by_value false up_to_date (some l))),
      done (get_or l 0 0),
    ))
    × Perm l (3 ∷ [])
    × IsOrdered by_value l
unfolding insert_into_list_sorted create_list sort_list check_index index_list make_index
read_index-done_example =
    read_index-done with_index (10 ∷ []) (3 ∷ []) one_element-Holds.list by_value
      by_value-IsComparison false needs_update none 1 1 tt refl (omega arith) (omega arith)

alt_index_delete-IsCurrent_example :
    IsCurrent
      (alt_index_resize (some 0) 2 1 (alt_index_delete 2 3 (some up_to_date_index)))
      (1 ∷ [])
alt_index_delete-IsCurrent_example =
    alt_index_delete-IsCurrent by_value by_value-IsComparison (3 ∷ 1 ∷ []) (1 ∷ []) 3 2 refl
      (Perm.refl (3 ∷ 1 ∷ [])) (some 0) false up_to_date (some (1 ∷ 3 ∷ []))
      (Perm.swap 3 1 [], two-IsOrdered, omega arith)

-- Each round gets a node of its own.
abbrev in_rounds : ℕ → Memory
in_rounds i = plenty (20 + i)

dup_list-Perm_example :
    (ys : List ℕ) × IsTable (dup_list in_rounds one_element).0 (21 ∷ []) ys × Perm ys (3 ∷ [])
dup_list-Perm_example =
    dup_list-Perm by_value in_rounds one_element-Holds (omega arith) refl
      ((λ e. absurd (omega (arith, e))), ((λ e. absurd (omega (arith, e))), tt), tt)
