-- ===== src/Klist/Alt.antt =====
-- The additional indexes of a list of ovlfs-2.0.1/lists/kernel_lists.c.
pub mod Current
pub mod Calls
pub mod Read
pub mod Position
pub mod Removed
use reading_comment.Common.{
  ℕ, zero, suc, ◌+◌, ◌-◌, Bool, true, false, not, ◌&&◌, ◌||◌, Option, none, some, List, [], ◌∷◌,
  ◌++◌, ltb, leb, ◌==◌, length, get_or, set, take, replicate, if◌then◌else◌,
}
use reading_comment.Klist.{Comparison, KlistIndex, IndexState, up_to_date, needs_update, ListStruct}
use reading_comment.Klist.Sort.{bsearch, find_insert_pos, is_equal, ssort}
use reading_comment.Klist.Index.{my_realloc, memmove, make_index}

-- The guards of the changes of an index: one that is not in use or has no array of its own is left, a
-- lazy one is marked, and only the array of another one is changed.
abbrev pub if_in_use : (KlistIndex → List ℕ → KlistIndex) → Option KlistIndex → Option KlistIndex
if_in_use change none = none
if_in_use change (some x) = some (elim x.state [
  | needs_update ↦ x
  | up_to_date ↦ elim x.elements [
    | none ↦ x
    | some l ↦ if x.lazy_upd then record x { state = needs_update } else change x l
  ]
])

-- `alt_index_insert` in a list that still counts `n` elements
unfoldable pub alt_index_insert : ℕ → ℕ → Option KlistIndex → Option KlistIndex
alt_index_insert n ele = if_in_use (λ x l.
    let insert_pos = find_insert_pos n ele x.comp_func l in
    let moved =
      if ltb insert_pos n then memmove l (insert_pos + 1) insert_pos (n - insert_pos) else l in
    record x { elements = some (set moved insert_pos ele) })

abbrev pub zero_behind : ℕ → ℕ → List ℕ → List ℕ
zero_behind old_size new_size l =
    if ltb old_size new_size then take old_size l ++ replicate (new_size - old_size) 0 else l

-- `alt_index_resize` from `n` elements to `new_size`
unfoldable pub alt_index_resize : Option ℕ → ℕ → ℕ → Option KlistIndex → Option KlistIndex
alt_index_resize block n new_size = if_in_use (λ x l.
    if new_size == 0 then record x { elements = none } else elim (my_realloc block l n new_size) [
      | none ↦ record x { state = needs_update; elements = none }
      | some t ↦ record x { elements = some (zero_behind n new_size t) }
    ])

module _ (ele : ℕ) (comp_cb : Comparison) (l : List ℕ) where
  -- The loop toward the start; 0 stands for not found.
  unfoldable pub walk_back : ℕ → ℕ
  walk_back zero = 0
  walk_back (suc cur) =
      let rest = walk_back cur in
      if get_or l (suc cur) 0 == ele
      then suc cur
      else if is_equal (comp_cb ele (get_or l (suc cur) 0))
      then rest
      else 0

  -- The loop toward the end, with that many elements to go.
  unfoldable pub walk_on : ℕ → ℕ → ℕ
  walk_on zero cur = 0
  walk_on (suc n) cur =
      let rest = walk_on n (cur + 1) in
      if get_or l cur 0 == ele
      then cur
      else if is_equal (comp_cb ele (get_or l cur 0))
      then rest
      else 0

  -- `__find_remove_pos` in a list that counts `n` elements
  unfoldable pub find_remove_pos : ℕ → ℕ
  find_remove_pos n = elim (bsearch comp_cb ele (take n l)) [
    | none ↦ 0
    | some i ↦
        let back = walk_back (i - 1) in
        let on = walk_on (n - (i + 1)) (i + 1) in
        if get_or l i 0 == ele then i else if back == 0 then on else back
  ]

-- `alt_index_delete` in a list that still counts `n` elements
unfoldable pub alt_index_delete : ℕ → ℕ → Option KlistIndex → Option KlistIndex
alt_index_delete n ele = if_in_use (λ x l.
    let remove_pos = find_remove_pos ele x.comp_func l n in
    let moved =
      if ltb remove_pos (n - 1)
      then memmove l remove_pos (remove_pos + 1) (n - (remove_pos + 1))
      else l in
    if remove_pos == 0
    then record x { state = needs_update }
    else record x { elements = some (set moved (n - 1) 0) })

-- The loops over the indexes: `change` for each of them, from the one at `i` on.
unfoldable pub each_index :
    (ℕ → Option KlistIndex → Option KlistIndex)
    → ℕ
    → List (Option KlistIndex)
    → List (Option KlistIndex)
each_index change i [] = []
each_index change i (x ∷ xs) = change i x ∷ each_index change (i + 1) xs

-- The loop of the insertions; `blocks i` is what the allocation for the index at `i` returns.
abbrev pub insert_in_indexes : (ℕ → Option ℕ) → ℕ → ListStruct → ListStruct
insert_in_indexes blocks ele s =
    let n = s.number_of_elements in
    record s {
      indexes =
          each_index (λ i x. alt_index_insert n ele (alt_index_resize (blocks i) n (n + 1) x)) 0
            s.indexes;
    }

-- The loop of the removals
abbrev pub delete_in_indexes : (ℕ → Option ℕ) → ℕ → ListStruct → ListStruct
delete_in_indexes blocks ele s =
    let n = s.number_of_elements in
    record s {
      indexes =
          each_index (λ i x. alt_index_resize (blocks i) n (n - 1) (alt_index_delete n ele x)) 0
            s.indexes;
    }

-- `update_alt_index`, and if it returns 0
unfoldable pub update_alt_index : Bool → ListStruct → KlistIndex → KlistIndex × Bool
update_alt_index has_memory s x =
    if s.number_of_elements == 0
    then (record x { elements = none }, true)
    else elim (make_index has_memory s) [
      | none ↦ (record x { elements = none }, false)
      | some t ↦ (record x { elements = some (ssort x.comp_func t); state = up_to_date }, true)
    ]
