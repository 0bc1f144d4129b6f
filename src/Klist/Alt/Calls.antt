-- ===== src/Klist/Alt/Calls.antt =====
-- The functions of ovlfs-2.0.1/lists/kernel_lists.c that make, drop, read, search and change an
-- additional index. An id is one more than the place in `indexes`.
use reading_comment.Common.{
  ℕ, suc, ◌+◌, ◌-◌, Bool, true, not, ◌&&◌, ◌||◌, Option, none, some, List, [], ◌∷◌, ◌++◌, ltb, leb,
  length, get_or, set, take, if◌then◌else◌,
}
use reading_comment.Klist.{Comparison, KlistIndex, up_to_date, needs_update, ListStruct}
use reading_comment.Klist.Sort.{bsearch}
use reading_comment.Klist.Alt.{update_alt_index}

-- What the functions on an index return: 0 with a value, an error code, or a read through the null
-- pointer.
pub data IndexResult : Type 0 where
  done : ℕ → IndexResult
  einval enomem enoent null_read : IndexResult

abbrev pub index_of_id : ListStruct → ℕ → Option KlistIndex
index_of_id s index_id =
    if ltb index_id 1 || ltb (length s.indexes) index_id
    then none
    else get_or s.indexes (index_id - 1) none

abbrev pub put_index : ListStruct → ℕ → Option KlistIndex → ListStruct
put_index s index_id x = record s { indexes = set s.indexes (index_id - 1) x }

-- The first slot that is not in use, or the one behind all
unfoldable pub free_slot : List (Option KlistIndex) → ℕ
free_slot [] = 1
free_slot (none ∷ xs) = 1
free_slot (some x ∷ xs) = suc (free_slot xs)

-- `add_index`; the flags tell what the three allocations return, and the value is the id.
unfoldable pub add_index :
    Bool → Bool → Bool → Comparison → Bool → ListStruct → ListStruct × IndexResult
add_index for_slot for_index for_table cb_func lazy s =
    let id = free_slot s.indexes in
    let taken = leb id (length s.indexes) in
    let grown = if taken then s else record s { indexes = s.indexes ++ (none ∷ []) } in
    let new_index : KlistIndex = record {
      comp_func = cb_func;
      lazy_upd = lazy;
      state = needs_update;
      elements = none;
    } in
    if not taken && not for_slot
    then (s, enomem)
    else if not for_index
    then (grown, enomem)
    else (put_index grown id (some ((update_alt_index for_table grown new_index).0)), done id)

-- `drop_index`
unfoldable pub drop_index : ℕ → ListStruct → ListStruct × IndexResult
drop_index index_id s = elim (index_of_id s index_id) [
  | none ↦ (s, einval)
  | some x ↦ (put_index s index_id none, done 0)
]

-- An index that is up to date, or is brought up to date
abbrev pub refreshed : Bool → ListStruct → KlistIndex → KlistIndex × Bool
refreshed has_memory s x = elim x.state [
  | up_to_date ↦ (x, true)
  | needs_update ↦ update_alt_index has_memory s x
]

abbrev pub nth_of : ℕ → Option (List ℕ) → IndexResult
nth_of nth none = null_read
nth_of nth (some l) = done (get_or l (nth - 1) 0)

-- `read_index`
unfoldable pub read_index : Bool → ℕ → ℕ → ListStruct → ListStruct × IndexResult
read_index has_memory index_id nth s = elim (index_of_id s index_id) [
  | none ↦ (s, einval)
  | some x ↦
      let (x', ok) = refreshed has_memory s x in
      if ltb nth 1 || ltb s.number_of_elements nth
      then (s, einval)
      else (put_index s index_id (some x'), if ok then nth_of nth x'.elements else enomem)
]

abbrev pub position_in : ℕ → ℕ → Comparison → Option (List ℕ) → IndexResult
position_in n data_ptr comp_func none = enoent
position_in n data_ptr comp_func (some l) = elim (bsearch comp_func data_ptr (take n l)) [
  | none ↦ enoent
  | some i ↦ done (i + 1)
]

-- `search_index`
unfoldable pub search_index : Bool → ℕ → ℕ → ListStruct → ListStruct × IndexResult
search_index has_memory index_id data_ptr s = elim (index_of_id s index_id) [
  | none ↦ (s, einval)
  | some x ↦
      let (x', ok) = refreshed has_memory s x in
      (
        put_index s index_id (some x'),
        if ok then position_in s.number_of_elements data_ptr x'.comp_func x'.elements else enomem,
      )
]

-- `change_index_sort`
unfoldable pub change_index_sort : Bool → ℕ → Comparison → ListStruct → ListStruct × IndexResult
change_index_sort has_memory index_id new_cb s = elim (index_of_id s index_id) [
  | none ↦ (s, einval)
  | some x ↦
      let marked = record x { state = needs_update; comp_func = new_cb } in
      (
        put_index s index_id
            (some (if x.lazy_upd then marked else (update_alt_index has_memory s marked).0)),
        done 0,
      )
]
