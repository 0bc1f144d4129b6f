-- ===== src/Klist/Alt/Read.antt =====
-- What `read_index` of ovlfs-2.0.1/lists/kernel_lists.c returns of an additional index.
use mathlib.Core.List.{Perm}
use reading_comment.Common.{
  ℕ, ◌-◌, ◌≤◌, ◌<◌, ◌≡◌, refl, ◌∙◌, Bool, true, false, List, get_or, arith, Option, none, some,
  ◌==◌, ltb, ◌||◌,
}
use reading_comment.Klist.{Comparison, ListStruct, KlistIndex, IndexState, up_to_date, needs_update}
use reading_comment.Klist.Order.{IsComparison, IsOrdered}
use reading_comment.Klist.Sort.{ssort}
use reading_comment.Klist.Sort.Selection.{ssort-IsOrdered}
use reading_comment.Klist.Index.{make_index}
use reading_comment.Klist.Chain.{collect-data_of}
use reading_comment.Klist.Holds.{IsList}
use reading_comment.Klist.Alt.{update_alt_index}
use reading_comment.Klist.Alt.Calls.{done, index_of_id, put_index, refreshed, read_index}

-- An index that has to be brought up to date, or that has the pointers `xs`, in order.
abbrev pub IsReady : Comparison → IndexState → Option (List ℕ) → List ℕ → Type 0
IsReady c needs_update e xs = Unit
IsReady c up_to_date none xs = ⊥
IsReady c up_to_date (some l) xs = Perm l xs × IsOrdered c l

abbrev pub index_with : Comparison → Bool → IndexState → Option (List ℕ) → KlistIndex
index_with c lazy st e = record { comp_func = c; lazy_upd = lazy; state = st; elements = e }

module _ (s : ListStruct) (ps xs : List ℕ)
    (list : IsList s.nodes s.first_element s.number_of_elements ps xs) (c : Comparison)
    (v : IsComparison c) (lazy : Bool) where
  refreshed-index_with :
      (st : IndexState) (e : Option (List ℕ))
      → IsReady c st e xs
      → 0 < s.number_of_elements
      → (l : List ℕ) × (refreshed true s (index_with c lazy st e)
          ≡ (index_with c lazy up_to_date (some l), true))
        × Perm l xs
        × IsOrdered c l
  unfolding update_alt_index make_index
  refreshed-index_with needs_update e h k =
      let (ordered, perm, same) = ssort-IsOrdered c v xs in
      let some_element : (s.number_of_elements == 0) ≡ false = ground arith in
      let gathered = collect-data_of s.nodes s.first_element ps list.chain ∙ list.data_eq in
      (ssort c xs, rw (some_element, list.count, gathered) refl, perm, ordered)
  refreshed-index_with up_to_date none h k = absurd h
  refreshed-index_with up_to_date (some l) (perm, ordered) k = (l, refl, perm, ordered)

  -- For an index in use, whose comparison is an order, and that is up to date with an array or has to be
  -- brought up to date: read_index, with memory for the array, gives for each number from 1 to the
  -- length the element with that number in an array that has exactly the data of the list, in order, and
  -- leaves the index up to date with that array.
  pub read_index-done :
      (st : IndexState) (e : Option (List ℕ)) (index_id nth : ℕ)
      → IsReady c st e xs
      → index_of_id s index_id ≡ some (index_with c lazy st e)
      → 0 < nth
      → nth ≤ s.number_of_elements
      → (l : List ℕ) × (read_index true index_id nth s ≡ (
        put_index s index_id (some (index_with c lazy up_to_date (some l))),
        done (get_or l (nth - 1) 0),
      ))
        × Perm l xs
        × IsOrdered c l
  unfolding read_index
  read_index-done st e index_id nth h used from to =
      let (l, made, perm, ordered) = refreshed-index_with st e h (omega arith) in
      let inside : (ltb nth 1 || ltb s.number_of_elements nth) ≡ false = ground arith in
      (l, rw (used, read_index, made, inside) refl, perm, ordered)
