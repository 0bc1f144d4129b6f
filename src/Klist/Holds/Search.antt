-- ===== src/Klist/Holds/Search.antt =====
-- What a search of a list of ovlfs-2.0.1/lists/kernel_lists.c returns.
use mathlib.Core.List.Perm
use mathlib.Core.List.{
  Perm, Mem, mem-cons_self, mem-cons_of_mem, eq-or-mem_of_mem-cons, not-mem-nil,
}
use mathlib.Core.Logic.Or
use mathlib.Core.HLevel.{⊥_prop}
use reading_comment.Common.{
  ℕ, zero, suc, ◌<◌, ◌≡◌, ◌≢◌, refl, sym, Bool, List, [], ◌∷◌, length, get_or, arith, Option, none,
  some, Bool-cases, inl, inr, ◌⊎◌, ◌&&◌,
}
use reading_comment.Common.Strings.{Sign, equal}
use reading_comment.Klist.{Comparison, Nodes, ListStruct, is_sorted}
use reading_comment.Klist.Order.{IsSearch}
use reading_comment.Klist.Sort.{signs, is_equal}
use reading_comment.Klist.Sort.Halving.{IsFound, bsearch-IsFound}
use reading_comment.Klist.Index.{check_index, l_search, element_at, search_for_element}
use reading_comment.Klist.Chain.{IsChain, data_of}
use reading_comment.Klist.Holds.{Holds, IndexOf-sorted, check_index-Holds}

-- An element of the list that is equal to the value, or the null pointer if there is none.
abbrev pub Finds : Comparison → ℕ → List ℕ → ℕ → Type 0
Finds search value xs r =
    (Mem r xs × (search value r ≡ equal))
    ⊎ (((x : ℕ) → Mem x xs → search value x ≢ equal) × (r ≡ 0))

Mem-get_or : (l : List ℕ) (i : ℕ) → i < length l → Mem (get_or l i 0) l
Mem-get_or [] i h = absurd (omega arith)
Mem-get_or (x ∷ l) zero h = mem-cons_self
Mem-get_or (x ∷ l) (suc i) h = mem-cons_of_mem x (Mem-get_or l i (omega arith))

none_in :
    (f : ℕ → Sign) (l : List ℕ)
    → ((i : ℕ) → i < length l → f (get_or l i 0) ≢ equal)
    → (x : ℕ) → Mem x l
    → f x ≢ equal
none_in f [] h x m e = not-mem-nil m
none_in f (y ∷ l) h x m e =
    Or.elim ⊥_prop (eq-or-mem_of_mem-cons m) (λ k. h 0 (omega arith) (rw (sym k) e))
      (λ k. none_in f l (λ i p. h (suc i) (omega arith)) x k e)

module _ (search : Comparison) (value : ℕ) where
  l_search-Finds :
      (nodes : Nodes) (p : ℕ) (ps : List ℕ)
      → IsChain nodes p ps
      → Finds search value (data_of nodes ps) (l_search search nodes (length ps) value p)
  unfolding l_search
  l_search-Finds nodes p [] h = inr ((λ x m. absurd (not-mem-nil m)), refl)
  l_search-Finds nodes p (q ∷ qs) (e, d, h) =
      elim (Bool-cases (is_equal (search value (nodes q).element))) [
        | inl y ↦ rw (e, y) (inl (mem-cons_self, ground arith))
        | inr n ↦
            rw (e, n)
              (elim (l_search-Finds nodes (nodes q).next qs h) [
                | inl (m, f) ↦ inl (mem-cons_of_mem (nodes q).element m, f)
                | inr (none_found, f) ↦ inr (
                  λ x m f'.
                      Or.elim ⊥_prop (eq-or-mem_of_mem-cons m)
                        (λ k. absurd (ground (arith, n, k, f'))) (λ k. none_found x k f'),
                  f,
                )
              ])
      ]

  element_at-Finds :
      (l xs : List ℕ) (r : Option ℕ)
      → Perm l xs
      → IsFound (signs search value l) (length l) r
      → Finds search value xs (element_at l r)
  element_at-Finds l xs none perm h =
      inr (λ x m e. none_in (search value) l h x ((Perm.mem_iff perm).1 m) e, refl)
  element_at-Finds l xs (some i) perm (h, e) = inl ((Perm.mem_iff perm).0 (Mem-get_or l i h), e)

module _ (compare : Comparison) {s : ListStruct} {ps xs : List ℕ} (h : Holds compare s ps xs)
    (v : IsSearch compare s.search_func) (has_memory : Bool) (value : ℕ) where
  -- In a list whose index, if it is sorted, is in order, and for a search that agrees with that order:
  -- search_for_element, whatever its allocation returns, gives an element of the list that is equal to
  -- the value, or the null pointer, and then no element is equal; what holds of the list is kept.
  pub search_for_element-Finds :
      Holds compare (search_for_element has_memory value s).0 ps xs
      × Finds s.search_func value xs (search_for_element has_memory value s).1
  unfolding search_for_element
  search_for_element-Finds =
      let (h', indexed, same) = check_index-Holds compare h has_memory in
      let (s', ok) = check_index has_memory s in
      let linear = l_search-Finds s.search_func value s'.nodes s'.first_element ps h'.list.chain in
      elim (Bool-cases (ok && is_sorted s'.index_mode)) [
        | inl y ↦
            let (mode, perm, ordered, some_element) =
              IndexOf-sorted compare s'.index_mode s'.element_list xs (ground arith) h'.index in
            let found = bsearch-IsFound compare s.search_func v s'.element_list ordered value in
            rw (y, same) (h', element_at-Finds s.search_func value s'.element_list xs _ perm found)
        | inr n ↦ rw (n, same, h'.list.count) (h', rw (sym h'.list.data_eq) linear)
      ]
