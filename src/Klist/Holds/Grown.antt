-- ===== src/Klist/Holds/Grown.antt =====
-- The primary index of a list of ovlfs-2.0.1/lists/kernel_lists.c when an element is added.
use mathlib.Core.List.{Perm, perm_middle}
use mathlib.Core.List.Perm
use reading_comment.Common.{
  ℕ, suc, ◌+◌, ◌-◌, ◌<◌, ◌≡◌, List, [], ◌∷◌, ◌++◌, length, arith, Option, none, some, append-nil,
}
use reading_comment.Klist.{Comparison, ListStruct, sorted}
use reading_comment.Klist.Order.{IsComparison, IsOrdered}
use reading_comment.Klist.Sort.{find_insert_pos}
use reading_comment.Klist.Sort.Insertion.{find_insert_pos-IsOrdered, Perm-inserted, length-inserted}
use reading_comment.Klist.Index.{grow_index, grow_index_ordered}
use reading_comment.Klist.Index.Room.{grown_block, set_last, set-memmove}
use reading_comment.Klist.Insert.{append_to_index, insert_ordered}
use reading_comment.Klist.Holds.{IsList, Holds}

pub Perm-append_one : (l : List ℕ) (x : ℕ) → Perm (l ++ (x ∷ [])) (x ∷ l)
Perm-append_one l x =
    let e : Perm (l ++ []) l = rw append-nil (Perm.refl l) in
    Perm.trans (perm_middle l []) (Perm.cons x e)

-- A list that has got the nodes `ps`, with the data `ys`, but whose index has all of them but `x`.
module _ (compare : Comparison) (s : ListStruct) (ps ys : List ℕ) (x : ℕ) (old_size : ℕ)
    (list : IsList s.nodes s.first_element s.number_of_elements ps ys)
    (compares : s.element_compare ≡ some compare) (counted : s.number_of_elements ≡ suc old_size)
    (perm : Perm (x ∷ s.element_list) ys) (full : old_size ≡ length s.element_list) where
  pub append_to_index-Holds :
      (block : Option ℕ) → Holds compare (append_to_index block x old_size s) ps ys
  unfolding append_to_index grow_index
  append_to_index-Holds none = record { list = list; compares = compares; index = tt }
  append_to_index-Holds (some junk) =
      let l = s.element_list in
      let n = s.number_of_elements in
      let last : n - 1 ≡ length l = omega (arith, counted, full) in
      record {
        list = list;
        compares = compares;
        index =
            rw (grown_block junk l old_size n full counted, set_last l junk x (n - 1) last)
              (Perm.trans (Perm-append_one l x) perm);
      }

  pub insert_ordered-Holds :
      (v : IsComparison compare) (pos : ℕ) (block : Option ℕ)
      → pos ≡ find_insert_pos (length s.element_list) x compare s.element_list
      → IsOrdered compare s.element_list
      → 0 < length s.element_list
      → s.index_mode ≡ sorted
      → Holds compare (insert_ordered block x pos old_size s) ps ys
  unfolding grow_index_ordered
  insert_ordered-Holds v pos none place ordered some_element mode = record {
    list = list;
    compares = compares;
    index = tt;
  }
  insert_ordered-Holds v pos (some junk) place ordered some_element mode =
      let l = s.element_list in
      let n = s.number_of_elements in
      let (inside, kept) = find_insert_pos-IsOrdered compare v l ordered x some_element in
      let rest : pos + (n - pos - 1) ≡ length l = omega (arith, counted, full, place, inside) in
      record {
        list = list;
        compares = compares;
        index =
            rw
              (
                mode,
                grown_block junk l old_size n full counted,
                set-memmove l junk x pos (n - pos - 1) rest,
              )
              (
                Perm.trans (Perm-inserted l pos x) perm,
                rw place kept,
                omega (arith, length-inserted l pos x),
              );
      }
