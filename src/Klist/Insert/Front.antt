-- ===== src/Klist/Insert/Front.antt =====
-- The insertions in front of a list of ovlfs-2.0.1/lists/kernel_lists.c keep what holds of it.
use mathlib.Core.List.Perm
use reading_comment.Common.{
  ℕ, ◌+◌, ◌≡◌, ◌≢◌, refl, ap, ◌∙◌, sym, false, List, ◌∷◌, length, length-Perm, arith, Option, some,
  Bool-cases, inl, inr, ◌==◌,
}
use reading_comment.Klist.{Comparison, Nodes, ListStruct, is_indexed, is_sorted}
use reading_comment.Klist.Order.{IsComparison}
use reading_comment.Klist.Index.{insert_pos}
use reading_comment.Klist.Sort.{find_insert_pos}
use reading_comment.Klist.Chain.{NotIn, IsChain-other, data_of-other, length-data_of}
use reading_comment.Klist.Insert.{
  Memory, add_abs_node, insert_into_list, insert_into_list_sorted, append_to_index, if_indexed,
}
use reading_comment.Klist.Holds.{
  IsList, Holds, IndexOf-Perm, IndexOf-sorted, no_IndexOf, sort_list-Holds,
}
use reading_comment.Klist.Holds.Grown.{append_to_index-Holds, insert_ordered-Holds}

set_node_self :
    (nodes : Nodes) (p x a : ℕ) → add_abs_node nodes p x a p ≡ record { element = x; next = a }
set_node_self nodes p x a = ground arith

set_node_other : (nodes : Nodes) (p x a q : ℕ) → p ≢ q → add_abs_node nodes p x a q ≡ nodes q
set_node_other nodes p x a q d = ground arith

add_abs_node-IsList :
    {nodes : Nodes} {first n : ℕ} {ps xs : List ℕ} (p x : ℕ)
    → p ≢ 0
    → NotIn p ps
    → IsList nodes first n ps xs
    → IsList (add_abs_node nodes p x first) p (n + 1) (p ∷ ps) (x ∷ xs)
add_abs_node-IsList {nodes = nodes} {first = first} {ps = ps} p x d free h =
    let other = add_abs_node nodes p x first in
    let same : (q : ℕ) → p ≢ q → other q ≡ nodes q = set_node_other nodes p x first in
    record {
      chain = (
        refl,
        d,
        rw (set_node_self nodes p x first) (
            IsChain-other nodes other p (λ q e. ap (λ c. c.next) (same q e)) first ps free h.chain),
      );
      distinct = (free, h.distinct);
      count = omega (arith, h.count);
      data_eq =
          rw
            (
              set_node_self nodes p x first,
              data_of-other nodes other p (λ q e. ap (λ c. c.element) (same q e)) ps free,
              h.data_eq,
            )
            refl;
    }

pub length-data :
    {nodes : Nodes} {first n : ℕ} {ps xs : List ℕ} → IsList nodes first n ps xs → n ≡ length xs
length-data {nodes = nodes} {ps = ps} h =
    h.count ∙ (sym (length-data_of nodes ps) ∙ ap length h.data_eq)

insert_pos-some :
    (compare : Comparison) (c : Option Comparison) (x : ℕ) (t : ListStruct)
    → c ≡ some compare
    → t.number_of_elements ≡ length t.element_list
    → insert_pos c x t ≡ find_insert_pos (length t.element_list) x compare t.element_list
insert_pos-some compare c x t e full = rw (e, full) refl

module _ (compare : Comparison) (v : IsComparison compare) {s : ListStruct} {ps xs : List ℕ}
    (h : Holds compare s ps xs) (m : Memory) (x : ℕ) (got : m.node ≢ 0)
    (free : NotIn m.node ps) where
  -- The list in front of which the node was put, before its index is changed.
  in_front :
      IsList
        (add_abs_node s.nodes m.node x s.first_element)
        m.node
        (s.number_of_elements + 1)
        (m.node ∷ ps)
        (x ∷ xs)
  in_front = add_abs_node-IsList m.node x got free h.list

  module _ (t : ListStruct)
      (list : IsList t.nodes t.first_element t.number_of_elements (m.node ∷ ps) (x ∷ xs))
      (compares : t.element_compare ≡ some compare) (mode : t.index_mode ≡ s.index_mode)
      (table : t.element_list ≡ s.element_list) where
    appended :
        Holds compare
          (if_indexed (append_to_index m.block x s.number_of_elements) t)
          (m.node ∷ ps)
          (x ∷ xs)
    appended = elim (Bool-cases (is_indexed t.index_mode)) [
      | inl y ↦
          let indexed = sym (ap is_indexed mode) ∙ y in
          let perm = IndexOf-Perm compare s.index_mode s.element_list xs indexed h.index in
          rw y (
            append_to_index-Holds compare t _ _ x s.number_of_elements list compares
              (omega (arith, list.count, h.list.count)) (rw table (Perm.cons x perm))
              (length-data h.list ∙ sym (rw table (length-Perm perm))) m.block)
      | inr n ↦ rw n (record {
        list = list;
        compares = compares;
        index = no_IndexOf compare t.index_mode t.element_list (x ∷ xs) n;
      })
    ]

  pub insert_into_list-Holds :
      Holds compare (insert_into_list m x s).0 (m.node ∷ ps) (x ∷ xs)
      × ((insert_into_list m x s).1 ≡ x)
  unfolding insert_into_list
  insert_into_list-Holds =
      let taken : (m.node == 0) ≡ false = ground (arith, got) in
      rw taken (appended _ in_front h.compares refl refl, refl)

  -- For a comparison that is an order: insert_into_list_sorted that gets a node which is not in the list
  -- puts the element in front of the chain and returns it, and whatever the other allocations return,
  -- the count is right again, and so is the index, if there is still one: it has the data of the chain,
  -- in order if it is marked as sorted.
  pub insert_into_list_sorted-Holds :
      Holds compare (insert_into_list_sorted m x s).0 (m.node ∷ ps) (x ∷ xs)
      × ((insert_into_list_sorted m x s).1 ≡ x)
  unfolding insert_into_list_sorted
  insert_into_list_sorted-Holds =
      let taken : (m.node == 0) ≡ false = ground (arith, got) in
      elim (Bool-cases (is_sorted s.index_mode)) [
        | inl y ↦
            let (mode, perm, ordered, some_element) =
              IndexOf-sorted compare s.index_mode s.element_list xs y h.index in
            let full = length-data h.list ∙ sym (length-Perm perm) in
            rw (taken, y)
              (
                insert_ordered-Holds compare _ _ _ x s.number_of_elements in_front h.compares
                    (omega arith) (Perm.cons x perm) full v _ m.block
                    (insert_pos-some compare s.element_compare x _ h.compares full) ordered
                    some_element mode,
                refl,
              )
        | inr n ↦
            rw (taken, n)
              (
                sort_list-Holds compare v m.table (appended _ in_front h.compares refl refl)
                    (omega arith),
                refl,
              )
      ]
