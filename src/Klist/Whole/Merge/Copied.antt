-- ===== src/Klist/Whole/Merge/Copied.antt =====
-- `dup_list` of ovlfs-2.0.1/lists/kernel_lists.c makes a copy.
use mathlib.Core.List.{Perm}
use reading_comment.Common.{
  ℕ, zero, suc, ◌+◌, ◌-◌, ◌≤◌, ◌<◌, ◌≡◌, ◌≢◌, refl, ap, ◌∙◌, sym, Bool, true, List, [], ◌∷◌, ◌++◌,
  length, length-Perm, get_or, arith, Bool-cases, inl, inr, ltb, leb, ◌&&◌, append_assoc,
  append-nil,
}
use reading_comment.Klist.{Comparison, Nodes, ListStruct, create_list, is_indexed}
use reading_comment.Klist.Index.{nth_element, check_index, index_list, make_index}
use reading_comment.Klist.Chain.{NotIn}
use reading_comment.Klist.Holds.{Holds, IndexOf-Perm, check_index-Holds}
use reading_comment.Klist.Insert.{Memory, insert_at_end}
use reading_comment.Klist.Insert.Front.{length-data}
use reading_comment.Klist.Insert.Table.{IsTable, insert_at_end-IsTable}
use reading_comment.Klist.Whole.Merge.{in_memory, merge_from, merge_list, dup_list}

-- Each of the `n` rounds from `cur` on gets a node that is not among those in use.
abbrev pub AllFresh : (ℕ → Memory) → ℕ → ℕ → List ℕ → Type 0
AllFresh memory zero cur ps = Unit
AllFresh memory (suc n) cur ps =
    ((memory cur).node ≢ 0)
    × NotIn (memory cur).node ps
    × AllFresh memory n (cur + 1) (ps ++ ((memory cur).node ∷ []))

-- The nodes that the `n` rounds from `cur` on get.
abbrev pub nodes_from : (ℕ → Memory) → ℕ → ℕ → List ℕ
nodes_from memory zero cur = []
nodes_from memory (suc n) cur = (memory cur).node ∷ nodes_from memory n (cur + 1)

NotIn-append : (p : ℕ) (ps qs : List ℕ) → NotIn p (ps ++ qs) → NotIn p qs
NotIn-append p [] qs h = h
NotIn-append p (q ∷ ps) qs (d, h) = NotIn-append p ps qs h

-- Nodes that are not among more are not among fewer.
AllFresh-append :
    (memory : ℕ → Memory) (n cur : ℕ) (ps qs : List ℕ)
    → AllFresh memory n cur (ps ++ qs)
    → AllFresh memory n cur qs
AllFresh-append memory zero cur ps qs h = tt
AllFresh-append memory (suc n) cur ps qs (d, free, h) = (
  d,
  NotIn-append (memory cur).node ps qs free,
  AllFresh-append memory n (cur + 1) ps (qs ++ ((memory cur).node ∷ []))
      (rw⁻¹ (append_assoc ps qs ((memory cur).node ∷ [])) h),
)

nth_element-indexed :
    (s : ListStruct) (b : Bool) (nth : ℕ)
    → is_indexed s.index_mode ≡ true
    → 0 < nth
    → nth ≤ s.number_of_elements
    → nth_element b nth s ≡ (s, get_or s.element_list (nth - 1) 0)
unfolding nth_element check_index
nth_element-indexed s b nth y h k =
    let inside : (ltb 0 nth && leb nth s.number_of_elements) ≡ true = ground arith in
    rw (y, inside) refl

merge_from-suc :
    (memory : ℕ → Memory) (n cur x : ℕ) (s t : ListStruct)
    → nth_element (memory cur).table cur t ≡ (t, x)
    → let s' = (insert_at_end (memory cur) x (in_memory t.nodes s)).0 in
      merge_from memory (suc n) cur s t ≡ merge_from memory n (cur + 1) s' (in_memory s'.nodes t)
unfolding merge_from
merge_from-suc memory n cur x s t e = rw e refl

module _ (memory : ℕ → Memory) (l : List ℕ) where
  next_same :
      (x : ℕ) (rest : List ℕ) (cur : ℕ)
      → 0 < cur
      → ((i : ℕ) → i < length (x ∷ rest) → get_or l (cur - 1 + i) 0 ≡ get_or (x ∷ rest) i 0)
      → (i : ℕ) → i < length rest
      → get_or l (cur + 1 - 1 + i) 0 ≡ get_or rest i 0
  next_same x rest cur from same i h =
      let e : cur + 1 - 1 + i ≡ cur - 1 + suc i = omega arith in
      ap (λ p. get_or l p 0) e ∙ same (suc i) (omega arith)

  -- The elements of an index from `cur` on are appended to a table in the same memory.
  merge_from-IsTable :
      (rest : List ℕ) (cur : ℕ) (s t : ListStruct) (ps xs : List ℕ)
      → IsTable s ps xs
      → IsTable (in_memory t.nodes s) ps xs
      → is_indexed t.index_mode ≡ true
      → t.element_list ≡ l
      → 0 < cur
      → cur + length rest ≡ suc t.number_of_elements
      → ((i : ℕ) → i < length rest → get_or l (cur - 1 + i) 0 ≡ get_or rest i 0)
      → AllFresh memory (length rest) cur ps
      → IsTable
          (merge_from memory (length rest) cur s t).0
          (ps ++ nodes_from memory (length rest) cur)
          (xs ++ rest)
  unfolding merge_from
  merge_from-IsTable [] cur s t ps xs h m y e from to same fresh =
      rw (append-nil xs, append-nil ps) h
  merge_from-IsTable (x ∷ rest) cur s t ps xs h m y e from to same (some_node, free, fresh) =
      let place : cur - 1 + 0 ≡ cur - 1 = omega arith in
      let read = nth_element-indexed t (memory cur).table cur y from (omega (arith, to)) in
      let value : get_or t.element_list (cur - 1) 0 ≡ x =
        rw e (sym (ap (λ p. get_or l p 0) place) ∙ same 0 (omega arith)) in
      let (h', ret) = insert_at_end-IsTable m (memory cur) x some_node free in
      let g =
        merge_from-IsTable rest (cur + 1) _ (in_memory _ t) _ (xs ++ (x ∷ [])) h' h' y e
          (omega arith) (omega (arith, to)) (next_same x rest cur from same) fresh in
      rw (merge_from-suc memory (length rest) cur x s t (read ∙ ap (λ p. (t, p)) value)) (
        rw⁻¹
          (
            append_assoc xs (x ∷ []) rest,
            append_assoc ps ((memory cur).node ∷ []) (nodes_from memory (length rest) (cur + 1)),
          )
          g)

-- The first read of a list without an index makes one.
nth_element-check_index :
    (s : ListStruct) (nth : ℕ)
    → nth_element true nth s ≡ nth_element true nth (check_index true s).0
unfolding nth_element check_index index_list make_index
nth_element-check_index s nth = elim (Bool-cases (is_indexed s.index_mode)) [
  | inl y ↦ rw (y, y) refl
  | inr n ↦ rw n refl
]

check_index-true : (s : ListStruct) → (check_index true s).1 ≡ true
unfolding check_index index_list make_index
check_index-true s = elim (Bool-cases (is_indexed s.index_mode)) [
  | inl y ↦ rw y refl
  | inr n ↦ rw n refl
]

merge_from-check_index :
    (memory : ℕ → Memory) (n : ℕ) (s t : ListStruct)
    → (memory 1).table ≡ true
    → merge_from memory (suc n) 1 s t ≡ merge_from memory (suc n) 1 s (check_index true t).0
unfolding merge_from
merge_from-check_index memory n s t h = rw (h, nth_element-check_index t 1) refl

module _ (compare : Comparison) (memory : ℕ → Memory) {s : ListStruct} {ps xs : List ℕ}
    (h : Holds compare s ps xs) where
  new_list : (nodes : Nodes) → IsTable (create_list nodes s.element_compare s.search_func) [] []
  unfolding create_list
  new_list nodes = record {
    list = record { chain = refl; distinct = tt; count = refl; data_eq = refl };
    last = refl;
    index = λ e. absurd (ground arith);
  }

  copied :
      (nodes : Nodes) (t : ListStruct)
      → Holds compare t ps xs
      → is_indexed t.index_mode ≡ true
      → AllFresh memory (length xs) 1 []
      → let new = create_list nodes s.element_compare s.search_func in
        (ys : List ℕ) × IsTable
          (merge_from memory (length xs) 1 new t).0
          (nodes_from memory (length xs) 1)
          ys
        × Perm ys xs
  unfolding create_list
  copied nodes t g y fresh =
      let perm = IndexOf-Perm compare t.index_mode t.element_list xs y g.index in
      let size = length-Perm perm in
      let made =
        merge_from-IsTable memory t.element_list t.element_list 1 _ t [] [] (new_list nodes)
          (new_list t.nodes) y refl (omega arith) (omega (arith, length-data g.list, size))
          (λ i k. ap (λ p. get_or t.element_list p 0) (omega arith)) (rw size fresh) in
      (t.element_list, rw⁻¹ size made, perm)

  -- For a list with data and a comparison, with memory for its index, and when each round gets a node
  -- that neither this list nor the new one has: dup_list makes a list of just the nodes that the
  -- rounds get, in order, with the same data, as many times each, whose last node is right.
  pub dup_list-Perm :
      0 < length xs
      → (memory 1).table ≡ true
      → AllFresh memory (length xs) 1 ps
      → (ys : List ℕ) × IsTable (dup_list memory s).0 (nodes_from memory (length xs) 1) ys
        × Perm ys xs
  unfolding dup_list merge_list
  dup_list-Perm some_element table fresh =
      let (g, indexed, same) = check_index-Holds compare h true in
      let t = (check_index true s).0 in
      let new = create_list s.nodes s.element_compare s.search_func in
      let size : s.number_of_elements ≡ suc (length xs - 1) = omega (arith, length-data h.list) in
      let size' : length xs ≡ suc (length xs - 1) = omega arith in
      let e =
        ap (λ n. merge_from memory n 1 new s) size
        ∙ (merge_from-check_index memory (length xs - 1) new s table
            ∙ sym (ap (λ n. merge_from memory n 1 new t) size')) in
      rw e (
        copied s.nodes t g (indexed (check_index-true s))
          (AllFresh-append memory (length xs) 1 ps [] (rw (append-nil ps) fresh)))
