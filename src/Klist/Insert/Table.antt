-- ===== src/Klist/Insert/Table.antt =====
-- A list of ovlfs-2.0.1/lists/kernel_lists.c that only grows at its end, as the table of inodes of
-- ovlfs-2.0.1/fs/ovl_stg.c does: a number gives the element that was added with it.
use reading_comment.Common.{
  ℕ, zero, suc, ◌+◌, ◌-◌, ◌≤◌, ◌<◌, ◌≡◌, ◌≢◌, refl, ap, ◌∙◌, sym, Bool, true, false, List, [], ◌∷◌,
  ◌++◌, length, length-append, get_or, arith, Option, none, some, Bool-cases, inl, inr, ◌==◌, ltb,
  leb, ◌&&◌,
}
use reading_comment.Klist.{ListStruct, is_indexed}
use reading_comment.Klist.Index.{grow_index, nth_element, check_index, index_list, make_index}
use reading_comment.Klist.Index.Room.{grown_block, set_last}
use reading_comment.Klist.Chain.{NotIn, collect-data_of}
use reading_comment.Klist.Insert.{Memory, insert_at_end, append_to_index}
use reading_comment.Klist.Insert.Front.{length-data}
use reading_comment.Klist.Insert.Back.{last_or, last_or-append_one, add_abs_node_at_end-IsList}
use reading_comment.Klist.Holds.{IsList}

-- The list has the nodes `ps` with the data `xs`, the last of them is its last node, and its index, if
-- there is one, is in the order of the chain.
pub record IsTable (s : ListStruct) (ps xs : List ℕ) : Type 0 where
  pub list : IsList s.nodes s.first_element s.number_of_elements ps xs
  pub last : s.last_element ≡ last_or 0 ps
  pub index : is_indexed s.index_mode ≡ true → s.element_list ≡ xs

module _ {s : ListStruct} {ps xs : List ℕ} (h : IsTable s ps xs) where
  index_list-IsTable :
      (b : Bool)
      → is_indexed s.index_mode ≡ false
      → IsTable (index_list b s).0 ps xs
        × ((index_list b s).1 ≡ true → is_indexed (index_list b s).0.index_mode ≡ true)
        × ((index_list b s).1 ≡ b)
  unfolding index_list make_index
  index_list-IsTable false n = (
    record { list = h.list; last = h.last; index = λ e. absurd (ground arith) },
    (λ e. absurd (ground arith)),
    refl,
  )
  index_list-IsTable true n = (
    record {
      list = h.list;
      last = h.last;
      index = λ e.
          rw h.list.count
            (collect-data_of s.nodes s.first_element ps h.list.chain ∙ h.list.data_eq);
    },
    (λ e. refl),
    refl,
  )

  check_index-IsTable :
      (b : Bool)
      → IsTable (check_index b s).0 ps xs
        × ((check_index b s).1 ≡ true → is_indexed (check_index b s).0.index_mode ≡ true)
        × (b ≡ true → (check_index b s).1 ≡ true)
  unfolding check_index
  check_index-IsTable b = elim (Bool-cases (is_indexed s.index_mode)) [
    | inl y ↦ rw y (h, (λ e. y), λ e. refl)
    | inr n ↦
        let (kept, indexed, made) = index_list-IsTable b n in rw n (kept, indexed, λ e. made ∙ e)
  ]

module _ (s : ListStruct) (ps xs : List ℕ) (x : ℕ) (old_size : ℕ)
    (list : IsList s.nodes s.first_element s.number_of_elements ps (xs ++ (x ∷ [])))
    (last : s.last_element ≡ last_or 0 ps) (counted : s.number_of_elements ≡ suc old_size)
    (table : s.element_list ≡ xs) (full : old_size ≡ length s.element_list) where
  append_to_index-IsTable :
      (block : Option ℕ) → IsTable (append_to_index block x old_size s) ps (xs ++ (x ∷ []))
  unfolding append_to_index grow_index
  append_to_index-IsTable none = record {
    list = list;
    last = last;
    index = λ e. absurd (ground arith);
  }
  append_to_index-IsTable (some junk) =
      let l = s.element_list in
      let n = s.number_of_elements in
      let last_one : n - 1 ≡ length l = omega (arith, counted, full) in
      record {
        list = list;
        last = last;
        index = λ e.
            rw
              (
                grown_block junk l old_size n full counted,
                set_last l junk x (n - 1) last_one,
                table,
              )
              refl;
      }

get_or-append_one : (l : List ℕ) (x i : ℕ) → i ≡ length l → get_or (l ++ (x ∷ [])) i 0 ≡ x
get_or-append_one [] x i h = rw h refl
get_or-append_one (y ∷ l) x zero h = absurd (omega (arith, h))
get_or-append_one (y ∷ l) x (suc i) h = get_or-append_one l x i (omega (arith, h))

get_or-append : (l r : List ℕ) (i : ℕ) → i < length l → get_or (l ++ r) i 0 ≡ get_or l i 0
get_or-append [] r i h = absurd (omega arith)
get_or-append (y ∷ l) r zero h = refl
get_or-append (y ∷ l) r (suc i) h = get_or-append l r i (omega arith)

-- nth_element keeps the table, and with memory for an index it gives the element with that number.
module _ {s : ListStruct} {ps xs : List ℕ} (h : IsTable s ps xs) (nth : ℕ) where
  nth_element-IsTable : (b : Bool) → IsTable (nth_element b nth s).0 ps xs
  unfolding nth_element
  nth_element-IsTable b =
      let (kept, indexed, made) = check_index-IsTable h b in
      let (s', ok) = check_index b s in
      elim (Bool-cases (ok && (ltb 0 nth && leb nth s'.number_of_elements))) [
        | inl y ↦ rw y kept
        | inr n ↦ rw n kept
      ]

  nth_element-get_or :
      0 < nth → nth ≤ s.number_of_elements → (nth_element true nth s).1 ≡ get_or xs (nth - 1) 0
  unfolding nth_element
  nth_element-get_or from to =
      let (kept, indexed, made) = check_index-IsTable h true in
      let (s', ok) = check_index true s in
      let inside : (ltb 0 nth && leb nth s'.number_of_elements) ≡ true =
        ground (arith, kept.list.count, h.list.count) in
      rw (made refl, inside, kept.index (indexed (made refl))) refl

module _ {s : ListStruct} {ps xs : List ℕ} (h : IsTable s ps xs) (m : Memory) (x : ℕ)
    (got : m.node ≢ 0) (free : NotIn m.node ps) where
  pub insert_at_end-IsTable :
      IsTable (insert_at_end m x s).0 (ps ++ (m.node ∷ [])) (xs ++ (x ∷ []))
      × ((insert_at_end m x s).1 ≡ x)
  unfolding insert_at_end
  insert_at_end-IsTable =
      let taken : (m.node == 0) ≡ false = ground (arith, got) in
      let list =
        add_abs_node_at_end-IsList s.nodes m.node x s.last_element got h.last free h.list in
      let last = sym (last_or-append_one 0 m.node ps) in
      elim (Bool-cases (is_indexed s.index_mode)) [
        | inl y ↦
            rw (taken, y)
              (
                append_to_index-IsTable _ _ xs x s.number_of_elements list last (omega arith)
                    (h.index y) (length-data h.list ∙ sym (ap length (h.index y))) m.block,
                refl,
              )
        | inr n ↦
            rw (taken, n)
              (record { list = list; last = last; index = λ e. absurd (ground (arith, n)) }, refl)
      ]

  -- In a list that holds a table: insert_at_end that gets a node which is not in the list makes the
  -- list longer by one, and nth_element, when there is memory for the index, then gives the new element
  -- for the new length, and for each number up to the old length what it gave before.
  pub nth_element-insert_at_end :
      let s' = (insert_at_end m x s).0 in
      let n = s.number_of_elements in
      IsTable s' (ps ++ (m.node ∷ [])) (xs ++ (x ∷ []))
      × (s'.number_of_elements ≡ n + 1)
      × ((nth_element true (n + 1) s').1 ≡ x)
      × ((i : ℕ) → 0 < i → i ≤ n → (nth_element true i s').1 ≡ (nth_element true i s).1)
  nth_element-insert_at_end =
      let (t, e) = insert_at_end-IsTable in
      let n = s.number_of_elements in
      let old : n ≡ length xs = length-data h.list in
      let counted : (insert_at_end m x s).0.number_of_elements ≡ n + 1 =
        omega (arith, t.list.count, h.list.count, length-append ps (m.node ∷ [])) in
      (
        t,
        counted,
        nth_element-get_or t (n + 1) (omega arith) (omega (arith, counted))
            ∙ get_or-append_one xs x (n + 1 - 1) (omega (arith, old)),
        λ i from to.
            nth_element-get_or t i from (omega (arith, counted))
            ∙ (get_or-append xs (x ∷ []) (i - 1) (omega (arith, old))
                ∙ sym (nth_element-get_or h i from to)),
      )
