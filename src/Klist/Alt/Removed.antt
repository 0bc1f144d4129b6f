-- ===== src/Klist/Alt/Removed.antt =====
-- An additional index of ovlfs-2.0.1/lists/kernel_lists.c is kept up to date by a removal.
use mathlib.Core.List.{Perm}
use mathlib.Core.List.Perm
use reading_comment.Common.{
  ℕ, ◌-◌, ◌<◌, ◌≡◌, refl, ap, ◌∙◌, sym, Bool, true, false, List, ◌∷◌, ◌++◌, length, length-Perm,
  get_or, take, replicate, min, append-nil, arith, Option, none, some, Bool-cases, inl, inr, ◌⊎◌,
  ◌==◌, ltb,
}
use reading_comment.Klist.{Comparison, KlistIndex, IndexState, up_to_date, needs_update}
use reading_comment.Klist.Order.{IsComparison, IsOrdered}
use reading_comment.Klist.Remove.Unlink.{remove_at, length-remove_at}
use reading_comment.Klist.Alt.{alt_index_delete, alt_index_resize, find_remove_pos, zero_behind}
use reading_comment.Klist.Alt.Current.{IsCurrent}
use reading_comment.Klist.Alt.Position.{
  find_remove_pos-Reaches, remove_at-IsOrdered, Perm-remove_at, closed, take-closed,
}

module _ (c : Comparison) (v : IsComparison c) (xs ys : List ℕ) (ele n : ℕ) (full : n ≡ length xs)
    (parts : Perm (ele ∷ ys) xs) where
  abbrev index_with : IndexState → List ℕ → Option KlistIndex
  index_with st l = some (record { comp_func = c; lazy_upd = false; state = st; elements = some l })

  module _ (l : List ℕ) (pos : ℕ) (all : n ≡ length l) (inside : pos < n)
      (here : get_or l pos 0 ≡ ele) (perm : Perm l xs) (ordered : IsOrdered c l) where
    fewer : length (remove_at pos l) ≡ length l - 1
    fewer = length-remove_at pos l (omega (arith, all))

    left_over : Perm (remove_at pos l) ys
    left_over =
        let old : Perm (ele ∷ remove_at pos l) l =
          rw (sym here) (Perm-remove_at pos l (omega (arith, all))) in
        Perm.cons_inv (Perm.trans old (Perm.trans perm (Perm.symm parts)))

    shortened :
        (junk : ℕ)
        → zero_behind n
            (n - 1)
            (take (min n (n - 1)) (closed l pos n) ++ replicate (n - 1 - min n (n - 1)) junk)
          ≡ remove_at pos l
    shortened junk =
        let few : min n (n - 1) ≡ n - 1 = omega arith in
        let none_more : n - 1 - (n - 1) ≡ 0 = omega arith in
        let not_longer : ltb n (n - 1) ≡ false = ground arith in
        rw
          (few, none_more, take-closed l pos n all inside, append-nil (remove_at pos l), not_longer)
          refl

    -- The array after the removal is shrunk, or given up when it has no element left.
    shrunk :
        (block : Option ℕ)
        → IsCurrent (alt_index_resize block n (n - 1) (index_with up_to_date (closed l pos n))) ys
    unfolding alt_index_resize
    shrunk none = elim (Bool-cases (n - 1 == 0)) [ inl y ↦ rw y tt | inr o ↦ rw o tt ]
    shrunk (some junk) = elim (Bool-cases (n - 1 == 0)) [
      | inl y ↦ rw y tt
      | inr o ↦
          rw (o, shortened junk)
            (left_over, remove_at-IsOrdered 0 c v l ordered pos fewer, ground (arith, fewer))
    ]

  marked :
      (block : Option ℕ) (lazy : Bool) (e : Option (List ℕ))
      → IsCurrent
          (alt_index_resize block n
            (n - 1)
            (some (record { comp_func = c; lazy_upd = lazy; state = needs_update; elements = e })))
          ys
  unfolding alt_index_resize
  marked block lazy e = tt

  deleted :
      (l : List ℕ)
      → Perm l xs
      → IsOrdered c l
      → (alt_index_delete n ele (index_with up_to_date l) ≡ index_with needs_update l)
        ⊎ ((pos : ℕ) × (pos < n)
            × (get_or l pos 0 ≡ ele)
            × (alt_index_delete n ele (index_with up_to_date l)
                ≡ index_with up_to_date (closed l pos n)))
  unfolding alt_index_delete
  deleted l perm ordered =
      let all : n ≡ length l = full ∙ sym (length-Perm perm) in
      let pos = find_remove_pos ele c l n in
      let reached = find_remove_pos-Reaches ele c v l ordered in
      elim (Bool-cases (pos == 0)) [
        | inl y ↦ inl (rw y refl)
        | inr o ↦ inr (
          pos,
          ground (arith, all, ap (find_remove_pos ele c l) all, reached),
          ground (arith, all, ap (find_remove_pos ele c l) all, reached),
          rw o refl,
        )
      ]

  at_once :
      (block : Option ℕ) (l : List ℕ)
      → Perm l xs
      → IsOrdered c l
      → IsCurrent
          (alt_index_resize block n (n - 1) (alt_index_delete n ele (index_with up_to_date l)))
          ys
  at_once block l perm ordered = elim (deleted l perm ordered) [
    | inl e ↦ rw e (marked block false (some l))
    | inr (pos, inside, here, e) ↦
        let all : n ≡ length l = full ∙ sym (length-Perm perm) in
        rw e (shrunk l pos all inside here perm ordered block)
  ]

  -- For an index whose comparison is an order, and that is current or not up to date, and an element of
  -- its list: after alt_index_delete of the element and alt_index_resize to one element less, which may
  -- fail, it is current for the list without the element, or marked to be brought up to date, or has no
  -- array.
  pub alt_index_delete-IsCurrent :
      (block : Option ℕ) (lazy : Bool) (st : IndexState) (e : Option (List ℕ))
      → let index : KlistIndex = record {
        comp_func = c;
        lazy_upd = lazy;
        state = st;
        elements = e;
      } in
        IsCurrent (some index) xs
        → IsCurrent (alt_index_resize block n (n - 1) (alt_index_delete n ele (some index))) ys
  unfolding alt_index_delete alt_index_resize
  alt_index_delete-IsCurrent block lazy needs_update e h = tt
  alt_index_delete-IsCurrent block lazy up_to_date none h = tt
  alt_index_delete-IsCurrent block true up_to_date (some l) h = tt
  alt_index_delete-IsCurrent block false up_to_date (some l) (perm, ordered, some_element) =
      at_once block l perm ordered
