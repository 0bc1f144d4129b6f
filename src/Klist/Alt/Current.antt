-- ===== src/Klist/Alt/Current.antt =====
-- An additional index of ovlfs-2.0.1/lists/kernel_lists.c is kept up to date by an insertion.
use mathlib.Core.List.{Perm}
use mathlib.Core.List.Perm
use reading_comment.Common.{
  ℕ, zero, suc, ◌+◌, ◌-◌, ◌/◌, ◌≤◌, ◌<◌, ◌≡◌, refl, ap, ◌∙◌, sym, Bool, true, false, List, [], ◌∷◌,
  ◌++◌, length, length-Perm, get_or, set, take, replicate, arith, Option, none, some, Bool-cases,
  inl, inr, ◌⊎◌, ◌&&◌, ◌==◌, ltb, not, min, if◌then◌else◌,
}
use reading_comment.Common.Strings.{Sign}
use reading_comment.Klist.{Comparison, KlistIndex, IndexState, up_to_date, needs_update}
use reading_comment.Klist.Order.{IsComparison, IsOrdered}
use reading_comment.Klist.Sort.{
  halve, next_low, next_end, is_equal, signs, find_insert_pos, goes_to,
}
use reading_comment.Klist.Sort.Insertion.{
  inserted, find_insert_pos-IsOrdered, Perm-inserted, length-inserted,
}
use reading_comment.Klist.Index.{memmove}
use reading_comment.Klist.Index.Room.{grown_block, set_last, set-memmove, take-length}
use reading_comment.Klist.Alt.{alt_index_insert, alt_index_resize, zero_behind}

-- The loop looks at places in front of `end` only.
halve_agree :
    (fuel : ℕ) (f g : ℕ → Sign) (low end : ℕ)
    → low < end
    → ((i : ℕ) → i < end → f i ≡ g i)
    → halve fuel f low end ≡ halve fuel g low end
unfolding halve
halve_agree zero f g low end h same = refl
halve_agree (suc fuel) f g low end h same =
    let cur = (low + end - 1) / 2 in
    let e = same cur (omega arith) in
    let low' = next_low (g cur) low cur in
    let end' = next_end (g cur) end cur in
    elim (Bool-cases (not (is_equal (g cur)) && ltb low' end')) [
      | inl y ↦
          rw (e, y) (halve_agree fuel f g low' end' (ground arith) (λ i k. same i (ground arith)))
      | inr n ↦ rw (e, n) refl
    ]

get_or-append : (l r : List ℕ) (i : ℕ) → i < length l → get_or (l ++ r) i 0 ≡ get_or l i 0
get_or-append [] r i h = absurd (omega arith)
get_or-append (y ∷ l) r zero h = refl
get_or-append (y ∷ l) r (suc i) h = get_or-append l r i (omega arith)

find_insert_pos-append :
    (x : ℕ) (c : Comparison) (l r : List ℕ)
    → 0 < length l
    → find_insert_pos (length l) x c (l ++ r) ≡ find_insert_pos (length l) x c l
unfolding find_insert_pos
find_insert_pos-append x c l r h = ap goes_to (
    halve_agree (suc (length l)) (signs c x (l ++ r)) (signs c x l) 0 (length l) h
      (λ i k. ap (c x) (get_or-append l r i k)))

inserted_last : (l : List ℕ) (n x : ℕ) → n ≡ length l → inserted l n x ≡ l ++ (x ∷ [])
inserted_last [] n x h = rw h refl
inserted_last (y ∷ l) zero x h = absurd (omega (arith, h))
inserted_last (y ∷ l) (suc n) x h = ap (λ t. y ∷ t) (inserted_last l n x (omega (arith, h)))

abbrev shifted : List ℕ → ℕ → ℕ → List ℕ
shifted t pos n = if ltb pos n then memmove t (pos + 1) pos (n - pos) else t

set-shifted :
    (l : List ℕ) (pos x : ℕ)
    → pos ≤ length l
    → set (shifted (l ++ (0 ∷ [])) pos (length l)) pos x ≡ inserted l pos x
set-shifted l pos x h = elim (Bool-cases (ltb pos (length l))) [
  | inl y ↦ rw y (set-memmove l 0 x pos (length l - pos) (ground arith))
  | inr n ↦
      let end : pos ≡ length l = ground arith in
      rw n (set_last l 0 x pos end ∙ sym (inserted_last l pos x end))
]

-- An index that is up to date, with an array, has the pointers `xs`, in order.
abbrev pub Current : Comparison → IndexState → Option (List ℕ) → List ℕ → Type 0
Current c needs_update e xs = Unit
Current c up_to_date none xs = Unit
Current c up_to_date (some l) xs = Perm l xs × IsOrdered c l × (0 < length l)

abbrev pub IsCurrent : Option KlistIndex → List ℕ → Type 0
IsCurrent none xs = Unit
IsCurrent (some x) xs = Current x.comp_func x.state x.elements xs

module _ (c : Comparison) (v : IsComparison c) (xs : List ℕ) (x n : ℕ) (full : n ≡ length xs) where
  placed :
      (l : List ℕ)
      → Perm l xs
      → IsOrdered c l
      → 0 < length l
      → let pos = find_insert_pos n x c (l ++ (0 ∷ [])) in
        Current c up_to_date (some (set (shifted (l ++ (0 ∷ [])) pos n) pos x)) (x ∷ xs)
  placed l perm ordered some_element =
      let all : n ≡ length l = full ∙ sym (length-Perm perm) in
      let pos = find_insert_pos (length l) x c l in
      let (inside, kept) = find_insert_pos-IsOrdered c v l ordered x some_element in
      rw (all, find_insert_pos-append x c l (0 ∷ []) some_element, set-shifted l pos x inside)
        (
          Perm.trans (Perm-inserted l pos x) (Perm.cons x perm),
          kept,
          omega (arith, length-inserted l pos x),
        )

  -- The array that a resize leaves for one element more.
  zeroed :
      (junk : ℕ) (l : List ℕ)
      → n ≡ length l
      → zero_behind n (n + 1) (take (min n (n + 1)) l ++ replicate (n + 1 - min n (n + 1)) junk)
        ≡ l ++ (0 ∷ [])
  zeroed junk l all =
      let one : n + 1 - n ≡ 1 = omega arith in
      let more : ltb n (n + 1) ≡ true = ground arith in
      rw (more, grown_block junk l n (n + 1) all (omega arith), one, all, take-length l (junk ∷ []))
        refl

  module _ (l : List ℕ) (perm : Perm l xs) (ordered : IsOrdered c l)
      (some_element : 0 < length l) where
    resized :
        (block : Option ℕ)
        → (alt_index_resize block n (n + 1) (
              some
                (record { comp_func = c; lazy_upd = false; state = up_to_date; elements = some l }))
            ≡ some
                (record { comp_func = c; lazy_upd = false; state = needs_update; elements = none }))
          ⊎ (alt_index_resize block n (n + 1) (
                some (record {
                  comp_func = c;
                  lazy_upd = false;
                  state = up_to_date;
                  elements = some l;
                }))
              ≡ some (record {
                comp_func = c;
                lazy_upd = false;
                state = up_to_date;
                elements = some (l ++ (0 ∷ []));
              }))
    unfolding alt_index_resize
    resized none = let some_size : (n + 1 == 0) ≡ false = ground arith in inl (rw some_size refl)
    resized (some junk) =
        let some_size : (n + 1 == 0) ≡ false = ground arith in
        inr (rw (some_size, zeroed junk l (full ∙ sym (length-Perm perm))) refl)

    placed_index :
        IsCurrent
          (alt_index_insert n x (
            some (record {
              comp_func = c;
              lazy_upd = false;
              state = up_to_date;
              elements = some (l ++ (0 ∷ []));
            })))
          (x ∷ xs)
    unfolding alt_index_insert
    placed_index = placed l perm ordered some_element

    marked_index :
        IsCurrent
          (alt_index_insert n x (
            some
              (record { comp_func = c; lazy_upd = false; state = needs_update; elements = none })))
          (x ∷ xs)
    unfolding alt_index_insert
    marked_index = tt

    at_once :
        (block : Option ℕ)
        → IsCurrent
            (alt_index_insert n x (
              alt_index_resize block n (n + 1) (
                some (record {
                  comp_func = c;
                  lazy_upd = false;
                  state = up_to_date;
                  elements = some l;
                }))))
            (x ∷ xs)
    at_once block = elim (resized block) [ inl e ↦ rw e marked_index | inr e ↦ rw e placed_index ]

  -- For an index whose comparison is an order, and that is current or not up to date: after
  -- alt_index_resize to one element more, which may fail, and alt_index_insert, it is current for the
  -- list with the new element, or marked to be brought up to date, or has no array.
  pub alt_index_insert-IsCurrent :
      (block : Option ℕ) (lazy : Bool) (st : IndexState) (e : Option (List ℕ))
      → let index : KlistIndex = record {
        comp_func = c;
        lazy_upd = lazy;
        state = st;
        elements = e;
      } in
        IsCurrent (some index) xs
        → IsCurrent (alt_index_insert n x (alt_index_resize block n (n + 1) (some index))) (x ∷ xs)
  unfolding alt_index_insert alt_index_resize
  alt_index_insert-IsCurrent block lazy needs_update e h = tt
  alt_index_insert-IsCurrent block lazy up_to_date none h = tt
  alt_index_insert-IsCurrent block true up_to_date (some l) h = tt
  alt_index_insert-IsCurrent block false up_to_date (some l) (perm, ordered, some_element) =
      at_once l perm ordered some_element block
