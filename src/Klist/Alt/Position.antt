-- ===== src/Klist/Alt/Position.antt =====
-- The place that `__find_remove_pos` of ovlfs-2.0.1/lists/kernel_lists.c finds, and the array without
-- the element there.
use mathlib.Core.List.{Perm}
use mathlib.Core.List.Perm
use reading_comment.Common.{
  ℕ, zero, suc, ◌+◌, ◌-◌, ◌<◌, ◌≡◌, refl, ap, ◌∙◌, sym, List, [], ◌∷◌, ◌++◌, length, get_or, set,
  take, drop, arith, Option, none, some, Bool-cases, inl, inr, ◌⊎◌, ◌==◌, ltb, append-nil,
  if◌then◌else◌,
}
use reading_comment.Klist.{Comparison}
use reading_comment.Klist.Order.{IsComparison, IsOrdered, IsComparison-IsSearch}
use reading_comment.Klist.Sort.{bsearch, signs}
use reading_comment.Klist.Sort.Halving.{IsFound, bsearch-IsFound}
use reading_comment.Klist.Index.{memmove}
use reading_comment.Klist.Index.Room.{take-length}
use reading_comment.Klist.Alt.{walk_back, walk_on, find_remove_pos}
use reading_comment.Klist.Remove.Unlink.{remove_at}

-- Not found, or a place in front of `end` with the element.
abbrev Reaches : ℕ → List ℕ → ℕ → ℕ → Type 0
Reaches ele l end r = (r ≡ 0) ⊎ ((r < end) × (get_or l r 0 ≡ ele))

module _ (ele : ℕ) (c : Comparison) (l : List ℕ) where
  walk_back-Reaches : (cur : ℕ) → Reaches ele l (suc cur) (walk_back ele c l cur)
  unfolding walk_back
  walk_back-Reaches zero = inl refl
  walk_back-Reaches (suc cur) = ground (arith, walk_back-Reaches cur)

  walk_on-Reaches : (n cur : ℕ) → Reaches ele l (cur + n) (walk_on ele c l n cur)
  unfolding walk_on
  walk_on-Reaches zero cur = inl refl
  walk_on-Reaches (suc n) cur = ground (arith, walk_on-Reaches n (cur + 1))

pub take_all : (l : List ℕ) → take (length l) l ≡ l
take_all l = ap (take (length l)) (sym (append-nil l)) ∙ take-length l []

module _ (ele : ℕ) (c : Comparison) (v : IsComparison c) (l : List ℕ)
    (ordered : IsOrdered c l) where
  found_at :
      (r : Option ℕ)
      → IsFound (signs c ele l) (length l) r
      → Reaches ele l (length l) (elim r [
        | none ↦ 0
        | some i ↦
            let back = walk_back ele c l (i - 1) in
            let on = walk_on ele c l (length l - (i + 1)) (i + 1) in
            if get_or l i 0 == ele then i else if back == 0 then on else back
      ])
  found_at none h = inl refl
  found_at (some i) (h, e) = ground (
    arith,
    walk_back-Reaches ele c l (i - 1),
    walk_on-Reaches ele c l (length l - (i + 1)) (i + 1),
  )

  pub find_remove_pos-Reaches : Reaches ele l (length l) (find_remove_pos ele c l (length l))
  unfolding find_remove_pos
  find_remove_pos-Reaches =
      rw (take_all l, find_remove_pos)
        (found_at (bsearch c ele l) (bsearch-IsFound c c (IsComparison-IsSearch c v) l ordered ele))

  get_or-remove_at :
      (k i : ℕ) (m : List ℕ)
      → get_or (remove_at k m) i 0 ≡ (if ltb i k then get_or m i 0 else get_or m (suc i) 0)
  get_or-remove_at k i [] = ground arith
  get_or-remove_at zero i (x ∷ m) = ground arith
  get_or-remove_at (suc k) zero (x ∷ m) = ground arith
  get_or-remove_at (suc k) (suc i) (x ∷ m) = ground (arith, get_or-remove_at k i m)

  pub remove_at-IsOrdered :
      (k : ℕ) → length (remove_at k l) ≡ length l - 1 → IsOrdered c (remove_at k l)
  remove_at-IsOrdered k e i j h m = ground (
    arith,
    e,
    get_or-remove_at k i l,
    get_or-remove_at k j l,
    ordered i j,
    ordered i (suc j),
    ordered (suc i) (suc j),
  )

pub Perm-remove_at : (k : ℕ) (l : List ℕ) → k < length l → Perm (get_or l k 0 ∷ remove_at k l) l
Perm-remove_at k [] h = absurd (omega arith)
Perm-remove_at zero (x ∷ l) h = Perm.refl (x ∷ l)
Perm-remove_at (suc k) (x ∷ l) h =
    Perm.trans (Perm.swap x _ (remove_at k l)) (Perm.cons x (Perm-remove_at k l (omega arith)))

-- The elements behind `pos` moved one place to the front, and the last place cleared.
abbrev pub closed : List ℕ → ℕ → ℕ → List ℕ
closed l pos n =
    set (if ltb pos (n - 1) then memmove l pos (pos + 1) (n - (pos + 1)) else l) (n - 1) 0

take-set : (n : ℕ) (l : List ℕ) (x : ℕ) → take n (set l n x) ≡ take n l
take-set zero l x = refl
take-set (suc n) [] x = refl
take-set (suc n) (y ∷ l) x = ap (λ t. y ∷ t) (take-set n l x)

take-memmove :
    (l : List ℕ) (pos k m n : ℕ)
    → pos + 1 + k ≡ length l
    → m ≡ pos + k
    → n ≡ pos + k
    → take n (take pos l ++ (take k (drop (suc pos) l) ++ drop m l)) ≡ remove_at pos l
take-memmove [] pos k m n h e f = absurd (omega (arith, h))
take-memmove (x ∷ l) zero k m n h e f =
    let all : k ≡ length l = omega (arith, h) in
    let size : n ≡ length l = omega (arith, f, h) in
    rw (all, take_all l, size, take-length l (drop m (x ∷ l))) refl
take-memmove (x ∷ l) (suc pos) k zero n h e f = absurd (omega (arith, e))
take-memmove (x ∷ l) (suc pos) k (suc m) zero h e f = absurd (omega (arith, f))
take-memmove (x ∷ l) (suc pos) k (suc m) (suc n) h e f =
    ap (λ t. x ∷ t)
      (take-memmove l pos k m n (omega (arith, h)) (omega (arith, e)) (omega (arith, f)))

take-last : (l : List ℕ) (pos : ℕ) → suc pos ≡ length l → take pos l ≡ remove_at pos l
take-last [] pos h = absurd (omega (arith, h))
take-last (x ∷ []) zero h = refl
take-last (x ∷ y ∷ l) zero h = absurd (omega (arith, h))
take-last (x ∷ l) (suc pos) h = ap (λ t. x ∷ t) (take-last l pos (omega (arith, h)))

pub take-closed :
    (l : List ℕ) (pos n : ℕ)
    → n ≡ length l
    → pos < n
    → take (n - 1) (closed l pos n) ≡ remove_at pos l
take-closed l pos n h k =
    let next : pos + 1 ≡ suc pos = omega arith in
    elim (Bool-cases (ltb pos (n - 1))) [
      | inl y ↦
          rw (y, take-set (n - 1) (memmove l pos (pos + 1) (n - (pos + 1))) 0, next)
            (take-memmove l pos (n - suc pos) (pos + (n - suc pos)) (n - 1) (omega (arith, h)) refl
              (omega arith))
      | inr o ↦
          let last : n - 1 ≡ pos = ground arith in
          rw (o, take-set (n - 1) l 0, last) (take-last l pos (omega (arith, h, last)))
    ]
