-- ===== src/Klist/Index/Room.antt =====
-- Room for one element more in an array of ovlfs-2.0.1/lists/kernel_lists.c.
use reading_comment.Common.{
  ℕ, zero, suc, ◌+◌, ◌-◌, min, ◌≡◌, refl, ap, sym, List, [], ◌∷◌, ◌++◌, length, set, take, drop,
  replicate, arith, append-nil,
}
use reading_comment.Klist.Index.{memmove}
use reading_comment.Klist.Sort.Insertion.{inserted}

pub take-length : (l r : List ℕ) → take (length l) (l ++ r) ≡ l
take-length [] r = refl
take-length (x ∷ l) r = ap (λ t. x ∷ t) (take-length l r)

drop-length : (l : List ℕ) (j : ℕ) → drop (suc (length l)) (l ++ (j ∷ [])) ≡ []
drop-length [] j = refl
drop-length (x ∷ l) j = drop-length l j

-- What `my_realloc` returns for one element more.
pub grown_block :
    (junk : ℕ) (l : List ℕ) (n m : ℕ)
    → n ≡ length l
    → m ≡ suc n
    → take (min n m) l ++ replicate (m - min n m) junk ≡ l ++ (junk ∷ [])
grown_block junk l n m h k =
    let few : min n m ≡ length l = omega (arith, h, k) in
    let one : m - length l ≡ 1 = omega (arith, h, k) in
    rw (few, one, ap (take (length l)) (sym (append-nil l)), take-length l []) refl

pub set_last :
    (l : List ℕ) (junk x n : ℕ) → n ≡ length l → set (l ++ (junk ∷ [])) n x ≡ l ++ (x ∷ [])
set_last [] junk x n h = rw h refl
set_last (y ∷ l) junk x zero h = absurd (omega arith)
set_last (y ∷ l) junk x (suc n) h = ap (λ t. y ∷ t) (set_last l junk x n (omega arith))

hole :
    (l : List ℕ) (junk x pos k m : ℕ)
    → pos + k ≡ length l
    → m ≡ suc (length l)
    → let t = l ++ (junk ∷ []) in
      set (take (suc pos) t ++ (take k (drop pos t) ++ drop m t)) pos x ≡ inserted l pos x
hole [] junk x zero k m h e = let none_left : k ≡ 0 = omega (arith, h) in rw (none_left, e) refl
hole (y ∷ l) junk x zero k m h e =
    let all : k ≡ suc (length l) = omega (arith, h) in
    rw (all, e, take-length l (junk ∷ []), drop-length l junk, append-nil l) refl
hole [] junk x (suc pos) k m h e = absurd (omega (arith, h))
hole (y ∷ l) junk x (suc pos) k zero h e = absurd (omega (arith, e))
hole (y ∷ l) junk x (suc pos) k (suc m) h e =
    ap (λ t. y ∷ t) (hole l junk x pos k m (omega (arith, h)) (omega (arith, e)))

-- A hole at `pos`, and the element in it
pub set-memmove :
    (l : List ℕ) (junk x pos k : ℕ)
    → pos + k ≡ length l
    → set (memmove (l ++ (junk ∷ [])) (pos + 1) pos k) pos x ≡ inserted l pos x
set-memmove l junk x pos k h =
    let next : pos + 1 ≡ suc pos = omega arith in
    rw next (hole l junk x pos k (suc pos + k) h (omega (arith, h)))
