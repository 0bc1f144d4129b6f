-- ===== src/Iotop/Sort/Exchange.antt =====
-- The exchange sort of iotop-master/src/views.c sorts.
use mathlib.Core.List.{Perm, perm_middle}
use mathlib.Core.List.Perm
use reading_comment.Common.{
  ℕ, zero, suc, ◌≤◌, ◌≡◌, refl, ap, Bool, true, false, List, [], ◌∷◌, ◌++◌, length, arith,
  append-nil, Bool-cases, inl, inr,
}
use reading_comment.Iotop.Sort.{sweep, exchange, reversed}

-- What a comparison "greater than" must satisfy: that of numbers and of `strcmp` does.
pub record IsOrder {A : Type 0} (greater : A → A → Bool) : Type 0 where
  pub asym : (a b : A) → greater a b ≡ true → greater b a ≡ false
  pub trans : (a b c : A) → greater a b ≡ false → greater b c ≡ false → greater a c ≡ false

module _ {A : Type 0} (greater : A → A → Bool) where
  -- None of the elements is greater than `a`.
  abbrev pub NoneGreater : A → List A → Type 0
  NoneGreater a [] = Unit
  NoneGreater a (x ∷ xs) = (greater x a ≡ false) × NoneGreater a xs

  -- None of the elements is less than `a`.
  abbrev pub NoneLess : A → List A → Type 0
  NoneLess a [] = Unit
  NoneLess a (x ∷ xs) = (greater a x ≡ false) × NoneLess a xs

  -- No element is greater than one in front of it.
  abbrev pub Descending : List A → Type 0
  Descending [] = Unit
  Descending (x ∷ xs) = NoneGreater x xs × Descending xs

  -- No element is greater than one behind it.
  abbrev pub Ascending : List A → Type 0
  Ascending [] = Unit
  Ascending (x ∷ xs) = NoneLess x xs × Ascending xs

  module _ (v : IsOrder greater) where
    -- The element that a sweep leaves in front is not exceeded by any of the others, nor by the one
    -- that it began with.
    sweep-NoneGreater :
        (h : A) (xs : List A)
        → (greater h (sweep greater h xs).0 ≡ false)
          × NoneGreater (sweep greater h xs).0 (sweep greater h xs).1
    unfolding sweep
    sweep-NoneGreater h [] = elim (Bool-cases (greater h h)) [
      | inl y ↦ (v.asym h h y, tt)
      | inr n ↦ (n, tt)
    ]
    sweep-NoneGreater h (x ∷ xs) = elim (Bool-cases (greater x h)) [
      | inl y ↦
          let (least, others) = sweep-NoneGreater x xs in
          let h_least = v.trans h x (sweep greater x xs).0 (v.asym x h y) least in
          rw y (h_least, (h_least, others))
      | inr n ↦
          let (least, others) = sweep-NoneGreater h xs in
          let x_least = v.trans x h (sweep greater h xs).0 n least in
          rw n (least, (x_least, others))
    ]

  length-sweep : (h : A) (xs : List A) → length (sweep greater h xs).1 ≡ length xs
  unfolding sweep
  length-sweep h [] = refl
  length-sweep h (x ∷ xs) = elim (Bool-cases (greater x h)) [
    | inl y ↦ rw y (ap suc (length-sweep x xs))
    | inr n ↦ rw n (ap suc (length-sweep h xs))
  ]

  Perm-sweep :
      (h : A) (xs : List A) → Perm ((sweep greater h xs).0 ∷ (sweep greater h xs).1) (h ∷ xs)
  unfolding sweep
  Perm-sweep h [] = Perm.refl (h ∷ [])
  Perm-sweep h (x ∷ xs) = elim (Bool-cases (greater x h)) [
    | inl y ↦ rw y (Perm.trans (Perm.swap h _ _) (Perm.cons h (Perm-sweep x xs)))
    | inr n ↦ rw n (
        Perm.trans (Perm.swap x _ _)
          (Perm.trans (Perm.cons x (Perm-sweep h xs)) (Perm.swap h x xs)))
  ]

  NoneGreater-sweep :
      (a h : A) (xs : List A)
      → greater h a ≡ false
      → NoneGreater a xs
      → (greater (sweep greater h xs).0 a ≡ false) × NoneGreater a (sweep greater h xs).1
  unfolding sweep
  NoneGreater-sweep a h [] k l = (k, tt)
  NoneGreater-sweep a h (x ∷ xs) k (m, l) = elim (Bool-cases (greater x h)) [
    | inl y ↦ let (first, rest) = NoneGreater-sweep a x xs m l in rw y (first, (k, rest))
    | inr n ↦ let (first, rest) = NoneGreater-sweep a h xs k l in rw n (first, (m, rest))
  ]

  NoneGreater-exchange :
      (a : A) (n : ℕ) (xs : List A) → NoneGreater a xs → NoneGreater a (exchange greater n xs)
  unfolding exchange
  NoneGreater-exchange a zero xs h = h
  NoneGreater-exchange a (suc n) [] h = tt
  NoneGreater-exchange a (suc n) (x ∷ xs) (h, k) =
      let (first, rest) = NoneGreater-sweep a x xs h k in
      (first, NoneGreater-exchange a n (sweep greater x xs).1 rest)

  pub Perm-exchange : (n : ℕ) (xs : List A) → Perm (exchange greater n xs) xs
  unfolding exchange
  Perm-exchange zero xs = Perm.refl xs
  Perm-exchange (suc n) [] = Perm.refl []
  Perm-exchange (suc n) (x ∷ xs) =
      Perm.trans (Perm.cons _ (Perm-exchange n (sweep greater x xs).1)) (Perm-sweep x xs)

  pub Descending-exchange :
      (v : IsOrder greater) (n : ℕ) (xs : List A)
      → length xs ≤ n
      → Descending (exchange greater n xs)
  unfolding exchange
  Descending-exchange v zero [] h = tt
  Descending-exchange v zero (x ∷ xs) h = absurd (omega arith)
  Descending-exchange v (suc n) [] h = tt
  Descending-exchange v (suc n) (x ∷ xs) h = (
    NoneGreater-exchange (sweep greater x xs).0 n (sweep greater x xs).1
        (sweep-NoneGreater v x xs).1,
    Descending-exchange v n (sweep greater x xs).1 (omega (arith, length-sweep x xs)),
  )

module _ {A : Type 0} where
  module _ (greater : A → A → Bool) where
    NoneGreater-append :
        (a x : A) (xs : List A)
        → NoneGreater greater a xs
        → greater x a ≡ false
        → NoneGreater greater a (xs ++ (x ∷ []))
    NoneGreater-append a x [] h k = (k, tt)
    NoneGreater-append a x (y ∷ ys) (e, h) k = (e, NoneGreater-append a x ys h k)

    NoneLess-append :
        (a x : A) (xs : List A)
        → NoneLess greater a xs
        → greater a x ≡ false
        → NoneLess greater a (xs ++ (x ∷ []))
    NoneLess-append a x [] h k = (k, tt)
    NoneLess-append a x (y ∷ ys) (e, h) k = (e, NoneLess-append a x ys h k)

    NoneGreater-reversed :
        (a : A) (xs : List A) → NoneGreater greater a xs → NoneGreater greater a (reversed xs)
    unfolding reversed
    NoneGreater-reversed a [] h = tt
    NoneGreater-reversed a (x ∷ xs) (e, h) =
        NoneGreater-append a x (reversed xs) (NoneGreater-reversed a xs h) e

    Ascending-append :
        (x : A) (xs : List A)
        → Ascending greater xs
        → NoneGreater greater x xs
        → Ascending greater (xs ++ (x ∷ []))
    Ascending-append x [] h k = (tt, tt)
    Ascending-append x (y ∷ ys) (n, h) (e, k) =
        (NoneLess-append y x ys n e, Ascending-append x ys h k)

    pub Ascending-reversed : (xs : List A) → Descending greater xs → Ascending greater (reversed xs)
    unfolding reversed
    Ascending-reversed [] h = tt
    Ascending-reversed (x ∷ xs) (n, h) =
        Ascending-append x (reversed xs) (Ascending-reversed xs h) (NoneGreater-reversed x xs n)

  of_append_nil : (xs : List A) → Perm (xs ++ []) xs
  of_append_nil xs = rw append-nil (Perm.refl xs)

  pub Perm-reversed : (xs : List A) → Perm (reversed xs) xs
  unfolding reversed
  Perm-reversed [] = Perm.refl []
  Perm-reversed (x ∷ xs) =
      Perm.trans (perm_middle (reversed xs) [])
        (Perm.cons x (Perm.trans (of_append_nil (reversed xs)) (Perm-reversed xs)))
