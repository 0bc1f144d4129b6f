-- ===== src/Weighttp/Split/Shares.antt =====
-- The shares of the threads of weighttp (weighttp-master/src/weighttp.c) add up.
use reading_comment.Common.{
  ℕ, zero, suc, ◌+◌, ◌*◌, ◌-◌, ◌/◌, ◌%◌, ◌<◌, ◌≤◌, ◌≡◌, ◌⊎◌, inl, inr, refl, ap, ◌∙◌, min, List, [],
  ◌∷◌, map, sum, length, arith, u16_mod, u64_mod,
}
use native.Mathlib.Nat.{div-add-mod, div-mul-le_self, le-div_iff_mul-le, mod-lt}
use native.Mathlib.Decide.{ℕ_discrete}
use reading_comment.Weighttp.Options.{Settings}
use reading_comment.Weighttp.Options.Sane.{IsSane}
use reading_comment.Weighttp.Split.{Share, shares_from, shares}

abbrev pub All {ℓ} : {A : Type ℓ} → (A → Type 0) → List A → Type 0
All P [] = Unit
All P (x ∷ xs) = P x × All P xs

-- Between the rounded-down shares and one more, and at least a request for each client.
pub record IsFair (concur reqs : ℕ) (h : Share) : Type 0 where
  pub concur_lower : concur ≤ h.concur
  pub concur_upper : h.concur ≤ concur + 1
  pub reqs_lower : reqs ≤ h.reqs
  pub reqs_upper : h.reqs ≤ reqs + 1
  pub enough : h.concur ≤ h.reqs

module _ (c r : ℕ) where
  sum-concur :
      (n x y : ℕ)
      → x ≤ n
      → c + min x 1 < u16_mod
      → sum (map (λ h. h.concur) (shares_from n c r x y)) ≡ n * c + x
  unfolding shares_from
  sum-concur zero x y h k = omega arith
  sum-concur (suc n) x y h k = ground (arith, sum-concur n (x - 1) (y - 1))

  sum-reqs :
      (n x y : ℕ)
      → y ≤ n
      → r + min y 1 < u64_mod
      → sum (map (λ h. h.reqs) (shares_from n c r x y)) ≡ n * r + y
  unfolding shares_from
  sum-reqs zero x y h k = omega arith
  sum-reqs (suc n) x y h k = ground (arith, sum-reqs n (x - 1) (y - 1))

  length-shares_from : (n x y : ℕ) → length (shares_from n c r x y) ≡ n
  unfolding shares_from
  length-shares_from zero x y = refl
  length-shares_from (suc n) x y = ap suc (length-shares_from n (x - 1) (y - 1))

  shares_from-IsFair :
      (n x y : ℕ)
      → c + min x 1 < u16_mod
      → r + min y 1 < u64_mod
      → (c < r) ⊎ ((c ≡ r) × (x ≤ y))
      → All (IsFair c r) (shares_from n c r x y)
  unfolding shares_from
  shares_from-IsFair zero x y h k e = tt
  shares_from-IsFair (suc n) x y h k e = (
    ground arith,
    shares_from-IsFair n (x - 1) (y - 1) (omega arith) (omega arith) (ground arith),
  )

div-le-div : (t c r : ℕ) → 0 < t → c ≤ r → c / t ≤ r / t
div-le-div t c r h k = (le-div_iff_mul-le h).1 (omega (arith, div-mul-le_self c t))

-- The quotient of a smaller number is smaller, or the same with no larger rest.
quotients : (t c r : ℕ) → 0 < t → c ≤ r → (c / t < r / t) ⊎ ((c / t ≡ r / t) × (c % t ≤ r % t))
quotients t c r h k = elim (ℕ_discrete (c / t) (r / t)) [
  | yes e ↦ inr (e, omega (arith, ap (λ (q : ℕ). t * q) e, div-add-mod c t, div-add-mod r t))
  | no ne ↦ inl (omega (arith, div-le-div t c r h k))
]

-- A share of one more is counted without wrapping.
room_for_one : (t c w : ℕ) → 0 < t → c < w → c / t + min (c % t) 1 < w
room_for_one t c w h k = grind (arith, div-add-mod c t)

-- The shares of sane settings: one for each thread, the clients and the requests add up to what was
-- asked for, no two threads differ by more than one, and no thread has more clients than requests.
pub shares_lem :
    (s : Settings)
    → IsSane s
    → (length (shares s) ≡ s.thread_count)
      × (sum (map (λ h. h.concur) (shares s)) ≡ s.concur_count)
      × (sum (map (λ h. h.reqs) (shares s)) ≡ s.req_count)
      × All (IsFair (s.concur_count / s.thread_count) (s.req_count / s.thread_count)) (shares s)
      × (0 < s.concur_count / s.thread_count)
unfolding shares
shares_lem s v =
    let t = s.thread_count in
    let c = s.concur_count in
    let r = s.req_count in
    let room_c = room_for_one t c u16_mod v.threads_pos v.in_range.clients in
    let room_r = room_for_one t r u64_mod v.threads_pos v.in_range.requests in
    (
      length-shares_from (c / t) (r / t) t (c % t) (r % t),
      sum-concur (c / t) (r / t) t (c % t) (r % t) (omega (arith, mod-lt c v.threads_pos)) room_c
          ∙ div-add-mod c t,
      sum-reqs (c / t) (r / t) t (c % t) (r % t) (omega (arith, mod-lt r v.threads_pos)) room_r
          ∙ div-add-mod r t,
      shares_from-IsFair (c / t) (r / t) t (c % t) (r % t) room_c room_r
          (quotients t c r v.threads_pos v.clients_le),
      (le-div_iff_mul-le v.threads_pos).1 (omega (arith, v.threads_le)),
    )
