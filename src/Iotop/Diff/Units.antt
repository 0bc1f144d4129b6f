-- ===== src/Iotop/Diff/Units.antt =====
-- The unit that `humanize_val` (iotop-master/src/views.c) shows a value in.
use reading_comment.Common.{
  ℕ, zero, suc, ◌+◌, ◌<◌, ◌≤◌, ◌≡◌, ◌⊎◌, inl, inr, refl, true, false, ap, ◌∙◌, none, arith,
  Bool-cases,
}
use native.Mathlib.Decide.{ℕ_discrete}
use reading_comment.Iotop.Types.{Doubles}
use reading_comment.Iotop.Diff.{prefix, scale, humanize_val}

module _ {D : Type 0} ⦃d : Doubles D⦄ where
  -- `n` divisions by 1000
  abbrev pub thousandth : ℕ → D → D
  thousandth zero value = value
  thousandth (suc n) value = thousandth n (d.over value (d.from_int 1000))

  -- The value, and each one after fewer than `n` divisions, is above 10000.
  abbrev pub AllLarge : ℕ → D → Type 0
  AllLarge zero value = Unit
  AllLarge (suc n) value =
      (d.gt value (d.from_int 10000) ≡ true) × AllLarge n (d.over value (d.from_int 1000))

  scale_lem :
      (left : ℕ) (value : D) (p : ℕ)
      → (n : ℕ) × (scale left value p ≡ (thousandth n value, n + p))
        × (n ≤ left)
        × AllLarge n value
        × ((n ≡ left) ⊎ (d.gt (thousandth n value) (d.from_int 10000) ≡ false))
  unfolding scale
  scale_lem zero value p = (0, ap (λ q. (value, q)) (omega arith), omega arith, tt, inl refl)
  scale_lem (suc left) value p = elim (Bool-cases (d.gt value (d.from_int 10000))) [
    | inr small ↦ (0, rw small (ap (λ q. (value, q)) (omega arith)), omega arith, tt, inr small)
    | inl big ↦
        let (n, result, bound, large, stop) =
          scale_lem left (d.over value (d.from_int 1000)) (suc p) in
        (suc n, ground (arith, result), omega arith, (big, large), ground (arith, stop))
  ]

  within :
      (value : D) (n : ℕ)
      → n ≤ 5
      → d.gt (thousandth n value) (d.from_int 10000) ≡ false
      → ((n < 5) × (d.gt (thousandth n value) (d.from_int 10000) ≡ false))
        ⊎ ((n ≡ 5) × (prefix n ≡ none))
  within value n bound small = elim (ℕ_discrete n 5) [
    | yes all ↦ inr (all, ap prefix all)
    | no fewer ↦ inl (omega arith, small)
  ]

  -- `humanize_val` divides a value `n` times by 1000, and shows it in the n-th unit: each value that
  -- it divides is above 10000, and the one that it shows is not, unless it has divided 5 times, when
  -- there is no unit left to show.
  pub humanize_val_lem :
      (value : D)
      → (n : ℕ) × (humanize_val value ≡ (thousandth n value, prefix n))
        × AllLarge n value
        × (((n < 5) × (d.gt (thousandth n value) (d.from_int 10000) ≡ false))
            ⊎ ((n ≡ 5) × (prefix n ≡ none)))
  unfolding humanize_val
  humanize_val_lem value =
      let (n, result, bound, large, stop) = scale_lem 5 value 0 in
      (
        n,
        ap (λ r. (r.0, prefix r.1)) result ∙ ap (λ k. (thousandth n value, prefix k)) (omega arith),
        large,
        elim stop [ inl all ↦ inr (all, ap prefix all) | inr small ↦ within value n bound small ],
      )
