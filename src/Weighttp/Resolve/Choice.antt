-- ===== src/Weighttp/Resolve/Choice.antt =====
-- Which address `resolve_host` (weighttp-master/src/weighttp.c) takes, and what becomes of the others.
use mathlib.Core.List.{Perm, perm_middle}
use mathlib.Core.List.Perm
use reading_comment.Common.{
  Bool, Option, none, some, List, [], ◌∷◌, ◌++◌, ◌≡◌, refl, append-nil, append_assoc, Bool-cases,
  inl, inr, if◌then◌else◌,
}
use reading_comment.Weighttp.Resolve.{Family, wanted, choose, resolve_host}

abbrev pub first {ℓ} : {A : Type ℓ} → List A → Option A
first [] = none
first (a ∷ c) = some a

module _ {ℓ} {A : Type ℓ} (family : A → Family) (use_ipv6 : Bool) where
  -- The first address of the wanted family.
  abbrev pub first_wanted : List A → Option A
  first_wanted [] = none
  first_wanted (a ∷ c) = if wanted use_ipv6 (family a) then some a else first_wanted c

  first-choose :
      (rest passed : List A) → first (choose family use_ipv6 passed rest).chain ≡ first_wanted rest
  unfolding choose
  first-choose [] passed = refl
  first-choose (a ∷ rest) [] = elim (Bool-cases (wanted use_ipv6 (family a))) [
    | inl y ↦ rw y refl
    | inr n ↦ rw n (first-choose rest (a ∷ []))
  ]
  first-choose (a ∷ rest) (p ∷ ps) = elim (Bool-cases (wanted use_ipv6 (family a))) [
    | inl y ↦ rw y refl
    | inr n ↦ rw n (first-choose rest (p ∷ ps ++ (a ∷ [])))
  ]

  Perm-choose :
      (rest passed : List A)
      → let r = choose family use_ipv6 passed rest in Perm (r.chain ++ r.freed) (passed ++ rest)
  unfolding choose
  Perm-choose [] passed = rw append-nil (Perm.refl passed)
  Perm-choose (a ∷ rest) [] = elim (Bool-cases (wanted use_ipv6 (family a))) [
    | inl y ↦ rw y (rw append-nil (Perm.refl (a ∷ rest)))
    | inr n ↦ rw n (Perm-choose rest (a ∷ []))
  ]
  Perm-choose (a ∷ rest) (p ∷ ps) = elim (Bool-cases (wanted use_ipv6 (family a))) [
    | inl y ↦ rw y (Perm.symm (perm_middle (p ∷ ps) rest))
    | inr n ↦ rw n (rw append_assoc at (Perm-choose rest (p ∷ ps ++ (a ∷ []))))
  ]

  -- `resolve_host` returns the first address of the wanted family, or NULL if there is none; and each
  -- address that `getaddrinfo` returned is either in the list returned or freed, and not both.
  resolve_host_lem :
      (addresses : List A)
      → let r = resolve_host family use_ipv6 (some addresses) in
        (first r.chain ≡ first_wanted addresses) × Perm (r.chain ++ r.freed) addresses
  unfolding resolve_host
  resolve_host_lem addresses = (first-choose addresses [], Perm-choose addresses [])
