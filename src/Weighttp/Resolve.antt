-- ===== src/Weighttp/Resolve.antt =====
-- `resolve_host` of weighttp-master/src/weighttp.c: the first address of the wanted family is taken
-- out of the list that `getaddrinfo` returns, and the rest is freed.
pub mod Choice
use reading_comment.Common.{
  Bool, true, false, not, Option, none, some, List, [], ◌∷◌, ◌++◌, if◌then◌else◌,
}

-- `ai_family`
pub data Family : Type 0 where
  inet inet6 other_family : Family

abbrev pub wanted : Bool → Family → Bool
wanted use_ipv6 inet = not use_ipv6
wanted use_ipv6 inet6 = use_ipv6
wanted use_ipv6 other_family = false

-- The list that the result heads (empty for NULL), and what `freeaddrinfo` was given.
pub record Resolution {ℓ} (A : Type ℓ) : Type ℓ where
  pub chain : List A
  pub freed : List A

module _ {ℓ} {A : Type ℓ} (family : A → Family) (use_ipv6 : Bool) where
  -- The loop, with the addresses passed over so far: at `res`, with `res_last` behind it.
  unfoldable pub choose : List A → List A → Resolution A
  choose passed [] = record { chain = []; freed = passed }
  choose passed (a ∷ rest) =
      if wanted use_ipv6 (family a)
      then elim passed [
        | [] ↦ record { chain = a ∷ rest; freed = [] }
        | p ∷ ps ↦ record { chain = a ∷ []; freed = (p ∷ ps) ++ rest }
      ]
      else choose (passed ++ (a ∷ [])) rest

  -- `none` is an error of `getaddrinfo`.
  unfoldable pub resolve_host : Option (List A) → Resolution A
  resolve_host none = record { chain = []; freed = [] }
  resolve_host (some addresses) = choose [] addresses
