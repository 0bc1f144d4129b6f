-- ===== src/Klist/Chain.antt =====
-- The chain of nodes of a list of ovlfs-2.0.1/lists/kernel_lists.c.
use reading_comment.Common.{ℕ, suc, ◌≡◌, ◌≢◌, refl, ap, List, [], ◌∷◌, map, length}
use reading_comment.Klist.{Nodes}
use reading_comment.Klist.Index.{collect}

-- The nodes `ps` from `p` to the null pointer
abbrev pub IsChain : Nodes → ℕ → List ℕ → Type 0
IsChain nodes p [] = p ≡ 0
IsChain nodes p (q ∷ qs) = (p ≡ q) × (q ≢ 0) × IsChain nodes (nodes q).next qs

abbrev pub NotIn : ℕ → List ℕ → Type 0
NotIn p [] = Unit
NotIn p (q ∷ qs) = (p ≢ q) × NotIn p qs

abbrev pub Distinct : List ℕ → Type 0
Distinct [] = Unit
Distinct (p ∷ ps) = NotIn p ps × Distinct ps

abbrev pub data_of : Nodes → List ℕ → List ℕ
data_of nodes = map (λ p. (nodes p).element)

pub length-data_of : (nodes : Nodes) (ps : List ℕ) → length (data_of nodes ps) ≡ length ps
length-data_of nodes [] = refl
length-data_of nodes (p ∷ ps) = ap suc (length-data_of nodes ps)

-- The loop of `make_index` gathers the data of the chain.
pub collect-data_of :
    (nodes : Nodes) (p : ℕ) (ps : List ℕ)
    → IsChain nodes p ps
    → collect nodes (length ps) p ≡ data_of nodes ps
unfolding collect
collect-data_of nodes p [] h = refl
collect-data_of nodes p (q ∷ qs) (e, d, h) = rw (e, collect-data_of nodes (nodes q).next qs h) refl

-- A memory that differs from another one at `p` only.
module _ (nodes other : Nodes) (p : ℕ) where
  pub IsChain-other :
      ((q : ℕ) → p ≢ q → (other q).next ≡ (nodes q).next)
      → (a : ℕ) (qs : List ℕ) → NotIn p qs
      → IsChain nodes a qs
      → IsChain other a qs
  IsChain-other same a [] n h = h
  IsChain-other same a (q ∷ qs) (d, n) (e, f, h) =
      (e, f, IsChain-other same (other q).next qs n (rw (same q d) h))

  pub data_of-other :
      ((q : ℕ) → p ≢ q → (other q).element ≡ (nodes q).element)
      → (qs : List ℕ) → NotIn p qs
      → data_of other qs ≡ data_of nodes qs
  data_of-other same [] n = refl
  data_of-other same (q ∷ qs) (d, n) = rw (same q d, data_of-other same qs n) refl

-- A memory with the same data everywhere
pub data_of-same :
    (nodes other : Nodes) (qs : List ℕ)
    → ((q : ℕ) → (other q).element ≡ (nodes q).element)
    → data_of other qs ≡ data_of nodes qs
data_of-same nodes other [] same = refl
data_of-same nodes other (q ∷ qs) same = rw (same q, data_of-same nodes other qs same) refl
