-- ===== src/Klist/Remove/Unlink.antt =====
-- A node taken out of the chain of a list of ovlfs-2.0.1/lists/kernel_lists.c.
use reading_comment.Common.{
  ℕ, zero, suc, ◌-◌, ◌<◌, ◌≡◌, ◌≢◌, refl, ap, ◌∙◌, sym, Bool, false, List, [], ◌∷◌, length, get_or,
  arith, Bool-cases, inl, inr, ◌==◌, if◌then◌else◌, some,
}
use reading_comment.Klist.{Nodes, set_next}
use reading_comment.Klist.Chain.{IsChain, NotIn, Distinct, data_of, IsChain-other}
use reading_comment.Klist.Insert.Back.{last_or, last_or-NotIn}
use reading_comment.Klist.Remove.{advance, seek}

-- The list without its element at `k`
abbrev pub remove_at : ℕ → List ℕ → List ℕ
remove_at k [] = []
remove_at zero (x ∷ xs) = xs
remove_at (suc k) (x ∷ xs) = x ∷ remove_at k xs

-- The first place with a wanted element, or the length
unfoldable pub first_of : (ℕ → Bool) → List ℕ → ℕ
first_of is_wanted [] = 0
first_of is_wanted (x ∷ xs) =
    let rest = first_of is_wanted xs in if is_wanted x then 0 else suc rest

pub length-remove_at :
    (k : ℕ) (ps : List ℕ) → k < length ps → length (remove_at k ps) ≡ length ps - 1
length-remove_at k [] h = absurd (omega arith)
length-remove_at zero (p ∷ ps) h = omega arith
length-remove_at (suc k) (p ∷ ps) h = omega (arith, length-remove_at k ps (omega arith))

pub data_of-remove_at :
    (nodes : Nodes) (k : ℕ) (ps : List ℕ)
    → data_of nodes (remove_at k ps) ≡ remove_at k (data_of nodes ps)
data_of-remove_at nodes k [] = refl
data_of-remove_at nodes zero (p ∷ ps) = refl
data_of-remove_at nodes (suc k) (p ∷ ps) =
    ap (λ t. (nodes p).element ∷ t) (data_of-remove_at nodes k ps)

NotIn-remove_at : (p k : ℕ) (ps : List ℕ) → NotIn p ps → NotIn p (remove_at k ps)
NotIn-remove_at p k [] n = tt
NotIn-remove_at p zero (q ∷ qs) (d, n) = n
NotIn-remove_at p (suc k) (q ∷ qs) (d, n) = (d, NotIn-remove_at p k qs n)

pub Distinct-remove_at : (k : ℕ) (ps : List ℕ) → Distinct ps → Distinct (remove_at k ps)
Distinct-remove_at k [] d = tt
Distinct-remove_at zero (q ∷ qs) (n, d) = d
Distinct-remove_at (suc k) (q ∷ qs) (n, d) = (NotIn-remove_at q k qs n, Distinct-remove_at k qs d)

-- The node `r.1`, behind `r.0`, is the one at `k` of the chain `ps` behind `prev`, and without it that
-- chain is as it should be.
pub record IsUnlinked (nodes : Nodes) (prev k : ℕ) (ps : List ℕ) (r : ℕ × ℕ) : Type 0 where
  pub some_front : r.0 ≢ 0
  pub found : r.1 ≡ get_or ps k 0
  pub some_node : r.1 ≢ 0
  pub chain :
      let other = set_next nodes r.0 (nodes r.1).next in
      IsChain other (other prev).next (remove_at k ps)

module _ (nodes : Nodes) where
  pub advance-suc :
      (k last_node q : ℕ)
      → q ≢ 0
      → advance nodes (suc k) last_node q ≡ advance nodes k q (nodes q).next
  unfolding advance
  advance-suc k last_node q d = let taken : (q == 0) ≡ false = ground (arith, d) in rw taken refl

  -- The loops that look for an element stop where the first wanted one is.
  pub seek-advance :
      (is_wanted : ℕ → Bool) (fuel last_node a : ℕ) (ps : List ℕ)
      → IsChain nodes a ps
      → length ps < fuel
      → seek is_wanted nodes fuel last_node a
        ≡ some (advance nodes (first_of is_wanted (data_of nodes ps)) last_node a)
  unfolding seek first_of advance
  seek-advance w zero l a ps h m = absurd (omega arith)
  seek-advance w (suc fuel) l a [] h m = rw h refl
  seek-advance w (suc fuel) l a (q ∷ qs) (e, d, h) m =
      let taken : (q == 0) ≡ false = ground (arith, d) in
      elim (Bool-cases (w (nodes q).element)) [
        | inl y ↦ rw (e, taken, y) refl
        | inr n ↦ rw (e, taken, n, taken) (seek-advance w fuel q (nodes q).next qs h (omega arith))
      ]

  advance-NotIn :
      (p k q a : ℕ) (qs : List ℕ)
      → NotIn p (q ∷ qs)
      → IsChain nodes a qs
      → k < length qs
      → p ≢ (advance nodes k q a).0
  unfolding advance
  advance-NotIn p k q a [] n h m = absurd (omega arith)
  advance-NotIn p zero q a (r ∷ rs) (d, n) h m = d
  advance-NotIn p (suc k) q a (r ∷ rs) (d, n) (e, f, h) m =
      let taken : (r == 0) ≡ false = ground (arith, f) in
      rw (e, taken) (advance-NotIn p k r (nodes r).next rs n h (omega arith))

  set_next_self : (p b : ℕ) → (set_next nodes p b p).next ≡ b
  set_next_self p b = ground arith

  set_next_other : (p b q : ℕ) → p ≢ q → (set_next nodes p b q).next ≡ (nodes q).next
  set_next_other p b q d = ground arith

  pub set_next_element : (p b q : ℕ) → (set_next nodes p b q).element ≡ (nodes q).element
  set_next_element p b q = ground arith

  unlink_here :
      (prev q : ℕ) (qs : List ℕ)
      → prev ≢ 0
      → NotIn prev qs
      → q ≢ 0
      → IsChain nodes (nodes q).next qs
      → IsUnlinked nodes prev 0 (q ∷ qs) (advance nodes 0 prev q)
  unfolding advance
  unlink_here prev q qs d n j h =
      let other = set_next nodes prev (nodes q).next in
      record {
        some_front = d;
        found = refl;
        some_node = j;
        chain = rw (set_next_self prev (nodes q).next) (
            IsChain-other nodes other prev (set_next_other prev (nodes q).next) (nodes q).next qs n
              h);
      }

  unlink_next :
      (prev k q : ℕ) (qs : List ℕ) (r : ℕ × ℕ)
      → q ≢ 0
      → (nodes prev).next ≡ q
      → prev ≢ r.0
      → IsUnlinked nodes q k qs r
      → IsUnlinked nodes prev (suc k) (q ∷ qs) r
  unlink_next prev k q qs r j e apart u = record {
    some_front = u.some_front;
    found = u.found;
    some_node = u.some_node;
    chain = (set_next_other r.0 (nodes r.1).next prev (λ o. apart (sym o)) ∙ e, j, u.chain);
  }

  pub unlink_behind :
      (prev k a : ℕ) (ps : List ℕ)
      → prev ≢ 0
      → NotIn prev ps
      → Distinct ps
      → IsChain nodes a ps
      → (nodes prev).next ≡ a
      → k < length ps
      → IsUnlinked nodes prev k ps (advance nodes k prev a)
  unlink_behind prev k a [] d n u h e m = absurd (omega arith)
  unlink_behind prev zero a (q ∷ qs) d (f, n) (i, u) (g, j, h) e m =
      rw g (unlink_here prev q qs d n j h)
  unlink_behind prev (suc k) a (q ∷ qs) d (f, n) (i, u) (g, j, h) e m =
      rw (g, advance-suc k prev q j)
        (unlink_next prev k q qs _ j (e ∙ g)
          (advance-NotIn prev k q (nodes q).next qs (f, n) h (omega arith))
          (unlink_behind q k (nodes q).next qs j i u h refl (omega arith)))

  -- The last node, when the node is taken out.
  abbrev pub last_without : ℕ → List ℕ → ℕ × ℕ → ℕ
  last_without prev ps r = if last_or prev ps == r.1 then r.0 else last_or prev ps

  last_here :
      (prev q : ℕ) (qs : List ℕ)
      → NotIn q qs
      → last_without prev (q ∷ qs) (advance nodes 0 prev q) ≡ last_or prev qs
  unfolding advance
  last_here prev q [] n = ground arith
  last_here prev q (r ∷ rs) n =
      let apart : (last_or r rs == q) ≡ false = ground (arith, last_or-NotIn q r rs n) in
      rw apart refl

  pub last_behind :
      (prev k a : ℕ) (ps : List ℕ)
      → Distinct ps
      → IsChain nodes a ps
      → k < length ps
      → last_without prev ps (advance nodes k prev a) ≡ last_or prev (remove_at k ps)
  last_behind prev k a [] u h m = absurd (omega arith)
  last_behind prev zero a (q ∷ qs) (i, u) (g, j, h) m = rw g (last_here prev q qs i)
  last_behind prev (suc k) a (q ∷ qs) (i, u) (g, j, h) m =
      rw (g, advance-suc k prev q j) (last_behind q k (nodes q).next qs u h (omega arith))
