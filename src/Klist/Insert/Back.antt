-- ===== src/Klist/Insert/Back.antt =====
-- The insertion at the end of a list of ovlfs-2.0.1/lists/kernel_lists.c.
use reading_comment.Common.{
  ℕ, ◌+◌, ◌≡◌, ◌≢◌, refl, ap, ◌∙◌, sym, false, List, [], ◌∷◌, ◌++◌, length-append, arith, ◌==◌,
  if◌then◌else◌,
}
use reading_comment.Klist.{Nodes}
use reading_comment.Klist.Chain.{IsChain, NotIn, Distinct, data_of, data_of-other}
use reading_comment.Klist.Insert.{add_abs_node_at_end}
use reading_comment.Klist.Holds.{IsList}

-- The last of the nodes `ps`, or `p` if there is none.
abbrev pub last_or : ℕ → List ℕ → ℕ
last_or p [] = p
last_or p (q ∷ qs) = last_or q qs

pub last_or-NotIn : (p q : ℕ) (qs : List ℕ) → NotIn p (q ∷ qs) → p ≢ last_or q qs
last_or-NotIn p q [] (d, n) = d
last_or-NotIn p q (r ∷ rs) (d, n) = last_or-NotIn p r rs n

last_or-nonnull :
    (nodes : Nodes) (a q : ℕ) (qs : List ℕ) → IsChain nodes a (q ∷ qs) → last_or q qs ≢ 0
last_or-nonnull nodes a q [] (e, d, h) = d
last_or-nonnull nodes a q (r ∷ rs) (e, d, h) = last_or-nonnull nodes (nodes q).next r rs h

pub last_or-append_one : (d p : ℕ) (ps : List ℕ) → last_or d (ps ++ (p ∷ [])) ≡ p
last_or-append_one d p [] = refl
last_or-append_one d p (q ∷ qs) = last_or-append_one q p qs

NotIn-append_one : (q p : ℕ) (ps : List ℕ) → NotIn q ps → q ≢ p → NotIn q (ps ++ (p ∷ []))
NotIn-append_one q p [] n d = (d, tt)
NotIn-append_one q p (r ∷ rs) (e, n) d = (e, NotIn-append_one q p rs n d)

Distinct-append_one : (p : ℕ) (ps : List ℕ) → NotIn p ps → Distinct ps → Distinct (ps ++ (p ∷ []))
Distinct-append_one p [] n d = (tt, tt)
Distinct-append_one p (q ∷ qs) (e, n) (f, d) =
    (NotIn-append_one q p qs f (λ g. e (sym g)), Distinct-append_one p qs n d)

data_of-append_one :
    (nodes : Nodes) (p : ℕ) (ps : List ℕ)
    → data_of nodes (ps ++ (p ∷ [])) ≡ data_of nodes ps ++ ((nodes p).element ∷ [])
data_of-append_one nodes p [] = refl
data_of-append_one nodes p (q ∷ qs) =
    ap (λ t. (nodes q).element ∷ t) (data_of-append_one nodes p qs)

-- A memory in which the last node of a chain points to `p`, and `p` to nothing.
module _ (nodes other : Nodes) (p l : ℕ) (some_node : p ≢ 0) (linked : (other l).next ≡ p)
    (ends : (other p).next ≡ 0)
    (same : (q : ℕ) → l ≢ q → p ≢ q → (other q).next ≡ (nodes q).next) where
  IsChain-append_one :
      (a q : ℕ) (qs : List ℕ)
      → l ≡ last_or q qs
      → NotIn p (q ∷ qs)
      → Distinct (q ∷ qs)
      → IsChain nodes a (q ∷ qs)
      → IsChain other a ((q ∷ qs) ++ (p ∷ []))
  IsChain-append_one a q [] e n d (f, g, h) = (f, g, (rw (sym e) linked, some_node, ends))
  IsChain-append_one a q (r ∷ rs) e (i, n) (j, d) (f, g, h) =
      let next = same q (λ k. last_or-NotIn q r rs j (sym k ∙ e)) i in
      (f, g, IsChain-append_one (other q).next r rs e n d (rw next h))

module _ (nodes : Nodes) (p x l : ℕ) (some_node : p ≢ 0) where
  abbrev other : Nodes
  other = add_abs_node_at_end nodes p x l

  other_new : other p ≡ record { element = x; next = 0 }
  other_new = ground arith

  other_last : l ≢ 0 → p ≢ l → (other l).next ≡ p
  other_last d e = ground arith

  other_same : (q : ℕ) → l ≢ q → p ≢ q → (other q).next ≡ (nodes q).next
  other_same q d e = ground arith

  other_element : (q : ℕ) → p ≢ q → (other q).element ≡ (nodes q).element
  other_element q d = ground arith

  add_abs_node_at_end-IsChain :
      (first : ℕ) (ps : List ℕ)
      → l ≡ last_or 0 ps
      → NotIn p ps
      → Distinct ps
      → IsChain nodes first ps
      → IsChain other (if first == 0 then p else first) (ps ++ (p ∷ []))
  add_abs_node_at_end-IsChain first [] e n d h =
      (ground (arith, h), some_node, ap (λ c. c.next) other_new)
  add_abs_node_at_end-IsChain first (q ∷ qs) e n d (f, g, h) =
      let some_first : (first == 0) ≡ false = ground (arith, f, g) in
      let some_last : l ≢ 0 = λ k. last_or-nonnull nodes first q qs (f, g, h) (sym e ∙ k) in
      let other_end : p ≢ l = λ k. last_or-NotIn p q qs n (k ∙ e) in
      rw some_first (
        IsChain-append_one nodes other p l some_node (other_last some_last other_end)
          (ap (λ c. c.next) other_new) other_same first q qs e n d (f, g, h))

  pub add_abs_node_at_end-IsList :
      {first n : ℕ} {ps xs : List ℕ}
      → l ≡ last_or 0 ps
      → NotIn p ps
      → IsList nodes first n ps xs
      → IsList other (if first == 0 then p else first) (n + 1) (ps ++ (p ∷ [])) (xs ++ (x ∷ []))
  add_abs_node_at_end-IsList {first = first} {n = n} {ps = ps} {xs = xs} e free h = record {
    chain = add_abs_node_at_end-IsChain first ps e free h.distinct h.chain;
    distinct = Distinct-append_one p ps free h.distinct;
    count = omega (arith, h.count, length-append ps (p ∷ []));
    data_eq =
        rw
          (
            data_of-append_one other p ps,
            other_new,
            data_of-other nodes other p other_element ps free,
            h.data_eq,
          )
          refl;
  }
