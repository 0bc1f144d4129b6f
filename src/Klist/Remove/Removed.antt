-- ===== src/Klist/Remove/Removed.antt =====
-- A removal from a list of ovlfs-2.0.1/lists/kernel_lists.c keeps what holds of the list.
use reading_comment.Common.{
  ℕ, zero, suc, ◌-◌, ◌<◌, ◌≡◌, ◌≢◌, refl, ap, ◌∙◌, sym, false, List, [], ◌∷◌, length, get_or, arith,
  ◌==◌,
}
use reading_comment.Klist.{Nodes, ListStruct, set_next}
use reading_comment.Klist.Chain.{IsChain, data_of, data_of-same}
use reading_comment.Klist.Insert.Back.{last_or}
use reading_comment.Klist.Remove.{advance, unlink}
use reading_comment.Klist.Remove.Unlink.{
  remove_at, length-remove_at, data_of-remove_at, Distinct-remove_at, set_next_element, advance-suc,
  unlink_behind, last_without, last_behind,
}
use reading_comment.Klist.Holds.{IsList}

get_or-data_of :
    (nodes : Nodes) (k : ℕ) (ps : List ℕ)
    → k < length ps
    → get_or (data_of nodes ps) k 0 ≡ (nodes (get_or ps k 0)).element
get_or-data_of nodes k [] h = absurd (omega arith)
get_or-data_of nodes zero (p ∷ ps) h = refl
get_or-data_of nodes (suc k) (p ∷ ps) h = get_or-data_of nodes k ps (omega arith)

-- What `unlink` makes of a list, for the node `r.1`, the one at `k`, behind `r.0`.
pub record IsRemoved (s : ListStruct) (ps xs : List ℕ) (k : ℕ) (r : ℕ × ℕ) : Type 0 where
  pub some_node : r.1 ≢ 0
  pub node_eq : r.1 ≡ get_or ps k 0
  pub wanted_eq : (s.nodes r.1).element ≡ get_or xs k 0
  pub rest :
      IsList
        (unlink r.0 r.1 s).nodes
        (unlink r.0 r.1 s).first_element
        (s.number_of_elements - 1)
        (remove_at k ps)
        (remove_at k xs)
  pub last_node :
      s.last_element ≡ last_or 0 ps → (unlink r.0 r.1 s).last_element ≡ last_or 0 (remove_at k ps)

module _ (s : ListStruct) (ps xs : List ℕ) (k : ℕ)
    (list : IsList s.nodes s.first_element s.number_of_elements ps xs)
    (inside : k < length ps) where
  data_left : data_of s.nodes (remove_at k ps) ≡ remove_at k xs
  data_left = data_of-remove_at s.nodes k ps ∙ ap (remove_at k) list.data_eq

  count_left : s.number_of_elements - 1 ≡ length (remove_at k ps)
  count_left = omega (arith, list.count, length-remove_at k ps inside)

  module _ (r : ℕ × ℕ) (node : r.1 ≢ 0) (at_k : r.1 ≡ get_or ps k 0)
      (last : last_without s.nodes 0 ps r ≡ last_or 0 (remove_at k ps)) where
    wanted_data : (s.nodes r.1).element ≡ get_or xs k 0
    wanted_data =
        ap (λ p. (s.nodes p).element) at_k
        ∙ (sym (get_or-data_of s.nodes k ps inside) ∙ ap (λ l. get_or l k 0) list.data_eq)

    first-IsRemoved :
        r.0 ≡ 0 → IsChain s.nodes (s.nodes r.1).next (remove_at k ps) → IsRemoved s ps xs k r
    unfolding unlink
    first-IsRemoved e h = record {
      some_node = node;
      node_eq = at_k;
      wanted_eq = wanted_data;
      rest = rw e (record {
        chain = h;
        distinct = Distinct-remove_at k ps list.distinct;
        count = count_left;
        data_eq = data_left;
      });
      last_node = λ f. rw f last;
    }

    other-IsRemoved :
        r.0 ≢ 0
        → IsChain (set_next s.nodes r.0 (s.nodes r.1).next) s.first_element (remove_at k ps)
        → IsRemoved s ps xs k r
    unfolding unlink
    other-IsRemoved d h =
        let some_front : (r.0 == 0) ≡ false = ground (arith, d) in
        let behind = (s.nodes r.1).next in
        record {
          some_node = node;
          node_eq = at_k;
          wanted_eq = wanted_data;
          rest = rw some_front (record {
            chain = h;
            distinct = Distinct-remove_at k ps list.distinct;
            count = count_left;
            data_eq =
                data_of-same s.nodes (set_next s.nodes r.0 behind) (remove_at k ps)
                  (set_next_element s.nodes r.0 behind)
                ∙ data_left;
          });
          last_node = λ f. rw f last;
        }

front-IsRemoved :
    (s : ListStruct) (q : ℕ) (qs xs : List ℕ)
    → IsList s.nodes s.first_element s.number_of_elements (q ∷ qs) xs
    → IsRemoved s (q ∷ qs) xs 0 (advance s.nodes 0 0 s.first_element)
unfolding advance
front-IsRemoved s q qs xs list =
    let (e, d, h) = list.chain in
    first-IsRemoved s (q ∷ qs) xs 0 list (omega arith) (0, s.first_element) (λ f. d (sym e ∙ f)) e
      (last_behind s.nodes 0 0 s.first_element (q ∷ qs) list.distinct list.chain (omega arith)) refl
      (rw e h)

pub advance-IsRemoved :
    (s : ListStruct) (ps xs : List ℕ) (k : ℕ)
    → IsList s.nodes s.first_element s.number_of_elements ps xs
    → k < length ps
    → IsRemoved s ps xs k (advance s.nodes k 0 s.first_element)
advance-IsRemoved s [] xs k list inside = absurd (omega arith)
advance-IsRemoved s (q ∷ qs) xs zero list inside = front-IsRemoved s q qs xs list
advance-IsRemoved s (q ∷ qs) xs (suc k) list inside =
    let (e, d, h) = list.chain in
    let (i, u) = list.distinct in
    let b = unlink_behind s.nodes q k (s.nodes q).next qs d i u h refl (omega arith) in
    let step = ap (advance s.nodes (suc k) 0) e ∙ advance-suc s.nodes k 0 q d in
    rw step (
      other-IsRemoved s (q ∷ qs) xs (suc k) list inside _ b.some_node b.found
        (last_behind s.nodes q k (s.nodes q).next qs u h (omega arith)) b.some_front
        (e, d, b.chain))
