-- ===== src/Klist/Holds.antt =====
-- What holds of a list of ovlfs-2.0.1/lists/kernel_lists.c between two calls, and that the work on the
-- primary index keeps it.
pub mod Grown
pub mod Search
use mathlib.Core.List.{Perm}
use mathlib.Core.List.Perm
use reading_comment.Common.{
  ℕ, zero, suc, ◌+◌, ◌-◌, ◌≤◌, ◌<◌, ◌≡◌, refl, ap, ◌∙◌, sym, Bool, true, false, List, [], ◌∷◌, ◌++◌,
  length, length-Perm, arith, Option, none, some, Bool-cases, inl, inr,
}
use reading_comment.Klist.{
  Comparison, Nodes, ListStruct, IndexMode, not_indexed, flat, sorted, is_indexed, is_sorted,
}
use reading_comment.Klist.Order.{IsComparison, IsOrdered}
use reading_comment.Klist.Sort.{ssort}
use reading_comment.Klist.Sort.Selection.{ssort-IsOrdered}
use reading_comment.Klist.Index.{make_index, index_list, check_index, sort_list, sorted_by}
use reading_comment.Klist.Chain.{IsChain, Distinct, data_of, collect-data_of}

-- The chain of `n` nodes from `first` has the nodes `ps`, with the data `xs`.
pub record IsList (nodes : Nodes) (first n : ℕ) (ps xs : List ℕ) : Type 0 where
  pub chain : IsChain nodes first ps
  pub distinct : Distinct ps
  pub count : n ≡ length ps
  pub data_eq : data_of nodes ps ≡ xs

-- The index, where there is one, has the pointers `xs`; a sorted one is in order, and not empty.
abbrev pub IndexOf : Comparison → IndexMode → List ℕ → List ℕ → Type 0
IndexOf compare not_indexed l xs = Unit
IndexOf compare flat l xs = Perm l xs
IndexOf compare sorted l xs = Perm l xs × IsOrdered compare l × (0 < length l)

pub record Holds (compare : Comparison) (s : ListStruct) (ps xs : List ℕ) : Type 0 where
  pub list : IsList s.nodes s.first_element s.number_of_elements ps xs
  pub compares : s.element_compare ≡ some compare
  pub index : IndexOf compare s.index_mode s.element_list xs

pub no_IndexOf :
    (compare : Comparison) (m : IndexMode) (l xs : List ℕ)
    → is_indexed m ≡ false
    → IndexOf compare m l xs
no_IndexOf compare not_indexed l xs h = tt
no_IndexOf compare flat l xs h = absurd (ground arith)
no_IndexOf compare sorted l xs h = absurd (ground arith)

pub IndexOf-Perm :
    (compare : Comparison) (m : IndexMode) (l xs : List ℕ)
    → is_indexed m ≡ true
    → IndexOf compare m l xs
    → Perm l xs
IndexOf-Perm compare not_indexed l xs h k = absurd (ground arith)
IndexOf-Perm compare flat l xs h k = k
IndexOf-Perm compare sorted l xs h (k, o, p) = k

pub IndexOf-sorted :
    (compare : Comparison) (m : IndexMode) (l xs : List ℕ)
    → is_sorted m ≡ true
    → IndexOf compare m l xs
    → (m ≡ sorted) × Perm l xs × IsOrdered compare l × (0 < length l)
IndexOf-sorted compare not_indexed l xs h k = absurd (ground arith)
IndexOf-sorted compare flat l xs h k = absurd (ground arith)
IndexOf-sorted compare sorted l xs h (a, b, c) = (refl, a, b, c)

module _ (compare : Comparison) {s : ListStruct} {ps xs : List ℕ} (h : Holds compare s ps xs) where
  abbrev Checked : ListStruct × Bool → Type 0
  Checked (s', ok) =
      Holds compare s' ps xs
      × (ok ≡ true → is_indexed s'.index_mode ≡ true)
      × (s'.search_func ≡ s.search_func)

  index_list-Checked : (b : Bool) → is_indexed s.index_mode ≡ false → Checked (index_list b s)
  unfolding index_list make_index
  index_list-Checked false n = (
    record {
      list = h.list;
      compares = h.compares;
      index = no_IndexOf compare s.index_mode [] xs n;
    },
    (λ e. absurd (ground arith)),
    refl,
  )
  index_list-Checked true n = (
    record {
      list = h.list;
      compares = h.compares;
      index =
          rw (h.list.count, collect-data_of s.nodes s.first_element ps h.list.chain, h.list.data_eq)
            (Perm.refl xs);
    },
    (λ e. refl),
    refl,
  )

  pub check_index-Holds : (b : Bool) → Checked (check_index b s)
  unfolding check_index
  check_index-Holds b = elim (Bool-cases (is_indexed s.index_mode)) [
    | inl y ↦ rw y (h, (λ e. y), refl)
    | inr n ↦ rw n (index_list-Checked b n)
  ]

module _ (compare : Comparison) (v : IsComparison compare) where
  sorted_by-Holds :
      {s : ListStruct} {ps xs : List ℕ} (c : Option Comparison)
      → c ≡ some compare
      → Holds compare s ps xs
      → is_indexed s.index_mode ≡ true
      → 0 < length xs
      → Holds compare (sorted_by c s).0 ps xs × ((sorted_by c s).0.index_mode ≡ sorted)
  sorted_by-Holds {s = s} {xs = xs} c e h i k =
      let perm = IndexOf-Perm compare s.index_mode s.element_list xs i h.index in
      let (ordered, perm', e') = ssort-IsOrdered compare v s.element_list in
      rw e (
        record {
          list = h.list;
          compares = h.compares;
          index = (
            Perm.trans perm' perm,
            ordered,
            omega (arith, e', length-Perm (Perm.trans perm' perm)),
          );
        },
        refl,
      )

  pub sort_list-Holds :
      {s : ListStruct} {ps xs : List ℕ} (b : Bool)
      → Holds compare s ps xs
      → 0 < length xs
      → Holds compare (sort_list b s).0 ps xs
  unfolding sort_list
  sort_list-Holds {s = s} b h k =
      let (h', indexed, same) = check_index-Holds compare h b in
      elim (Bool-cases (check_index b s).1) [
        | inl y ↦ rw y (sorted_by-Holds _ h'.compares h' (indexed y) k).0
        | inr n ↦ rw n h'
      ]
