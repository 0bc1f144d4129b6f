-- ===== src/Ktap/Tab/Splice.antt =====
-- The entry of a free node into a chain by `kp_tab_newkey` (ktap-master/runtime/kp_tab.c).
use reading_comment.Common.{
  ℕ, suc, ◌<◌, ◌≤◌, ◌≡◌, sym, ap, ◌∙◌, true, false, none, some, leb, ◌==◌, if◌then◌else◌, arith,
  inl, inr, ◌⊎◌, Bool-cases,
}
use native.Mathlib.Decide.{ℕ_discrete}
use reading_comment.Ktap.Tab.{nil, is_nil, Node}
use reading_comment.Ktap.Tab.Chains.{Linked}

-- The free node `f` is put behind `c`, in front of what stood behind `n`; `n` is `c`, or it has left
-- the chain.
pub record Spliced (node other : ℕ → Node) (c n f : ℕ) : Type 0 where
  pub free : is_nil (node f).key ≡ true
  pub c_used : is_nil (node c).key ≡ false
  pub n_used : is_nil (node n).key ≡ false
  pub f_taken : is_nil (other f).key ≡ false
  pub next_c : (other c).next ≡ some f
  pub next_f : (other f).next ≡ (node n).next
  pub next_n : (n ≡ c) ⊎ ((other n).next ≡ none)
  pub next_kept : (x : ℕ) → (c ≡ x → ⊥) → (f ≡ x → ⊥) → (n ≡ x → ⊥) → (other x).next ≡ (node x).next
  pub still_used : (x : ℕ) → is_nil (node x).key ≡ false → is_nil (other x).key ≡ false
  pub vals : (x : ℕ) → (f ≡ x → ⊥) → (n ≡ x → ⊥) → (other x).val ≡ (node x).val

pub some_eq : {a b : ℕ} → some a ≡ some b → a ≡ b
some_eq h = ground (arith, h)

module _ {node other : ℕ → Node} {c n f fuel : ℕ} (l : Linked node fuel)
    (s : Spliced node other c n f) (order : l.rank n ≤ l.rank c) where
  abbrev new_rank : ℕ → ℕ
  new_rank x =
      if f == x then l.rank n else if leb (l.rank n) (l.rank x) then suc (l.rank x) else l.rank x

  pub used_not_free : (x : ℕ) → is_nil (node x).key ≡ false → f ≡ x → ⊥
  used_not_free x used e = absurd (ground (arith, used, ap (λ z. is_nil (node z).key) e, s.free))

  none_before_free : (x z : ℕ) → (node x).next ≡ some z → f ≡ z → ⊥
  none_before_free x z e = used_not_free z (l.behind_used x z e)

  -- The links of `other`
  link_of :
      (x z : ℕ)
      → (other x).next ≡ some z
      → ((c ≡ x) × (z ≡ f))
        ⊎ (((f ≡ x) × ((node n).next ≡ some z))
            ⊎ ((n ≡ x → ⊥) × (f ≡ x → ⊥) × ((node x).next ≡ some z)))
  link_of x z e = elim (ℕ_discrete c x) [
    | yes at_c ↦ inl (at_c, some_eq (sym e ∙ (ap (λ w. (other w).next) (sym at_c) ∙ s.next_c)))
    | no far_c ↦ elim (ℕ_discrete f x) [
      | yes at_f ↦ inr (inl (at_f, sym s.next_f ∙ (ap (λ w. (other w).next) at_f ∙ e)))
      | no far_f ↦ elim (ℕ_discrete n x) [
        | no far_n ↦ inr (inr (far_n, far_f, sym (s.next_kept x far_c far_f far_n) ∙ e))
        | yes at_n ↦ elim s.next_n [
          | inl same ↦ absurd (far_c (sym same ∙ at_n))
          | inr last ↦ absurd (ground (arith, last, ap (λ w. (other w).next) at_n, e))
        ]
      ]
    ]
  ]

  new_bound : (x : ℕ) → new_rank x < suc fuel
  new_bound x = ground (arith, l.bound x, l.bound n)

  new_down : (x y : ℕ) → (other x).next ≡ some y → new_rank y < new_rank x
  new_down x y e = elim (link_of x y e) [
    | inl (at_c, to_f) ↦
        let apart = used_not_free c s.c_used in rw (to_f, sym at_c) (ground (arith, order, apart))
    | inr (inl (at_f, k)) ↦
        let apart = none_before_free n y k in rw (sym at_f) (ground (arith, l.down n y k, apart))
    | inr (inr (far_n, far_f, k)) ↦
        let apart = none_before_free x y k in ground (arith, l.down x y k, apart, far_f)
  ]

  new_one : (x y z : ℕ) → (other x).next ≡ some z → (other y).next ≡ some z → x ≡ y
  new_one x y z e k = elim (link_of x z e) [
    | inl (at_c, to_f) ↦ elim (link_of y z k) [
      | inl (at_c', _) ↦ sym at_c ∙ at_c'
      | inr (inl (_, j)) ↦ absurd (none_before_free n z j (sym to_f))
      | inr (inr (_, _, j)) ↦ absurd (none_before_free y z j (sym to_f))
    ]
    | inr (inl (at_f, i)) ↦ elim (link_of y z k) [
      | inl (_, to_f) ↦ absurd (none_before_free n z i (sym to_f))
      | inr (inl (at_f', j)) ↦ sym at_f ∙ at_f'
      | inr (inr (far_n, _, j)) ↦ absurd (far_n (l.one_in_front n y z i j))
    ]
    | inr (inr (far_n, _, i)) ↦ elim (link_of y z k) [
      | inl (_, to_f) ↦ absurd (none_before_free x z i (sym to_f))
      | inr (inl (at_f, j)) ↦ absurd (far_n (l.one_in_front n x z j i))
      | inr (inr (_, _, j)) ↦ l.one_in_front x y z i j
    ]
  ]

  new_behind : (x y : ℕ) → (other x).next ≡ some y → is_nil (other y).key ≡ false
  new_behind x y e = elim (link_of x y e) [
    | inl (at_c, to_f) ↦ rw to_f s.f_taken
    | inr (inl (at_f, k)) ↦ s.still_used y (l.behind_used n y k)
    | inr (inr (far_n, far_f, k)) ↦ s.still_used y (l.behind_used x y k)
  ]

  free_before : (x : ℕ) → is_nil (other x).key ≡ true → is_nil (node x).key ≡ true
  free_before x free = elim (Bool-cases (is_nil (node x).key)) [
    | inl y ↦ y
    | inr used ↦ absurd (ground (arith, free, s.still_used x used))
  ]

  new_unused :
      (x : ℕ) → is_nil (other x).key ≡ true → ((other x).next ≡ none) × ((other x).val ≡ nil)
  new_unused x free =
      let before = free_before x free in
      let apart : (z : ℕ) → is_nil (node z).key ≡ false → z ≡ x → ⊥ =
        λ z used e. absurd (ground (arith, used, ap (λ w. is_nil (node w).key) e, before)) in
      let not_f : f ≡ x → ⊥ =
        λ e. absurd (ground (arith, s.f_taken, ap (λ w. is_nil (other w).key) e, free)) in
      let (end, blank) = l.unused x before in
      (
        s.next_kept x (apart c s.c_used) not_f (apart n s.n_used) ∙ end,
        s.vals x not_f (apart n s.n_used) ∙ blank,
      )

  pub Linked-spliced : Linked other (suc fuel)
  Linked-spliced = record {
    rank = new_rank;
    bound = new_bound;
    down = new_down;
    one_in_front = new_one;
    behind_used = new_behind;
    unused = new_unused;
  }
