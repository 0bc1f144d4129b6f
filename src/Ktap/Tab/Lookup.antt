-- ===== src/Ktap/Tab/Lookup.antt =====
-- The hash part of a table after a setter has stored a value (ktap-master/runtime/kp_tab.c).
use reading_comment.Common.{
  ℕ, suc, ◌<◌, sym, ◌≡◌, refl, ap, ◌∙◌, true, false, none, some, arith, inl, inr, ◌⊎◌, Bool-cases,
  Option-cases,
}
use reading_comment.Ktap.Tab.{Val, nil, is_nil, kp_obj_equal, Tab, Env, hashkey, find}
use reading_comment.Ktap.Tab.Get.{value_at, lookup}
use reading_comment.Ktap.Tab.Set.{
  free_below, kp_tab_newkey, find_or_new, in_node, put, node_slot, store_in, collided, store_key,
}
use reading_comment.Ktap.Tab.Chains.{Chained, find-Absent, find_ends}
use reading_comment.Ktap.Tab.Rebuilt.{Chained-rebuilt, find-rebuilt}
use reading_comment.Ktap.Tab.Entered.{Entered, Entered-own, is_nil-eq, collided-behind}
use reading_comment.Ktap.Tab.Moved.{collided-moved}
use reading_comment.Ktap.Tab.Newkey.{TakenFromTop, free_below-free, free_below-taken_above}
use native.Mathlib.Decide.{ℕ_discrete, dec_lt}
use reading_comment.Ktap.Tab.Stored.{Chained-suc, find-suc, Chained-stored, get_stored, get_others}

module _ (env : Env) (t : Tab) (fuel : ℕ) (c : Chained (hashkey env t.hmask) t.node fuel)
    (key : Val) (proper : is_nil key ≡ false) (behind : TakenFromTop t) where
  abbrev main_node : ℕ
  main_node = hashkey env t.hmask key

  module _ (hashed : 0 < t.hmask) where
    taken_used : is_nil (t.node main_node).val ≡ false → is_nil (t.node main_node).key ≡ false
    taken_used taken = elim (Bool-cases (is_nil (t.node main_node).key)) [
      | inr used ↦ used
      | inl blank ↦ absurd (ground (arith, taken, ap is_nil (c.links.unused main_node blank).1))
    ]

    -- The nodes from the new free top on are taken.
    taken_from :
        (f : ℕ)
        → free_below t.node t.freetop ≡ some f
        → (p : ℕ) (t' : Tab) → Entered env t fuel key p t'
        → t'.freetop ≡ f
        → is_nil (t'.node f).key ≡ false
        → TakenFromTop t'
    taken_from f found p t' r top used i above inside = elim (ℕ_discrete f i) [
      | yes same ↦ ap (λ x. is_nil (t'.node x).key) (sym same) ∙ used
      | no d ↦ r.still_used i (elim (dec_lt i t.freetop) [
        | yes below ↦
            free_below-taken_above t.node t.freetop f found i (omega (arith, d, above, top)) below
        | no beyond ↦ behind i (omega (arith, beyond)) (omega (arith, inside, r.hmask))
      ])
    ]

    collided_lem :
        (f : ℕ)
        → free_below t.node t.freetop ≡ some f
        → is_nil (t.node main_node).val ≡ false
        → (p : ℕ) × (t' : Tab) × (collided env (record t { freetop = f }) fuel key main_node f
            ≡ some (p, t'))
          × Entered env t fuel key p t'
          × TakenFromTop t'
    collided_lem f found taken =
        let free = free_below-free t.node t.freetop f found in
        elim (ℕ_discrete (hashkey env t.hmask (t.node main_node).key) main_node) [
          | yes own ↦
              let (t', e, r, top, used) =
                collided-behind env t fuel c key proper f free (taken_used taken) own in
              (f, t', e, r, taken_from f found f t' r top used)
          | no foreign ↦
              let (t', e, r, top, used) =
                collided-moved env t fuel c key proper f free (taken_used taken) foreign in
              (main_node, t', e, r, taken_from f found main_node t' r top used)
        ]

    own_place :
        is_nil (t.node main_node).val ≡ true
        → Entered env t fuel key main_node (store_key t main_node key t.node)
    own_place dead = Entered-own env t fuel c key proper (is_nil-eq _ dead)

    -- A new key is entered, unless no node is free.
    kp_tab_newkey-Entered :
        ((free_below t.node t.freetop ≡ none) × (kp_tab_newkey env t fuel key ≡ some (none, t)))
        ⊎ ((p : ℕ) × (t' : Tab) × (kp_tab_newkey env t fuel key ≡ some (some p, t'))
            × Entered env t fuel key p t'
            × TakenFromTop t')
    unfolding kp_tab_newkey
    kp_tab_newkey-Entered = elim (Bool-cases (is_nil (t.node main_node).val)) [
      | inl dead ↦ inr (
        main_node,
        store_key t main_node key t.node,
        rw dead (ground (arith, hashed)),
        own_place dead,
        λ i. λ above inside. (own_place dead).still_used i (behind i above inside),
      )
      | inr taken ↦ elim (Option-cases (free_below t.node t.freetop)) [
        | inl full ↦ inl (full, rw (taken, full) refl)
        | inr (f, found) ↦
            let (p, t', e, r, top) = collided_lem f found taken in
            inr (p, t', rw (taken, found, e) refl, r, top)
      ]
    ]

-- Table `t'` is `t` with a place for the key at node `p`, and the same values of the other keys.
pub record Found (env : Env) (t : Tab) (fuel : ℕ) (key : Val) (p : ℕ) (t' : Tab) : Type 0 where
  pub chained : Chained (hashkey env t.hmask) t'.node (suc fuel)
  pub at_p : kp_obj_equal (t'.node p).key key ≡ true
  pub others :
      (k : Val)
      → is_nil k ≡ false
      → kp_obj_equal key k ≡ false
      → value_at t'.node (find k t'.node (suc fuel) (hashkey env t.hmask k))
        ≡ value_at t.node (find k t.node fuel (hashkey env t.hmask k))
  pub array : t'.array ≡ t.array
  pub asize : t'.asize ≡ t.asize
  pub hmask : t'.hmask ≡ t.hmask
  pub taken : TakenFromTop t'

-- Table `t'` has the value under the key, and else the values of `t`.
pub record HashSet (env : Env) (t : Tab) (fuel : ℕ) (key v : Val) (t' : Tab) : Type 0 where
  pub chained : Chained (hashkey env t.hmask) t'.node (suc fuel)
  pub value : value_at t'.node (find key t'.node (suc fuel) (hashkey env t.hmask key)) ≡ some v
  pub others :
      (k : Val)
      → is_nil k ≡ false
      → kp_obj_equal key k ≡ false
      → value_at t'.node (find k t'.node (suc fuel) (hashkey env t.hmask k))
        ≡ value_at t.node (find k t.node fuel (hashkey env t.hmask k))
  pub array : t'.array ≡ t.array
  pub asize : t'.asize ≡ t.asize
  pub hmask : t'.hmask ≡ t.hmask
  pub taken : TakenFromTop t'

still_there :
    (t : Tab) (p : ℕ) (v : Val) (i : ℕ)
    → is_nil (t.node i).key ≡ false
    → is_nil ((put v t (in_node p)).node i).key ≡ false
still_there t p v i h = ground (arith, h)

module _ (env : Env) (t : Tab) (fuel : ℕ) (c : Chained (hashkey env t.hmask) t.node fuel)
    (hashed : 0 < t.hmask) (key : Val) (proper : is_nil key ≡ false)
    (self : kp_obj_equal key key ≡ true) (behind : TakenFromTop t) where
  find_or_new-Found :
      ((free_below t.node t.freetop ≡ none)
        × (find_or_new env t fuel key ≡ some (none, t))
        × (lookup env fuel t key ≡ some nil))
      ⊎ ((p : ℕ) × (t' : Tab) × (find_or_new env t fuel key ≡ some (some p, t'))
          × Found env t fuel key p t')
  unfolding find_or_new
  find_or_new-Found =
      let h = hashkey env t.hmask in
      elim (find_ends c key proper fuel (h key) (c.links.bound (h key))) [
        | inr (m, e, f) ↦ inr (
          m,
          t,
          rw (e, find_or_new) refl,
          record {
            chained = Chained-suc c;
            at_p = f;
            others = λ k own d. ap (value_at t.node) (find-suc c k own);
            array = refl;
            asize = refl;
            hmask = refl;
            taken = behind;
          },
        )
        | inl e ↦
            let new = find-Absent c key proper e in
            elim (kp_tab_newkey-Entered env t fuel c key proper behind hashed) [
              | inl (full, k) ↦ inl (full, rw (e, find_or_new) k, rw e refl)
              | inr (p, t', k, r, top) ↦ inr (
                p,
                t',
                rw (e, find_or_new) k,
                record {
                  chained = Chained-rebuilt c new r.rebuilt;
                  at_p = rw r.rebuilt.stored self;
                  others = λ o own d. find-rebuilt c new r.rebuilt o own d;
                  array = r.array;
                  asize = r.asize;
                  hmask = r.hmask;
                  taken = top;
                },
              )
            ]
      ]

  -- A setter on the hash part stores the value, unless the key is new and no node is free.
  pub hash_set_lem :
      (v : Val)
      → ((free_below t.node t.freetop ≡ none)
          × (store_in (put v) (node_slot (find_or_new env t fuel key)) ≡ some t)
          × (lookup env fuel t key ≡ some nil))
        ⊎ ((t' : Tab) × (store_in (put v) (node_slot (find_or_new env t fuel key)) ≡ some t')
            × HashSet env t fuel key v t')
  hash_set_lem v = elim find_or_new-Found [
    | inl (full, e, none_there) ↦ inl (full, rw e refl, none_there)
    | inr (p, t', e, r) ↦ inr (
      put v t' (in_node p),
      rw e refl,
      record {
        chained = Chained-stored r.chained p key v proper r.at_p;
        value = get_stored r.chained p key v proper r.at_p;
        others = λ k own d. get_others r.chained p key v proper r.at_p k own d ∙ r.others k own d;
        array = r.array;
        asize = r.asize;
        hmask = r.hmask;
        taken = λ i above inside. still_there t' p v i (r.taken i above inside);
      },
    )
  ]
