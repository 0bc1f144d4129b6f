-- ===== src/Ktap/Tab/New/Fresh.antt =====
-- A new table of ktap-master/runtime/kp_tab.c is empty.
use reading_comment.Common.{
  ℕ, zero, suc, ◌+◌, ◌-◌, ◌^◌, ◌<◌, ◌≤◌, ◌≡◌, refl, ◌∙◌, true, false, none, some, arith, Bool-cases,
  inl, inr, ltb, ◌==◌,
}
use native.Mathlib.Decide.{ℕ_discrete}
use native.Mathlib.Nat.{one-le-pow, pow-suc}
use reading_comment.Ktap.Tab.{Val, nil, is_nil, kp_obj_equal, Tab, Env, hashkey}
use reading_comment.Ktap.Tab.Get.{kp_tab_get}
use reading_comment.Ktap.Tab.Chains.{Chained, find_nowhere}
use reading_comment.Ktap.Tab.Refine.{is_plain, plain_proper, get_lem, in_array_part}
use reading_comment.Ktap.Tab.New.{
  newhpart, empty_node, clearhpart, clearapart, newtab, kp_tab_new, kp_tab_clear,
}

Chained-empty : (h : Val → ℕ) → Chained h (λ i. empty_node) 1
Chained-empty h = record {
  links = record {
    rank = λ x. 0;
    bound = λ x. omega arith;
    down = λ x y e. absurd (ground (arith, e));
    one_in_front = λ x y z e f. absurd (ground (arith, e));
    behind_used = λ x y e. absurd (ground (arith, e));
    unused = λ x e. (refl, refl);
  };
  owned = λ m e. absurd (ground (arith, e));
  reached = λ m e. absurd (ground (arith, e));
  unique = λ i j e f. absurd (ground (arith, e));
}

-- Each node of `t` is free, no plain key has a value, and the chains are in order.
pub record IsFresh (env : Env) (t : Tab) : Type 0 where
  pub free :
      (i : ℕ)
      → i ≤ t.hmask
      → ((t.node i).key ≡ nil) × ((t.node i).val ≡ nil) × ((t.node i).next ≡ none)
  pub chained : Chained (hashkey env t.hmask) t.node 1
  pub empty : (k : Val) → is_plain k ≡ true → kp_tab_get env 1 t k ≡ some nil

nil_other : (k : Val) → is_nil k ≡ false → kp_obj_equal nil k ≡ false
unfolding kp_obj_equal
nil_other k h = ground arith

cleared-IsFresh : (env : Env) (t : Tab) → IsFresh env (clearhpart (clearapart t))
cleared-IsFresh env t = record {
  free = λ i h. (refl, refl, refl);
  chained = Chained-empty (hashkey env t.hmask);
  empty = λ k plain.
      get_lem env 1 (clearhpart (clearapart t)) k plain
      ∙ elim (Bool-cases (in_array_part (clearhpart (clearapart t)) k)) [
        | inl y ↦ rw y refl
        | inr n ↦
            rw
              (
                n,
                find_nowhere (Chained-empty (hashkey env t.hmask)) k (plain_proper k plain)
                    (λ m. nil_other k (plain_proper k plain)),
              )
              refl
      ];
}

nonzero_test : (n : ℕ) → (n ≡ 0 → ⊥) → (n == 0) ≡ false
nonzero_test n d = ground (arith, d)

positive : (n : ℕ) → 0 < n → ltb 0 n ≡ true
positive n h = ground arith

-- `kp_tab_clear` of a table with a hash part leaves it empty, with its chains in order and each node
-- free.
pub kp_tab_clear-IsFresh :
    (env : Env) (t : Tab)
    → 0 < t.hmask
    → IsFresh env (kp_tab_clear t) × ((kp_tab_clear t).freetop ≡ t.hmask + 1)
unfolding kp_tab_clear
kp_tab_clear-IsFresh env t h =
    rw (positive t.hmask h) (cleared-IsFresh env (record t { freetop = t.hmask + 1 }), refl)

mask_positive : (hbits : ℕ) → 0 < hbits → 0 < 2 ^ hbits - 1
mask_positive zero h = absurd (omega arith)
mask_positive (suc n) h = omega (arith, pow-suc 2 n, one-le-pow n 2)

module _ (t : Tab) (asize hbits : ℕ) (a : asize ≤ 2 ^ 27 + 1) (b : 0 < hbits) (c : hbits ≤ 26) where
  some_bits : (hbits == 0) ≡ false
  some_bits = ground arith

  few_bits : ltb 26 hbits ≡ false
  few_bits = ground arith

  few_slots : ltb (2 ^ 27 + 1) asize ≡ false
  few_slots = ground arith

  newtab_lem :
      newtab true true t asize hbits
      ≡ some (record t { asize = asize; freetop = 2 ^ hbits; hmask = 2 ^ hbits - 1 })
  unfolding newtab newhpart
  newtab_lem = elim (ℕ_discrete asize 0) [
    | yes e ↦ rw (e, some_bits, few_bits) refl
    | no d ↦ rw (nonzero_test asize d, few_slots, some_bits, few_bits) refl
  ]

-- `kp_tab_new` with 1 to 26 hash bits and at most 2^27 + 1 array slots, and with memory for them,
-- returns an empty table of these sizes with its chains in order and each node free.
pub kp_tab_new-IsFresh :
    (env : Env) (t : Tab) (asize hbits : ℕ)
    → asize ≤ 2 ^ 27 + 1
    → 0 < hbits
    → hbits ≤ 26
    → (t' : Tab) × (kp_tab_new true true t asize hbits ≡ some t')
      × (t'.asize ≡ asize)
      × (t'.hmask ≡ 2 ^ hbits - 1)
      × (t'.freetop ≡ 2 ^ hbits)
      × IsFresh env t'
unfolding kp_tab_new
kp_tab_new-IsFresh env t asize hbits a b c =
    let made : Tab = record t { asize = asize; freetop = 2 ^ hbits; hmask = 2 ^ hbits - 1 } in
    let mask = positive (2 ^ hbits - 1) (mask_positive hbits b) in
    (
      clearhpart (clearapart made),
      rw (newtab_lem t asize hbits a b c, mask) refl,
      refl,
      refl,
      refl,
      cleared-IsFresh env made,
    )
