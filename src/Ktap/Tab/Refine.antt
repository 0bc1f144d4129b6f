-- ===== src/Ktap/Tab/Refine.antt =====
-- The tables of ktap-master/runtime/kp_tab.c are maps.
use reading_comment.Common.{
  ℕ, suc, ◌<◌, ◌≡◌, refl, sym, ap, ◌∙◌, Bool, true, false, not, ◌&&◌, some, ltb, ◌==◌,
  if◌then◌else◌, u32_mod, arith, inl, inr, ◌⊎◌, Bool-cases,
}
use reading_comment.Ktap.Tab.{
  Val, nil, boolean, number, string, eventstr, kstack, object, is_nil, lightud, kp_obj_equal, Tab,
  Env, hashkey,
}
use reading_comment.Ktap.Tab.Get.{value_at, lookup, tab_getinth, tab_getint, tab_getstr, kp_tab_get}
use reading_comment.Ktap.Tab.Set.{
  find_or_new, in_array, put, node_slot, store_in, tab_setinth, tab_setint, tab_setstr, tab_set,
  kp_tab_set,
}
use reading_comment.Ktap.Tab.Chains.{Chained}
use reading_comment.Ktap.Tab.Newkey.{TakenFromTop, IsFull, free_below-IsFull}
use reading_comment.Ktap.Tab.Insert.{update-same, update-other}
use reading_comment.Ktap.Tab.Stored.{Chained-suc, find-suc}
use reading_comment.Ktap.Tab.Lookup.{HashSet, hash_set_lem}

-- A key that a table finds again as it is: not nil, no light userdata, and none of the two kinds that
-- are made strings first.
abbrev pub is_plain : Val → Bool
is_plain nil = false
is_plain (eventstr gc) = false
is_plain (kstack gc) = false
is_plain (object s gc) = not (s == lightud)
is_plain (boolean b) = true
is_plain (number n) = true
is_plain (string s) = true

pub plain_proper : (k : Val) → is_plain k ≡ true → is_nil k ≡ false
plain_proper k h = ground arith

plain_self : (k : Val) → is_plain k ≡ true → kp_obj_equal k k ≡ true
unfolding kp_obj_equal
plain_self k h = ground arith

abbrev pub in_array_part : Tab → Val → Bool
in_array_part t (number n) = ltb n u32_mod && ltb n t.asize
in_array_part t _ = false

abbrev pub index : Val → ℕ
index (number n) = n
index _ = 0

module _ (env : Env) (fuel : ℕ) (t : Tab) where
  pub get_lem :
      (k : Val)
      → is_plain k ≡ true
      → kp_tab_get env fuel t k
        ≡ (if in_array_part t k then some (t.array (index k)) else lookup env fuel t k)
  unfolding kp_tab_get tab_getstr tab_getint tab_getinth
  get_lem nil h = absurd (ground (arith, h))
  get_lem (boolean b) h = refl
  get_lem (number n) h = ground arith
  get_lem (string s) h = refl
  get_lem (eventstr gc) h = absurd (ground (arith, h))
  get_lem (kstack gc) h = absurd (ground (arith, h))
  get_lem (object s gc) h = refl

  set_lem :
      (k v : Val)
      → is_plain k ≡ true
      → kp_tab_set env t fuel k v ≡ (
          if in_array_part t k
          then some (put v t (in_array (index k)))
          else store_in (put v) (node_slot (find_or_new env t fuel k)))
  unfolding kp_tab_set tab_set tab_setstr tab_setint tab_setinth
  set_lem nil v h = absurd (ground (arith, h))
  set_lem (boolean b) v h = refl
  set_lem (number n) v h = ground arith
  set_lem (string s) v h = refl
  set_lem (eventstr gc) v h = absurd (ground (arith, h))
  set_lem (kstack gc) v h = absurd (ground (arith, h))
  set_lem (object s gc) v h = refl

index_apart :
    (t : Tab) (a b : Val)
    → in_array_part t a ≡ true
    → in_array_part t b ≡ true
    → kp_obj_equal a b ≡ false
    → index a ≡ index b
    → ⊥
unfolding kp_obj_equal
index_apart t (number a) (number b) y z d e = absurd (ground (arith, d, e))
index_apart t nil b y z d e = absurd (ground (arith, y))
index_apart t (boolean a) b y z d e = absurd (ground (arith, y))
index_apart t (string a) b y z d e = absurd (ground (arith, y))
index_apart t (eventstr a) b y z d e = absurd (ground (arith, y))
index_apart t (kstack a) b y z d e = absurd (ground (arith, y))
index_apart t (object s a) b y z d e = absurd (ground (arith, y))
index_apart t (number a) nil y z d e = absurd (ground (arith, z))
index_apart t (number a) (boolean b) y z d e = absurd (ground (arith, z))
index_apart t (number a) (string b) y z d e = absurd (ground (arith, z))
index_apart t (number a) (eventstr b) y z d e = absurd (ground (arith, z))
index_apart t (number a) (kstack b) y z d e = absurd (ground (arith, z))
index_apart t (number a) (object s b) y z d e = absurd (ground (arith, z))

part_same : (t t' : Tab) (k : Val) → t'.asize ≡ t.asize → in_array_part t' k ≡ in_array_part t k
part_same t t' nil e = refl
part_same t t' (number n) e = rw e refl
part_same t t' (boolean b) e = refl
part_same t t' (string b) e = refl
part_same t t' (eventstr b) e = refl
part_same t t' (kstack b) e = refl
part_same t t' (object s b) e = refl

-- Table `t'` holds `v` under the key, and under the other keys what `t` holds; its chains are in order,
-- and no node from its free top on is free.
pub record Holds (env : Env) (fuel : ℕ) (t : Tab) (key v : Val) (t' : Tab) : Type 0 where
  pub hmask : t'.hmask ≡ t.hmask
  pub chained : Chained (hashkey env t.hmask) t'.node (suc fuel)
  pub taken : TakenFromTop t'
  pub value : kp_tab_get env (suc fuel) t' key ≡ some v
  pub others :
      (k : Val)
      → is_plain k ≡ true
      → kp_obj_equal key k ≡ false
      → kp_tab_get env (suc fuel) t' k ≡ kp_tab_get env fuel t k

module _ (env : Env) (fuel : ℕ) (t : Tab) (c : Chained (hashkey env t.hmask) t.node fuel)
    (key v : Val) (plain : is_plain key ≡ true) (behind : TakenFromTop t) where
  array_Holds : in_array_part t key ≡ true → Holds env fuel t key v (put v t (in_array (index key)))
  array_Holds there = record {
    hmask = refl;
    chained = Chained-suc c;
    taken = behind;
    value =
        get_lem env (suc fuel) (put v t (in_array (index key))) key plain
        ∙ rw there (ap some (update-same t.array (index key) v));
    others = λ k plain_k d.
        get_lem env (suc fuel) (put v t (in_array (index key))) k plain_k
        ∙ (elim (Bool-cases (in_array_part t k)) [
          | inl y ↦ rw y (
              ap some
                (update-other t.array (index key) (index k) v (index_apart t key k there y d)))
          | inr n ↦ rw n (ap (value_at t.node) (find-suc c k (plain_proper k plain_k)))
        ]
            ∙ sym (get_lem env fuel t k plain_k));
  }

  hash_Holds :
      (t' : Tab)
      → in_array_part t key ≡ false
      → HashSet env t fuel key v t'
      → Holds env fuel t key v t'
  hash_Holds t' away r = record {
    hmask = r.hmask;
    chained = r.chained;
    taken = r.taken;
    value =
        get_lem env (suc fuel) t' key plain
        ∙ rw (part_same t t' key r.asize, away, r.hmask) r.value;
    others = λ k plain_k d.
        get_lem env (suc fuel) t' k plain_k
        ∙ (rw (part_same t t' k r.asize, r.hmask, r.array)
              (elim (Bool-cases (in_array_part t k)) [
                | inl y ↦ rw y refl
                | inr n ↦ rw n (r.others k (plain_proper k plain_k) d)
              ])
            ∙ sym (get_lem env fuel t k plain_k));
  }

  -- `kp_tab_set` of a plain key (not nil, light userdata, an event string or a stack), in a table with
  -- a hash part whose chains are in order and not longer than `fuel`, and where no node from `freetop`
  -- on is free: either the table then holds the value under the key, and under each other plain key
  -- what it held before, with its chains in order again and no node from its `freetop` on free; or no
  -- node of the table is free, and the table, which has no value under the key, stays as it is.
  pub kp_tab_set-Holds :
      0 < t.hmask
      → ((kp_tab_set env t fuel key v ≡ some t) × IsFull t × (kp_tab_get env fuel t key ≡ some nil))
        ⊎ ((t' : Tab) × (kp_tab_set env t fuel key v ≡ some t') × Holds env fuel t key v t')
  kp_tab_set-Holds hashed = elim (Bool-cases (in_array_part t key)) [
    | inl there ↦ inr (_, set_lem env fuel t key v plain ∙ rw there refl, array_Holds there)
    | inr away ↦
        elim (hash_set_lem env t fuel c hashed key (plain_proper key plain) (plain_self key plain)
          behind v) [
            | inl (full, e, none_there) ↦ inl (
              set_lem env fuel t key v plain ∙ rw away e,
              free_below-IsFull t behind full,
              get_lem env fuel t key plain ∙ rw away none_there,
            )
            | inr (t', e, r) ↦
                inr (t', set_lem env fuel t key v plain ∙ rw away e, hash_Holds t' away r)
          ]
  ]
