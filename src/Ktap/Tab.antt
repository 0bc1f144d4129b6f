-- ===== src/Ktap/Tab.antt =====
-- The hash part and the array part of ktap's tables: ktap-master/runtime/kp_tab.c and kp_tab.h, with
-- `kp_obj_equal` of kp_obj.c. Nodes are numbered from `t->node` on, and numbers are 64-bit patterns.
-- Locks are left out.
pub mod Get
pub mod Set
pub mod Chains
pub mod Rebuilt
pub mod Splice
pub mod Collide
pub mod Newkey
pub mod Enter
pub mod Entered
pub mod Moved
pub mod Stored
pub mod Lookup
pub mod Refine
pub mod New
pub mod Walk
mod Tests
pub mod Insert
use Prim.Native.Nat.{bit_and, bit_or, bit_xor}
use reading_comment.Common.{
  ℕ, zero, suc, ◌+◌, ◌-◌, ◌*◌, ◌/◌, ◌%◌, ◌^◌, Bool, true, false, not, ◌&&◌, Option, none, some, ltb,
  ◌==◌, if◌then◌else◌, sub32, add32, add64, u32_mod, u16_mod,
}

-- `ktap_val_t`. The values of the kinds that the tables do not tell apart are objects: their type, and
-- the union as a number.
pub data Val : Type 0 where
  nil : Val
  boolean : Bool → Val
  number : ℕ → Val
  string : ℕ → Val
  eventstr : ℕ → Val
  kstack : ℕ → Val
  object : ℕ → ℕ → Val

abbrev pub is_nil : Val → Bool
is_nil nil = true
is_nil _ = false

abbrev same_bool : Bool → Bool → Bool
same_bool true b = b
same_bool false b = not b

-- KTAP_TLIGHTUD
abbrev pub lightud : ℕ
lightud = u32_mod - 5

-- `kp_obj_equal` of two values at different places: `pvalue`, by which light userdata are compared, is
-- the place.
unfoldable pub kp_obj_equal : Val → Val → Bool
kp_obj_equal nil nil = true
kp_obj_equal (boolean a) (boolean b) = same_bool a b
kp_obj_equal (number a) (number b) = a == b
kp_obj_equal (string a) (string b) = a == b
kp_obj_equal (eventstr a) (eventstr b) = a == b
kp_obj_equal (kstack a) (kstack b) = a == b
kp_obj_equal (object s a) (object t b) = s == t && (not (s == lightud) && a == b)
kp_obj_equal _ _ = false

-- `ktap_node_t`
pub record Node : Type 0 where
  pub val : Val
  pub key : Val
  pub next : Option ℕ

-- `ktap_tab_t`
pub record Tab : Type 0 where
  pub array : ℕ → Val
  pub node : ℕ → Node
  pub freetop : ℕ
  pub asize : ℕ
  pub hmask : ℕ
  pub hnum : ℕ

-- The hashes of the strings, the string that `kp_event_stringify` makes if an event is current, and
-- those that `kp_obj_kstack2str` makes
pub record Env : Type 0 where
  pub hash : ℕ → ℕ
  pub current_event : Bool
  pub stringify : Option ℕ
  pub kstack2str : ℕ → ℕ → Option ℕ

abbrev pub update : {A : Type 0} → (ℕ → A) → ℕ → A → ℕ → A
update f i a j = if i == j then a else f j

-- `kp_rol`
abbrev kp_rol : ℕ → ℕ → ℕ
kp_rol x n = bit_or ((x * 2 ^ n) % u32_mod) (x / 2 ^ (32 - n))

-- `hashrot`
unfoldable pub hashrot : ℕ → ℕ → ℕ
hashrot lo hi =
    let lo1 = bit_xor lo hi in
    let hi1 = kp_rol hi 14 in
    let lo2 = sub32 lo1 hi1 in let hi2 = kp_rol hi1 5 in sub32 (bit_xor hi2 lo2) (kp_rol lo2 13)

abbrev hashnum : ℕ → ℕ
hashnum n = hashrot (n % u32_mod) 0

abbrev hashgcref : ℕ → ℕ
hashgcref gc = hashrot (gc % u32_mod) (sub32 (gc % u32_mod) 79764919)

module _ (env : Env) where
  -- The hash of a key. That of nil, whose union has no value set, is not used.
  abbrev key_hash : Val → ℕ
  key_hash nil = 0
  key_hash (boolean b) = if b then 1 else 0
  key_hash (number n) = hashnum n
  key_hash (string s) = env.hash s
  key_hash (eventstr gc) = hashgcref gc
  key_hash (kstack gc) = hashgcref gc
  key_hash (object s gc) = hashgcref gc

  -- `hashkey` in a table with the mask `hmask`
  unfoldable pub hashkey : ℕ → Val → ℕ
  hashkey hmask key = bit_and (key_hash key) hmask

-- The loop over a chain: the node with the key, if there is one; `none` is a chain of more nodes than
-- `fuel`.
unfoldable pub find : Val → (ℕ → Node) → ℕ → ℕ → Option (Option ℕ)
find key node zero n = none
find key node (suc fuel) n =
    let rest : Option (Option ℕ) = elim (node n).next [
      | none ↦ some none
      | some m ↦ find key node fuel m
    ] in
    if kp_obj_equal (node n).key key then some (some n) else rest
