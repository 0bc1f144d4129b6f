-- ===== src/Ktap/Tab/Tests.antt =====
-- The tables of ktap-master/runtime/kp_tab.c on concrete inputs.
use reading_comment.Common.{inl, inr, ◌≡◌, ◌⊎◌, refl, true, false, Option, none, some, arith}
use reading_comment.Ktap.Tab.{Val, nil, number, string, Tab, Env, hashkey, find, kp_obj_equal}
use reading_comment.Ktap.Tab.Get.{kp_tab_get, tab_getstr}
use reading_comment.Ktap.Tab.Set.{
  free_below, kp_tab_set, tab_set, tab_setstr, find_or_new, kp_tab_newkey, collided, insert_behind,
}
use reading_comment.Ktap.Tab.Newkey.{IsFull}
use reading_comment.Ktap.Tab.Chains.{Chained}
use reading_comment.Ktap.Tab.Refine.{Holds, kp_tab_set-Holds}
use reading_comment.Ktap.Tab.Walk.{kp_tab_next, keyindex, next_from, scan_array}
use reading_comment.Ktap.Tab.Walk.Steps.{Returns, kp_tab_next-Returns}
use reading_comment.Ktap.Tab.New.{kp_tab_new, kp_tab_clear, empty_node}
use reading_comment.Ktap.Tab.New.Fresh.{IsFresh, kp_tab_clear-IsFresh, kp_tab_new-IsFresh}

-- All strings have the same hash.
abbrev env : Env
env = record {
  hash = λ s. 5;
  current_event = false;
  stringify = none;
  kstack2str = λ depth skip. none;
}

abbrev old_table : Tab
old_table = record {
  array = λ i. nil;
  node = λ i. empty_node;
  freetop = 2;
  asize = 4;
  hmask = 3;
  hnum = 7;
}

kp_tab_new-IsFresh_example :
    (t : Tab) × (kp_tab_new true true old_table 256 11 ≡ some t)
    × (t.asize ≡ 256)
    × (t.hmask ≡ 2047)
    × (t.freetop ≡ 2048)
    × IsFresh env t
kp_tab_new-IsFresh_example =
    kp_tab_new-IsFresh env old_table 256 11 (omega arith) (omega arith) (omega arith)

abbrev clear_table : Tab
clear_table = record old_table { freetop = 4; hnum = 0 }

clear_table-Chained : Chained (hashkey env 3) clear_table.node 1
unfolding kp_tab_clear
clear_table-Chained = (kp_tab_clear-IsFresh env old_table (omega arith)).0.chained

kp_tab_set-Holds_example :
    ((kp_tab_set env clear_table 1 (string 80) (number 6) ≡ some clear_table)
      × IsFull clear_table
      × (kp_tab_get env 1 clear_table (string 80) ≡ some nil))
    ⊎ ((t : Tab) × (kp_tab_set env clear_table 1 (string 80) (number 6) ≡ some t)
        × Holds env 1 clear_table (string 80) (number 6) t)
kp_tab_set-Holds_example =
    kp_tab_set-Holds env 1 clear_table clear_table-Chained (string 80) (number 6) refl
      (λ i above inside. absurd (omega (arith, above, inside))) (omega arith)

abbrev get_from : Option Tab → Val → Option Val
get_from none k = none
get_from (some t) k = kp_tab_get env 3 t k

abbrev set_in : Option Tab → Val → Val → Option Tab
set_in none k v = none
set_in (some t) k v = kp_tab_set env t 2 k v

-- Two strings with one main node
both_found :
    let t = set_in (set_in (some clear_table) (string 80) (number 6)) (string 90) (number 7) in
    (get_from t (string 80) ≡ some (number 6)) × (get_from t (string 90) ≡ some (number 7))
unfolding kp_tab_get tab_getstr kp_tab_set tab_set tab_setstr find_or_new kp_tab_newkey collided
    insert_behind free_below find hashkey kp_obj_equal
both_found = (refl, refl)

abbrev array_table : Tab
array_table = record clear_table { array = λ i. number i }

-- Behind slot 3 there are only empty nodes.
kp_tab_next-Returns_example : Returns array_table 4 (kp_tab_next env 1 array_table (number 3))
kp_tab_next-Returns_example =
    kp_tab_next-Returns env 1 array_table (number 3) 4 clear_table-Chained (omega arith)
      (inr (inl (refl, refl)))

second_slot : kp_tab_next env 1 array_table (number 0) ≡ some (some (number 1, number 1))
unfolding kp_tab_next keyindex next_from scan_array
second_slot = refl
