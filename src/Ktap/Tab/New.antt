-- ===== src/Ktap/Tab/New.antt =====
-- New and cleared tables (ktap-master/runtime/kp_tab.c).
pub mod Fresh
use reading_comment.Common.{ℕ, ◌+◌, ◌-◌, ◌^◌, Bool, Option, none, some, ltb, ◌==◌, if◌then◌else◌}
use reading_comment.Ktap.Tab.{Val, nil, Node, Tab}

-- KP_MAX_HBITS and KP_MAX_ASIZE
abbrev max_hbits : ℕ
max_hbits = 26

abbrev max_asize : ℕ
max_asize = 2 ^ 27 + 1

-- `newhpart`, which fails on too many bits, or when `vmalloc` does
unfoldable pub newhpart : Bool → Tab → ℕ → Option Tab
newhpart memory t hbits =
    if ltb max_hbits hbits
    then none
    else if memory
    then some (record t { freetop = 2 ^ hbits; hmask = 2 ^ hbits - 1 })
    else none

abbrev pub empty_node : Node
empty_node = record { val = nil; key = nil; next = none }

-- The nodes up to `hmask` are all that there are, and the slots in front of `asize`.
abbrev pub clearhpart : Tab → Tab
clearhpart t = record t { node = λ i. empty_node; hnum = 0 }

abbrev pub clearapart : Tab → Tab
clearapart t = record t { array = λ i. nil }

abbrev with_hpart : Bool → Tab → ℕ → Option Tab
with_hpart memory t hbits = if hbits == 0 then some t else newhpart memory t hbits

-- `newtab`; `t` is what stands in the memory of the object, and the flags tell whether `vmalloc` gives
-- memory for the array and for the nodes. NULL is `none`.
unfoldable pub newtab : Bool → Bool → Tab → ℕ → ℕ → Option Tab
newtab array_memory node_memory t asize hbits =
    if asize == 0
    then with_hpart node_memory (record t { asize = 0; hmask = 0 }) hbits
    else if ltb max_asize asize
    then none
    else if array_memory
    then with_hpart node_memory (record t { asize = asize; hmask = 0 }) hbits
    else none

abbrev cleared : Option Tab → Option Tab
cleared none = none
cleared (some t) =
    if ltb 0 (clearapart t).hmask then some (clearhpart (clearapart t)) else some (clearapart t)

unfoldable pub kp_tab_new : Bool → Bool → Tab → ℕ → ℕ → Option Tab
kp_tab_new array_memory node_memory t asize hbits =
    cleared (newtab array_memory node_memory t asize hbits)

unfoldable pub kp_tab_clear : Tab → Tab
kp_tab_clear t =
    if ltb 0 (clearapart t).hmask
    then clearhpart (record (clearapart t) { freetop = t.hmask + 1 })
    else clearapart t
