-- ===== src/Ktap/Tests.antt =====
-- The memory pool and the strings of ktap-master/runtime on concrete inputs.
use reading_comment.Common.{◌≡◌, some, [], ◌∷◌, arith}
use reading_comment.Ktap.Mempool.{Mempool, kp_mempool_init, alloc_all}
use reading_comment.Ktap.Mempool.Blocks.{kp_mempool_init-blocks}
use reading_comment.Common.Strings.{below}
use reading_comment.Ktap.Str.{kp_str_cmp}
use reading_comment.Ktap.Str.Order.{kp_str_cmp_lem}

abbrev no_pool : Mempool
no_pool = record { mempool = 0; mp_freepos = 0; mp_size = 0 }

-- The second block ends behind a pool of one kilobyte.
kp_mempool_init-blocks_example :
    let q = (kp_mempool_init 4096 no_pool 1).1 in
    ((alloc_all q (1000 ∷ 100 ∷ [])).0 ≡ some 4096 ∷ some 5096 ∷ [])
    × ((alloc_all q (1000 ∷ 100 ∷ [])).1.mp_freepos ≡ 5196)
kp_mempool_init-blocks_example =
    kp_mempool_init-blocks 4096 1 no_pool (1000 ∷ 100 ∷ []) (omega arith) (omega arith)
      (omega arith) (omega arith)

kp_str_cmp_lem_example : kp_str_cmp 4 (b'a' ∷ 0 ∷ b'a' ∷ []) (b'a' ∷ 0 ∷ b'b' ∷ []) ≡ some below
kp_str_cmp_lem_example =
    kp_str_cmp_lem 4 (b'a' ∷ 0 ∷ b'a' ∷ []) (b'a' ∷ 0 ∷ b'b' ∷ []) (omega arith)
