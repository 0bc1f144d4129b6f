-- ===== src/Ktap/Mempool/Blocks.antt =====
-- Which blocks the memory pool of ktap-master/runtime/kp_mempool.c gives out.
use reading_comment.Common.{
  ℕ, ◌+◌, ◌*◌, ◌^◌, ◌<◌, ◌≡◌, Option, some, List, [], ◌∷◌, u64_mod, sum, arith,
}
use reading_comment.Ktap.Mempool.{Mempool, kp_mempool_alloc, kp_mempool_init, alloc_all}

-- Blocks of these sizes, one behind the other from an address on.
abbrev pub blocks_from : ℕ → List ℕ → List (Option ℕ)
blocks_from a [] = []
blocks_from a (n ∷ ns) = some a ∷ blocks_from (a + n) ns

kp_mempool_alloc-some :
    (p : Mempool) (size : ℕ)
    → 0 < p.mempool
    → p.mempool + p.mp_size < u64_mod
    → p.mp_freepos + size < u64_mod
    → kp_mempool_alloc p size ≡ (some p.mp_freepos, record p { mp_freepos = p.mp_freepos + size })
unfolding kp_mempool_alloc
kp_mempool_alloc-some p size h k l = ground arith

alloc_all-blocks :
    (p : Mempool) (sizes : List ℕ)
    → 0 < p.mempool
    → p.mempool + p.mp_size < u64_mod
    → p.mp_freepos + sum sizes < u64_mod
    → alloc_all p sizes
      ≡ (blocks_from p.mp_freepos sizes, record p { mp_freepos = p.mp_freepos + sum sizes })
unfolding alloc_all
alloc_all-blocks p [] h k l = ground arith
alloc_all-blocks p (n ∷ ns) h k l = rw (kp_mempool_alloc-some p n h k (omega arith)) (
    ground
      (arith, alloc_all-blocks (record p { mp_freepos = p.mp_freepos + n }) ns h k (omega arith)))

-- From a pool of less than 2^31 bytes that `kp_mempool_init` has set up, where no address wraps: each allocation succeeds, and
-- the blocks lie one behind the other from the pool's first byte on, also those that lie behind the
-- pool's last byte.
pub kp_mempool_init-blocks :
    (address kilobytes : ℕ) (p : Mempool) (sizes : List ℕ)
    → 0 < address
    → kilobytes * 1024 < 2 ^ 31
    → address + kilobytes * 1024 < u64_mod
    → address + sum sizes < u64_mod
    → let q = (kp_mempool_init address p kilobytes).1 in
      ((alloc_all q sizes).0 ≡ blocks_from address sizes)
      × ((alloc_all q sizes).1.mp_freepos ≡ address + sum sizes)
unfolding kp_mempool_init
kp_mempool_init-blocks address kilobytes p sizes h i k l =
    let q : Mempool = record {
      mempool = address;
      mp_freepos = address;
      mp_size = kilobytes * 1024;
    } in
    ground (arith, alloc_all-blocks q sizes h k l)
