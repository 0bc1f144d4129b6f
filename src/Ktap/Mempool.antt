-- ===== src/Ktap/Mempool.antt =====
-- The memory pool of ktap-master/runtime/kp_mempool.c. Addresses are numbers below 2^64, and NULL is 0.
pub mod Blocks
use reading_comment.Common.{
  ℕ, ◌+◌, ◌*◌, ◌%◌, Bool, true, false, Option, none, some, List, [], ◌∷◌, ltb, ◌==◌, if◌then◌else◌,
  add64, u64_mod,
}

-- The part of `ktap_global_state_t` that the pool uses, without the lock.
pub record Mempool : Type 0 where
  pub mempool : ℕ
  pub mp_freepos : ℕ
  pub mp_size : ℕ

-- `__builtin_expect(!!(x), 0)`
abbrev pub unlikely : ℕ → ℕ
unlikely x = if x == 0 then 0 else 1

-- `kp_mempool_alloc`, for a size that is not negative: the address, NULL as `none`. It is `unlikely` of
-- the end of the block that is compared with the end of the pool.
unfoldable pub kp_mempool_alloc : Mempool → ℕ → Option ℕ × Mempool
kp_mempool_alloc p size =
    if ltb (add64 p.mempool p.mp_size) (unlikely (add64 p.mp_freepos size))
    then (none, p)
    else (some p.mp_freepos, record p { mp_freepos = add64 p.mp_freepos size })

-- `kp_mempool_destroy`; `vfree` is the system's.
unfoldable pub kp_mempool_destroy : Mempool → Mempool
kp_mempool_destroy p =
    if p.mempool == 0 then p else record { mempool = 0; mp_freepos = 0; mp_size = 0 }

-- `kp_mempool_init` with the address that `vmalloc` returns: false for -ENOMEM. `size` is in kilobytes,
-- of which an `int` holds the bytes.
unfoldable pub kp_mempool_init : ℕ → Mempool → ℕ → Bool × Mempool
kp_mempool_init address p size =
    if address == 0
    then (false, record p { mempool = 0 })
    else (true, record { mempool = address; mp_freepos = address; mp_size = size * 1024 })

-- Allocations one after the other.
unfoldable pub alloc_all : Mempool → List ℕ → List (Option ℕ) × Mempool
alloc_all p [] = ([], p)
alloc_all p (n ∷ ns) =
    let (a, q) = kp_mempool_alloc p n in let (rest, r) = alloc_all q ns in (a ∷ rest, r)
