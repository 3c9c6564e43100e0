-- ===== src/Shmem.antt =====
-- src/shmem.c: the wrappers of the shared allocator. The allocator itself is PostgreSQL's; it
-- enters as the function `alloc`, which answers a request with an address or with 0.
use pg_redis.Base.{
  ℕ, Option, none, some, List, [], ◌∷◌, ◌++◌, ◌==◌, if◌then◌else◌, replicate, Bytes,
}

-- The live chunks of the segment, and the addresses that `dsa_free` was called on, in order.
pub record Dsa : Type 0 where
  pub chunk : ℕ → Option Bytes
  pub freed : List ℕ

abbrev pub invalid_dsa_pointer : ℕ
invalid_dsa_pointer = 0

abbrev pub update : (ℕ → Option Bytes) → ℕ → Option Bytes → ℕ → Option Bytes
update f p c q = if p == q then c else f q

-- `pg_redis_shared_palloc`, with `DSA_ALLOC_NO_OOM` and `DSA_ALLOC_ZERO`
unfoldable pub shared_palloc : (Dsa → ℕ → ℕ) → ℕ → Dsa → ℕ × Dsa
shared_palloc alloc sz d =
    let p = alloc d sz in
    if p == invalid_dsa_pointer
    then (invalid_dsa_pointer, d)
    else (p, record d { chunk = update d.chunk p (some (replicate sz 0)) })

-- `pg_redis_shared_pfree`
unfoldable pub shared_pfree : ℕ → Dsa → Dsa
shared_pfree p d =
    if p == invalid_dsa_pointer
    then d
    else record { chunk = update d.chunk p none; freed = d.freed ++ (p ∷ []) }

-- `pg_redis_shared_addr`: the bytes at an address, `none` for a NULL or dangling one.
unfoldable pub shared_addr : ℕ → Dsa → Option Bytes
shared_addr p d = if p == invalid_dsa_pointer then none else d.chunk p
