-- ===== src/Session.antt =====
-- src/kv_store.c and src/ttl.c in session mode: the keyspace of one backend, the entries it has
-- changed and the keys it has removed since the last flush, and expiry. Memory accounting and the
-- release of memory are left out.
pub mod WellFormed
pub mod Expiry
mod Examples
use pg_redis.Base.{
  ℕ, zero, suc, ◌+◌, ◌*◌, ◌/◌, ◌%◌, ◌^◌, Bool, true, false, not, ◌&&◌, Option, none, some, List, [],
  ◌∷◌, if◌then◌else◌, Bytes, bytes_eq,
}
use pg_redis.Base.Int.{ℤ, pos, negsuc, ◌+ℤ◌, ◌-ℤ◌, ltb_ℤ, pos_part}
use pg_redis.Types.{Value, string_value}
use pg_redis.Ring.{u64}

-- `PgRedisEntry`; its key is the key of the keyspace, and `dirty_next` is the order of the dirty set.
-- `H` and `L` are what the hash and list pointers stand for.
pub record Entry (H L : Type 0) : Type 0 where
  pub value : Value H L
  pub expire_at : ℤ
  pub has_expire : Bool
  pub dirty : Bool
  pub deleted : Bool
  pub in_dirty_set : Bool
  pub version : ℕ

-- `PgRedisStore`, the chain from `dirty_head` and the one from `pending_deletes_head`.
pub record Session (H L : Type 0) : Type 0 where
  pub store : Bytes → Option (Entry H L)
  pub dirty_set : List Bytes
  pub pending_deletes : List Bytes

-- The unlinking from the dirty chain of the first link to the key.
unfoldable pub unlink : Bytes → List Bytes → List Bytes
unlink k [] = []
unlink k (k' ∷ ks) = let rest = unlink k ks in if bytes_eq k' k then ks else k' ∷ rest

-- The value of an int32 cast of a non-negative number.
abbrev pub int32 : ℕ → ℤ
int32 n =
    if ltb_ℤ (pos (n % 2 ^ 32)) (pos (2 ^ 31))
    then pos (n % 2 ^ 32)
    else pos (n % 2 ^ 32) -ℤ pos (2 ^ 32)

module _ {H L : Type 0} where
  -- `hash_search` with HASH_ENTER and HASH_REMOVE: the slot of a key.
  abbrev pub put : Bytes → Option (Entry H L) → Session H L → Session H L
  put k e s = record s { store = λ k'. if bytes_eq k k' then e else s.store k' }

  abbrev pub fresh : Entry H L
  fresh = record {
    value = string_value none;
    expire_at = pos 0;
    has_expire = false;
    dirty = false;
    deleted = false;
    in_dirty_set = false;
    version = 1;
  }

  -- `pg_redis_entry_release_value`
  unfoldable pub release_value : Bool → Entry H L → Entry H L
  release_value also_reset_meta e =
      if also_reset_meta
      then record e {
        value = string_value none;
        expire_at = pos 0;
        has_expire = false;
        dirty = false;
        deleted = false;
        version = 0;
      }
      else record e { value = string_value none }

  -- `pg_redis_entry_is_expired` at the time `now`
  unfoldable pub entry_is_expired : ℤ → Entry H L → Bool
  entry_is_expired now e = e.has_expire && not (ltb_ℤ now e.expire_at)

  -- `pg_redis_mark_deleted`: an empty key is passed over.
  unfoldable pub mark_deleted : Bytes → Session H L → Session H L
  mark_deleted [] s = s
  mark_deleted (c ∷ k) s = record s { pending_deletes = (c ∷ k) ∷ s.pending_deletes }

  -- `pg_redis_store_remove`
  unfoldable pub remove : Bytes → Session H L → Bool × Session H L
  unfolding mark_deleted unlink
  remove k s = elim (s.store k) [
    | none ↦ (false, s)
    | some e ↦ (
      true,
      put k none (
          mark_deleted k (record s {
            dirty_set = if e.in_dirty_set then unlink k s.dirty_set else s.dirty_set;
          })),
    )
  ]

  -- `pg_redis_store_lookup`; the flag is `found_expired`.
  unfoldable pub lookup : ℤ → Bytes → Session H L → Option (Entry H L) × Bool × Session H L
  unfolding remove entry_is_expired
  lookup now k s = elim (s.store k) [
    | none ↦ (none, false, s)
    | some e ↦ if entry_is_expired now e then (none, true, (remove k s).1) else (some e, false, s)
  ]

  -- `pg_redis_store_upsert`; the flag is `is_new`.
  unfoldable pub upsert : ℤ → Bytes → Session H L → Entry H L × Bool × Session H L
  unfolding release_value entry_is_expired
  upsert now k s = elim (s.store k) [
    | none ↦ (fresh, true, put k (some fresh) s)
    | some e ↦
        if entry_is_expired now e
        then (let e' = record (release_value true e) { version = 1 } in
            (e', true, put k (some e') s))
        else (e, false, s)
  ]

  -- `pg_redis_mark_dirty` of the entry of a key
  unfoldable pub mark_dirty : Bytes → Session H L → Session H L
  mark_dirty k s = elim (s.store k) [
    | none ↦ s
    | some e ↦
        if e.in_dirty_set
        then s
        else put k (some (record e { in_dirty_set = true; dirty = true }))
            (record s { dirty_set = k ∷ s.dirty_set })
  ]

  -- The loop of `pg_redis_dirty_clear`
  unfoldable pub clear_flags : List Bytes → Session H L → Session H L
  clear_flags [] s = s
  clear_flags (k ∷ ks) s = elim (s.store k) [
    | none ↦ clear_flags ks s
    | some e ↦ clear_flags ks (put k (some (record e { in_dirty_set = false })) s)
  ]

  -- `pg_redis_dirty_clear`
  unfoldable pub dirty_clear : Session H L → Session H L
  unfolding clear_flags
  dirty_clear s = record (clear_flags s.dirty_set s) { dirty_set = [] }

  -- `pg_redis_pending_deletes_clear`
  unfoldable pub pending_deletes_clear : Session H L → Session H L
  pending_deletes_clear s = record s { pending_deletes = [] }

  -- `pg_redis_set_expire_seconds`; `seconds` is an int32, so the sum stays an int64.
  unfoldable pub set_expire_seconds : ℤ → Bytes → ℤ → Session H L → Bool × Session H L
  unfolding lookup remove
  set_expire_seconds now k (negsuc n) s =
      let (found, expired, s') = lookup now k s in
      elim found [ none ↦ (false, s') | some e ↦ (true, (remove k s').1) ]
  set_expire_seconds now k (pos zero) s =
      let (found, expired, s') = lookup now k s in
      elim found [ none ↦ (false, s') | some e ↦ (true, (remove k s').1) ]
  set_expire_seconds now k (pos (suc n)) s =
      let (found, expired, s') = lookup now k s in
      elim found [
        | none ↦ (false, s')
        | some e ↦ (
          true,
          put k
              (some (record e {
                has_expire = true;
                expire_at = now +ℤ pos (suc n * 1000 * 1000);
                dirty = true;
                version = u64 (e.version + 1);
              }))
              s',
        )
      ]

  -- `pg_redis_ttl_seconds`; the clock is read at `now` by the lookup and at `later` after it.
  unfoldable pub ttl_seconds : ℤ → ℤ → Bytes → Session H L → ℤ × Session H L
  unfolding lookup remove
  ttl_seconds now later k s =
      let (found, expired, s') = lookup now k s in
      elim found [
        | none ↦ (negsuc 1, s')
        | some e ↦
            if not e.has_expire
            then (negsuc 0, s')
            else if not (ltb_ℤ later e.expire_at)
            then (negsuc 1, (remove k s').1)
            else (int32 ((pos_part (e.expire_at -ℤ later) + 999999) / 1000000), s')
      ]

  -- The second pass of `pg_redis_ttl_sweep`.
  unfoldable pub remove_all : List Bytes → Session H L → ℕ × Session H L
  unfolding remove
  remove_all [] s = (0, s)
  remove_all (k ∷ ks) s =
      let (removed, s') = remove k s in
      let (n, s'') = remove_all ks s' in (if removed then suc n else n, s'')

  -- The first pass: the expired ones of the keys that the scan of the keyspace yields.
  unfoldable pub victims : ℤ → List Bytes → Session H L → List Bytes
  unfolding entry_is_expired
  victims now [] s = []
  victims now (k ∷ ks) s =
      let rest = victims now ks s in
      elim (s.store k) [ none ↦ rest | some e ↦ if entry_is_expired now e then k ∷ rest else rest ]

  -- `pg_redis_ttl_sweep`
  unfoldable pub ttl_sweep : ℤ → List Bytes → Session H L → ℕ × Session H L
  unfolding remove_all victims
  ttl_sweep now scan s = remove_all (victims now scan s) s
