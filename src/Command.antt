-- ===== src/Command.antt =====
-- src/pg_redis.c: the SQL commands on one key, with session storage and after `ensure_loaded`.
-- What a command does with the value of its key is in Effect.
pub mod Contents
pub mod Entries
pub mod Values
pub mod Fields
pub mod Queues
pub mod Refines
pub mod Keys
pub mod Calls
pub mod Tracked
pub mod Marks
pub mod Sequences
pub mod Stale
pub mod Revived
mod Examples
use pg_redis.Base.{
  ℕ, zero, suc, ◌+◌, Bool, true, false, not, ◌&&◌, ◌||◌, Option, none, some, ltb, ◌==◌,
  if◌then◌else◌, is_some, length, Bytes,
}
use pg_redis.Base.Int.{ℤ, pos, negsuc, ◌+ℤ◌, ltb_ℤ, to_u64, of_u64}
use pg_redis.Types.{
  ValueType, type_string, type_int, type_hash, type_list, Value, string_value, int_value,
  hash_value, list_value, type_of,
}
use pg_redis.Modes.{Check, accepted, check_key_len, check_field_len, check_value_len}
use pg_redis.Ring.{u64}
use pg_redis.HashValue.{Hash, hash_create, hash_set, hash_get, hash_exists, hash_del}
use pg_redis.ListValue.{
  Chain, list_create, list_lpush, list_rpush, list_lpop, list_rpop, list_length,
}
use pg_redis.Session.{
  Entry, Session, put, release_value, lookup, upsert, remove, mark_dirty, set_expire_seconds,
  ttl_seconds,
}
use pg_redis.Effect.{
  Error, Reply, Result, Effect, Settings, parse_int64, get_value, count_from, incr_value, set_field,
  hset_value, on_hash, hget_value, hdel_value, hexists_value, push_to, push_value, on_list,
  pop_value, llen_value, bad_key, bad_field, bad_value, wrong_type, not_an_integer, field_too_long,
  bool_reply, int_reply, text_reply, ok, raised, undefined, fails, breaks, crashes, answers, writes,
}

abbrev pub Keyspace : Type 0
Keyspace = Session Hash Chain

-- The arguments beside the key.
pub data Op : Type 0 where
  op_set : Bytes → Op
  op_get op_del op_exists : Op
  op_expire : ℤ → Op
  op_incr op_decr : Op
  op_hset : Bytes → Bytes → Op
  op_hget op_hdel op_hexists : Bytes → Op
  op_lpush op_rpush : Bytes → Op
  op_lpop op_rpop op_llen : Op

abbrev pub check : Check → Error → Option Error
check accepted e = none
check _ e = some e

abbrev pub or_next : Option Error → Option Error → Option Error
or_next none next = next
or_next (some e) next = some e

-- The length checks of a command, in the order of the code.
unfoldable pub check_args : Settings → Op → Bytes → Option Error
check_args c op k =
    let key = check_key_len c.max_key (length k) in
    let checked_value = λ (v : Bytes).
      let value = check_value_len c.max_value (length v) in check value (bad_value value) in
    let checked_field =
      λ (f : Bytes). let field = check_field_len (length f) in check field (bad_field field) in
    or_next (check key (bad_key key)) (elim op [
      | op_set v ↦ checked_value v
      | op_hset f v ↦ or_next (checked_field f) (checked_value v)
      | op_hget f ↦ checked_field f
      | op_hdel f ↦ checked_field f
      | op_hexists f ↦ checked_field f
      | op_lpush v ↦ checked_value v
      | op_rpush v ↦ checked_value v
      | _ ↦ none
    ])

-- The entry with a new value, and with its version counted up.
abbrev pub changed : Value Hash Chain → Entry Hash Chain → Entry Hash Chain
changed v e = record e { value = v; version = u64 (e.version + 1) }

-- What follows the command's work on the value of the entry.
abbrev pub finish : Bytes → Entry Hash Chain → Keyspace → Effect → Result × Keyspace
finish k e s (fails x) = (raised x, s)
finish k e s (breaks x v) = (raised x, put k (some (record e { value = v })) s)
finish k e s crashes = (undefined, s)
finish k e s (answers r) = (ok r, s)
finish k e s (writes r v) = (ok r, mark_dirty k (put k (some (changed v e)) s))

-- The commands that create the key: `pg_redis_store_upsert`, the value, `pg_redis_mark_dirty`.
unfoldable pub update :
    ℤ → Bytes → (Bool → Value Hash Chain → Effect) → Keyspace → Result × Keyspace
unfolding upsert
update now k f s = let (e, is_new, s') = upsert now k s in finish k e s' (f is_new e.value)

-- The commands that need the key: `pg_redis_store_lookup`, the value, `pg_redis_mark_dirty`.
unfoldable pub access :
    ℤ → Bytes → Reply → (Value Hash Chain → Effect) → Keyspace → Result × Keyspace
unfolding lookup
access now k absent f s =
    let (found, expired, s') = lookup now k s in
    elim found [ none ↦ (ok absent, s') | some e ↦ finish k e s' (f e.value) ]

-- The release of a value of another type in `pg_redis_set`, and its new value.
abbrev pub released : Bool → Entry Hash Chain → Entry Hash Chain
released is_new e =
    if not is_new && elim e.value [ string_value _ ↦ false | _ ↦ true ]
    then release_value false e
    else e

abbrev pub stored : Bytes → Entry Hash Chain → Entry Hash Chain
stored v e = record (changed (string_value (some v)) e) { dirty = true; deleted = false }

-- `pg_redis_set`
unfoldable pub redis_set : ℤ → Bytes → Bytes → Keyspace → Result × Keyspace
unfolding upsert
redis_set now k v s =
    let (e, is_new, s') = upsert now k s in
    (ok (bool_reply true), mark_dirty k (put k (some (stored v (released is_new e))) s'))

-- `pg_redis_del`
unfoldable pub redis_del : Bytes → Keyspace → Result × Keyspace
unfolding remove
redis_del k s = let (removed, s') = remove k s in (ok (bool_reply removed), s')

-- `pg_redis_expire`
unfoldable pub redis_expire : ℤ → Bytes → ℤ → Keyspace → Result × Keyspace
unfolding set_expire_seconds
redis_expire now k seconds s =
    let (done, s') = set_expire_seconds now k seconds s in
    (ok (bool_reply done), if done && ltb_ℤ (pos 0) seconds then mark_dirty k s' else s')

-- A command after its length checks.
unfoldable pub act : Settings → ℤ → Op → Bytes → Keyspace → Result × Keyspace
unfolding update access redis_set redis_del redis_expire
act c now (op_set v) k = redis_set now k v
act c now op_get k = access now k (text_reply none) (get_value c)
act c now op_del k = redis_del k
act c now op_exists k = access now k (bool_reply false) (λ _. answers (bool_reply true))
act c now (op_expire n) k = redis_expire now k n
act c now op_incr k = update now k (incr_value c (pos 1))
act c now op_decr k = update now k (incr_value c (negsuc 0))
act c now (op_hset f v) k = update now k (hset_value f v)
act c now (op_hget f) k = access now k (text_reply none) (on_hash (hget_value f))
act c now (op_hdel f) k = access now k (bool_reply false) (on_hash (hdel_value f))
act c now (op_hexists f) k = access now k (bool_reply false) (on_hash (hexists_value f))
act c now (op_lpush v) k = update now k (push_value true v)
act c now (op_rpush v) k = update now k (push_value false v)
act c now op_lpop k = access now k (text_reply none) (on_list (pop_value true))
act c now op_rpop k = access now k (text_reply none) (on_list (pop_value false))
act c now op_llen k = access now k (int_reply (pos 0)) (on_list llen_value)

-- A call of the command `op` on the key `k` at the time `now`.
unfoldable pub run : Settings → ℤ → Op → Bytes → Keyspace → Result × Keyspace
unfolding act
run c now op k s = elim (check_args c op k) [ some e ↦ (raised e, s) | none ↦ act c now op k s ]
