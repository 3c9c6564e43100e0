-- ===== src/Session/Examples.antt =====
-- The session store at a concrete key.
use pg_redis.Base.{ℕ, ◌+◌, ◌*◌, ◌<◌, ◌≤◌, ◌≡◌, refl, none, some, [], ◌∷◌, arith, Bytes, bytes_eq}
use pg_redis.Base.Int.{pos, ◌+ℤ◌, ◌-ℤ◌, pos_part}
use pg_redis.Session.{
  Session, put, fresh, entry_is_expired, mark_deleted, remove, lookup, upsert, mark_dirty,
  dirty_clear, set_expire_seconds, ttl_seconds, ttl_sweep, pending_deletes_clear,
}
use pg_redis.Session.WellFormed.{IsLinked, links, operations-IsLinked}
use pg_redis.Session.Expiry.{ttl_seconds-set_expire}

abbrev key_k : Bytes
key_k = b'k' ∷ []

abbrev no_keys : Session ℕ ℕ
no_keys = record { store = λ k. none; dirty_set = []; pending_deletes = [] }

abbrev one_key : Session ℕ ℕ
one_key = put key_k (some fresh) no_keys

no_keys-IsLinked : IsLinked no_keys
unfolding links
no_keys-IsLinked k = refl

-- The key is there and in the dirty set.
abbrev marked : Session ℕ ℕ
marked = mark_dirty key_k (upsert (pos 5) key_k no_keys).2

marked-IsLinked : IsLinked marked
marked-IsLinked =
    (operations-IsLinked (pos 5) (pos 7) (pos 60) key_k [] (upsert (pos 5) key_k no_keys).2
      (operations-IsLinked (pos 5) (pos 7) (pos 60) key_k [] no_keys no_keys-IsLinked).2).3

operations-IsLinked_example :
    IsLinked (remove key_k marked).1
    × IsLinked (lookup (pos 5) key_k marked).2
    × IsLinked (upsert (pos 5) key_k marked).2
    × IsLinked (mark_dirty key_k marked)
    × IsLinked (mark_deleted key_k marked)
    × IsLinked (dirty_clear marked)
    × IsLinked (set_expire_seconds (pos 5) key_k (pos 60) marked).1
    × IsLinked (ttl_sweep (pos 5) (key_k ∷ []) marked).1
    × IsLinked (ttl_seconds (pos 5) (pos 7) key_k marked).1
    × IsLinked (pending_deletes_clear marked)
operations-IsLinked_example =
    operations-IsLinked (pos 5) (pos 7) (pos 60) key_k (key_k ∷ []) marked marked-IsLinked

ttl_seconds-set_expire_example :
    let left = pos_part ((pos 5 +ℤ pos (60 * 1000 * 1000)) -ℤ pos 7) in
    (t : ℕ) × ((ttl_seconds
        (pos 6)
        (pos 7)
        key_k
        (set_expire_seconds (pos 5) key_k (pos 60) one_key).1).0
      ≡ pos t)
    × (left ≤ t * 1000000)
    × (t * 1000000 < left + 1000000)
    × (t ≤ 60)
unfolding entry_is_expired bytes_eq ◌+ℤ◌
ttl_seconds-set_expire_example =
    ttl_seconds-set_expire (pos 5) (pos 6) (pos 7) key_k 59 fresh one_key refl refl (omega arith)
      (omega arith) refl refl
