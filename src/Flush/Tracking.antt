-- ===== src/Flush/Tracking.antt =====
-- The marks of a hash, through its operations, and the flush that relies on them.
use pg_redis.Base.{
  ◌+◌, ◌^◌, ◌<◌, refl, inl, inr, Bool, true, false, Option, none, some, length, Bytes, bytes_eq,
  Bool-cases,
}
use pg_redis.Types.{hash_value}
use pg_redis.HashValue.{Hash, sizeof_field, hash_set, hash_del}
use pg_redis.HashValue.Accounts.{IsHash, SetsTo, DeletesTo, hash_set-SetsTo, hash_del-DeletesTo}
use pg_redis.Durable.{Tables, has_key}
use pg_redis.Flush.Commit.{Tracks}

-- What a call leaves of the hash.
abbrev pub TracksAfter : Bytes → Tables → Option (Bool × Hash) → Type 0
TracksAfter k t none = Unit
TracksAfter k t (some (is_new, h)) = IsHash h × Tracks k (hash_value (some h)) t

module _ (k : Bytes) (t : Tables) (h : Hash) (field : Bytes)
    (tracks : Tracks k (hash_value (some h)) t) where
  set_tracks :
      (value : Bytes) (r : Option (Bool × Hash)) → SetsTo h field value r → TracksAfter k t r
  set_tracks value none s = tt
  set_tracks value (some (is_new, h')) s = (
    s.0,
    (
      s.0.map,
      λ f. elim (Bool-cases (bytes_eq field f)) [
        | inl e ↦ rw (s.2 f, e) (λ d. cc)
        | inr e ↦ rw (s.2 f, e, s.4) (tracks.1 f)
      ],
    ),
  )

  pub del_tracks : (r : Bool × Hash) → DeletesTo h field r → TracksAfter k t (some r)
  unfolding has_key
  del_tracks (false, h') s = (s.0, (s.0.map, λ f. rw (s.1 f, s.2) (tracks.1 f)))
  del_tracks (true, h') s = (
    s.0,
    (
      s.0.map,
      λ f. elim (Bool-cases (bytes_eq field f)) [
        | inl e ↦ rw (s.1 f, e, s.2) (inl (rw e refl))
        | inr e ↦ rw (s.1 f, e, s.2) (rw e (tracks.1 f))
      ],
    ),
  )

-- Setting and deleting fields of a hash whose changes since its rows were written are marked leaves
-- such a hash, where its bytes stay below 2 ^ 64.
pub hash_ops-Tracks :
    (k : Bytes) (t : Tables) (h : Hash) (field value : Bytes)
    → IsHash h
    → h.memory_usage + sizeof_field + length value < 2 ^ 64
    → Tracks k (hash_value (some h)) t
    → TracksAfter k t (hash_set h field value) × TracksAfter k t (some (hash_del h field))
hash_ops-Tracks k t h field value v room tracks = (
  set_tracks k t h field tracks value (hash_set h field value)
      (hash_set-SetsTo h field value v room),
  del_tracks k t h field tracks (hash_del h field) (hash_del-DeletesTo h field v),
)
