-- ===== src/SharedHash/Read.antt =====
-- Reading a field and testing for one, against the map that a scan of the buckets reads.
use pg_redis.Base.{
  ℕ, ◌≡◌, refl, inl, inr, ◌==◌, Option, none, some, is_some, Bytes, arith, Bool-cases,
}
use pg_redis.SharedHash.{Table, hash_get, hash_exists}
use pg_redis.SharedHash.Scan.{scan}
use pg_redis.SharedHash.Growth.{find_bucket-cases}
use pg_redis.SharedHash.Map.{lookup, IsValid, IsValidPointer, has_room, none_occupied}

module _ (hash_bytes : Bytes → ℕ) (t : Table) (field : Bytes) (v : IsValid hash_bytes t) where
  some_get :
      (hash_get hash_bytes (some t) field ≡ some (scan field t.buckets))
      × (hash_exists hash_bytes (some t) field ≡ some (is_some (scan field t.buckets)))
  unfolding hash_get hash_exists
  some_get = elim (Bool-cases (t.occupied == 0)) [
    | inl e ↦
        let missing = none_occupied t field v (ground arith) in
        (rw (e, missing, hash_get) refl, rw (e, missing, hash_exists) refl)
    | inr q ↦ elim (find_bucket-cases t field v.table (has_room t v)) [
      | inl (i, w, e, l, at_i, found) ↦
          (rw (q, e, at_i, found, hash_get) refl, rw (q, e, found, hash_exists) refl)
      | inr (i, e, _, missing) ↦
          (rw (q, e, missing, hash_get) refl, rw (q, e, missing, hash_exists) refl)
    ]
  ]

-- On a valid table, or none, a read of a field returns the value that a scan of all the buckets
-- finds, and nothing when that finds nothing; the test for a field says whether it finds one; and
-- neither ends in the error of a full table.
pub hash_get_lem :
    (hash_bytes : Bytes → ℕ) (to : Option Table) (field : Bytes)
    → IsValidPointer hash_bytes to
    → (hash_get hash_bytes to field ≡ some (lookup to field))
      × (hash_exists hash_bytes to field ≡ some (is_some (lookup to field)))
unfolding hash_get hash_exists
hash_get_lem hash_bytes none field v = (refl, refl)
hash_get_lem hash_bytes (some t) field v = some_get hash_bytes t field v
