-- ===== src/SharedHash/Examples.antt =====
-- Tables on concrete inputs.
use pg_redis.Base.{
  ℕ, ◌⊎◌, is_some, bytes_eq, ◌≡◌, refl, Bool, true, false, Option, none, some, List, [], ◌∷◌, Bytes,
  arith, ◌<◌,
}
use pg_redis.SharedHash.{
  hit, vacant, shb_occupied, bucket_at, Table, Request, find_bucket, rehash_table, hash_set,
  hash_get, hash_exists, hash_del, find_loop, alloc_table, occupy, bury, store_field,
  grow_and_store,
}
use pg_redis.SharedHash.Scan.{scan}
use pg_redis.SharedHash.Placed.{Searches}
use pg_redis.SharedHash.Map.{IsValidPointer, IsValid, has_room, SetsTo, DeletesTo, lookup}
use pg_redis.SharedHash.History.{
  Call, set_call, del_call, last_write, after, after-IsValidPointer, hash_get-after,
}
use pg_redis.SharedHash.Set.{hash_set-SetsTo}
use pg_redis.SharedHash.Del.{hash_del-DeletesTo}
use pg_redis.SharedHash.Read.{hash_get_lem}
use pg_redis.SharedHash.Growth.{Rehashes, find_bucket-cases, rehash_table-Rehashes}

-- A hash under which fields of one first byte collide.
abbrev first_byte : Bytes → ℕ
first_byte [] = 0
first_byte (b ∷ bs) = b

abbrev all_granted : Request → Bool
all_granted r = true

abbrev none_granted : Request → Bool
none_granted r = false

abbrev field_a : Bytes
field_a = 97 ∷ 1 ∷ []

abbrev field_b : Bytes
field_b = 97 ∷ 2 ∷ []

abbrev field_c : Bytes
field_c = 97 ∷ 3 ∷ []

abbrev calls : List Call
calls =
    set_call all_granted field_c (7 ∷ [])
    ∷ del_call none_granted field_a
    ∷ set_call all_granted field_b (6 ∷ [])
    ∷ set_call all_granted field_a (5 ∷ [])
    ∷ []

abbrev table : Option Table
table = after first_byte calls

table-IsValidPointer : IsValidPointer first_byte table
table-IsValidPointer = after-IsValidPointer first_byte calls (omega arith)

-- The table, and that the pointer is one.
abbrev table_of : Option Table → Table
table_of none = record { bucket_count = 0; occupied = 0; tombstones = 0; buckets = [] }
table_of (some t) = t

abbrev filled : Table
filled = table_of table

filled-IsValid : IsValid first_byte filled
unfolding after hash_set hash_del grow_and_store store_field find_bucket find_loop alloc_table
    occupy bury bytes_eq
filled-IsValid = table-IsValidPointer

read_b : hash_get first_byte table field_b ≡ some (some (6 ∷ []))
unfolding after hash_set hash_del grow_and_store store_field find_bucket find_loop alloc_table
    occupy bury bytes_eq hash_get
read_b = refl

read_a : hash_get first_byte table field_a ≡ some none
unfolding after hash_set hash_del grow_and_store store_field find_bucket find_loop alloc_table
    occupy bury bytes_eq hash_get
read_a = refl

hash_get-after_example :
    hash_get first_byte (after first_byte calls) field_b ≡ some (last_write field_b calls)
hash_get-after_example =
    hash_get-after first_byte calls (omega arith)
      ((omega arith, λ r. refl), (tt, ((omega arith, λ r. refl), ((omega arith, λ r. refl), tt))))
      field_b

after-IsValidPointer_example : IsValidPointer first_byte (after first_byte calls)
after-IsValidPointer_example = after-IsValidPointer first_byte calls (omega arith)

hash_set-SetsTo_example :
    SetsTo first_byte all_granted field_a
      (9 ∷ [])
      table
      (hash_set first_byte all_granted table field_a (9 ∷ []))
hash_set-SetsTo_example =
    hash_set-SetsTo first_byte all_granted field_a (9 ∷ []) table table-IsValidPointer (omega arith)

hash_del-DeletesTo_example :
    DeletesTo first_byte field_b table (hash_del first_byte none_granted table field_b)
hash_del-DeletesTo_example =
    hash_del-DeletesTo first_byte none_granted field_b table table-IsValidPointer

hash_get_lem_example :
    (hash_get first_byte table field_c ≡ some (lookup table field_c))
    × (hash_exists first_byte table field_c ≡ some (is_some (lookup table field_c)))
hash_get_lem_example = hash_get_lem first_byte table field_c table-IsValidPointer

find_bucket-cases_example :
    ((i : ℕ) × (w : Bytes) × (find_bucket first_byte filled field_c ≡ hit i)
      × (i < filled.bucket_count)
      × (bucket_at filled.buckets i ≡ shb_occupied field_c w)
      × (scan field_c filled.buckets ≡ some w))
    ⊎ ((i : ℕ) × (find_bucket first_byte filled field_c ≡ vacant i)
        × Searches filled.buckets filled.bucket_count (first_byte field_c) field_c (vacant i)
        × (scan field_c filled.buckets ≡ none))
find_bucket-cases_example =
    find_bucket-cases filled field_c filled-IsValid.table (has_room filled filled-IsValid)

rehash_table-Rehashes_example :
    Rehashes first_byte all_granted filled 32 (rehash_table first_byte all_granted filled 32)
unfolding after hash_set hash_del grow_and_store store_field find_bucket find_loop alloc_table
    occupy bury bytes_eq
rehash_table-Rehashes_example =
    rehash_table-Rehashes all_granted filled 32 filled-IsValid.table (omega arith)
