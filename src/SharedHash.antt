-- ===== src/SharedHash.antt =====
-- src/shared_hash.c: the hash table of one key in shared memory, with open addressing and linear
-- probing. A chunk that a bucket owns is the bucket's own bytes, and a table pointer is the table,
-- `none` for an invalid one; that chunks are released is left out. `hash_bytes` is PostgreSQL's,
-- and `grant` says which of a call's requests the allocator answers. A bucket count is a power of
-- two, so that `h & (bucket_count - 1)` is `h % bucket_count`.
pub mod Scan
pub mod Find
pub mod Placed
pub mod Write
pub mod Growth
pub mod Map
pub mod Set
pub mod Del
pub mod Read
pub mod History
mod Examples
use pg_redis.Base.{
  ℕ, zero, suc, ◌+◌, ◌-◌, ◌*◌, ◌/◌, ◌%◌, ◌^◌, Bool, true, false, not, ◌&&◌, ◌||◌, Option, none,
  some, List, [], ◌∷◌, ltb, ◌==◌, if◌then◌else◌, length, get_or, set, take, replicate, Bytes,
  bytes_eq,
}

-- `PgRedisSharedHashBucket`: an occupied bucket has its field and its value.
pub data Bucket : Type 0 where
  shb_empty : Bucket
  shb_occupied : Bytes → Bytes → Bucket
  shb_tombstone : Bucket

-- `PgRedisSharedHashTable` and the bucket array behind it
pub record Table : Type 0 where
  pub bucket_count : ℕ
  pub occupied : ℕ
  pub tombstones : ℕ
  pub buckets : List Bucket

-- The requests to the allocator: a table of so many buckets, or so many bytes.
pub data Request : Type 0 where
  for_table : ℕ → Request
  for_field : ℕ → Request
  for_value : ℕ → Request

abbrev pub init_buckets : ℕ
init_buckets = 16

abbrev pub bucket_at : List Bucket → ℕ → Bucket
bucket_at bs i = get_or bs i shb_empty

abbrev pub bucket_matches : Bytes → Bucket → Bool
bucket_matches field shb_empty = false
bucket_matches field (shb_occupied f _) = bytes_eq f field
bucket_matches field shb_tombstone = false

-- An overwrite in place: the field stays.
abbrev pub with_value : Bytes → Bucket → Bucket
with_value v shb_empty = shb_empty
with_value v (shb_occupied f _) = shb_occupied f v
with_value v shb_tombstone = shb_tombstone

abbrev pub is_tombstone : Bucket → Bool
is_tombstone shb_empty = false
is_tombstone (shb_occupied _ _) = false
is_tombstone shb_tombstone = true

-- What is ever read of a chunk of a field or value: as many bytes as its uint16 length says.
abbrev pub kept : Bytes → Bytes
kept bytes = take (length bytes % 2 ^ 16) bytes

abbrev pub should_grow : ℕ → ℕ → ℕ → Bool
should_grow occupied tombstones size = ltb (size * 7) ((occupied + tombstones + 1) * 10)

abbrev pub should_shrink : ℕ → ℕ → Bool
should_shrink occupied size = ltb init_buckets size && ltb (occupied * 8) (size * 1)

-- `find_bucket`: the bucket of the field, the one to insert it in, or the error of a full table.
pub data Probe : Type 0 where
  hit : ℕ → Probe
  vacant : ℕ → Probe
  saturated : Probe

-- The first tombstone seen, or else this bucket.
abbrev pub or_else : Option ℕ → ℕ → ℕ
or_else none i = i
or_else (some t) i = t

-- The loop of `find_bucket`, with the probes left, the index and the first tombstone.
unfoldable pub find_loop : List Bucket → ℕ → Bytes → ℕ → ℕ → Option ℕ → Probe
find_loop bs n field zero idx none = saturated
find_loop bs n field zero idx (some t) = vacant t
find_loop bs n field (suc probes) idx first_tomb = elim (bucket_at bs idx) [
  | shb_empty ↦ vacant (or_else first_tomb idx)
  | shb_occupied f v ↦ elim (bytes_eq f field) [
    | true ↦ hit idx
    | false ↦ find_loop bs n field probes ((idx + 1) % n) first_tomb
  ]
  | shb_tombstone ↦ find_loop bs n field probes ((idx + 1) % n) (some (or_else first_tomb idx))
]

unfoldable pub alloc_table : (Request → Bool) → ℕ → Option Table
alloc_table grant bucket_count =
    if grant (for_table bucket_count)
    then some (record {
      bucket_count = bucket_count;
      occupied = 0;
      tombstones = 0;
      buckets = replicate bucket_count shb_empty;
    })
    else none

-- The assignments that fill bucket `i`.
unfoldable pub occupy : ℕ → Bytes → Bytes → Table → Table
occupy i f v t = record t {
  tombstones = if is_tombstone (bucket_at t.buckets i) then t.tombstones - 1 else t.tombstones;
  buckets = set t.buckets i (shb_occupied f v);
  occupied = t.occupied + 1;
}

-- The assignments that clear bucket `i`.
unfoldable pub bury : ℕ → Table → Table
bury i t = record t {
  buckets = set t.buckets i shb_tombstone;
  occupied = t.occupied - 1;
  tombstones = t.tombstones + 1;
}

-- `rehash_table`: the new table, no memory for it, or the error of a full one.
pub data Rehash : Type 0 where
  rehashed : Table → Rehash
  no_memory : Rehash
  overfull : Rehash

pub data SetOutcome : Type 0 where
  set_new : SetOutcome
  set_overwritten : SetOutcome
  value_too_long : SetOutcome
  out_of_memory : SetOutcome
  set_saturated : SetOutcome

pub data DelOutcome : Type 0 where
  deleted : DelOutcome
  absent : DelOutcome
  del_saturated : DelOutcome

-- Whether a chunk for the value is had: an empty value takes none.
abbrev pub value_granted : (Request → Bool) → Bytes → Bool
value_granted grant value = not (ltb 0 (length value)) || grant (for_value (length value))

module _ (hash_bytes : Bytes → ℕ) where
  abbrev pub bucket_index : Bytes → ℕ → ℕ
  bucket_index field bucket_count = hash_bytes field % bucket_count

  unfoldable pub find_bucket : Table → Bytes → Probe
  find_bucket t field =
      find_loop t.buckets t.bucket_count field t.bucket_count (bucket_index field t.bucket_count)
        none

  -- `insert_owned`; `none` is the error of a full table.
  unfoldable pub insert_owned : Bytes → Bytes → Table → Option Table
  insert_owned f v t = elim (find_bucket t f) [
    | hit i ↦ some (occupy i f v t)
    | vacant i ↦ some (occupy i f v t)
    | saturated ↦ none
  ]

  -- The loop of `rehash_table`, over the buckets left.
  unfoldable pub rehash_loop : List Bucket → Table → Option Table
  rehash_loop [] t = some t
  rehash_loop (shb_empty ∷ bs) t = rehash_loop bs t
  rehash_loop (shb_tombstone ∷ bs) t = rehash_loop bs t
  rehash_loop (shb_occupied f v ∷ bs) t = elim (insert_owned f v t) [
    | none ↦ none
    | some t' ↦ rehash_loop bs t'
  ]

  unfoldable pub rehash_table : (Request → Bool) → Table → ℕ → Rehash
  rehash_table grant old new_size = elim (alloc_table grant new_size) [
    | none ↦ no_memory
    | some t ↦ elim (rehash_loop old.buckets t) [ none ↦ overfull | some t' ↦ rehashed t' ]
  ]

  -- `pg_redis_shared_hash_set` from the search for the bucket on
  unfoldable pub store_field : (Request → Bool) → Table → Bytes → Bytes → SetOutcome × Option Table
  store_field grant t field value = elim (find_bucket t field) [
    | saturated ↦ (set_saturated, some t)
    | hit i ↦
        if value_granted grant value
        then (
          set_overwritten,
          some (record t {
            buckets = set t.buckets i (with_value (kept value) (bucket_at t.buckets i));
          }),
        )
        else (out_of_memory, some t)
    | vacant i ↦
        if grant (for_field (length field)) && value_granted grant value
        then (set_new, some (occupy i (kept field) (kept value) t))
        else (out_of_memory, some t)
  ]

  -- from the test for growth on
  unfoldable pub grow_and_store :
      (Request → Bool) → Table → Bytes → Bytes → SetOutcome × Option Table
  grow_and_store grant t field value =
      if should_grow t.occupied t.tombstones t.bucket_count
      then elim (rehash_table grant t (t.bucket_count * 2)) [
        | no_memory ↦ (out_of_memory, some t)
        | overfull ↦ (set_saturated, some t)
        | rehashed t' ↦ store_field grant t' field value
      ]
      else store_field grant t field value

  -- `pg_redis_shared_hash_set`
  unfoldable pub hash_set :
      (Request → Bool) → Option Table → Bytes → Bytes → SetOutcome × Option Table
  hash_set grant none field value =
      if ltb (2 ^ 16 - 1) (length value)
      then (value_too_long, none)
      else elim (alloc_table grant init_buckets) [
        | none ↦ (out_of_memory, none)
        | some t ↦ grow_and_store grant t field value
      ]
  hash_set grant (some t) field value =
      if ltb (2 ^ 16 - 1) (length value)
      then (value_too_long, some t)
      else grow_and_store grant t field value

  -- `pg_redis_shared_hash_get`: a miss is `some none`, the error of a full table `none`.
  unfoldable pub hash_get : Option Table → Bytes → Option (Option Bytes)
  hash_get none field = some none
  hash_get (some t) field = if t.occupied == 0 then some none else elim (find_bucket t field) [
    | vacant i ↦ some none
    | saturated ↦ none
    | hit i ↦ elim (bucket_at t.buckets i) [
      | shb_empty ↦ some (some [])
      | shb_occupied f v ↦ some (some v)
      | shb_tombstone ↦ some (some [])
    ]
  ]

  -- `pg_redis_shared_hash_exists`
  unfoldable pub hash_exists : Option Table → Bytes → Option Bool
  hash_exists none field = some false
  hash_exists (some t) field = if t.occupied == 0 then some false else elim (find_bucket t field) [
    | vacant i ↦ some false
    | saturated ↦ none
    | hit i ↦ some true
  ]

  -- `pg_redis_shared_hash_del`
  unfoldable pub hash_del : (Request → Bool) → Option Table → Bytes → DelOutcome × Option Table
  hash_del grant none field = (absent, none)
  hash_del grant (some t) field =
      if t.occupied == 0 then (absent, some t) else elim (find_bucket t field) [
        | vacant i ↦ (absent, some t)
        | saturated ↦ (del_saturated, some t)
        | hit i ↦
            let t' = bury i t in
            if should_shrink t'.occupied t'.bucket_count
            then elim (rehash_table grant t' (t'.bucket_count / 2)) [
              | rehashed t'' ↦ (deleted, some t'')
              | no_memory ↦ (deleted, some t')
              | overfull ↦ (del_saturated, some t')
            ]
            else (deleted, some t')
      ]

-- `pg_redis_shared_hash_count`
abbrev pub hash_count : Option Table → ℕ
hash_count none = 0
hash_count (some t) = t.occupied
