-- ===== src/Effect.antt =====
-- src/pg_redis.c: what each SQL command does with the value of its key. The text arguments are byte
-- strings without a zero byte, as PostgreSQL's text is. `strtoll` and the print format of an int64 are
-- the C library's. Buffers and the release of memory are left out.
use pg_redis.Base.{
  Bool, true, false, not, ◌||◌, Option, none, some, ltb, ◌==◌, if◌then◌else◌, length, Bytes,
}
use pg_redis.Base.Int.{ℤ, pos, ◌+ℤ◌, to_u64, of_u64}
use pg_redis.Types.{
  ValueType, type_string, type_int, type_hash, type_list, Value, string_value, int_value,
  hash_value, list_value,
}
use pg_redis.Modes.{Check}
use pg_redis.HashValue.{Hash, hash_create, hash_set, hash_get, hash_exists, hash_del}
use pg_redis.ListValue.{
  Chain, list_create, list_lpush, list_rpush, list_lpop, list_rpop, list_length,
}

-- What `ereport(ERROR, ...)` reports.
pub data Error : Type 0 where
  bad_key : Check → Error
  bad_field : Check → Error
  bad_value : Check → Error
  wrong_type : ValueType → ValueType → Error
  not_an_integer : Error
  field_too_long : Error

pub data Reply : Type 0 where
  bool_reply : Bool → Reply
  int_reply : ℤ → Reply
  text_reply : Option Bytes → Reply

-- A reply, an ERROR, or behaviour that C leaves undefined.
pub data Result : Type 0 where
  ok : Reply → Result
  raised : Error → Result
  undefined : Result

-- What a command does with the value of its key: `breaks` raises after it has changed the value.
pub data Effect : Type 0 where
  fails : Error → Effect
  breaks : Error → Value Hash Chain → Effect
  crashes : Effect
  answers : Reply → Effect
  writes : Reply → Value Hash Chain → Effect

-- The settings `pg_redis.max_key_size` and `pg_redis.max_value_size`, what `strtoll` reads from a
-- buffer that it accepts to its end, and what INT64_FORMAT prints.
pub record Settings : Type 0 where
  pub max_key : ℤ
  pub max_value : ℤ
  pub strtoll : Bytes → Option ℤ
  pub print_int64 : ℤ → Bytes

-- `pg_redis_parse_int64`
unfoldable pub parse_int64 : Settings → Bytes → Option ℤ
parse_int64 c s = if (length s == 0) || not (ltb (length s) 32) then none else c.strtoll s

-- `pg_redis_get`
unfoldable pub get_value : Settings → Value Hash Chain → Effect
get_value c (string_value s) = answers (text_reply s)
get_value c (int_value i) = answers (text_reply (some (c.print_int64 i)))
get_value c (hash_value h) = fails (wrong_type type_hash type_string)
get_value c (list_value l) = fails (wrong_type type_list type_string)

-- `incrdecr`: PostgreSQL is built so that the int64 sum wraps around.
abbrev pub count_from : ℤ → ℤ → Effect
count_from delta n =
    let newval = of_u64 (to_u64 (n +ℤ delta)) in writes (int_reply newval) (int_value newval)

unfoldable pub incr_value : Settings → ℤ → Bool → Value Hash Chain → Effect
incr_value c delta true v = count_from delta (pos 0)
incr_value c delta false (string_value none) = fails not_an_integer
incr_value c delta false (string_value (some s)) = elim (parse_int64 c s) [
  | none ↦ fails not_an_integer
  | some n ↦ count_from delta n
]
incr_value c delta false (int_value n) = count_from delta n
incr_value c delta false (hash_value h) = fails (wrong_type type_hash type_int)
incr_value c delta false (list_value l) = fails (wrong_type type_list type_int)

-- `pg_redis_hset`
unfoldable pub set_field : Bytes → Bytes → Hash → Effect
set_field f v h = elim (hash_set h f v) [
  | none ↦ breaks field_too_long (hash_value (some h))
  | some (new_field, h') ↦ writes (bool_reply new_field) (hash_value (some h'))
]

unfoldable pub hset_value : Bytes → Bytes → Bool → Value Hash Chain → Effect
unfolding set_field
hset_value f v true _ = set_field f v hash_create
hset_value f v false (hash_value none) = set_field f v hash_create
hset_value f v false (hash_value (some h)) = set_field f v h
hset_value f v false (string_value _) = fails (wrong_type type_string type_hash)
hset_value f v false (int_value _) = fails (wrong_type type_int type_hash)
hset_value f v false (list_value _) = fails (wrong_type type_list type_hash)

-- `pg_redis_hget`, `pg_redis_hdel` and `pg_redis_hexists` on the hash of the key.
abbrev pub on_hash : (Hash → Effect) → Value Hash Chain → Effect
on_hash f (hash_value none) = crashes
on_hash f (hash_value (some h)) = f h
on_hash f (string_value _) = fails (wrong_type type_string type_hash)
on_hash f (int_value _) = fails (wrong_type type_int type_hash)
on_hash f (list_value _) = fails (wrong_type type_list type_hash)

abbrev pub hget_value : Bytes → Hash → Effect
hget_value f h = answers (text_reply (hash_get h f))

unfoldable pub hdel_value : Bytes → Hash → Effect
hdel_value f h =
    let (removed, h') = hash_del h f in
    if removed then writes (bool_reply true) (hash_value (some h')) else answers (bool_reply false)

abbrev pub hexists_value : Bytes → Hash → Effect
hexists_value f h = answers (bool_reply (hash_exists h f))

-- `list_push`
abbrev pub push_to : Bool → Bytes → Chain → Effect
push_to left v l =
    let l' = if left then list_lpush l v else list_rpush l v in
    writes (int_reply (pos l'.count)) (list_value (some l'))

unfoldable pub push_value : Bool → Bytes → Bool → Value Hash Chain → Effect
push_value left v true _ = push_to left v list_create
push_value left v false (list_value none) = push_to left v list_create
push_value left v false (list_value (some l)) = push_to left v l
push_value left v false (string_value _) = fails (wrong_type type_string type_list)
push_value left v false (int_value _) = fails (wrong_type type_int type_list)
push_value left v false (hash_value _) = fails (wrong_type type_hash type_list)

-- `list_pop` and `pg_redis_llen` on the list of the key; that of NULL is empty.
abbrev pub on_list : (Option Chain → Effect) → Value Hash Chain → Effect
on_list f (list_value l) = f l
on_list f (string_value _) = fails (wrong_type type_string type_list)
on_list f (int_value _) = fails (wrong_type type_int type_list)
on_list f (hash_value _) = fails (wrong_type type_hash type_list)

unfoldable pub pop_value : Bool → Option Chain → Effect
pop_value left none = answers (text_reply none)
pop_value left (some l) = elim (if left then list_lpop l else list_rpop l) [
  | none ↦ answers (text_reply none)
  | some (v, l') ↦ writes (text_reply (some v)) (list_value (some l'))
]

abbrev pub llen_value : Option Chain → Effect
llen_value l = answers (int_reply (pos (list_length l)))
