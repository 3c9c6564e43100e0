-- ===== src/Command/Tracked.antt =====
-- The marks that a flush relies on, through the commands of src/pg_redis.c.
use pg_redis.Base.{
  ◌+◌, ◌^◌, ◌<◌, ◌≡◌, Bool, true, false, Option, none, some, if◌then◌else◌, length, Bytes, arith,
  inr,
}
use pg_redis.Base.Int.{ℤ}
use pg_redis.Types.{Value, string_value, int_value, hash_value, list_value}
use pg_redis.HashValue.{Hash, hash_create, hash_set, hash_del, find, sizeof_field}
use pg_redis.HashValue.Fields.{IsMap}
use pg_redis.HashValue.Accounts.{IsHash, hash_del-DeletesTo}
use pg_redis.ListValue.{Chain, list_create, list_lpop, list_rpop, sizeof_node}
use pg_redis.ListValue.Push.{IsList}
use pg_redis.ListValue.Pop.{list_lpop-PopsTo, list_rpop-PopsTo}
use pg_redis.ListValue.Queue.{list_create-IsList}
use pg_redis.Durable.{Tables}
use pg_redis.Flush.Commit.{Tracks}
use pg_redis.Flush.Vectors.{AreDistinct, node_at}
use pg_redis.Flush.Tracking.{TracksAfter, del_tracks, hash_ops-Tracks}
use pg_redis.Flush.Lists.{TracksPopped, front_popped, back_popped, list_ops-Tracks}
use pg_redis.Effect.{
  Effect, Reply, fails, breaks, crashes, answers, writes, field_too_long, not_an_integer,
  bool_reply, text_reply, Settings, parse_int64, get_value, incr_value, count_from, set_field,
  hset_value, on_hash, hdel_value, push_to, push_value, on_list, pop_value, llen_value,
}
use pg_redis.Command.Values.{IsSound, used}
use pg_redis.Command.Fields.{created-IsHash}

-- The tables have no fields and no items of the key.
abbrev pub NoRows : Bytes → Tables → Type 0
NoRows k t = ((f : Bytes) → t.hash_fields k f ≡ none) × ((o : ℤ) → t.list_items k o ≡ none)

-- The value that a command writes marks its changes.
abbrev pub WritesTracked : Bytes → Tables → Effect → Type 0
WritesTracked k t (fails e) = Unit
WritesTracked k t (breaks e v) = Tracks k v t
WritesTracked k t crashes = Unit
WritesTracked k t (answers r) = Unit
WritesTracked k t (writes r v) = Tracks k v t

module _ (k : Bytes) (t : Tables) where
  pub incr_tracked :
      (c : Settings) (delta : ℤ) (is_new : Bool) (v : Value Hash Chain)
      → WritesTracked k t (incr_value c delta is_new v)
  unfolding incr_value
  incr_tracked c delta true v = tt
  incr_tracked c delta false (string_value none) = tt
  incr_tracked c delta false (string_value (some s)) = parsed (parse_int64 c s)
    where
      parsed :
          (o : Option ℤ)
          → WritesTracked k t (elim o [ none ↦ fails not_an_integer | some n ↦ count_from delta n ])
      parsed none = tt
      parsed (some n) = tt
  incr_tracked c delta false (int_value n) = tt
  incr_tracked c delta false (hash_value h) = tt
  incr_tracked c delta false (list_value l) = tt

  created_hash : NoRows k t → Tracks k (hash_value (some hash_create)) t
  unfolding IsMap find
  created_hash rows = (tt, λ f. inr (rows.0 f))

  created_list : NoRows k t → Tracks k (list_value (some list_create)) t
  unfolding AreDistinct node_at
  created_list rows = (tt, λ o. inr (rows.1 o))

  field_tracked :
      (h : Hash) (r : Option (Bool × Hash))
      → Tracks k (hash_value (some h)) t
      → TracksAfter k t r
      → WritesTracked k t (elim r [
        | none ↦ breaks field_too_long (hash_value (some h))
        | some (new_field, h') ↦ writes (bool_reply new_field) (hash_value (some h'))
      ])
  field_tracked h none old a = old
  field_tracked h (some (new_field, h')) old a = a.1

  set_field_tracked :
      (f v : Bytes) (h : Hash)
      → IsHash h
      → h.memory_usage + (sizeof_field + length v) < 2 ^ 64
      → Tracks k (hash_value (some h)) t
      → WritesTracked k t (set_field f v h)
  unfolding set_field
  set_field_tracked f v h sound room old =
      field_tracked h (hash_set h f v) old
        (hash_ops-Tracks k t h f v sound (omega (arith, room)) old).0

  pub hset_created :
      (f v : Bytes) (v' : Value Hash Chain)
      → sizeof_field + length v < 2 ^ 64
      → NoRows k t
      → WritesTracked k t (hset_value f v true v')
  unfolding hset_value
  hset_created f v v' room rows =
      set_field_tracked f v hash_create created-IsHash (omega (arith, room)) (created_hash rows)

  pub hset_tracked :
      (f v : Bytes) (old : Value Hash Chain)
      → IsSound old
      → used old + (sizeof_field + length v) < 2 ^ 64
      → Tracks k old t
      → WritesTracked k t (hset_value f v false old)
  unfolding hset_value
  hset_tracked f v (string_value s) sound room tracks = tt
  hset_tracked f v (int_value n) sound room tracks = tt
  hset_tracked f v (hash_value none) sound room tracks = absurd sound
  hset_tracked f v (hash_value (some h)) sound room tracks =
      set_field_tracked f v h sound room tracks
  hset_tracked f v (list_value l) sound room tracks = tt

  deleted_tracked :
      (r : Bool × Hash)
      → TracksAfter k t (some r)
      → WritesTracked k t (
          let (removed, h') = r in
          if removed
          then writes (bool_reply true) (hash_value (some h'))
          else answers (bool_reply false))
  deleted_tracked (true, h') a = a.1
  deleted_tracked (false, h') a = tt

  pub hdel_tracked :
      (f : Bytes) (old : Value Hash Chain)
      → IsSound old
      → Tracks k old t
      → WritesTracked k t (on_hash (hdel_value f) old)
  unfolding hdel_value
  hdel_tracked f (string_value s) sound tracks = tt
  hdel_tracked f (int_value n) sound tracks = tt
  hdel_tracked f (hash_value none) sound tracks = tt
  hdel_tracked f (hash_value (some h)) sound tracks =
      deleted_tracked (hash_del h f)
        (del_tracks k t h f tracks (hash_del h f) (hash_del-DeletesTo h f sound))
  hdel_tracked f (list_value l) sound tracks = tt

  push_to_tracked :
      (left : Bool) (v : Bytes) (l : Chain)
      → IsList l
      → l.memory_usage + (sizeof_node + length v) < 2 ^ 64
      → Tracks k (list_value (some l)) t
      → WritesTracked k t (push_to left v l)
  push_to_tracked true v l sound room tracks = (list_ops-Tracks k t l v sound room tracks).0.1
  push_to_tracked false v l sound room tracks = (list_ops-Tracks k t l v sound room tracks).1.1

  pub push_created :
      (left : Bool) (v : Bytes) (v' : Value Hash Chain)
      → sizeof_node + length v < 2 ^ 64
      → NoRows k t
      → WritesTracked k t (push_value left v true v')
  unfolding push_value
  push_created left v v' room rows =
      push_to_tracked left v list_create list_create-IsList (omega (arith, room))
        (created_list rows)

  pub push_tracked :
      (left : Bool) (v : Bytes) (old : Value Hash Chain)
      → IsSound old
      → used old + (sizeof_node + length v) < 2 ^ 64
      → Tracks k old t
      → WritesTracked k t (push_value left v false old)
  unfolding push_value
  push_tracked left v (string_value s) sound room tracks = tt
  push_tracked left v (int_value n) sound room tracks = tt
  push_tracked left v (hash_value h) sound room tracks = tt
  push_tracked left v (list_value none) sound room tracks = absurd sound
  push_tracked left v (list_value (some l)) sound room tracks =
      push_to_tracked left v l sound room tracks

  popped_tracked :
      (r : Option (Bytes × Chain))
      → TracksPopped k t r
      → WritesTracked k t (elim r [
        | none ↦ answers (text_reply none)
        | some (v, l') ↦ writes (text_reply (some v)) (list_value (some l'))
      ])
  popped_tracked none a = tt
  popped_tracked (some (v, l')) a = a.1

  pub pop_tracked :
      (left : Bool) (old : Value Hash Chain)
      → IsSound old
      → Tracks k old t
      → WritesTracked k t (on_list (pop_value left) old)
  unfolding pop_value
  pop_tracked left (string_value s) sound tracks = tt
  pop_tracked left (int_value n) sound tracks = tt
  pop_tracked left (hash_value h) sound tracks = tt
  pop_tracked left (list_value none) sound tracks = tt
  pop_tracked true (list_value (some l)) sound tracks =
      popped_tracked (list_lpop l)
        (front_popped k t l (list_lpop l) sound tracks (list_lpop-PopsTo l sound))
  pop_tracked false (list_value (some l)) sound tracks =
      popped_tracked (list_rpop l)
        (back_popped k t l (list_rpop l) sound tracks (list_rpop-PopsTo l sound))

  -- The commands that only read.
  pub get_tracked : (c : Settings) (v : Value Hash Chain) → WritesTracked k t (get_value c v)
  unfolding get_value
  get_tracked c (string_value s) = tt
  get_tracked c (int_value n) = tt
  get_tracked c (hash_value h) = tt
  get_tracked c (list_value l) = tt

  pub hash_read_tracked :
      (f : Hash → Reply) (v : Value Hash Chain) → WritesTracked k t (on_hash (λ h. answers (f h)) v)
  hash_read_tracked f (string_value s) = tt
  hash_read_tracked f (int_value n) = tt
  hash_read_tracked f (hash_value none) = tt
  hash_read_tracked f (hash_value (some h)) = tt
  hash_read_tracked f (list_value l) = tt

  pub llen_tracked : (v : Value Hash Chain) → WritesTracked k t (on_list llen_value v)
  llen_tracked (string_value s) = tt
  llen_tracked (int_value n) = tt
  llen_tracked (hash_value h) = tt
  llen_tracked (list_value l) = tt
