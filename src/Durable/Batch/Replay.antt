-- ===== src/Durable/Batch/Replay.antt =====
-- The changes of a batch one by one, as an independent description of what they ask for.
use pg_redis.Base.{
  ◌≡◌, refl, ◌&&◌, ◌||◌, none, some, List, [], ◌∷◌, ◌++◌, if◌then◌else◌, Bytes, bytes_eq, arith,
}
use pg_redis.Base.Int.{eq_ℤ}
use pg_redis.Durable.{Tables, has_key}
use pg_redis.Durable.Batch.{
  Op, key_upsert, key_delete, field_upsert, field_delete, item_insert, item_delete, Vecs, dispatch,
  dispatch_all,
}

-- What one change asks for.
abbrev pub apply_op : Op → Tables → Tables
apply_op (key_upsert k row) t = record t {
  store = λ k'. if bytes_eq k k' then some row else t.store k';
}
apply_op (key_delete k) t = record {
  store = λ k'. if bytes_eq k k' then none else t.store k';
  hash_fields = λ k' f. if bytes_eq k k' then none else t.hash_fields k' f;
  list_items = λ k' o. if bytes_eq k k' then none else t.list_items k' o;
}
apply_op (field_upsert k f x) t = record t {
  hash_fields = λ k' f'. if bytes_eq k k' && bytes_eq f f' then some x else t.hash_fields k' f';
}
apply_op (field_delete k f) t = record t {
  hash_fields = λ k' f'. if bytes_eq k k' && bytes_eq f f' then none else t.hash_fields k' f';
}
apply_op (item_insert k o x) t = record t {
  list_items = λ k' o'. if bytes_eq k k' && eq_ℤ o o' then some x else t.list_items k' o';
}
apply_op (item_delete k o) t = record t {
  list_items = λ k' o'. if bytes_eq k k' && eq_ℤ o o' then none else t.list_items k' o';
}

abbrev pub replay : List Op → Tables → Tables
replay [] t = t
replay (op ∷ ops) t = replay ops (apply_op op t)

pub has_key-push :
    (k : Bytes) (keys : List Bytes) (k' : Bytes)
    → has_key k (keys ++ (k' ∷ [])) ≡ (bytes_eq k' k || has_key k keys)
unfolding has_key
has_key-push k [] k' = refl
has_key-push k (x ∷ keys) k' = ground (arith, has_key-push k keys k')

pub replay-append : (xs ys : List Op) (t : Tables) → replay (xs ++ ys) t ≡ replay ys (replay xs t)
replay-append [] ys t = refl
replay-append (x ∷ xs) ys t = replay-append xs ys (apply_op x t)

pub dispatch_all-append :
    (xs ys : List Op) (v : Vecs) → dispatch_all (xs ++ ys) v ≡ dispatch_all ys (dispatch_all xs v)
unfolding dispatch_all
dispatch_all-append [] ys v = refl
dispatch_all-append (x ∷ xs) ys v = dispatch_all-append xs ys (dispatch x v)
