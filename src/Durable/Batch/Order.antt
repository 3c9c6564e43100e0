-- ===== src/Durable/Batch/Order.antt =====
-- A batch against its changes one by one, in `pgredis.store`: the plans run by kind, not in the
-- order of the events.
use pg_redis.Base.{
  ◌≡◌, refl, ap, ◌∙◌, inl, inr, Bool, false, ◌&&◌, ◌||◌, some, List, [], ◌∷◌, ◌++◌, if◌then◌else◌,
  Bytes, bytes_eq, Bool-cases, arith,
}
use pg_redis.Durable.{StoreRow, Tables, StoreUpsert, last_row, has_key}
use pg_redis.Durable.Batch.{
  Op, key_upsert, key_delete, field_upsert, field_delete, item_insert, item_delete, Vecs, dispatch,
  dispatch_all,
}
use pg_redis.Durable.Batch.Effect.{applied}
use pg_redis.Durable.Batch.Replay.{apply_op, replay, has_key-push}

-- The key is upserted after it was deleted; `seen` says that a delete came before.
abbrev pub reborn : Bytes → Bool → List Op → Bool
reborn k seen [] = false
reborn k seen (key_upsert k' _ ∷ ops) = (bytes_eq k' k && seen) || reborn k seen ops
reborn k seen (key_delete k' ∷ ops) = reborn k (bytes_eq k' k || seen) ops
reborn k seen (_ ∷ ops) = reborn k seen ops

pub last_row-push :
    (k : Bytes) (rows : List StoreUpsert) (k' : Bytes) (row : StoreRow)
    → last_row k (rows ++ ((k', row) ∷ [])) ≡ (if bytes_eq k' k then some row else last_row k rows)
unfolding last_row
last_row-push k [] k' row = refl
last_row-push k (x ∷ rows) k' row =
    rw (last_row-push k rows k' row)
      (elim (Bool-cases (bytes_eq k' k)) [ inl h ↦ rw h refl | inr h ↦ rw h refl ])

upsert_keeps :
    (k k' : Bytes) (row : StoreRow) (v : Vecs) (t0 t : Tables)
    → (applied v t0).store k ≡ t.store k
    → (bytes_eq k' k && has_key k v.store_delete_keys) ≡ false
    → (applied (dispatch (key_upsert k' row) v) t0).store k
      ≡ (apply_op (key_upsert k' row) t).store k
unfolding dispatch
upsert_keeps k k' row v t0 t e h =
    rw (last_row-push k v.store_rows k' row) (elim (Bool-cases (bytes_eq k' k)) [
      | inl a ↦ (let b : has_key k v.store_delete_keys ≡ false = ground arith in rw a (rw b refl))
      | inr a ↦ rw a e
    ])

delete_keeps :
    (k k' : Bytes) (v : Vecs) (t0 t : Tables)
    → (applied v t0).store k ≡ t.store k
    → (applied (dispatch (key_delete k') v) t0).store k ≡ (apply_op (key_delete k') t).store k
unfolding dispatch
delete_keeps k k' v t0 t e =
    rw (has_key-push k v.store_delete_keys k')
      (elim (Bool-cases (bytes_eq k' k)) [ inl a ↦ rw a refl | inr a ↦ rw a e ])

pub store_step :
    (k : Bytes) (ops : List Op) (v : Vecs) (t0 t : Tables)
    → (applied v t0).store k ≡ t.store k
    → reborn k (has_key k v.store_delete_keys) ops ≡ false
    → (applied (dispatch_all ops v) t0).store k ≡ (replay ops t).store k
unfolding dispatch_all dispatch
store_step k [] v t0 t e h = e
store_step k (key_upsert k' row ∷ ops) v t0 t e h =
    store_step k ops (dispatch (key_upsert k' row) v) t0 (apply_op (key_upsert k' row) t)
      (upsert_keeps k k' row v t0 t e (ground arith)) (ground arith)
store_step k (key_delete k' ∷ ops) v t0 t e h =
    store_step k ops (dispatch (key_delete k') v) t0 (apply_op (key_delete k') t)
      (delete_keeps k k' v t0 t e)
      (ap (λ b. reborn k b ops) (has_key-push k v.store_delete_keys k') ∙ h)
store_step k (field_upsert k' f x ∷ ops) v t0 t e h =
    store_step k ops (dispatch (field_upsert k' f x) v) t0 (apply_op (field_upsert k' f x) t) e h
store_step k (field_delete k' f ∷ ops) v t0 t e h =
    store_step k ops (dispatch (field_delete k' f) v) t0 (apply_op (field_delete k' f) t) e h
store_step k (item_insert k' o x ∷ ops) v t0 t e h =
    store_step k ops (dispatch (item_insert k' o x) v) t0 (apply_op (item_insert k' o x) t) e h
store_step k (item_delete k' o ∷ ops) v t0 t e h =
    store_step k ops (dispatch (item_delete k' o) v) t0 (apply_op (item_delete k' o) t) e h
