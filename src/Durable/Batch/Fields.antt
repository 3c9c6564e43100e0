-- ===== src/Durable/Batch/Fields.antt =====
-- A batch against its changes one by one, in `pgredis.hash_fields`.
use pg_redis.Base.{
  ◌≡◌, refl, ap, sym, ◌∙◌, inl, inr, Bool, true, false, ◌&&◌, ◌||◌, Option, none, some, List, [],
  ◌∷◌, ◌++◌, if◌then◌else◌, Bytes, bytes_eq, Bool-cases, if_true, if_false, arith,
}
use pg_redis.Durable.{Tables, FieldUpsert, FieldDelete, last_field, has_key, has_field}
use pg_redis.Durable.Batch.{
  Op, key_upsert, key_delete, field_upsert, field_delete, item_insert, item_delete, Vecs, dispatch,
  dispatch_all,
}
use pg_redis.Durable.Batch.Effect.{applied}
use pg_redis.Durable.Batch.Replay.{apply_op, replay, has_key-push}

-- The field is upserted after its key was deleted, or deleted after it was upserted; `dead` and
-- `up` say that its key was deleted, or the field upserted, before.
abbrev pub field_crossed : Bytes → Bytes → Bool → Bool → List Op → Bool
field_crossed k f dead up [] = false
field_crossed k f dead up (key_delete k' ∷ ops) = field_crossed k f (bytes_eq k' k || dead) up ops
field_crossed k f dead up (field_upsert k' f' _ ∷ ops) =
    if bytes_eq k' k && bytes_eq f' f
    then dead || field_crossed k f dead true ops
    else field_crossed k f dead up ops
field_crossed k f dead up (field_delete k' f' ∷ ops) =
    (bytes_eq k' k && bytes_eq f' f && up) || field_crossed k f dead up ops
field_crossed k f dead up (_ ∷ ops) = field_crossed k f dead up ops

pub last_field-push :
    (k : Bytes) (f : Bytes) (rows : List FieldUpsert) (k' : Bytes) (f' : Bytes) (x : Option Bytes)
    → last_field k f (rows ++ ((k', f', x) ∷ []))
      ≡ (if bytes_eq k' k && bytes_eq f' f then some x else last_field k f rows)
unfolding last_field
last_field-push k f [] k' f' x = refl
last_field-push k f (y ∷ rows) k' f' x =
    rw (last_field-push k f rows k' f' x)
      (elim (Bool-cases (bytes_eq k' k && bytes_eq f' f)) [ inl h ↦ rw h refl | inr h ↦ rw h refl ])

pub has_field-push :
    (k : Bytes) (f : Bytes) (rows : List FieldDelete) (k' : Bytes) (f' : Bytes)
    → has_field k f (rows ++ ((k', f') ∷ []))
      ≡ ((bytes_eq k' k && bytes_eq f' f) || has_field k f rows)
unfolding has_field
has_field-push k f [] k' f' = refl
has_field-push k f (x ∷ rows) k' f' = ground (arith, has_field-push k f rows k' f')

upsert_keeps :
    (k : Bytes) (f : Bytes) (k' : Bytes) (f' : Bytes) (x : Option Bytes) (v : Vecs) (t0 t : Tables)
    → (applied v t0).hash_fields k f ≡ t.hash_fields k f
    → ((bytes_eq k' k && bytes_eq f' f) ≡ true → (has_key k v.store_delete_keys ≡ false))
    → (applied (dispatch (field_upsert k' f' x) v) t0).hash_fields k f
      ≡ (apply_op (field_upsert k' f' x) t).hash_fields k f
unfolding dispatch
upsert_keeps k f k' f' x v t0 t e h =
    rw (last_field-push k f v.hf_up k' f' x) (elim (Bool-cases (bytes_eq k' k && bytes_eq f' f)) [
      | inl a ↦ rw a (rw (h a) refl)
      | inr a ↦ rw a e
    ])

delete_keeps :
    (k : Bytes) (f : Bytes) (k' : Bytes) (f' : Bytes) (v : Vecs) (t0 t : Tables)
    → (applied v t0).hash_fields k f ≡ t.hash_fields k f
    → ((bytes_eq k' k && bytes_eq f' f) ≡ true → last_field k f v.hf_up ≡ none)
    → (applied (dispatch (field_delete k' f') v) t0).hash_fields k f
      ≡ (apply_op (field_delete k' f') t).hash_fields k f
unfolding dispatch
delete_keeps k f k' f' v t0 t e h =
    rw (has_field-push k f v.hf_del k' f') (elim (Bool-cases (bytes_eq k' k && bytes_eq f' f)) [
      | inl a ↦ rw a (
          rw (h a) (elim (Bool-cases (has_key k v.store_delete_keys)) [
            | inl b ↦ rw b refl
            | inr b ↦ rw b refl
          ]))
      | inr a ↦ rw a e
    ])

drop_keeps :
    (k : Bytes) (f : Bytes) (k' : Bytes) (v : Vecs) (t0 t : Tables)
    → (applied v t0).hash_fields k f ≡ t.hash_fields k f
    → (applied (dispatch (key_delete k') v) t0).hash_fields k f
      ≡ (apply_op (key_delete k') t).hash_fields k f
unfolding dispatch
drop_keeps k f k' v t0 t e =
    rw (has_key-push k v.store_delete_keys k')
      (elim (Bool-cases (bytes_eq k' k)) [ inl a ↦ rw a refl | inr a ↦ rw a e ])

pub field_step :
    (k : Bytes) (f : Bytes) (up : Bool) (ops : List Op) (v : Vecs) (t0 t : Tables)
    → (applied v t0).hash_fields k f ≡ t.hash_fields k f
    → (up ≡ false → last_field k f v.hf_up ≡ none)
    → field_crossed k f (has_key k v.store_delete_keys) up ops ≡ false
    → (applied (dispatch_all ops v) t0).hash_fields k f ≡ (replay ops t).hash_fields k f
unfolding dispatch_all dispatch
field_step k f up [] v t0 t e u h = e
field_step k f up (key_upsert k' row ∷ ops) v t0 t e u h =
    field_step k f up ops (dispatch (key_upsert k' row) v) t0 (apply_op (key_upsert k' row) t) e u h
field_step k f up (key_delete k' ∷ ops) v t0 t e u h =
    field_step k f up ops (dispatch (key_delete k') v) t0 (apply_op (key_delete k') t)
      (drop_keeps k f k' v t0 t e) u
      (ap (λ b. field_crossed k f b up ops) (has_key-push k v.store_delete_keys k') ∙ h)
field_step k f up (field_upsert k' f' x ∷ ops) v t0 t e u h =
    elim (Bool-cases (bytes_eq k' k && bytes_eq f' f)) [
      | inl a ↦
          (let h' : (has_key k v.store_delete_keys
                  || field_crossed k f (has_key k v.store_delete_keys) true ops)
                ≡ false =
              sym (if_true _ _ a) ∙ h in
            field_step k f true ops (dispatch (field_upsert k' f' x) v) t0
              (apply_op (field_upsert k' f' x) t)
              (upsert_keeps k f k' f' x v t0 t e (λ _. ground arith)) (λ z. cc) (ground arith))
      | inr a ↦
          (let h' : field_crossed k f (has_key k v.store_delete_keys) up ops ≡ false =
              sym (if_false _ _ a) ∙ h in
            field_step k f up ops (dispatch (field_upsert k' f' x) v) t0
              (apply_op (field_upsert k' f' x) t) (upsert_keeps k f k' f' x v t0 t e (λ b. cc))
              (λ z. last_field-push k f v.hf_up k' f' x ∙ rw a (u z)) h')
    ]
field_step k f up (field_delete k' f' ∷ ops) v t0 t e u h =
    field_step k f up ops (dispatch (field_delete k' f') v) t0 (apply_op (field_delete k' f') t)
      (delete_keeps k f k' f' v t0 t e (λ a. u (ground arith))) u (ground arith)
field_step k f up (item_insert k' o x ∷ ops) v t0 t e u h =
    field_step k f up ops (dispatch (item_insert k' o x) v) t0 (apply_op (item_insert k' o x) t) e u
      h
field_step k f up (item_delete k' o ∷ ops) v t0 t e u h =
    field_step k f up ops (dispatch (item_delete k' o) v) t0 (apply_op (item_delete k' o) t) e u h
