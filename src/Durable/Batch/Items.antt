-- ===== src/Durable/Batch/Items.antt =====
-- A batch against its changes one by one, in `pgredis.list_items`.
use pg_redis.Base.{
  ◌≡◌, refl, ap, sym, ◌∙◌, inl, inr, Bool, true, false, ◌&&◌, ◌||◌, Option, none, some, List, [],
  ◌∷◌, ◌++◌, if◌then◌else◌, Bytes, bytes_eq, Bool-cases, if_true, if_false, arith,
}
use pg_redis.Base.Int.{ℤ, eq_ℤ}
use pg_redis.Durable.{Tables, ItemInsert, ItemDelete, or_else, new_item, has_key, has_item}
use pg_redis.Durable.Batch.{
  Op, key_upsert, key_delete, field_upsert, field_delete, item_insert, item_delete, Vecs, dispatch,
  dispatch_all,
}
use pg_redis.Durable.Batch.Effect.{applied}
use pg_redis.Durable.Batch.Replay.{apply_op, replay, has_key-push}

-- The item is inserted after its key was deleted or a second time, or deleted after it was
-- inserted; `dead` and `up` say that its key was deleted, or the item inserted, before.
abbrev pub item_crossed : Bytes → ℤ → Bool → Bool → List Op → Bool
item_crossed k f dead up [] = false
item_crossed k f dead up (key_delete k' ∷ ops) = item_crossed k f (bytes_eq k' k || dead) up ops
item_crossed k f dead up (item_insert k' f' _ ∷ ops) =
    if bytes_eq k' k && eq_ℤ f' f
    then dead || up || item_crossed k f dead true ops
    else item_crossed k f dead up ops
item_crossed k f dead up (item_delete k' f' ∷ ops) =
    (bytes_eq k' k && eq_ℤ f' f && up) || item_crossed k f dead up ops
item_crossed k f dead up (_ ∷ ops) = item_crossed k f dead up ops

pub or_else-none : {A : Type 0} (o : Option A) → or_else o none ≡ o
or_else-none none = refl
or_else-none (some a) = refl

pub new_item-push :
    (k : Bytes) (f : ℤ) (rows : List ItemInsert) (k' : Bytes) (f' : ℤ) (x : Option Bytes)
    → new_item k f (rows ++ ((k', f', x) ∷ []))
      ≡ or_else (new_item k f rows) (if bytes_eq k' k && eq_ℤ f' f then some x else none)
unfolding new_item
new_item-push k f [] k' f' x = refl
new_item-push k f ((ky, fy, xy) ∷ rows) k' f' x = elim (Bool-cases (bytes_eq ky k && eq_ℤ fy f)) [
  | inl h ↦ rw h refl
  | inr h ↦ rw h (new_item-push k f rows k' f' x)
]

pub has_item-push :
    (k : Bytes) (f : ℤ) (rows : List ItemDelete) (k' : Bytes) (f' : ℤ)
    → has_item k f (rows ++ ((k', f') ∷ [])) ≡ ((bytes_eq k' k && eq_ℤ f' f) || has_item k f rows)
unfolding has_item
has_item-push k f [] k' f' = refl
has_item-push k f (x ∷ rows) k' f' = ground (arith, has_item-push k f rows k' f')

upsert_keeps :
    (k : Bytes) (f : ℤ) (k' : Bytes) (f' : ℤ) (x : Option Bytes) (v : Vecs) (t0 t : Tables)
    → (applied v t0).list_items k f ≡ t.list_items k f
    → ((bytes_eq k' k && eq_ℤ f' f) ≡ true
        → (has_key k v.store_delete_keys ≡ false) × (new_item k f v.li_ins ≡ none))
    → (applied (dispatch (item_insert k' f' x) v) t0).list_items k f
      ≡ (apply_op (item_insert k' f' x) t).list_items k f
unfolding dispatch
upsert_keeps k f k' f' x v t0 t e h =
    rw (new_item-push k f v.li_ins k' f' x) (elim (Bool-cases (bytes_eq k' k && eq_ℤ f' f)) [
      | inl a ↦ rw a (rw ((h a).0) (rw ((h a).1) refl))
      | inr a ↦ rw a (rw (or_else-none (new_item k f v.li_ins)) e)
    ])

delete_keeps :
    (k : Bytes) (f : ℤ) (k' : Bytes) (f' : ℤ) (v : Vecs) (t0 t : Tables)
    → (applied v t0).list_items k f ≡ t.list_items k f
    → ((bytes_eq k' k && eq_ℤ f' f) ≡ true → new_item k f v.li_ins ≡ none)
    → (applied (dispatch (item_delete k' f') v) t0).list_items k f
      ≡ (apply_op (item_delete k' f') t).list_items k f
unfolding dispatch
delete_keeps k f k' f' v t0 t e h =
    rw (has_item-push k f v.li_del k' f') (elim (Bool-cases (bytes_eq k' k && eq_ℤ f' f)) [
      | inl a ↦ rw a (
          rw (h a) (elim (Bool-cases (has_key k v.store_delete_keys)) [
            | inl b ↦ rw b refl
            | inr b ↦ rw b refl
          ]))
      | inr a ↦ rw a e
    ])

drop_keeps :
    (k : Bytes) (f : ℤ) (k' : Bytes) (v : Vecs) (t0 t : Tables)
    → (applied v t0).list_items k f ≡ t.list_items k f
    → (applied (dispatch (key_delete k') v) t0).list_items k f
      ≡ (apply_op (key_delete k') t).list_items k f
unfolding dispatch
drop_keeps k f k' v t0 t e =
    rw (has_key-push k v.store_delete_keys k')
      (elim (Bool-cases (bytes_eq k' k)) [ inl a ↦ rw a refl | inr a ↦ rw a e ])

pub item_step :
    (k : Bytes) (f : ℤ) (up : Bool) (ops : List Op) (v : Vecs) (t0 t : Tables)
    → (applied v t0).list_items k f ≡ t.list_items k f
    → (up ≡ false → new_item k f v.li_ins ≡ none)
    → item_crossed k f (has_key k v.store_delete_keys) up ops ≡ false
    → (applied (dispatch_all ops v) t0).list_items k f ≡ (replay ops t).list_items k f
unfolding dispatch_all dispatch
item_step k f up [] v t0 t e u h = e
item_step k f up (key_upsert k' row ∷ ops) v t0 t e u h =
    item_step k f up ops (dispatch (key_upsert k' row) v) t0 (apply_op (key_upsert k' row) t) e u h
item_step k f up (key_delete k' ∷ ops) v t0 t e u h =
    item_step k f up ops (dispatch (key_delete k') v) t0 (apply_op (key_delete k') t)
      (drop_keeps k f k' v t0 t e) u
      (ap (λ b. item_crossed k f b up ops) (has_key-push k v.store_delete_keys k') ∙ h)
item_step k f up (item_insert k' f' x ∷ ops) v t0 t e u h =
    elim (Bool-cases (bytes_eq k' k && eq_ℤ f' f)) [
      | inl a ↦
          (let h' : (has_key k v.store_delete_keys
                  || up
                  || item_crossed k f (has_key k v.store_delete_keys) true ops)
                ≡ false =
              sym (if_true _ _ a) ∙ h in
            item_step k f true ops (dispatch (item_insert k' f' x) v) t0
              (apply_op (item_insert k' f' x) t)
              (upsert_keeps k f k' f' x v t0 t e (λ _. (ground arith, u (ground arith)))) (λ z. cc)
              (ground arith))
      | inr a ↦
          (let h' : item_crossed k f (has_key k v.store_delete_keys) up ops ≡ false =
              sym (if_false _ _ a) ∙ h in
            item_step k f up ops (dispatch (item_insert k' f' x) v) t0
              (apply_op (item_insert k' f' x) t) (upsert_keeps k f k' f' x v t0 t e (λ b. cc))
              (λ z.
                new_item-push k f v.li_ins k' f' x
                ∙ rw a (or_else-none (new_item k f v.li_ins) ∙ u z))
              h')
    ]
item_step k f up (item_delete k' f' ∷ ops) v t0 t e u h =
    item_step k f up ops (dispatch (item_delete k' f') v) t0 (apply_op (item_delete k' f') t)
      (delete_keeps k f k' f' v t0 t e (λ a. u (ground arith))) u (ground arith)
item_step k f up (field_upsert k' o x ∷ ops) v t0 t e u h =
    item_step k f up ops (dispatch (field_upsert k' o x) v) t0 (apply_op (field_upsert k' o x) t) e
      u h
item_step k f up (field_delete k' o ∷ ops) v t0 t e u h =
    item_step k f up ops (dispatch (field_delete k' o) v) t0 (apply_op (field_delete k' o) t) e u h
