-- ===== src/Durable/Batch/Crossed.antt =====
-- When a batch does what its changes ask for in their order, and what it does when they cross.
use pg_redis.Base.{
  ◌≡◌, refl, ◌∙◌, true, false, Option, none, some, is_some, List, ◌∷◌, ◌++◌, Bytes, bytes_eq,
  bytes_eq_iff, ap,
}
use pg_redis.Base.Int.{ℤ, eq_ℤ_refl}
use pg_redis.Durable.{
  StoreRow, Tables, last_row, last_field, new_item, has_key, has_field, has_item,
}
use pg_redis.Durable.Batch.{
  Op, key_upsert, key_delete, field_upsert, field_delete, item_insert, item_delete, Vecs, no_vecs,
  dispatch, dispatch_all, run_plans,
}
use pg_redis.Durable.Batch.Effect.{applied, accepted, run_plans_lem}
use pg_redis.Durable.Batch.Later.{
  sets_key, upserts_field, inserts_item, has_key-stays, last_field-stays, new_item-stays, row_stays,
  field_gone, item_gone, is_some-or_else, or_else-is_some,
}
use pg_redis.Durable.Batch.Replay.{
  apply_op, replay, has_key-push, replay-append, dispatch_all-append,
}
use pg_redis.Durable.Batch.Order.{reborn, store_step}
use pg_redis.Durable.Batch.Fields.{field_crossed, field_step, last_field-push}
use pg_redis.Durable.Batch.Items.{item_crossed, item_step, new_item-push}

abbrev pub batch : List Op → Vecs
batch ops = dispatch_all ops no_vecs

accepted_run :
    (v : Vecs) (t : Tables) → accepted v t ≡ true → run_plans (λ i. false) v t ≡ some (applied v t)
accepted_run v t h = run_plans_lem v t ∙ rw h refl

-- A batch that the constraints accept, with no fault of its own: it succeeds, and a key that is not
-- upserted after a delete of it has the row that the changes one by one give it; likewise a field
-- that is not upserted after a delete of its key or deleted after an upsert, and a list item that is
-- not inserted after a delete of its key or twice, or deleted after an insert.
pub run_plans-replay :
    (ops : List Op) (t : Tables)
    → accepted (batch ops) t ≡ true
    → (t' : Tables) × (run_plans (λ i. false) (batch ops) t ≡ some t')
      × ((k : Bytes) → reborn k false ops ≡ false → t'.store k ≡ (replay ops t).store k)
      × ((k f : Bytes)
          → field_crossed k f false false ops ≡ false
          → t'.hash_fields k f ≡ (replay ops t).hash_fields k f)
      × ((k : Bytes) (o : ℤ)
          → item_crossed k o false false ops ≡ false
          → t'.list_items k o ≡ (replay ops t).list_items k o)
unfolding has_key last_row last_field new_item has_field has_item
run_plans-replay ops t a = (
  applied (batch ops) t,
  accepted_run (batch ops) t a,
  λ k h. store_step k ops no_vecs t t refl h,
  λ k f h. field_step k f false ops no_vecs t t refl (λ z. refl) h,
  λ k o h. item_step k o false ops no_vecs t t refl (λ z. refl) h,
)

bytes_eq_refl : (k : Bytes) → bytes_eq k k ≡ true
bytes_eq_refl k = (bytes_eq_iff k k).1 refl

-- Two changes of a batch, with others before, between and after them.
abbrev pub crossing : List Op → Op → List Op → Op → List Op → List Op
crossing before a between b after = before ++ (a ∷ between ++ (b ∷ after))

dispatch_all-crossing :
    (before : List Op) (a : Op) (between : List Op) (b : Op) (after : List Op)
    → batch (crossing before a between b after)
      ≡ dispatch_all after (dispatch b (dispatch_all between (dispatch a (batch before))))
unfolding dispatch_all
dispatch_all-crossing before a between b after =
    dispatch_all-append before (a ∷ between ++ (b ∷ after)) no_vecs
    ∙ dispatch_all-append between (b ∷ after) (dispatch a (batch before))

replay-crossing :
    (before : List Op) (a : Op) (between : List Op) (b : Op) (after : List Op) (t : Tables)
    → replay (crossing before a between b after) t
      ≡ replay after (apply_op b (replay between (apply_op a (replay before t))))
replay-crossing before a between b after t =
    replay-append before (a ∷ between ++ (b ∷ after)) t
    ∙ replay-append between (b ∷ after) (apply_op a (replay before t))

-- A key that a batch deletes, and upserts at some later place, after which the batch does not upsert
-- or delete it again: where the constraints accept the batch, and no plan fails by itself, it leaves
-- no row of the key, though the changes one by one leave the one of that upsert.
pub upsert_after_delete_lost :
    (before between after : List Op) (k : Bytes) (row : StoreRow) (t : Tables)
    → sets_key k after ≡ false
    → accepted (batch (crossing before (key_delete k) between (key_upsert k row) after)) t ≡ true
    → let ops = crossing before (key_delete k) between (key_upsert k row) after in
      (t' : Tables) × (run_plans (λ i. false) (batch ops) t ≡ some t')
      × (t'.store k ≡ none)
      × ((replay ops t).store k ≡ some row)
unfolding dispatch
upsert_after_delete_lost before between after k row t last a =
    let v = dispatch (key_delete k) (batch before) in
    let w = dispatch (key_upsert k row) (dispatch_all between v) in
    let dead : has_key k v.store_delete_keys ≡ true =
      has_key-push k (batch before).store_delete_keys k ∙ rw (bytes_eq_refl k) refl in
    let still : has_key k (dispatch_all after w).store_delete_keys ≡ true =
      has_key-stays k after w (has_key-stays k between v dead) in
    (
      applied _ t,
      accepted_run _ t a,
      rw (dispatch_all-crossing before (key_delete k) between (key_upsert k row) after)
          (rw still refl),
      rw (replay-crossing before (key_delete k) between (key_upsert k row) after t)
          (row_stays k after _ last ∙ rw (bytes_eq_refl k) refl),
    )

-- A field that a batch upserts, and deletes at some later place, while it does not upsert the field
-- again and does not delete the key: where the constraints accept the batch, and no plan fails by
-- itself, it leaves the upserted value in the table, though the changes one by one leave no row of
-- the field.
pub delete_after_upsert_lost :
    (before between after : List Op) (k f : Bytes) (x : Option Bytes) (t : Tables)
    → let ops = crossing before (field_upsert k f x) between (field_delete k f) after in
      upserts_field k f between ≡ false
      → upserts_field k f after ≡ false
      → has_key k (batch ops).store_delete_keys ≡ false
      → accepted (batch ops) t ≡ true
      → (t' : Tables) × (run_plans (λ i. false) (batch ops) t ≡ some t')
        × (t'.hash_fields k f ≡ some x)
        × ((replay ops t).hash_fields k f ≡ none)
unfolding dispatch
delete_after_upsert_lost before between after k f x t once last alive a =
    let ops = crossing before (field_upsert k f x) between (field_delete k f) after in
    let v = dispatch (field_upsert k f x) (batch before) in
    let w = dispatch (field_delete k f) (dispatch_all between v) in
    let kept : last_field k f (batch ops).hf_up ≡ some x =
      ap (λ (z : Vecs). last_field k f z.hf_up)
        (dispatch_all-crossing before (field_upsert k f x) between (field_delete k f) after)
      ∙ last_field-stays k f after w last
      ∙ last_field-stays k f between v once
      ∙ last_field-push k f (batch before).hf_up k f x
      ∙ rw (bytes_eq_refl k) (rw (bytes_eq_refl f) refl) in
    (
      applied _ t,
      accepted_run _ t a,
      rw alive (rw kept refl),
      rw (replay-crossing before (field_upsert k f x) between (field_delete k f) after t)
          (field_gone k f after _ last (rw (bytes_eq_refl k) (rw (bytes_eq_refl f) refl))),
    )

-- A list item that a batch inserts, and deletes at some later place, while it does not insert the item
-- after the delete and does not delete the key: where the constraints accept the batch, and no plan
-- fails by itself, it leaves a row of the item, though the changes one by one leave none.
pub delete_after_insert_lost :
    (before between after : List Op) (k : Bytes) (o : ℤ) (x : Option Bytes) (t : Tables)
    → let ops = crossing before (item_insert k o x) between (item_delete k o) after in
      inserts_item k o after ≡ false
      → has_key k (batch ops).store_delete_keys ≡ false
      → accepted (batch ops) t ≡ true
      → (t' : Tables) × (run_plans (λ i. false) (batch ops) t ≡ some t')
        × (is_some (t'.list_items k o) ≡ true)
        × ((replay ops t).list_items k o ≡ none)
unfolding dispatch
delete_after_insert_lost before between after k o x t last alive a =
    let ops = crossing before (item_insert k o x) between (item_delete k o) after in
    let v = dispatch (item_insert k o x) (batch before) in
    let w = dispatch (item_delete k o) (dispatch_all between v) in
    let here : is_some (new_item k o v.li_ins) ≡ true =
      ap (λ (z : Option (Option Bytes)). is_some z) (new_item-push k o (batch before).li_ins k o x)
      ∙ rw (bytes_eq_refl k)
          (rw (eq_ℤ_refl o) (is_some-or_else (new_item k o (batch before).li_ins) x)) in
    let kept : is_some (new_item k o (batch ops).li_ins) ≡ true =
      ap (λ (z : Vecs). is_some (new_item k o z.li_ins))
        (dispatch_all-crossing before (item_insert k o x) between (item_delete k o) after)
      ∙ new_item-stays k o after w (new_item-stays k o between v here) in
    (
      applied _ t,
      accepted_run _ t a,
      rw alive (or_else-is_some _ _ kept),
      rw (replay-crossing before (item_insert k o x) between (item_delete k o) after t)
          (item_gone k o after _ last (rw (bytes_eq_refl k) (rw (eq_ℤ_refl o) refl))),
    )
