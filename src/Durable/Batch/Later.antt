-- ===== src/Durable/Batch/Later.antt =====
-- What later changes of a batch leave as it is, in the vectors of the batch and in the tables of its
-- changes one by one.
use pg_redis.Base.{
  ◌≡◌, refl, ◌∙◌, ap, Bool, true, false, ◌&&◌, ◌||◌, Option, none, some, is_some, List, [], ◌∷◌,
  Bytes, bytes_eq, arith, if_false, if◌then◌else◌,
}
use pg_redis.Base.Int.{ℤ, eq_ℤ}
use pg_redis.Durable.{Tables, or_else, last_field, new_item, has_key}
use pg_redis.Durable.Batch.{
  Op, key_upsert, key_delete, field_upsert, field_delete, item_insert, item_delete, Vecs, dispatch,
  dispatch_all,
}
use pg_redis.Durable.Batch.Replay.{apply_op, replay, has_key-push}
use pg_redis.Durable.Batch.Fields.{last_field-push}
use pg_redis.Durable.Batch.Items.{new_item-push}

-- Some change upserts or deletes the key.
abbrev pub sets_key : Bytes → List Op → Bool
sets_key k [] = false
sets_key k (key_upsert k' _ ∷ ops) = bytes_eq k' k || sets_key k ops
sets_key k (key_delete k' ∷ ops) = bytes_eq k' k || sets_key k ops
sets_key k (_ ∷ ops) = sets_key k ops

-- Some change upserts the field.
abbrev pub upserts_field : Bytes → Bytes → List Op → Bool
upserts_field k f [] = false
upserts_field k f (field_upsert k' f' _ ∷ ops) =
    (bytes_eq k' k && bytes_eq f' f) || upserts_field k f ops
upserts_field k f (_ ∷ ops) = upserts_field k f ops

-- Some change inserts the item.
abbrev pub inserts_item : Bytes → ℤ → List Op → Bool
inserts_item k o [] = false
inserts_item k o (item_insert k' o' _ ∷ ops) = (bytes_eq k' k && eq_ℤ o' o) || inserts_item k o ops
inserts_item k o (_ ∷ ops) = inserts_item k o ops

pub has_key-stays :
    (k : Bytes) (ops : List Op) (v : Vecs)
    → has_key k v.store_delete_keys ≡ true
    → has_key k (dispatch_all ops v).store_delete_keys ≡ true
unfolding dispatch_all dispatch
has_key-stays k [] v h = h
has_key-stays k (key_delete k' ∷ ops) v h =
    has_key-stays k ops (dispatch (key_delete k') v)
      (has_key-push k v.store_delete_keys k' ∙ ground (arith, h))
has_key-stays k (key_upsert k' x ∷ ops) v h = has_key-stays k ops (dispatch (key_upsert k' x) v) h
has_key-stays k (field_upsert k' f x ∷ ops) v h =
    has_key-stays k ops (dispatch (field_upsert k' f x) v) h
has_key-stays k (field_delete k' f ∷ ops) v h =
    has_key-stays k ops (dispatch (field_delete k' f) v) h
has_key-stays k (item_insert k' o x ∷ ops) v h =
    has_key-stays k ops (dispatch (item_insert k' o x) v) h
has_key-stays k (item_delete k' o ∷ ops) v h = has_key-stays k ops (dispatch (item_delete k' o) v) h

or_false : (a b : Bool) → (a || b) ≡ false → (a ≡ false) × (b ≡ false)
or_false false false h = (refl, refl)
or_false false true h = (refl, h)
or_false true b h = absurd cc

pub last_field-stays :
    (k f : Bytes) (ops : List Op) (v : Vecs)
    → upserts_field k f ops ≡ false
    → last_field k f (dispatch_all ops v).hf_up ≡ last_field k f v.hf_up
unfolding dispatch_all dispatch
last_field-stays k f [] v h = refl
last_field-stays k f (field_upsert k' f' x ∷ ops) v h =
    let (other, rest) = or_false (bytes_eq k' k && bytes_eq f' f) (upserts_field k f ops) h in
    last_field-stays k f ops (dispatch (field_upsert k' f' x) v) rest
    ∙ last_field-push k f v.hf_up k' f' x
    ∙ rw other refl
last_field-stays k f (key_upsert k' x ∷ ops) v h =
    last_field-stays k f ops (dispatch (key_upsert k' x) v) h
last_field-stays k f (key_delete k' ∷ ops) v h =
    last_field-stays k f ops (dispatch (key_delete k') v) h
last_field-stays k f (field_delete k' f' ∷ ops) v h =
    last_field-stays k f ops (dispatch (field_delete k' f') v) h
last_field-stays k f (item_insert k' o x ∷ ops) v h =
    last_field-stays k f ops (dispatch (item_insert k' o x) v) h
last_field-stays k f (item_delete k' o ∷ ops) v h =
    last_field-stays k f ops (dispatch (item_delete k' o) v) h

pub is_some-or_else :
    (o : Option (Option Bytes)) (x : Option Bytes) → is_some (or_else o (some x)) ≡ true
is_some-or_else none x = refl
is_some-or_else (some y) x = refl

pub or_else-is_some :
    (o p : Option (Option Bytes)) → is_some o ≡ true → is_some (or_else o p) ≡ true
or_else-is_some none p h = absurd cc
or_else-is_some (some y) p h = refl

pub new_item-stays :
    (k : Bytes) (o : ℤ) (ops : List Op) (v : Vecs)
    → is_some (new_item k o v.li_ins) ≡ true
    → is_some (new_item k o (dispatch_all ops v).li_ins) ≡ true
unfolding dispatch_all dispatch
new_item-stays k o [] v h = h
new_item-stays k o (item_insert k' o' x ∷ ops) v h =
    new_item-stays k o ops (dispatch (item_insert k' o' x) v) (
      ap (λ (z : Option (Option Bytes)). is_some z) (new_item-push k o v.li_ins k' o' x)
      ∙ or_else-is_some (new_item k o v.li_ins) _ h)
new_item-stays k o (key_upsert k' x ∷ ops) v h =
    new_item-stays k o ops (dispatch (key_upsert k' x) v) h
new_item-stays k o (key_delete k' ∷ ops) v h = new_item-stays k o ops (dispatch (key_delete k') v) h
new_item-stays k o (field_upsert k' f x ∷ ops) v h =
    new_item-stays k o ops (dispatch (field_upsert k' f x) v) h
new_item-stays k o (field_delete k' f ∷ ops) v h =
    new_item-stays k o ops (dispatch (field_delete k' f) v) h
new_item-stays k o (item_delete k' o' ∷ ops) v h =
    new_item-stays k o ops (dispatch (item_delete k' o') v) h

pub row_stays :
    (k : Bytes) (ops : List Op) (t : Tables)
    → sets_key k ops ≡ false
    → (replay ops t).store k ≡ t.store k
row_stays k [] t h = refl
row_stays k (key_upsert k' x ∷ ops) t h =
    let (other, rest) = or_false (bytes_eq k' k) (sets_key k ops) h in
    row_stays k ops (apply_op (key_upsert k' x) t) rest ∙ if_false _ _ other
row_stays k (key_delete k' ∷ ops) t h =
    let (other, rest) = or_false (bytes_eq k' k) (sets_key k ops) h in
    row_stays k ops (apply_op (key_delete k') t) rest ∙ if_false _ _ other
row_stays k (field_upsert k' f x ∷ ops) t h = row_stays k ops (apply_op (field_upsert k' f x) t) h
row_stays k (field_delete k' f ∷ ops) t h = row_stays k ops (apply_op (field_delete k' f) t) h
row_stays k (item_insert k' o x ∷ ops) t h = row_stays k ops (apply_op (item_insert k' o x) t) h
row_stays k (item_delete k' o ∷ ops) t h = row_stays k ops (apply_op (item_delete k' o) t) h

none_or_kept {ℓ} :
    {A : Type ℓ} (b : Bool) (o : Option A) → o ≡ none → (if b then none else o) ≡ none
none_or_kept true o h = refl
none_or_kept false o h = h

pub field_gone :
    (k f : Bytes) (ops : List Op) (t : Tables)
    → upserts_field k f ops ≡ false
    → t.hash_fields k f ≡ none
    → (replay ops t).hash_fields k f ≡ none
field_gone k f [] t h gone = gone
field_gone k f (field_upsert k' f' x ∷ ops) t h gone =
    let (other, rest) = or_false (bytes_eq k' k && bytes_eq f' f) (upserts_field k f ops) h in
    field_gone k f ops (apply_op (field_upsert k' f' x) t) rest (if_false _ _ other ∙ gone)
field_gone k f (key_delete k' ∷ ops) t h gone =
    field_gone k f ops (apply_op (key_delete k') t) h (none_or_kept (bytes_eq k' k) _ gone)
field_gone k f (field_delete k' f' ∷ ops) t h gone =
    field_gone k f ops (apply_op (field_delete k' f') t) h
      (none_or_kept (bytes_eq k' k && bytes_eq f' f) _ gone)
field_gone k f (key_upsert k' x ∷ ops) t h gone =
    field_gone k f ops (apply_op (key_upsert k' x) t) h gone
field_gone k f (item_insert k' o x ∷ ops) t h gone =
    field_gone k f ops (apply_op (item_insert k' o x) t) h gone
field_gone k f (item_delete k' o ∷ ops) t h gone =
    field_gone k f ops (apply_op (item_delete k' o) t) h gone

pub item_gone :
    (k : Bytes) (o : ℤ) (ops : List Op) (t : Tables)
    → inserts_item k o ops ≡ false
    → t.list_items k o ≡ none
    → (replay ops t).list_items k o ≡ none
item_gone k o [] t h gone = gone
item_gone k o (item_insert k' o' x ∷ ops) t h gone =
    let (other, rest) = or_false (bytes_eq k' k && eq_ℤ o' o) (inserts_item k o ops) h in
    item_gone k o ops (apply_op (item_insert k' o' x) t) rest (if_false _ _ other ∙ gone)
item_gone k o (key_delete k' ∷ ops) t h gone =
    item_gone k o ops (apply_op (key_delete k') t) h (none_or_kept (bytes_eq k' k) _ gone)
item_gone k o (item_delete k' o' ∷ ops) t h gone =
    item_gone k o ops (apply_op (item_delete k' o') t) h
      (none_or_kept (bytes_eq k' k && eq_ℤ o' o) _ gone)
item_gone k o (key_upsert k' x ∷ ops) t h gone =
    item_gone k o ops (apply_op (key_upsert k' x) t) h gone
item_gone k o (field_upsert k' f x ∷ ops) t h gone =
    item_gone k o ops (apply_op (field_upsert k' f x) t) h gone
item_gone k o (field_delete k' f ∷ ops) t h gone =
    item_gone k o ops (apply_op (field_delete k' f) t) h gone
