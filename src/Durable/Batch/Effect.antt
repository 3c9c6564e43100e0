-- ===== src/Durable/Batch/Effect.antt =====
-- What a batch of the flush and the drain does to each row, when no plan fails by itself.
use pg_redis.Base.{
  ◌≡◌, refl, ap, ap₂, is_some, sym, ◌∙◌, Bool, false, ◌&&◌, Option, none, some, List, [], ◌∷◌,
  if◌then◌else◌, Bytes, Bool-cases, inl, inr,
}
use pg_redis.Durable.{
  StoreRow, Tables, FieldUpsert, or_else, store_upsert, hash_field_delete, hash_field_upsert,
  list_item_delete, list_item_insert, store_delete, last_row, last_field, new_item, has_key,
  has_field, has_item, fields_have_parent, items_insertable,
}
use pg_redis.Durable.Batch.{Vecs, run_plan, run_plans}

-- A key that the batch deletes is gone with its children. Else its row is the last upsert of the
-- batch or the old row; a field is the last upsert of the batch, or the old one if the batch does
-- not delete it; a list item is the inserted one, or the old one if the batch does not delete it.
abbrev pub applied : Vecs → Tables → Tables
applied v t = record {
  store = λ k.
      if has_key k v.store_delete_keys then none else or_else (last_row k v.store_rows) (t.store k);
  hash_fields = λ k f.
      if has_key k v.store_delete_keys
      then none
      else or_else (last_field k f v.hf_up)
          (if has_field k f v.hf_del then none else t.hash_fields k f);
  list_items = λ k o.
      if has_key k v.store_delete_keys
      then none
      else or_else (new_item k o v.li_ins)
          (if has_item k o v.li_del then none else t.list_items k o);
}

-- After the first plan, and after the first four.
abbrev upserted : Vecs → Tables → Tables
upserted v t = record t { store = λ k. or_else (last_row k v.store_rows) (t.store k) }

abbrev pub items_deleted : Vecs → Tables → Tables
items_deleted v t = record {
  store = λ k. or_else (last_row k v.store_rows) (t.store k);
  hash_fields = λ k f.
      or_else (last_field k f v.hf_up) (if has_field k f v.hf_del then none else t.hash_fields k f);
  list_items = λ k o. if has_item k o v.li_del then none else t.list_items k o;
}

-- Every field upsert of the batch has a parent row once the batch has upserted its rows, and every
-- list insert a parent row and a free place once the batch has deleted its items.
abbrev pub accepted : Vecs → Tables → Bool
accepted v t =
    fields_have_parent v.hf_up (upserted v t) && items_insertable v.li_ins (items_deleted v t)

run_plan-plan :
    {A : Type 0} (rows : List A) (plan : List A → Tables → Option Tables) (t : Tables)
    → plan [] t ≡ some t
    → run_plan false rows plan t ≡ plan rows t
run_plan-plan [] plan t h = sym h
run_plan-plan (x ∷ xs) plan t h = refl

parents_only_store :
    (rows : List FieldUpsert) (t t' : Tables)
    → t.store ≡ t'.store
    → fields_have_parent rows t ≡ fields_have_parent rows t'
unfolding fields_have_parent
parents_only_store [] t t' h = refl
parents_only_store (x ∷ rows) t t' h =
    ap₂ (λ a b. a && b) (ap (λ (s : Bytes → Option StoreRow). is_some (s x.0)) h)
      (parents_only_store rows t t' h)

fields_deleted : Vecs → Tables → Tables
fields_deleted v t = record (upserted v t) {
  hash_fields = λ k f. if has_field k f v.hf_del then none else t.hash_fields k f;
}

fields_upserted : Vecs → Tables → Tables
fields_upserted v t = record (upserted v t) {
  hash_fields = λ k f.
      or_else (last_field k f v.hf_up) (if has_field k f v.hf_del then none else t.hash_fields k f);
}

items_inserted : Vecs → Tables → Tables
items_inserted v t = record (fields_upserted v t) {
  list_items = λ k o.
      or_else (new_item k o v.li_ins) (if has_item k o v.li_del then none else t.list_items k o);
}

plan_1 : (v : Vecs) (t : Tables) → run_plan false v.store_rows store_upsert t ≡ some (upserted v t)
unfolding store_upsert last_row
plan_1 v t = run_plan-plan v.store_rows store_upsert t refl

plan_2 :
    (v : Vecs) (t : Tables)
    → run_plan false v.hf_del hash_field_delete (upserted v t) ≡ some (fields_deleted v t)
unfolding hash_field_delete has_field fields_deleted
plan_2 v t = run_plan-plan v.hf_del hash_field_delete (upserted v t) refl

plan_3 :
    (v : Vecs) (t : Tables)
    → run_plan false v.hf_up hash_field_upsert (fields_deleted v t)
      ≡ (if fields_have_parent v.hf_up (upserted v t) then some (fields_upserted v t) else none)
unfolding hash_field_upsert last_field fields_have_parent fields_deleted fields_upserted
plan_3 v t =
    run_plan-plan v.hf_up hash_field_upsert (fields_deleted v t) refl
    ∙ ap (λ (b : Bool). if b then some (fields_upserted v t) else none)
        (parents_only_store v.hf_up (fields_deleted v t) (upserted v t) refl)

plan_4 :
    (v : Vecs) (t : Tables)
    → run_plan false v.li_del list_item_delete (fields_upserted v t) ≡ some (items_deleted v t)
unfolding list_item_delete has_item fields_upserted
plan_4 v t = run_plan-plan v.li_del list_item_delete (fields_upserted v t) refl

plan_5 :
    (v : Vecs) (t : Tables)
    → run_plan false v.li_ins list_item_insert (items_deleted v t)
      ≡ (if items_insertable v.li_ins (items_deleted v t) then some (items_inserted v t) else none)
unfolding list_item_insert new_item items_insertable fields_upserted items_inserted
plan_5 v t = run_plan-plan v.li_ins list_item_insert (items_deleted v t) refl

plan_6 :
    (v : Vecs) (t : Tables)
    → run_plan false v.store_delete_keys store_delete (items_inserted v t) ≡ some (applied v t)
unfolding store_delete has_key fields_upserted items_inserted
plan_6 v t = run_plan-plan v.store_delete_keys store_delete (items_inserted v t) refl

-- The six plans, when none fails for a reason of its own: the batch is refused exactly when a
-- field or an item lacks its parent row or an item's place is taken, and else every row of the three
-- tables is the one of `applied`.
pub run_plans_lem :
    (v : Vecs) (t : Tables)
    → run_plans (λ i. false) v t ≡ (if accepted v t then some (applied v t) else none)
unfolding run_plans
run_plans_lem v t = rw (plan_1 v t) (
    rw (plan_2 v t) (
      rw (plan_3 v t) (elim (Bool-cases (fields_have_parent v.hf_up (upserted v t))) [
        | inr a ↦ rw a refl
        | inl a ↦ rw a (
            rw (plan_4 v t) (
              rw (plan_5 v t) (elim (Bool-cases (items_insertable v.li_ins (items_deleted v t))) [
                | inr b ↦ rw b refl
                | inl b ↦ rw b (plan_6 v t)
              ])))
      ])))
