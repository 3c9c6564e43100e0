-- ===== src/Durable/Batch.antt =====
-- src/persistence.c: the vectors of a batch, and the six plans in their order, which `run_flush` and
-- `pg_redis_persistence_async_drain` share.
pub mod Effect
pub mod Replay
pub mod Order
pub mod Fields
pub mod Items
pub mod Later
pub mod Crossed
use pg_redis.Base.{
  ℕ, zero, suc, Bool, true, false, Option, none, some, List, [], ◌∷◌, ◌++◌, ◌>>=◌, if◌then◌else◌,
  Bytes,
}
use pg_redis.Base.Int.{ℤ}
use pg_redis.Durable.{
  StoreRow, Tables, StoreUpsert, FieldUpsert, FieldDelete, ItemInsert, ItemDelete, store_upsert,
  hash_field_delete, hash_field_upsert, list_item_delete, list_item_insert, store_delete,
}

-- One queued change, decoded.
pub data Op : Type 0 where
  key_upsert : Bytes → StoreRow → Op
  key_delete : Bytes → Op
  field_upsert : Bytes → Bytes → Option Bytes → Op
  field_delete : Bytes → Bytes → Op
  item_insert : Bytes → ℤ → Option Bytes → Op
  item_delete : Bytes → ℤ → Op

-- The parallel `DatumVec`s, as one list of tuples for each statement.
pub record Vecs : Type 0 where
  pub store_rows : List StoreUpsert
  pub hf_up : List FieldUpsert
  pub hf_del : List FieldDelete
  pub li_ins : List ItemInsert
  pub li_del : List ItemDelete
  pub store_delete_keys : List Bytes

abbrev pub no_vecs : Vecs
no_vecs = record {
  store_rows = [];
  hf_up = [];
  hf_del = [];
  li_ins = [];
  li_del = [];
  store_delete_keys = [];
}

-- `vec_push`
abbrev pub vec_push {ℓ} : {A : Type ℓ} → List A → A → List A
vec_push v d = v ++ (d ∷ [])

-- The switch on the type of the event.
unfoldable pub dispatch : Op → Vecs → Vecs
dispatch (key_upsert k row) v = record v { store_rows = vec_push v.store_rows (k, row) }
dispatch (key_delete k) v = record v { store_delete_keys = vec_push v.store_delete_keys k }
dispatch (field_upsert k f x) v = record v { hf_up = vec_push v.hf_up (k, f, x) }
dispatch (field_delete k f) v = record v { hf_del = vec_push v.hf_del (k, f) }
dispatch (item_insert k o x) v = record v { li_ins = vec_push v.li_ins (k, o, x) }
dispatch (item_delete k o) v = record v { li_del = vec_push v.li_del (k, o) }

unfoldable pub dispatch_all : List Op → Vecs → Vecs
unfolding dispatch
dispatch_all [] v = v
dispatch_all (op ∷ ops) v = dispatch_all ops (dispatch op v)

-- A plan is run when its vectors are not empty; `fault i` is a failure of the i-th plan that is not
-- the statement's own.
abbrev pub run_plan {ℓ} :
    {A : Type ℓ} → Bool → List A → (List A → Tables → Option Tables) → Tables → Option Tables
run_plan fault [] plan t = some t
run_plan fault (x ∷ xs) plan t = if fault then none else plan (x ∷ xs) t

unfoldable pub run_plans : (ℕ → Bool) → Vecs → Tables → Option Tables
run_plans fault v t = do
  t1 ← run_plan (fault 1) v.store_rows store_upsert t
  t2 ← run_plan (fault 2) v.hf_del hash_field_delete t1
  t3 ← run_plan (fault 3) v.hf_up hash_field_upsert t2
  t4 ← run_plan (fault 4) v.li_del list_item_delete t3
  t5 ← run_plan (fault 5) v.li_ins list_item_insert t4
  run_plan (fault 6) v.store_delete_keys store_delete t5
