-- ===== src/Durable/Drain/Examples.antt =====
-- Batches and drains at concrete keys.
use pg_redis.Base.{
  ◌≡◌, refl, true, false, none, some, is_some, List, [], ◌∷◌, arith, length, take, min, Bytes,
  bytes_eq,
}
use pg_redis.Base.Int.{ℤ, pos}
use pg_redis.Types.{type_string, type_list}
use pg_redis.Shmem.{Dsa}
use pg_redis.Event.{
  Event, key_delete, list_item_insert, header, decode_key, decode_field, decode_value,
  event_payload_base,
}
use pg_redis.Ring.{Ring, init}
use pg_redis.Ring.Slots.{window}
use pg_redis.Ring.Valid.{IsValid, contents, init-IsValid}
use pg_redis.Ring.Publish.{enqueued, enqueued-IsValid}
use pg_redis.Durable.{
  StoreRow, Tables, truncate, has_key, last_row, new_item, has_item, fields_have_parent,
  items_insertable,
}
use pg_redis.Durable.Batch.{Op, no_vecs, dispatch, dispatch_all, run_plans}
use pg_redis.Durable.Batch.Effect.{applied, accepted, run_plans_lem}
use pg_redis.Durable.Batch.Replay.{replay}
use pg_redis.Durable.Batch.Order.{reborn}
use pg_redis.Durable.Batch.Fields.{field_crossed}
use pg_redis.Durable.Batch.Items.{item_crossed}
use pg_redis.Durable.Batch.Crossed.{
  batch, run_plans-replay, crossing, upsert_after_delete_lost, delete_after_upsert_lost,
  delete_after_insert_lost,
}
use pg_redis.Durable.Drain.{drained, spi_error, decode_event, decode_all, batch_max, async_drain}
use pg_redis.Durable.Drain.Outcome.{Settled, async_drain-Settled, async_drain-drains}
use pg_redis.Durable.Drain.Stuck.{drain_times, insert_twice_stuck}

abbrev key_k : Bytes
key_k = b'k' ∷ []

abbrev field_f : Bytes
field_f = b'f' ∷ []

abbrev row_v : StoreRow
row_v = record { type = type_string; value = some (b'v' ∷ []); expire_at = none; version = pos 1 }

abbrev hset_ops : List Op
hset_ops = Op.key_upsert key_k row_v ∷ Op.field_upsert key_k field_f (some key_k) ∷ []

abbrev parent_op : List Op
parent_op = Op.key_upsert key_k row_v ∷ []

hset_ops-accepted : accepted (batch hset_ops) truncate ≡ true
unfolding dispatch_all dispatch fields_have_parent items_insertable last_row bytes_eq
hset_ops-accepted = refl

run_plans-replay_example :
    (t' : Tables) × (run_plans (λ i. false) (batch hset_ops) truncate ≡ some t')
    × ((k : Bytes)
        → reborn k false hset_ops ≡ false
        → t'.store k ≡ (replay hset_ops truncate).store k)
    × ((k f : Bytes)
        → field_crossed k f false false hset_ops ≡ false
        → t'.hash_fields k f ≡ (replay hset_ops truncate).hash_fields k f)
    × ((k : Bytes) (o : ℤ)
        → item_crossed k o false false hset_ops ≡ false
        → t'.list_items k o ≡ (replay hset_ops truncate).list_items k o)
run_plans-replay_example = run_plans-replay hset_ops truncate hset_ops-accepted

-- HSET, DEL, HSET of another field, SET, and then SET of another key.
abbrev del_set : List Op
del_set =
    crossing hset_ops (Op.key_delete key_k)
      (Op.key_upsert key_k row_v ∷ Op.field_upsert key_k key_k none ∷ [])
      (Op.key_upsert key_k row_v) (Op.key_upsert field_f row_v ∷ [])

del_set-accepted : accepted (batch del_set) truncate ≡ true
unfolding dispatch_all dispatch fields_have_parent items_insertable last_row bytes_eq
del_set-accepted = refl

upsert_after_delete_lost_example :
    (t' : Tables) × (run_plans (λ i. false) (batch del_set) truncate ≡ some t')
    × (t'.store key_k ≡ none)
    × ((replay del_set truncate).store key_k ≡ some row_v)
unfolding bytes_eq
upsert_after_delete_lost_example =
    upsert_after_delete_lost hset_ops
      (Op.key_upsert key_k row_v ∷ Op.field_upsert key_k key_k none ∷ [])
      (Op.key_upsert field_f row_v ∷ []) key_k row_v truncate refl del_set-accepted

-- HSET, HSET of another field, then HDEL of the first, with a SET of another key at the end.
abbrev hset_hdel : List Op
hset_hdel =
    crossing parent_op (Op.field_upsert key_k field_f (some key_k))
      (Op.field_upsert key_k key_k none ∷ []) (Op.field_delete key_k field_f)
      (Op.key_upsert field_f row_v ∷ [])

hset_hdel-accepted : accepted (batch hset_hdel) truncate ≡ true
unfolding dispatch_all dispatch fields_have_parent items_insertable last_row bytes_eq
hset_hdel-accepted = refl

delete_after_upsert_lost_example :
    (t' : Tables) × (run_plans (λ i. false) (batch hset_hdel) truncate ≡ some t')
    × (t'.hash_fields key_k field_f ≡ some (some key_k))
    × ((replay hset_hdel truncate).hash_fields key_k field_f ≡ none)
unfolding bytes_eq dispatch_all dispatch has_key
delete_after_upsert_lost_example =
    delete_after_upsert_lost parent_op (Op.field_upsert key_k key_k none ∷ [])
      (Op.key_upsert field_f row_v ∷ []) key_k field_f (some key_k) truncate refl refl refl
      hset_hdel-accepted

-- Two pushes, then a pop of the first item.
abbrev push_pop : List Op
push_pop =
    crossing parent_op (Op.item_insert key_k (pos 0) (some key_k))
      (Op.item_insert key_k (pos 1) none ∷ []) (Op.item_delete key_k (pos 0)) []

push_pop-accepted : accepted (batch push_pop) truncate ≡ true
unfolding dispatch_all dispatch fields_have_parent items_insertable new_item last_row bytes_eq
    has_item truncate
push_pop-accepted = refl

delete_after_insert_lost_example :
    (t' : Tables) × (run_plans (λ i. false) (batch push_pop) truncate ≡ some t')
    × (is_some (t'.list_items key_k (pos 0)) ≡ true)
    × ((replay push_pop truncate).list_items key_k (pos 0) ≡ none)
unfolding dispatch_all dispatch has_key
delete_after_insert_lost_example =
    delete_after_insert_lost parent_op (Op.item_insert key_k (pos 1) none ∷ []) [] key_k (pos 0)
      (some key_k) truncate refl refl push_pop-accepted

abbrev no_chunks : Dsa
no_chunks = record { chunk = λ p. none; freed = [] }

abbrev del_event : Event
del_event = record (header key_delete type_string 1) { inline_bytes = key_k }

-- The insert of the list item 0 of the key, with an empty value.
abbrev push_event : Event
push_event = record (header list_item_insert type_list 1) { inline_bytes = key_k }

abbrev queue_of_two : Event → Ring
queue_of_two ev = enqueued 6 ev (enqueued 5 ev (init 4 no_chunks))

queue_of_two-IsValid : (ev : Event) → IsValid 0 (queue_of_two ev)
unfolding init
queue_of_two-IsValid ev =
    enqueued-IsValid 6 ev
      (enqueued-IsValid 5 ev (init-IsValid 4 no_chunks (omega arith) (omega arith)).0 (omega arith)
        (omega arith))
      (omega arith) (omega arith)

async_drain-Settled_example :
    Settled
      (λ i. false)
      (batch_max (pos 1))
      (queue_of_two del_event)
      truncate
      (async_drain true (λ i. false) true (pos 1) (queue_of_two del_event) truncate)
async_drain-Settled_example =
    async_drain-Settled true (λ i. false) true (pos 1) truncate (queue_of_two-IsValid del_event)

del_decodes :
    decode_all
      (queue_of_two del_event).dsa
      (take (batch_max (pos 1)) (contents (queue_of_two del_event)))
    ≡ some (Op.key_delete key_k ∷ [])
unfolding decode_all decode_event decode_key decode_field decode_value event_payload_base init
    window batch_max
del_decodes = refl

abbrev after_del : Tables
after_del = applied (batch (Op.key_delete key_k ∷ [])) truncate

del_runs :
    run_plans (λ i. false) (dispatch_all (Op.key_delete key_k ∷ []) no_vecs) truncate
    ≡ some after_del
unfolding fields_have_parent items_insertable dispatch_all dispatch
del_runs = run_plans_lem (batch (Op.key_delete key_k ∷ [])) truncate

async_drain-drains_example :
    (async_drain true (λ i. false) true (pos 1) (queue_of_two del_event) truncate).0
    ≡ drained (min (batch_max (pos 1)) (length (contents (queue_of_two del_event))))
async_drain-drains_example =
    async_drain-drains true (λ i. false) (pos 1) truncate after_del (Op.key_delete key_k ∷ [])
      (queue_of_two-IsValid del_event) refl del_decodes del_runs

abbrev push_ops : List Op
push_ops = Op.item_insert key_k (pos 0) (some []) ∷ Op.item_insert key_k (pos 0) (some []) ∷ []

push_decodes :
    decode_all
      (queue_of_two push_event).dsa
      (take (batch_max (pos 0)) (contents (queue_of_two push_event)))
    ≡ some push_ops
unfolding decode_all decode_event decode_key decode_field decode_value event_payload_base init
    window batch_max
push_decodes = refl

insert_twice_stuck_example :
    let (r', t') = drain_times (λ n i. false) (pos 0) 3 (queue_of_two push_event) truncate in
    ((async_drain true (λ i. false) true (pos 0) r' t').0 ≡ spi_error)
    × (contents r' ≡ contents (queue_of_two push_event))
    × (t' ≡ truncate)
unfolding bytes_eq
insert_twice_stuck_example =
    insert_twice_stuck (λ n i. false) (λ i. false) (pos 0) 3 key_k (pos 0) push_ops truncate
      (queue_of_two-IsValid push_event) push_decodes refl
