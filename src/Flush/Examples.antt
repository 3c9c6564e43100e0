-- ===== src/Flush/Examples.antt =====
-- A flush of one hash, and the hash and list calls before it, at concrete values.
use pg_redis.Base.{
  ◌≡◌, refl, Option, true, false, none, some, [], ◌∷◌, Bytes, bytes_eq, bytes_eq_iff, subst, arith,
  Bool-cases, inl, inr,
}
use pg_redis.Base.Int.{pos}
use pg_redis.Types.{hash_value, int_value}
use pg_redis.HashValue.{Hash, hash_create, hash_set, hash_del, find, enter}
use pg_redis.HashValue.Fields.{IsMap, total}
use pg_redis.HashValue.Accounts.{IsHash}
use pg_redis.ListValue.{Chain, list_create, list_lpush, list_rpush, list_lpop, list_rpop}
use pg_redis.ListValue.Push.{list_rpush-Pushes}
use pg_redis.ListValue.Queue.{
  rpop, Agrees, queue_step, values, list_step, list_step-Agrees, list_create-IsList,
}
use pg_redis.Session.{Session, put, mark_dirty}
use pg_redis.Session.WellFormed.{IsLinked, links, operations-IsLinked}
use pg_redis.Durable.{Tables}
use pg_redis.Durable.Batch.{run_plans}
use pg_redis.Flush.{
  SessionEntry, collect, collect_dirty, collect_value, entries, run_flush, nothing_dirty,
}
use pg_redis.Flush.Vectors.{AreDistinct, node_at}
use pg_redis.Flush.Commit.{Tracks, Committed}
use pg_redis.Flush.Whole.{AllTracked, run_flush-Committed}
use pg_redis.Flush.Tracking.{TracksAfter, hash_ops-Tracks}
use pg_redis.Flush.Lists.{TracksChain, TracksPopped, list_ops-Tracks}
use pg_redis.Modes.{persist_sync_table}
use pg_redis.Flush.Callback.{
  Backend, xact_cb_persistence, xact_pre_commit, commit_then_abort, IsOrphan, overwrite,
  failed_flush_stuck,
}
use pg_redis.Flush.Failed.{FlushedRows, run_flush-FlushedRows}

abbrev no_rows : Tables
no_rows = record { store = λ k. none; hash_fields = λ k f. none; list_items = λ k o. none }

abbrev key_h : Bytes
key_h = b'h' ∷ []

abbrev key_z : Bytes
key_z = b'z' ∷ []

abbrev one_field : Hash
one_field = record {
  fields = (b'f' ∷ [], record { value = b'v' ∷ []; dirty = true }) ∷ [];
  field_count = 1;
  memory_usage = 1057;
  tombstones = [];
}

created-IsHash : IsHash hash_create
unfolding IsMap total
created-IsHash = record { map = tt; counted = refl; charged = refl; fits = omega arith }

created-Tracks : Tracks key_h (hash_value (some hash_create)) no_rows
unfolding IsMap find
created-Tracks = (tt, λ f. inr refl)

hash_ops-Tracks_example :
    TracksAfter key_h no_rows (hash_set hash_create (b'f' ∷ []) (b'v' ∷ []))
    × TracksAfter key_h no_rows (some (hash_del hash_create (b'f' ∷ [])))
hash_ops-Tracks_example =
    hash_ops-Tracks key_h no_rows hash_create (b'f' ∷ []) (b'v' ∷ []) created-IsHash (omega arith)
      created-Tracks

one_field-Tracks : IsHash one_field × Tracks key_h (hash_value (some one_field)) no_rows
unfolding hash_set find enter
one_field-Tracks = hash_ops-Tracks_example.0

abbrev entry_h : SessionEntry
entry_h = record {
  value = hash_value (some one_field);
  expire_at = pos 0;
  has_expire = false;
  dirty = false;
  deleted = false;
  in_dirty_set = false;
  version = 1;
}

abbrev session_h : Session Hash Chain
session_h = mark_dirty key_h (
    put key_h (some entry_h)
      (record { store = λ k. none; dirty_set = []; pending_deletes = key_z ∷ [] }))

put-IsLinked : IsLinked (
    put key_h
      (some entry_h)
      (record { store = λ k. none; dirty_set = []; pending_deletes = key_z ∷ [] }))
unfolding links
put-IsLinked k = elim (Bool-cases (bytes_eq key_h k)) [ inl e ↦ rw e refl | inr e ↦ rw e refl ]

session_h-IsLinked : IsLinked session_h
session_h-IsLinked = (operations-IsLinked (pos 5) (pos 5) (pos 60) key_h [] _ put-IsLinked).3

session_h-AllTracked : AllTracked session_h no_rows
unfolding mark_dirty bytes_eq
session_h-AllTracked k e there dirty = elim (Bool-cases (bytes_eq key_h k)) [
  | inl q ↦
      let marked : SessionEntry = record entry_h { in_dirty_set = true; dirty = true } in
      let found : some marked ≡ some e = rw q at there in
      let same : marked ≡ e = cc in
      subst (λ (j : Bytes). Tracks j e.value no_rows) ((bytes_eq_iff key_h k).0 q)
        (subst (λ (x : SessionEntry). Tracks key_h x.value no_rows) same one_field-Tracks.1)
  | inr q ↦ let missing : ◌≡◌ {A = Option SessionEntry} none (some e) = rw q at there in absurd cc
]

run_flush-Committed_example :
    Committed key_h
      (record entry_h { in_dirty_set = true; dirty = true })
      (run_flush true (λ i. false) session_h no_rows)
unfolding mark_dirty bytes_eq
run_flush-Committed_example =
    run_flush-Committed session_h no_rows key_h
      (record entry_h { in_dirty_set = true; dirty = true }) session_h-IsLinked session_h-AllTracked
      refl refl

run_flush-FlushedRows_example :
    FlushedRows session_h no_rows key_z (run_flush true (λ i. false) session_h no_rows)
unfolding mark_dirty bytes_eq links
run_flush-FlushedRows_example = run_flush-FlushedRows session_h no_rows key_z refl

abbrev backend_h : Backend
backend_h = record { session = session_h; published = 0; loaded = true }

abbrev after_abort : Session Hash Chain
after_abort = (commit_then_abort (λ i. true) backend_h no_rows).session

failed_flush_stuck_example :
    ((xact_cb_persistence xact_pre_commit persist_sync_table true (λ i. true) backend_h no_rows).0
      ≡ true)
    × IsOrphan key_h after_abort
    × (run_flush true
          (λ i. false)
          (mark_dirty key_h (overwrite key_h (int_value (pos 7)) after_abort))
          no_rows
        ≡ (nothing_dirty, overwrite key_h (int_value (pos 7)) after_abort, no_rows))
unfolding mark_dirty bytes_eq collect collect_dirty collect_value entries run_plans
failed_flush_stuck_example =
    failed_flush_stuck (λ i. true) (λ i. false) true backend_h no_rows no_rows key_h
      (int_value (pos 7)) refl refl refl

list_ops-Tracks_example :
    TracksChain key_h no_rows (list_lpush list_create (b'v' ∷ []))
    × TracksChain key_h no_rows (list_rpush list_create (b'v' ∷ []))
    × TracksPopped key_h no_rows (list_lpop list_create)
    × TracksPopped key_h no_rows (list_rpop list_create)
unfolding AreDistinct node_at
list_ops-Tracks_example =
    list_ops-Tracks key_h no_rows list_create (b'v' ∷ []) list_create-IsList (omega arith)
      (tt, λ o. inr refl)

abbrev one_node : Chain
one_node = list_rpush list_create (b'v' ∷ [])

list_step-Agrees_example :
    Agrees (queue_step rpop (values one_node.nodes)) (list_step rpop one_node)
list_step-Agrees_example =
    list_step-Agrees rpop one_node
      (list_rpush-Pushes list_create (b'v' ∷ []) list_create-IsList (omega arith)).list tt
