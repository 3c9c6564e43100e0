-- ===== src/Flush.antt =====
-- src/persistence.c: the flush of a session's changes at commit. The entries hold the hashes of
-- HashValue and the lists of ListValue; the plans are those of Durable.Batch.
pub mod Vectors
pub mod Split
pub mod Commit
pub mod Accepted
pub mod Insertable
pub mod Whole
pub mod Tracking
pub mod Lists
pub mod Failed
pub mod Callback
mod Examples
use pg_redis.Base.{
  ℕ, Bool, true, false, not, ◌||◌, Option, none, some, List, [], ◌∷◌, if◌then◌else◌, Bytes,
  bytes_eq,
}
use pg_redis.Base.Int.{ℤ, of_u64}
use pg_redis.Types.{Value, string_value, int_value, hash_value, list_value, type_of}
use pg_redis.Binval.{Bytea, encode_value}
use pg_redis.HashValue.{Field, Hash}
use pg_redis.ListValue.{Node, Chain}
use pg_redis.Session.{Entry, Session, put}
use pg_redis.Durable.{StoreRow, Tables, FieldUpsert, FieldDelete, ItemInsert, ItemDelete, has_key}
use pg_redis.Durable.Batch.{Vecs, no_vecs, vec_push, run_plans}

abbrev pub SessionEntry : Type 0
SessionEntry = Entry Hash Chain

-- The row of an entry in `pgredis.store`; NULL beside a hash or a list.
abbrev pub body_of : Option Bytea → Option Bytes
body_of none = none
body_of (some b) = some b.body

unfoldable pub row_of : SessionEntry → StoreRow
row_of e = record {
  type = type_of e.value;
  value = body_of (encode_value e.value);
  expire_at = if e.has_expire then some e.expire_at else none;
  version = of_u64 e.version;
}

-- The dirty fields of a hash, its tombstones, the new nodes of a list and its deleted ordinals.
unfoldable pub collect_fields : Bytes → List (Bytes × Field) → List FieldUpsert → List FieldUpsert
collect_fields k [] rows = rows
collect_fields k ((f, x) ∷ fs) rows =
    collect_fields k fs (if x.dirty then vec_push rows (k, f, some x.value) else rows)

unfoldable pub collect_tombstones : Bytes → List Bytes → List FieldDelete → List FieldDelete
collect_tombstones k [] rows = rows
collect_tombstones k (f ∷ fs) rows = collect_tombstones k fs (vec_push rows (k, f))

unfoldable pub collect_nodes : Bytes → List Node → List ItemInsert → List ItemInsert
collect_nodes k [] rows = rows
collect_nodes k (n ∷ ns) rows =
    collect_nodes k ns (if n.pending_insert then vec_push rows (k, n.ord, some n.value) else rows)

unfoldable pub collect_ords : Bytes → List ℤ → List ItemDelete → List ItemDelete
collect_ords k [] rows = rows
collect_ords k (o ∷ os) rows = collect_ords k os (vec_push rows (k, o))

-- The rows below the row of an entry.
unfoldable pub collect_value : Bytes → Value Hash Chain → Vecs → Vecs
collect_value k (string_value s) v = v
collect_value k (int_value i) v = v
collect_value k (hash_value none) v = v
collect_value k (hash_value (some h)) v = record v {
  hf_up = collect_fields k h.fields v.hf_up;
  hf_del = collect_tombstones k h.tombstones v.hf_del;
}
collect_value k (list_value none) v = v
collect_value k (list_value (some l)) v = record v {
  li_ins = collect_nodes k l.nodes v.li_ins;
  li_del = collect_ords k l.pending_delete_ords v.li_del;
}

-- The first loop of `run_flush`, over the dirty chain.
unfoldable pub collect_dirty : List (Bytes × SessionEntry) → Vecs → Vecs
collect_dirty [] v = v
collect_dirty ((k, e) ∷ es) v =
    collect_dirty es
      (collect_value k e.value (record v { store_rows = vec_push v.store_rows (k, row_of e) }))

-- The search of the dirty chain for the key of a pending delete.
unfoldable pub in_dirty : Bytes → List (Bytes × SessionEntry) → Bool
in_dirty k [] = false
in_dirty k ((k', e) ∷ es) = bytes_eq k' k || in_dirty k es

-- The second loop, over the pending deletes.
unfoldable pub collect_deletes : List (Bytes × SessionEntry) → List Bytes → List Bytes → List Bytes
collect_deletes es [] keys = keys
collect_deletes es (k ∷ ks) keys =
    collect_deletes es ks (if in_dirty k es then keys else vec_push keys k)

unfoldable pub collect : List (Bytes × SessionEntry) → List Bytes → Vecs
collect es deletes =
    let v = collect_dirty es no_vecs in
    record v { store_delete_keys = collect_deletes es deletes v.store_delete_keys }

abbrev pub with_entry :
    Bytes → Option SessionEntry → List (Bytes × SessionEntry) → List (Bytes × SessionEntry)
with_entry k none es = es
with_entry k (some e) es = (k, e) ∷ es

-- The entries that the dirty chain links.
unfoldable pub entries : List Bytes → Session Hash Chain → List (Bytes × SessionEntry)
entries [] s = []
entries (k ∷ ks) s = with_entry k (s.store k) (entries ks s)

-- What the first loop clears in a hash and a list, and what the last loop frees.
unfoldable pub clean_fields : List (Bytes × Field) → List (Bytes × Field)
clean_fields [] = []
clean_fields ((f, x) ∷ fs) = (f, record x { dirty = false }) ∷ clean_fields fs

unfoldable pub clean_nodes : List Node → List Node
clean_nodes [] = []
clean_nodes (n ∷ ns) = record n { pending_insert = false } ∷ clean_nodes ns

abbrev pub clean_flags : Value Hash Chain → Value Hash Chain
clean_flags (string_value s) = string_value s
clean_flags (int_value i) = int_value i
clean_flags (hash_value none) = hash_value none
clean_flags (hash_value (some h)) = hash_value (some (record h { fields = clean_fields h.fields }))
clean_flags (list_value none) = list_value none
clean_flags (list_value (some l)) = list_value (some (record l { nodes = clean_nodes l.nodes }))

abbrev pub free_tracking : Value Hash Chain → Value Hash Chain
free_tracking (string_value s) = string_value s
free_tracking (int_value i) = int_value i
free_tracking (hash_value none) = hash_value none
free_tracking (hash_value (some h)) = hash_value (some (record h { tombstones = [] }))
free_tracking (list_value none) = list_value none
free_tracking (list_value (some l)) = list_value (some (record l { pending_delete_ords = [] }))

-- The session after the first loop, and after the last.
unfoldable pub flags_cleared : List (Bytes × SessionEntry) → Session Hash Chain → Session Hash Chain
flags_cleared [] s = s
flags_cleared ((k, e) ∷ es) s =
    flags_cleared es (put k (some (record e { value = clean_flags e.value })) s)

unfoldable pub tracking_cleared :
    List (Bytes × SessionEntry) → Session Hash Chain → Session Hash Chain
tracking_cleared [] s = s
tracking_cleared ((k, e) ∷ es) s = tracking_cleared es (
    put k
      (some (record e {
        value = free_tracking (clean_flags e.value);
        in_dirty_set = false;
        dirty = false;
      }))
      s)

pub data FlushOutcome : Type 0 where
  nothing_dirty : FlushOutcome
  connect_failed : FlushOutcome
  plan_failed : FlushOutcome
  flushed : FlushOutcome

-- `pg_redis_dirty_head_take` and `pg_redis_pending_deletes_take`
abbrev pub take_heads : Session Hash Chain → Session Hash Chain
take_heads s = record s { dirty_set = []; pending_deletes = [] }

abbrev pub any_work : List Bytes → List Bytes → Bool
any_work [] [] = false
any_work [] (_ ∷ _) = true
any_work (_ ∷ _) _ = true

-- `run_flush`: whether SPI connects, and the failures of plans that are not their statement's own.
unfoldable pub run_flush :
    Bool → (ℕ → Bool) → Session Hash Chain → Tables → FlushOutcome × Session Hash Chain × Tables
run_flush connects fault s t =
    let es = entries s.dirty_set s in
    if not (any_work s.dirty_set s.pending_deletes)
    then (nothing_dirty, s, t)
    else if connects
    then elim (run_plans fault (collect es s.pending_deletes) t) [
      | none ↦ (plan_failed, flags_cleared es (take_heads s), t)
      | some t' ↦ (flushed, tracking_cleared es (take_heads s), t')
    ]
    else (connect_failed, take_heads s, t)
