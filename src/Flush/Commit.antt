-- ===== src/Flush/Commit.antt =====
-- What a flush writes: the row and the fields of each dirty entry, and the deletes of the keys that
-- were not created again.
use pg_redis.Base.{
  ◌≡◌, refl, ap, subst, ◌∙◌, ◌⊎◌, inl, inr, Bool, true, false, ◌||◌, Option, none, some, List,
  if◌then◌else◌, if_true, if_false, Bytes, bytes_eq_iff, Bool-cases,
}
use pg_redis.Base.Int.{ℤ}
use pg_redis.Types.{Value, string_value, int_value, hash_value, list_value}
use pg_redis.HashValue.{Field, Hash, find}
use pg_redis.HashValue.Fields.{IsMap}
use pg_redis.ListValue.{Node, Chain}
use pg_redis.Session.{Session}
use pg_redis.Durable.{
  StoreRow, Tables, last_row, last_field, has_field, has_key, new_item, has_item, or_else,
}
use pg_redis.Durable.Batch.{Vecs, no_vecs, vec_push}
use pg_redis.Durable.Batch.Order.{last_row-push}
use pg_redis.Durable.Batch.Effect.{applied}
use pg_redis.Flush.{
  SessionEntry, row_of, collect_value, collect_dirty, collect_deletes, collect, entries,
  FlushOutcome, flushed,
}
use pg_redis.Flush.Vectors.{
  item_at, item_at-node_at, node_at, AreDistinct, pick_item, has_ord, collect_nodes-own,
  collect_ords-own, pick, collect_fields-own, collect_tombstones-own, Same,
}
use pg_redis.Flush.Split.{Splits, split_vectors, spared, dirty_deletes, Splits-in_dirty}

-- A field of memory against its durable one: a clean field is the durable one, and a durable one
-- that is not in memory has a tombstone.
abbrev pub FieldTracked : Option Field → Bool → Option (Option Bytes) → Type 0
FieldTracked none buried durable = (buried ≡ true) ⊎ (durable ≡ none)
FieldTracked (some x) buried durable =
    x.dirty ≡ false → (durable ≡ some (some x.value)) × (buried ≡ false)

-- A list node against the durable row of its ordinal: a new node has none that stays, an old one
-- its own, and a row without a node is to be deleted.
abbrev pub ItemTracked : Option Node → Bool → Option (Option Bytes) → Type 0
ItemTracked none doomed durable = (doomed ≡ true) ⊎ (durable ≡ none)
ItemTracked (some n) doomed durable = elim n.pending_insert [
  | true ↦ (doomed ≡ true) ⊎ (durable ≡ none)
  | false ↦ (durable ≡ some (some n.value)) × (doomed ≡ false)
]

-- The row that a node should have.
abbrev pub durable_item : Option Node → Option (Option Bytes)
durable_item none = none
durable_item (some n) = some (some n.value)

-- The row that a field should have.
abbrev pub durable_field : Option Field → Option (Option Bytes)
durable_field none = none
durable_field (some x) = some (some x.value)

-- The changes of a hash or a list since its rows were as in the tables are marked.
abbrev pub Tracks : Bytes → Value Hash Chain → Tables → Type 0
Tracks k (string_value s) t = Unit
Tracks k (int_value i) t = Unit
Tracks k (hash_value none) t = Unit
Tracks k (hash_value (some h)) t =
    IsMap h.fields
    × ((f : Bytes) → FieldTracked (find f h.fields) (has_key f h.tombstones) (t.hash_fields k f))
Tracks k (list_value none) t = Unit
Tracks k (list_value (some l)) t =
    AreDistinct l.nodes
    × ((o : ℤ)
        → ItemTracked (node_at o l.nodes) (has_ord o l.pending_delete_ords) (t.list_items k o))

-- The tables have exactly the fields of a hash, or the items of a list at their ordinals.
abbrev pub Mirrors : Bytes → Value Hash Chain → Tables → Type 0
Mirrors k (string_value s) t = Unit
Mirrors k (int_value i) t = Unit
Mirrors k (hash_value none) t = Unit
Mirrors k (hash_value (some h)) t =
    (f : Bytes) → t.hash_fields k f ≡ durable_field (find f h.fields)
Mirrors k (list_value none) t = Unit
Mirrors k (list_value (some l)) t = (o : ℤ) → t.list_items k o ≡ durable_item (node_at o l.nodes)

-- A field after the deletes and upserts of a flush.
field_flushed :
    (x : Option Field) (buried : Bool) (durable : Option (Option Bytes))
    → FieldTracked x buried durable
    → or_else (pick x none) (if buried || false then none else durable) ≡ durable_field x
field_flushed none true durable h = refl
field_flushed none false durable (inl e) = cc
field_flushed none false durable (inr e) = e
field_flushed (some x) buried durable h = elim (Bool-cases x.dirty) [
  | inl e ↦ rw e refl
  | inr e ↦ let p = h e in rw (e, p.1) p.0
]

marked :
    (n : Node) (b : Bool)
    → n.pending_insert ≡ b
    → (doomed : Bool) (durable : Option (Option Bytes)) → ItemTracked (some n) doomed durable
    → or_else (pick_item (some n)) (if doomed || false then none else durable) ≡ some (some n.value)
marked n true e doomed durable h = rw e refl
marked n false e doomed durable h =
    let p : (durable ≡ some (some n.value)) × (doomed ≡ false) = rw e at h in rw (e, p.1) p.0

-- An item after the deletes and inserts of a flush.
item_flushed :
    (n : Option Node) (doomed : Bool) (durable : Option (Option Bytes))
    → ItemTracked n doomed durable
    → or_else (pick_item n) (if doomed || false then none else durable) ≡ durable_item n
item_flushed none true durable h = refl
item_flushed none false durable (inl e) = cc
item_flushed none false durable (inr e) = e
item_flushed (some n) doomed durable h = marked n n.pending_insert refl doomed durable h

value_row :
    (k : Bytes) (x : Value Hash Chain) (u : Vecs) → (collect_value k x u).store_rows ≡ u.store_rows
unfolding collect_value
value_row k (string_value s) u = refl
value_row k (int_value i) u = refl
value_row k (hash_value none) u = refl
value_row k (hash_value (some h)) u = refl
value_row k (list_value none) u = refl
value_row k (list_value (some l)) u = refl

-- The vectors say nothing yet of the rows below the key.
record Clear (k : Bytes) (u : Vecs) : Type 0 where
  ups : (f : Bytes) → last_field k f u.hf_up ≡ none
  dels : (f : Bytes) → has_field k f u.hf_del ≡ false
  ins : (o : ℤ) → new_item k o u.li_ins ≡ none
  ords : (o : ℤ) → has_item k o u.li_del ≡ false

-- What the plans did to the rows below the key.
abbrev Steps : Bytes → Vecs → Tables → Tables → Type 0
Steps k w t t' =
    ((f : Bytes)
      → t'.hash_fields k f
        ≡ or_else (last_field k f w.hf_up)
            (if has_field k f w.hf_del then none else t.hash_fields k f))
    × ((o : ℤ)
        → t'.list_items k o
          ≡ or_else (new_item k o w.li_ins)
              (if has_item k o w.li_del then none else t.list_items k o))

-- What the plans leave of a field of the key, by the field in memory and its tombstone.
abbrev pub field_left : Hash → Bytes → Option (Option Bytes) → Option (Option Bytes)
field_left x f durable =
    or_else (pick (find f x.fields) none)
      (if has_key f x.tombstones || false then none else durable)

value_fields :
    (k : Bytes) (x : Hash) (u w : Vecs) (t t' : Tables)
    → Clear k u
    → Same k (collect_value k (hash_value (some x)) u) w
    → Steps k w t t'
    → IsMap x.fields
    → (f : Bytes) → t'.hash_fields k f ≡ field_left x f (t.hash_fields k f)
unfolding collect_value
value_fields k x u w t t' clear same step map f =
    let up : last_field k f w.hf_up ≡ pick (find f x.fields) none =
      same.ups f
      ∙ collect_fields-own k f x.fields u.hf_up map
      ∙ ap (pick (find f x.fields)) (clear.ups f) in
    let del : has_field k f w.hf_del ≡ (has_key f x.tombstones || false) =
      same.dels f
      ∙ collect_tombstones-own k f x.tombstones u.hf_del
      ∙ ap (λ (b : Bool). has_key f x.tombstones || b) (clear.dels f) in
    step.0 f ∙ rw (up, del) refl

value_Mirrors :
    (k : Bytes) (x : Value Hash Chain) (u w : Vecs) (t t' : Tables)
    → Clear k u
    → Same k (collect_value k x u) w
    → Steps k w t t'
    → Tracks k x t
    → Mirrors k x t'
unfolding collect_value
value_Mirrors k (string_value s) u w t t' clear same step h = tt
value_Mirrors k (int_value i) u w t t' clear same step h = tt
value_Mirrors k (hash_value none) u w t t' clear same step h = tt
value_Mirrors k (hash_value (some x)) u w t t' clear same step h = λ f.
    value_fields k x u w t t' clear same step h.0 f
    ∙ field_flushed (find f x.fields) (has_key f x.tombstones) (t.hash_fields k f) (h.1 f)
value_Mirrors k (list_value none) u w t t' clear same step h = tt
value_Mirrors k (list_value (some x)) u w t t' clear same step h = λ o.
    let new : new_item k o w.li_ins ≡ pick_item (node_at o x.nodes) =
      same.ins o
      ∙ collect_nodes-own k o x.nodes u.li_ins
      ∙ ap (λ (r : Option (Option Bytes)). or_else r (item_at o x.nodes)) (clear.ins o)
      ∙ item_at-node_at o x.nodes h.0 in
    let del : has_item k o w.li_del ≡ (has_ord o x.pending_delete_ords || false) =
      same.ords o
      ∙ collect_ords-own k o x.pending_delete_ords u.li_del
      ∙ ap (λ (b : Bool). has_ord o x.pending_delete_ords || b) (clear.ords o) in
    step.1 o
    ∙ rw (new, del)
        (item_flushed (node_at o x.nodes) (has_ord o x.pending_delete_ords) (t.list_items k o)
          (h.1 o))

-- What a flush must leave of the key of a dirty entry.
abbrev pub Committed : Bytes → SessionEntry → FlushOutcome × Session Hash Chain × Tables → Type 0
Committed k e (outcome, s, t) =
    (outcome ≡ flushed) × (t.store k ≡ some (row_of e)) × Mirrors k e.value t

pub split_row :
    (k : Bytes) (e : SessionEntry) (es : List (Bytes × SessionEntry))
    → Splits k e es
    → last_row k (collect_dirty es no_vecs).store_rows ≡ some (row_of e)
split_row k e es sp =
    let (u, start, end) = split_vectors k e es sp in
    end.rows
    ∙ ap (last_row k)
        (value_row k e.value (record u { store_rows = vec_push u.store_rows (k, row_of e) }))
    ∙ last_row-push k u.store_rows k (row_of e)
    ∙ if_true _ _ ((bytes_eq_iff k k).1 refl)

-- A dirty key is not deleted.
spared_key :
    (k : Bytes) (e : SessionEntry) (es : List (Bytes × SessionEntry)) (deletes : List Bytes)
    → Splits k e es
    → has_key k (collect es deletes).store_delete_keys ≡ false
unfolding collect
spared_key k e es deletes sp =
    ap (λ (keys : List Bytes). has_key k (collect_deletes es deletes keys))
      (dirty_deletes es no_vecs)
    ∙ spared k es deletes (Splits-in_dirty k e es sp)

pub applied_fields :
    (k : Bytes) (e : SessionEntry) (x : Hash) (s : Session Hash Chain) (t : Tables)
    → Splits k e (entries s.dirty_set s)
    → e.value ≡ hash_value (some x)
    → IsMap x.fields
    → (f : Bytes)
    → (applied (collect (entries s.dirty_set s) s.pending_deletes) t).hash_fields k f
      ≡ field_left x f (t.hash_fields k f)
unfolding collect last_field has_field new_item has_item
applied_fields k e x s t sp is_hash map f =
    let es = entries s.dirty_set s in
    let v = collect es s.pending_deletes in
    let (u, start, end) = split_vectors k e es sp in
    let kept = spared_key k e es s.pending_deletes sp in
    let u' : Vecs = record u { store_rows = vec_push u.store_rows (k, row_of e) } in
    value_fields k x u' (collect_dirty es no_vecs) t (applied v t)
      (record { ups = start.ups; dels = start.dels; ins = start.ins; ords = start.ords })
      (subst (λ (y : Value Hash Chain). Same k (collect_value k y u') (collect_dirty es no_vecs))
        is_hash end)
      (λ g. if_false _ _ kept, λ o. if_false _ _ kept) map f

pub applied-Committed :
    (k : Bytes) (e : SessionEntry) (s s' : Session Hash Chain) (t : Tables)
    → Splits k e (entries s.dirty_set s)
    → Tracks k e.value t
    → Committed k e (flushed, s', applied (collect (entries s.dirty_set s) s.pending_deletes) t)
unfolding collect last_field has_field new_item has_item
applied-Committed k e s s' t sp tracks =
    let es = entries s.dirty_set s in
    let v = collect es s.pending_deletes in
    let (u, start, end) = split_vectors k e es sp in
    let kept : has_key k v.store_delete_keys ≡ false = spared_key k e es s.pending_deletes sp in
    (
      refl,
      if_false _ _ kept
          ∙ ap (λ (r : Option StoreRow). or_else r (t.store k))
              (end.rows
                ∙ ap (last_row k) (
                    value_row k e.value
                      (record u { store_rows = vec_push u.store_rows (k, row_of e) }))
                ∙ last_row-push k u.store_rows k (row_of e)
                ∙ if_true _ _ ((bytes_eq_iff k k).1 refl)),
      value_Mirrors k e.value (record u { store_rows = vec_push u.store_rows (k, row_of e) })
          (collect_dirty es no_vecs) t (applied v t)
          (record { ups = start.ups; dels = start.dels; ins = start.ins; ords = start.ords }) end
          (λ f. if_false _ _ kept, λ o. if_false _ _ kept) tracks,
    )
