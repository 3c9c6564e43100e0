-- ===== src/Flush/Vectors.antt =====
-- What the vectors of a flush say of one key.
use pg_redis.Base.{
  ◌≡◌, refl, sym, ap, ◌∙◌, Bool, true, false, ◌&&◌, ◌||◌, Option, none, some, List, [], ◌∷◌,
  if◌then◌else◌, if_false, Bytes, bytes_eq, bytes_eq_iff, arith, Bool-cases, inl, inr,
}
use pg_redis.Base.Int.{ℤ, eq_ℤ, eq_ℤ→≡}
use pg_redis.Types.{Value, string_value, int_value, hash_value, list_value}
use pg_redis.HashValue.{Field, Hash, find}
use pg_redis.HashValue.Fields.{IsMap}
use pg_redis.ListValue.{Node, Chain}
use pg_redis.Durable.{
  FieldUpsert, FieldDelete, ItemInsert, ItemDelete, last_row, last_field, has_field, new_item,
  has_item, has_key, or_else,
}
use pg_redis.Durable.Batch.{Vecs, vec_push}
use pg_redis.Durable.Batch.Fields.{last_field-push, has_field-push}
use pg_redis.Durable.Batch.Items.{or_else-none, new_item-push, has_item-push}
use pg_redis.Durable.Batch.Order.{last_row-push}
use pg_redis.Flush.{
  SessionEntry, row_of, collect_fields, collect_tombstones, collect_nodes, collect_ords,
  collect_value, collect_dirty, in_dirty,
}

-- The upsert that a field of a hash adds, else what there was.
abbrev pub pick : Option Field → Option (Option Bytes) → Option (Option Bytes)
pick none old = old
pick (some x) old = if x.dirty then some (some x.value) else old

-- The insert of the node with the ordinal.
unfoldable pub item_at : ℤ → List Node → Option (Option Bytes)
item_at o [] = none
item_at o (n ∷ ns) =
    let rest = item_at o ns in
    if n.pending_insert && eq_ℤ n.ord o then some (some n.value) else rest

-- The node with the ordinal.
unfoldable pub node_at : ℤ → List Node → Option Node
node_at o [] = none
node_at o (n ∷ ns) = let rest = node_at o ns in if eq_ℤ n.ord o then some n else rest

-- No ordinal stands twice.
unfoldable pub AreDistinct : List Node → Type 0
AreDistinct [] = Unit
AreDistinct (n ∷ ns) = (node_at n.ord ns ≡ none) × AreDistinct ns

-- The insert of a node.
abbrev pub pick_item : Option Node → Option (Option Bytes)
pick_item none = none
pick_item (some n) = if n.pending_insert then some (some n.value) else none

pub item_at-node_at :
    (o : ℤ) (ns : List Node) → AreDistinct ns → item_at o ns ≡ pick_item (node_at o ns)
unfolding item_at node_at AreDistinct
item_at-node_at o [] d = refl
item_at-node_at o (n ∷ ns) d = elim (Bool-cases (eq_ℤ n.ord o)) [
  | inr e ↦ elim (Bool-cases n.pending_insert) [
    | inl p ↦ rw (p, e) (item_at-node_at o ns d.1)
    | inr p ↦ rw (p, e) (item_at-node_at o ns d.1)
  ]
  | inl e ↦ elim (Bool-cases n.pending_insert) [
    | inl p ↦ rw (p, e) refl
    | inr p ↦
        let gone : node_at o ns ≡ none =
          ap (λ (x : ℤ). node_at x ns) (sym (eq_ℤ→≡ n.ord o e)) ∙ d.0 in
        rw (p, e) (item_at-node_at o ns d.1 ∙ ap pick_item gone)
  ]
]

unfoldable pub has_ord : ℤ → List ℤ → Bool
has_ord o [] = false
has_ord o (o' ∷ os) = eq_ℤ o' o || has_ord o os

first_item :
    (old : Option (Option Bytes)) (b : Bool) (x : Option Bytes) (rest : Option (Option Bytes))
    → or_else (or_else old (if b then some x else none)) rest
      ≡ or_else old (if b then some x else rest)
first_item none true x rest = refl
first_item none false x rest = refl
first_item (some y) b x rest = refl

module _ (k : Bytes) where
  pub collect_fields-own :
      (f : Bytes) (fs : List (Bytes × Field)) (rows : List FieldUpsert)
      → IsMap fs
      → last_field k f (collect_fields k fs rows) ≡ pick (find f fs) (last_field k f rows)
  unfolding collect_fields IsMap find
  collect_fields-own f [] rows m = refl
  collect_fields-own f ((g, x) ∷ fs) rows m =
      let self : bytes_eq k k ≡ true = (bytes_eq_iff k k).1 refl in
      elim (Bool-cases (bytes_eq g f)) [
        | inl q ↦
            let gone : find f fs ≡ none =
              ap (λ (b : Bytes). find b fs) (sym ((bytes_eq_iff g f).0 q)) ∙ m.0 in
            elim (Bool-cases x.dirty) [
              | inl e ↦
                  rw (e, q)
                    (collect_fields-own f fs (vec_push rows (k, g, some x.value)) m.1
                      ∙ rw gone (last_field-push k f rows k g (some x.value) ∙ rw (self, q) refl))
              | inr e ↦ rw (e, q) (collect_fields-own f fs rows m.1 ∙ rw gone refl)
            ]
        | inr q ↦ elim (Bool-cases x.dirty) [
          | inl e ↦
              rw (e, q)
                (collect_fields-own f fs (vec_push rows (k, g, some x.value)) m.1
                  ∙ ap (pick (find f fs))
                      (last_field-push k f rows k g (some x.value) ∙ rw (self, q) refl))
          | inr e ↦ rw (e, q) (collect_fields-own f fs rows m.1)
        ]
      ]

  pub collect_tombstones-own :
      (f : Bytes) (ts : List Bytes) (rows : List FieldDelete)
      → has_field k f (collect_tombstones k ts rows) ≡ (has_key f ts || has_field k f rows)
  unfolding collect_tombstones has_key
  collect_tombstones-own f [] rows = refl
  collect_tombstones-own f (g ∷ ts) rows = ground (
    arith,
    collect_tombstones-own f ts (vec_push rows (k, g)),
    has_field-push k f rows k g,
    bytes_eq_iff k k,
  )

  pub collect_ords-own :
      (o : ℤ) (os : List ℤ) (rows : List ItemDelete)
      → has_item k o (collect_ords k os rows) ≡ (has_ord o os || has_item k o rows)
  unfolding collect_ords has_ord
  collect_ords-own o [] rows = refl
  collect_ords-own o (o' ∷ os) rows = ground (
    arith,
    collect_ords-own o os (vec_push rows (k, o')),
    has_item-push k o rows k o',
    bytes_eq_iff k k,
  )

  pub collect_nodes-own :
      (o : ℤ) (ns : List Node) (rows : List ItemInsert)
      → new_item k o (collect_nodes k ns rows) ≡ or_else (new_item k o rows) (item_at o ns)
  unfolding collect_nodes item_at
  collect_nodes-own o [] rows = sym (or_else-none (new_item k o rows))
  collect_nodes-own o (n ∷ ns) rows =
      let self : bytes_eq k k ≡ true = (bytes_eq_iff k k).1 refl in
      elim (Bool-cases n.pending_insert) [
        | inl e ↦ rw e (
            collect_nodes-own o ns (vec_push rows (k, n.ord, some n.value))
            ∙ ap (λ (r : Option (Option Bytes)). or_else r (item_at o ns))
                (new_item-push k o rows k n.ord (some n.value))
            ∙ rw self (first_item (new_item k o rows) (eq_ℤ n.ord o) (some n.value) (item_at o ns)))
        | inr e ↦ rw e (collect_nodes-own o ns rows)
      ]

module _ (k k' : Bytes) (other : bytes_eq k' k ≡ false) where
  collect_fields-other :
      (f : Bytes) (fs : List (Bytes × Field)) (rows : List FieldUpsert)
      → last_field k f (collect_fields k' fs rows) ≡ last_field k f rows
  unfolding collect_fields
  collect_fields-other f [] rows = refl
  collect_fields-other f ((g, x) ∷ fs) rows = elim (Bool-cases x.dirty) [
    | inl e ↦ rw e (
        collect_fields-other f fs (vec_push rows (k', g, some x.value))
        ∙ ground (arith, last_field-push k f rows k' g (some x.value)))
    | inr e ↦ rw e (collect_fields-other f fs rows)
  ]

  collect_tombstones-other :
      (f : Bytes) (ts : List Bytes) (rows : List FieldDelete)
      → has_field k f (collect_tombstones k' ts rows) ≡ has_field k f rows
  unfolding collect_tombstones
  collect_tombstones-other f [] rows = refl
  collect_tombstones-other f (g ∷ ts) rows =
      collect_tombstones-other f ts (vec_push rows (k', g))
      ∙ ground (arith, has_field-push k f rows k' g)

  collect_nodes-other :
      (o : ℤ) (ns : List Node) (rows : List ItemInsert)
      → new_item k o (collect_nodes k' ns rows) ≡ new_item k o rows
  unfolding collect_nodes
  collect_nodes-other o [] rows = refl
  collect_nodes-other o (n ∷ ns) rows = elim (Bool-cases n.pending_insert) [
    | inl e ↦ rw e (
        collect_nodes-other o ns (vec_push rows (k', n.ord, some n.value))
        ∙ new_item-push k o rows k' n.ord (some n.value)
        ∙ rw other (or_else-none (new_item k o rows)))
    | inr e ↦ rw e (collect_nodes-other o ns rows)
  ]

  collect_ords-other :
      (o : ℤ) (os : List ℤ) (rows : List ItemDelete)
      → has_item k o (collect_ords k' os rows) ≡ has_item k o rows
  unfolding collect_ords
  collect_ords-other o [] rows = refl
  collect_ords-other o (o' ∷ os) rows =
      collect_ords-other o os (vec_push rows (k', o'))
      ∙ ground (arith, has_item-push k o rows k' o')

-- The vectors say the same of the key.
pub record Same (k : Bytes) (v v' : Vecs) : Type 0 where
  pub rows : last_row k v'.store_rows ≡ last_row k v.store_rows
  pub ups : (f : Bytes) → last_field k f v'.hf_up ≡ last_field k f v.hf_up
  pub dels : (f : Bytes) → has_field k f v'.hf_del ≡ has_field k f v.hf_del
  pub ins : (o : ℤ) → new_item k o v'.li_ins ≡ new_item k o v.li_ins
  pub ords : (o : ℤ) → has_item k o v'.li_del ≡ has_item k o v.li_del

Same-refl : (k : Bytes) (v : Vecs) → Same k v v
Same-refl k v = record {
  rows = refl;
  ups = λ f. refl;
  dels = λ f. refl;
  ins = λ o. refl;
  ords = λ o. refl;
}

Same-trans : (k : Bytes) (u v w : Vecs) → Same k u v → Same k v w → Same k u w
Same-trans k u v w a b = record {
  rows = b.rows ∙ a.rows;
  ups = λ f. b.ups f ∙ a.ups f;
  dels = λ f. b.dels f ∙ a.dels f;
  ins = λ o. b.ins o ∙ a.ins o;
  ords = λ o. b.ords o ∙ a.ords o;
}

pub value_other :
    (k k' : Bytes) (x : Value Hash Chain) (v : Vecs)
    → bytes_eq k' k ≡ false
    → Same k v (collect_value k' x v)
unfolding collect_value
value_other k k' (string_value s) v h = Same-refl k v
value_other k k' (int_value i) v h = Same-refl k v
value_other k k' (hash_value none) v h = Same-refl k v
value_other k k' (hash_value (some x)) v h = record {
  rows = refl;
  ups = λ f. collect_fields-other k k' h f x.fields v.hf_up;
  dels = λ f. collect_tombstones-other k k' h f x.tombstones v.hf_del;
  ins = λ o. refl;
  ords = λ o. refl;
}
value_other k k' (list_value none) v h = Same-refl k v
value_other k k' (list_value (some x)) v h = record {
  rows = refl;
  ups = λ f. refl;
  dels = λ f. refl;
  ins = λ o. collect_nodes-other k k' h o x.nodes v.li_ins;
  ords = λ o. collect_ords-other k k' h o x.pending_delete_ords v.li_del;
}

-- The entries of other keys leave what the vectors say of a key.
pub dirty_other :
    (k : Bytes) (es : List (Bytes × SessionEntry)) (v : Vecs)
    → in_dirty k es ≡ false
    → Same k v (collect_dirty es v)
unfolding collect_dirty in_dirty
dirty_other k [] v h = Same-refl k v
dirty_other k ((k', e) ∷ es) v h =
    let other : bytes_eq k' k ≡ false = ground arith in
    let u = record v { store_rows = vec_push v.store_rows (k', row_of e) } in
    let w = collect_value k' e.value u in
    let first : Same k v u = record {
      rows = last_row-push k v.store_rows k' (row_of e) ∙ if_false _ _ other;
      ups = λ f. refl;
      dels = λ f. refl;
      ins = λ o. refl;
      ords = λ o. refl;
    } in
    Same-trans k v w (collect_dirty es w)
      (Same-trans k v u w first (value_other k k' e.value u other))
      (dirty_other k es w (ground arith))
