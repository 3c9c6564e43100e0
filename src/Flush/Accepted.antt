-- ===== src/Flush/Accepted.antt =====
-- The tables accept the batch of a session whose changes are marked.
use pg_redis.Base.{
  ◌≡◌, refl, sym, ap, ◌∙◌, inl, inr, Bool, true, false, not, ◌&&◌, Option, none, some, List, [],
  ◌∷◌, ◌++◌, is_some, All, if◌then◌else◌, Bytes, bytes_eq, bytes_eq_iff, arith, Bool-cases,
}
use pg_redis.Base.Int.{ℤ, eq_ℤ, eq_ℤ_refl, eq_ℤ→≡}
use pg_redis.Types.{Value, string_value, int_value, hash_value, list_value}
use pg_redis.HashValue.{Field, Hash}
use pg_redis.ListValue.{Node, Chain}
use pg_redis.Durable.{
  Tables, FieldUpsert, ItemInsert, new_item, fields_have_parent, items_insertable, or_else,
}
use pg_redis.Durable.Batch.{Vecs, vec_push}
use pg_redis.Durable.Batch.Items.{or_else-none, new_item-push}
use pg_redis.Flush.{
  SessionEntry, row_of, collect_fields, collect_nodes, collect_value, collect_dirty,
}
use pg_redis.Flush.Vectors.{node_at, AreDistinct}

-- A property of each key of the rows.
abbrev pub KeysAll : (Bytes → Type 0) → List FieldUpsert → Type 0
KeysAll P = All (λ r. P r.0)

push-KeysAll :
    (P : Bytes → Type 0) (rows : List FieldUpsert) (r : FieldUpsert)
    → KeysAll P rows
    → P r.0
    → KeysAll P (rows ++ (r ∷ []))
push-KeysAll P [] r h p = (p, tt)
push-KeysAll P (x ∷ rows) r h p = (h.0, push-KeysAll P rows r h.1 p)

fields-KeysAll :
    (P : Bytes → Type 0) (k : Bytes) (fs : List (Bytes × Field)) (rows : List FieldUpsert)
    → P k
    → KeysAll P rows
    → KeysAll P (collect_fields k fs rows)
unfolding collect_fields
fields-KeysAll P k [] rows p h = h
fields-KeysAll P k ((f, x) ∷ fs) rows p h = elim (Bool-cases x.dirty) [
  | inl e ↦ rw e (
      fields-KeysAll P k fs (vec_push rows (k, f, some x.value)) p
        (push-KeysAll P rows (k, f, some x.value) h p))
  | inr e ↦ rw e (fields-KeysAll P k fs rows p h)
]

value-KeysAll :
    (P : Bytes → Type 0) (k : Bytes) (x : Value Hash Chain) (v : Vecs)
    → P k
    → KeysAll P v.hf_up
    → KeysAll P (collect_value k x v).hf_up
unfolding collect_value
value-KeysAll P k (string_value s) v p h = h
value-KeysAll P k (int_value i) v p h = h
value-KeysAll P k (hash_value none) v p h = h
value-KeysAll P k (hash_value (some x)) v p h = fields-KeysAll P k x.fields v.hf_up p h
value-KeysAll P k (list_value none) v p h = h
value-KeysAll P k (list_value (some l)) v p h = h

pub dirty-KeysAll :
    (P : Bytes → Type 0) (es : List (Bytes × SessionEntry)) (v : Vecs)
    → All (λ r. P r.0) es
    → KeysAll P v.hf_up
    → KeysAll P (collect_dirty es v).hf_up
unfolding collect_dirty
dirty-KeysAll P [] v ps h = h
dirty-KeysAll P ((k, e) ∷ es) v ps h =
    let u = record v { store_rows = vec_push v.store_rows (k, row_of e) } in
    dirty-KeysAll P es (collect_value k e.value u) ps.1 (value-KeysAll P k e.value u ps.0 h)

pub parents_lem :
    (rows : List FieldUpsert) (t : Tables)
    → KeysAll (λ k. is_some (t.store k) ≡ true) rows
    → fields_have_parent rows t ≡ true
unfolding fields_have_parent
parents_lem [] t h = refl
parents_lem ((k, f, x) ∷ rows) t h = rw (h.0, parents_lem rows t h.1) refl

swap :
    (k k1 : Bytes) (o o1 : ℤ) (x : Option Bytes) (rest : Option (Option Bytes))
    → (if bytes_eq k1 k && eq_ℤ o1 o then some x else rest) ≡ none
    → (bytes_eq k k1 && eq_ℤ o o1) ≡ false
swap k k1 o o1 x rest e = elim (Bool-cases (bytes_eq k k1 && eq_ℤ o o1)) [
  | inr q ↦ q
  | inl q ↦
      let b : bytes_eq k k1 ≡ true = ground arith in
      let c : eq_ℤ o o1 ≡ true = ground arith in
      let b' : bytes_eq k1 k ≡ true = (bytes_eq_iff k1 k).1 (sym ((bytes_eq_iff k k1).0 b)) in
      let c' : eq_ℤ o1 o ≡ true = ap (λ (z : ℤ). eq_ℤ o1 z) (eq_ℤ→≡ o o1 c) ∙ eq_ℤ_refl o1 in
      let bad : ◌≡◌ {A = Option (Option Bytes)} (some x) none = rw (b', c') at e in cc
]

drop_if :
    (b : Bool) (x : Option Bytes) (rest : Option (Option Bytes))
    → (if b then some x else rest) ≡ none
    → rest ≡ none
drop_if true x rest e = cc
drop_if false x rest e = e

and_last : (a b c d : Bool) → (a && b && c && d) ≡ true → d ≡ true
and_last a b c d e = ground arith

and_true_last : (a b c d : Bool) → (a && b && c && d) ≡ true → (a && b && c && true) ≡ true
and_true_last a b c d e = ground arith

no_new : (b : Bool) (v : Bytes) → or_else none (if b && false then some (some v) else none) ≡ none
no_new true v = refl
no_new false v = refl

-- A node behind a list without its ordinal has another one.
apart :
    (n : Node) (o : ℤ) (ns : List Node) (m : Node)
    → node_at n.ord ns ≡ none
    → node_at o ns ≡ some m
    → eq_ℤ n.ord o ≡ false
apart n o ns m d e = elim (Bool-cases (eq_ℤ n.ord o)) [
  | inr q ↦ q
  | inl q ↦
      let same : node_at n.ord ns ≡ node_at o ns =
        ap (λ (z : ℤ). node_at z ns) (eq_ℤ→≡ n.ord o q) in
      cc
]

-- The next insert is accepted after the rows.
insert_push :
    (rows : List ItemInsert) (t : Tables) (k : Bytes) (o : ℤ) (x : Option Bytes)
    → items_insertable rows t ≡ true
    → is_some (t.store k) ≡ true
    → t.list_items k o ≡ none
    → new_item k o rows ≡ none
    → items_insertable (rows ++ ((k, o, x) ∷ [])) t ≡ true
unfolding items_insertable new_item
insert_push [] t k o x i p free new = rw (p, free) refl
insert_push ((k1, o1, x1) ∷ rows) t k o x i p free new =
    let c = new_item-push k1 o1 rows k o x in
    let other : (bytes_eq k k1 && eq_ℤ o o1) ≡ false = swap k k1 o o1 x1 (new_item k o rows) new in
    let none_left : new_item k o rows ≡ none =
      drop_if (bytes_eq k1 k && eq_ℤ o1 o) x1 (new_item k o rows) new in
    let here : new_item k1 o1 (rows ++ ((k, o, x) ∷ [])) ≡ new_item k1 o1 rows =
      c ∙ rw other (or_else-none (new_item k1 o1 rows)) in
    let rest =
      and_last (is_some (t.store k1)) (not (is_some (t.list_items k1 o1)))
        (not (is_some (new_item k1 o1 rows))) (items_insertable rows t) i in
    rw (here, insert_push rows t k o x rest p free none_left)
      (and_true_last (is_some (t.store k1)) (not (is_some (t.list_items k1 o1)))
        (not (is_some (new_item k1 o1 rows))) (items_insertable rows t) i)

-- What the list nodes of a key add to the inserts.
pub nodes_insertable :
    (t : Tables) (k : Bytes) (ns : List Node) (rows : List ItemInsert)
    → is_some (t.store k) ≡ true
    → AreDistinct ns
    → ((o : ℤ) (n : Node)
        → node_at o ns ≡ some n
        → n.pending_insert ≡ true
        → t.list_items k o ≡ none)
    → ((o : ℤ) (n : Node) → node_at o ns ≡ some n → new_item k o rows ≡ none)
    → items_insertable rows t ≡ true
    → items_insertable (collect_nodes k ns rows) t ≡ true
unfolding collect_nodes AreDistinct node_at
nodes_insertable t k [] rows p d free new i = i
nodes_insertable t k (n ∷ ns) rows p d free new i =
    let self : eq_ℤ n.ord n.ord ≡ true = eq_ℤ_refl n.ord in
    let other = λ (o : ℤ) (m : Node) (e : node_at o ns ≡ some m). apart n o ns m d.0 e in
    let free' = λ (o : ℤ) (m : Node) (e : node_at o ns ≡ some m) (w : m.pending_insert ≡ true).
      free o m (rw (other o m e) e) w in
    let mine = new n.ord n (rw self refl) in
    elim (Bool-cases n.pending_insert) [
      | inl w ↦ rw w (
          nodes_insertable t k ns (vec_push rows (k, n.ord, some n.value)) p d.1 free'
            (λ o m e.
              new_item-push k o rows k n.ord (some n.value)
              ∙ rw (new o m (rw (other o m e) e), other o m e) (no_new (bytes_eq k k) n.value))
            (insert_push rows t k n.ord (some n.value) i p (free n.ord n (rw self refl) w) mine))
      | inr w ↦
          rw w (nodes_insertable t k ns rows p d.1 free' (λ o m e. new o m (rw (other o m e) e)) i)
    ]
