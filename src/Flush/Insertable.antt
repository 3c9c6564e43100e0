-- ===== src/Flush/Insertable.antt =====
-- Why the tables accept the inserts of a flush: each new node of a tracked list has a free place.
use pg_redis.Base.{
  ◌+◌, ◌<◌, ◌≤◌, ◌≡◌, refl, ap, subst, ◌∙◌, ◌⊎◌, inl, inr, Bool, true, false, ◌||◌, Option, none,
  some, List, [], ◌∷◌, is_some, All, if◌then◌else◌, Bytes, bytes_eq, bytes_eq_iff, arith,
  Bool-cases,
}
use pg_redis.Base.Int.{ℤ}
use pg_redis.Types.{Value, string_value, int_value, hash_value, list_value}
use pg_redis.HashValue.{Hash}
use pg_redis.ListValue.{Node, Chain}
use pg_redis.Session.{Session}
use pg_redis.Session.WellFormed.{links}
use pg_redis.Durable.{Tables, new_item, has_item, items_insertable}
use pg_redis.Durable.Batch.{Vecs, vec_push}
use pg_redis.Flush.{
  SessionEntry, row_of, collect_value, collect_dirty, in_dirty, entries, with_entry,
}
use pg_redis.Flush.Vectors.{node_at, AreDistinct, has_ord, Same, value_other, collect_ords-own}
use pg_redis.Flush.Commit.{ItemTracked, Tracks}
use pg_redis.Flush.Split.{entries-absent}
use pg_redis.Flush.Accepted.{nodes_insertable}

-- The new nodes of a list have free places in the tables.
abbrev ItemsFree : Tables → Bytes → Value Hash Chain → Type 0
ItemsFree t k (string_value s) = Unit
ItemsFree t k (int_value i) = Unit
ItemsFree t k (hash_value h) = Unit
ItemsFree t k (list_value none) = Unit
ItemsFree t k (list_value (some l)) =
    AreDistinct l.nodes
    × ((o : ℤ) (n : Node)
        → node_at o l.nodes ≡ some n
        → n.pending_insert ≡ true
        → t.list_items k o ≡ none)

value_insertable :
    (t : Tables) (k : Bytes) (x : Value Hash Chain) (v : Vecs)
    → is_some (t.store k) ≡ true
    → ItemsFree t k x
    → ((o : ℤ) → new_item k o v.li_ins ≡ none)
    → items_insertable v.li_ins t ≡ true
    → items_insertable (collect_value k x v).li_ins t ≡ true
unfolding collect_value
value_insertable t k (string_value s) v p f n i = i
value_insertable t k (int_value s) v p f n i = i
value_insertable t k (hash_value none) v p f n i = i
value_insertable t k (hash_value (some h)) v p f n i = i
value_insertable t k (list_value none) v p f n i = i
value_insertable t k (list_value (some l)) v p f n i =
    nodes_insertable t k l.nodes v.li_ins p f.0 f.1 (λ o m e. n o) i

-- No key has two entries.
unfoldable pub UniqueKeys : List (Bytes × SessionEntry) → Type 0
UniqueKeys [] = Unit
UniqueKeys ((k, e) ∷ es) = (in_dirty k es ≡ false) × UniqueKeys es

abbrev pub Ready : Tables → Bytes × SessionEntry → Type 0
Ready t (k, e) = (is_some (t.store k) ≡ true) × ItemsFree t k e.value

another :
    (k k2 : Bytes) (es : List (Bytes × SessionEntry))
    → in_dirty k es ≡ false
    → in_dirty k2 es ≡ true
    → bytes_eq k k2 ≡ false
another k k2 es a b = elim (Bool-cases (bytes_eq k k2)) [
  | inr q ↦ q
  | inl q ↦
      let same : in_dirty k es ≡ in_dirty k2 es =
        ap (λ (j : Bytes). in_dirty j es) ((bytes_eq_iff k k2).0 q) in
      cc
]

pub dirty_insertable :
    (t : Tables) (es : List (Bytes × SessionEntry)) (v : Vecs)
    → All (Ready t) es
    → UniqueKeys es
    → ((k : Bytes) → in_dirty k es ≡ true → (o : ℤ) → new_item k o v.li_ins ≡ none)
    → items_insertable v.li_ins t ≡ true
    → items_insertable (collect_dirty es v).li_ins t ≡ true
unfolding collect_dirty UniqueKeys in_dirty
dirty_insertable t [] v ready unique new i = i
dirty_insertable t ((k, e) ∷ es) v ready unique new i =
    let u = record v { store_rows = vec_push v.store_rows (k, row_of e) } in
    let w = collect_value k e.value u in
    dirty_insertable t es w ready.1 unique.1
      (λ k2 there o.
        (value_other k2 k e.value u (another k k2 es unique.0 there)).ins o
        ∙ new k2 (ground arith) o)
      (value_insertable t k e.value u ready.0.0 ready.0.1
        (new k (rw ((bytes_eq_iff k k).1 refl) refl)) i)

with_entry-All :
    (Q : Bytes × SessionEntry → Type 0) (k : Bytes) (o : Option SessionEntry)
    (es : List (Bytes × SessionEntry))
    → ((e : SessionEntry) → o ≡ some e → Q (k, e))
    → All Q es
    → All Q (with_entry k o es)
with_entry-All Q k none es h a = a
with_entry-All Q k (some e) es h a = (h e refl, a)

pub entries-All :
    (Q : Bytes × SessionEntry → Type 0) (ks : List Bytes) (s : Session Hash Chain)
    → ((k : Bytes) (e : SessionEntry) → 0 < links k ks → s.store k ≡ some e → Q (k, e))
    → All Q (entries ks s)
unfolding entries links
entries-All Q [] s h = tt
entries-All Q (k ∷ ks) s h =
    with_entry-All Q k (s.store k) (entries ks s)
      (λ e q. h k e (rw ((bytes_eq_iff k k).1 refl) (omega arith)) q)
      (entries-All Q ks s (λ j e l q. h j e (omega (arith, l)) q))

with_entry-UniqueKeys :
    (k : Bytes) (o : Option SessionEntry) (es : List (Bytes × SessionEntry))
    → in_dirty k es ≡ false
    → UniqueKeys es
    → UniqueKeys (with_entry k o es)
unfolding UniqueKeys
with_entry-UniqueKeys k none es h u = u
with_entry-UniqueKeys k (some e) es h u = (h, u)

pub entries-UniqueKeys :
    (ks : List Bytes) (s : Session Hash Chain)
    → ((k : Bytes) → links k ks ≤ 1)
    → UniqueKeys (entries ks s)
unfolding entries links UniqueKeys
entries-UniqueKeys [] s h = tt
entries-UniqueKeys (k ∷ ks) s h =
    let once : 1 + links k ks ≤ 1 = rw ((bytes_eq_iff k k).1 refl) at (h k) in
    with_entry-UniqueKeys k (s.store k) (entries ks s) (entries-absent k ks s (omega arith))
      (entries-UniqueKeys ks s (λ j. omega (arith, h j)))

-- A new node of a tracked list has no row that the deletes of the batch leave.
absent_row :
    (b : Bool) (row : Option (Option Bytes))
    → row ≡ none
    → (if b || false then none else row) ≡ none
absent_row true row e = refl
absent_row false row e = e

pub parents_of :
    (t : Tables) (es : List (Bytes × SessionEntry))
    → All (Ready t) es
    → All (λ r. is_some (t.store r.0) ≡ true) es
parents_of t [] a = tt
parents_of t ((k, e) ∷ es) a = (a.0.0, parents_of t es a.1)

new_node_free :
    (n : Option Node) (m : Node) (doomed : Bool) (row : Option (Option Bytes))
    → n ≡ some m
    → m.pending_insert ≡ true
    → ItemTracked n doomed row
    → (if doomed || false then none else row) ≡ none
new_node_free n m doomed row e w h =
    let h1 = subst (λ (x : Option Node). ItemTracked x doomed row) e h in
    let h2 : (doomed ≡ true) ⊎ (row ≡ none) = rw w at h1 in
    elim h2 [ inl d ↦ rw d refl | inr r ↦ absent_row doomed row r ]

-- The marks of the lists.
abbrev pub ItemsMarked : Bytes → Value Hash Chain → Tables → Type 0
ItemsMarked k (string_value s) t = Unit
ItemsMarked k (int_value i) t = Unit
ItemsMarked k (hash_value h) t = Unit
ItemsMarked k (list_value l) t = Tracks k (list_value l) t

pub Tracks-ItemsMarked :
    (k : Bytes) (x : Value Hash Chain) (t : Tables) → Tracks k x t → ItemsMarked k x t
Tracks-ItemsMarked k (string_value s) t h = tt
Tracks-ItemsMarked k (int_value i) t h = tt
Tracks-ItemsMarked k (hash_value x) t h = tt
Tracks-ItemsMarked k (list_value l) t h = h

pub value_ItemsFree :
    (k : Bytes) (x : Value Hash Chain) (u w : Vecs) (t t' : Tables)
    → ((o : ℤ) → has_item k o u.li_del ≡ false)
    → Same k (collect_value k x u) w
    → ((o : ℤ) → t'.list_items k o ≡ (if has_item k o w.li_del then none else t.list_items k o))
    → ItemsMarked k x t
    → ItemsFree t' k x
unfolding collect_value
value_ItemsFree k (string_value s) u w t t' c same step h = tt
value_ItemsFree k (int_value i) u w t t' c same step h = tt
value_ItemsFree k (hash_value x) u w t t' c same step h = tt
value_ItemsFree k (list_value none) u w t t' c same step h = tt
value_ItemsFree k (list_value (some l)) u w t t' c same step h = (
  h.0,
  λ o n e p.
      let del : has_item k o w.li_del ≡ (has_ord o l.pending_delete_ords || false) =
        same.ords o
        ∙ collect_ords-own k o l.pending_delete_ords u.li_del
        ∙ ap (λ (b : Bool). has_ord o l.pending_delete_ords || b) (c o) in
      step o
      ∙ rw del (
          new_node_free (node_at o l.nodes) n (has_ord o l.pending_delete_ords) (t.list_items k o) e
            p (h.1 o)),
)
