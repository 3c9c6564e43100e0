-- ===== src/Flush/Split.antt =====
-- The turn of one key in the loops of a flush, and what the deletes keep of it.
use pg_redis.Base.{
  ◌≡◌, refl, sym, ap, subst, ◌∙◌, inl, inr, Bool, true, false, not, ◌&&◌, ◌||◌, Option, none, some,
  List, [], ◌∷◌, ◌++◌, Bytes, bytes_eq, bytes_eq_iff, arith, Bool-cases,
}
use pg_redis.Types.{Value, string_value, int_value, hash_value, list_value}
use pg_redis.HashValue.{Hash}
use pg_redis.ListValue.{Chain}
use pg_redis.Session.{Session}
use pg_redis.Session.WellFormed.{links}
use pg_redis.Durable.{has_key}
use pg_redis.Durable.Batch.{Vecs, no_vecs, vec_push}
use pg_redis.Durable.Batch.Replay.{has_key-push}
use pg_redis.Flush.{
  SessionEntry, row_of, collect_value, collect_dirty, collect_deletes, in_dirty, with_entry,
  entries, any_work,
}
use pg_redis.Flush.Vectors.{Same, dirty_other}

and_false : (b : Bool) → (b && false) ≡ false
and_false true = refl
and_false false = refl

dirty-append :
    (es fs : List (Bytes × SessionEntry)) (v : Vecs)
    → collect_dirty (es ++ fs) v ≡ collect_dirty fs (collect_dirty es v)
unfolding collect_dirty
dirty-append [] fs v = refl
dirty-append ((k, e) ∷ es) fs v = dirty-append es fs _

-- The key's entry stands once among the dirty ones.
abbrev pub Splits : Bytes → SessionEntry → List (Bytes × SessionEntry) → Type 0
Splits k e es =
    (before : List (Bytes × SessionEntry)) × (behind : List (Bytes × SessionEntry)) × (es
      ≡ before ++ ((k, e) ∷ behind))
    × (in_dirty k before ≡ false)
    × (in_dirty k behind ≡ false)

with_entry_other :
    (k k' : Bytes) (o : Option SessionEntry) (es : List (Bytes × SessionEntry))
    → bytes_eq k' k ≡ false
    → in_dirty k (with_entry k' o es) ≡ in_dirty k es
unfolding in_dirty
with_entry_other k k' none es h = refl
with_entry_other k k' (some e) es h = rw h refl

pub entries-absent :
    (k : Bytes) (ks : List Bytes) (s : Session Hash Chain)
    → links k ks ≡ 0
    → in_dirty k (entries ks s) ≡ false
unfolding links entries in_dirty
entries-absent k [] s h = refl
entries-absent k (k' ∷ ks) s h =
    let other : bytes_eq k' k ≡ false = ground arith in
    with_entry_other k k' (s.store k') (entries ks s) other ∙ entries-absent k ks s (ground arith)

with_entry-Splits :
    (k k' : Bytes) (e : SessionEntry) (o : Option SessionEntry) (es : List (Bytes × SessionEntry))
    → bytes_eq k' k ≡ false
    → Splits k e es
    → Splits k e (with_entry k' o es)
unfolding in_dirty
with_entry-Splits k k' e none es h sp = sp
with_entry-Splits k k' e (some e') es h (before, behind, same, absent, none_left) = (
  (k', e') ∷ before,
  behind,
  ap (λ (xs : List (Bytes × SessionEntry)). (k', e') ∷ xs) same,
  rw h absent,
  none_left,
)

pub entries-Splits :
    (k : Bytes) (e : SessionEntry) (ks : List Bytes) (s : Session Hash Chain)
    → links k ks ≡ 1
    → s.store k ≡ some e
    → Splits k e (entries ks s)
unfolding links entries in_dirty
entries-Splits k e [] s h q = absurd (omega arith)
entries-Splits k e (k' ∷ ks) s h q = elim (Bool-cases (bytes_eq k' k)) [
  | inl same ↦
      let key : k' ≡ k = (bytes_eq_iff k' k).0 same in
      (
        [],
        entries ks s,
        rw key (ap (λ (o : Option SessionEntry). with_entry k o (entries ks s)) q),
        refl,
        entries-absent k ks s (ground arith),
      )
  | inr other ↦
      with_entry-Splits k k' e (s.store k') (entries ks s) other
        (entries-Splits k e ks s (ground arith) q)
]

-- What the vectors say of the key of a dirty entry is what its own turn of the loop said.
pub split_vectors :
    (k : Bytes) (e : SessionEntry) (es : List (Bytes × SessionEntry))
    → Splits k e es
    → (v : Vecs) × Same k no_vecs v
      × Same k
          (collect_value k e.value (record v { store_rows = vec_push v.store_rows (k, row_of e) }))
          (collect_dirty es no_vecs)
unfolding collect_dirty
split_vectors k e es (before, behind, same, absent, none_left) =
    let v = collect_dirty before no_vecs in
    let w =
      collect_value k e.value (record v { store_rows = vec_push v.store_rows (k, row_of e) }) in
    (
      v,
      dirty_other k before no_vecs absent,
      subst (Same k w)
          (sym (
            ap (λ (xs : List (Bytes × SessionEntry)). collect_dirty xs no_vecs) same
            ∙ dirty-append before ((k, e) ∷ behind) no_vecs))
          (dirty_other k behind w none_left),
    )

pub deletes_lem :
    (k : Bytes) (es : List (Bytes × SessionEntry)) (ks keys : List Bytes)
    → has_key k (collect_deletes es ks keys)
      ≡ (has_key k keys || (has_key k ks && not (in_dirty k es)))
unfolding collect_deletes has_key
deletes_lem k es [] keys = ground arith
deletes_lem k es (k' ∷ ks) keys =
    let same =
      λ (e : bytes_eq k' k ≡ true). ap (λ (b : Bytes). in_dirty b es) ((bytes_eq_iff k' k).0 e) in
    elim (Bool-cases (in_dirty k' es)) [
      | inl d ↦ rw d (
          deletes_lem k es ks keys ∙ elim (Bool-cases (bytes_eq k' k)) [
            | inl e ↦ let q = same e in ground arith
            | inr e ↦ ground arith
          ])
      | inr d ↦ rw d (
          deletes_lem k es ks (vec_push keys k') ∙ elim (Bool-cases (bytes_eq k' k)) [
            | inl e ↦ let q = same e in ground (arith, has_key-push k keys k')
            | inr e ↦ ground (arith, has_key-push k keys k')
          ])
    ]

pub spared :
    (k : Bytes) (es : List (Bytes × SessionEntry)) (ks : List Bytes)
    → in_dirty k es ≡ true
    → has_key k (collect_deletes es ks []) ≡ false
unfolding has_key
spared k es ks h = deletes_lem k es ks [] ∙ rw h (and_false (has_key k ks))

value_deletes :
    (k : Bytes) (x : Value Hash Chain) (u : Vecs)
    → (collect_value k x u).store_delete_keys ≡ u.store_delete_keys
unfolding collect_value
value_deletes k (string_value s) u = refl
value_deletes k (int_value i) u = refl
value_deletes k (hash_value none) u = refl
value_deletes k (hash_value (some h)) u = refl
value_deletes k (list_value none) u = refl
value_deletes k (list_value (some l)) u = refl

pub dirty_deletes :
    (es : List (Bytes × SessionEntry)) (v : Vecs)
    → (collect_dirty es v).store_delete_keys ≡ v.store_delete_keys
unfolding collect_dirty
dirty_deletes [] v = refl
dirty_deletes ((k, e) ∷ es) v =
    let u = record v { store_rows = vec_push v.store_rows (k, row_of e) } in
    dirty_deletes es (collect_value k e.value u) ∙ value_deletes k e.value u

in_dirty-append :
    (k : Bytes) (e : SessionEntry) (es fs : List (Bytes × SessionEntry))
    → in_dirty k (es ++ ((k, e) ∷ fs)) ≡ true
unfolding in_dirty
in_dirty-append k e [] fs = rw ((bytes_eq_iff k k).1 refl) refl
in_dirty-append k e ((k', e') ∷ es) fs = ground (arith, in_dirty-append k e es fs)

pub Splits-in_dirty :
    (k : Bytes) (e : SessionEntry) (es : List (Bytes × SessionEntry))
    → Splits k e es
    → in_dirty k es ≡ true
Splits-in_dirty k e es (before, behind, same, absent, none_left) =
    ap (in_dirty k) same ∙ in_dirty-append k e before behind

pub some_work :
    (k : Bytes) (dirty deletes : List Bytes) → links k dirty ≡ 1 → any_work dirty deletes ≡ true
unfolding links
some_work k [] deletes h = absurd (omega arith)
some_work k (x ∷ dirty) [] h = refl
some_work k (x ∷ dirty) (y ∷ deletes) h = refl
