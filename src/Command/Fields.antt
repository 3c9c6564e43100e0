-- ===== src/Command/Fields.antt =====
-- The commands of src/pg_redis.c on hashes, against the map of their fields.
use pg_redis.Base.{
  ◌+◌, ◌^◌, ◌<◌, ◌≡◌, refl, sym, ap, ◌∙◌, fun_ext, Bool, true, false, not, ◌&&◌, Option, none, some,
  ltb, is_some, if◌then◌else◌, length, Bytes, bytes_eq, bytes_eq_iff, arith, Bool-cases,
  Option-cases, inl, inr,
}
use pg_redis.Types.{max_field_size, Value, string_value, int_value, hash_value, list_value}
use pg_redis.HashValue.{
  Field, Hash, hash_create, find, hash_set, hash_get, hash_exists, hash_del, sizeof_field,
}
use pg_redis.HashValue.Fields.{IsMap, total}
use pg_redis.HashValue.Accounts.{IsHash, SetsTo, DeletesTo, hash_set-SetsTo, hash_del-DeletesTo}
use pg_redis.ListValue.{Chain}
use pg_redis.Effect.{
  Effect, field_too_long, breaks, answers, writes, ok, bool_reply, text_reply, set_field,
  hset_value, on_hash, hget_value, hdel_value, hexists_value,
}
use pg_redis.Command.Contents.{
  record_of, content, fields_of, value_at, Answer, assign, hset_to, hdel_to, with_map,
}
use pg_redis.Command.Values.{IsSound, Matches, Creates, used, Creates-Matches}

value_at-is_some : (o : Option Field) → is_some (value_at o) ≡ is_some o
value_at-is_some none = refl
value_at-is_some (some x) = refl

-- Setting a field, by what `pg_redis_hash_set` does.
assigned :
    (f v : Bytes) (h h' : Hash)
    → ((g : Bytes)
        → find g h'.fields
          ≡ (if bytes_eq f g then some (record { value = v; dirty = true }) else find g h.fields))
    → fields_of h' ≡ assign (fields_of h) f (some v)
assigned f v h h' s =
    fun_ext
      λ g. elim (Bool-cases (bytes_eq f g)) [ inl e ↦ rw (s g, e) refl | inr e ↦ rw (s g, e) refl ]

field_set :
    (f v : Bytes) (h : Hash) (r : Option (Bool × Hash))
    → ltb max_field_size (length f) ≡ false
    → SetsTo h f v r
    → Creates
        (elim r [
          | none ↦ breaks field_too_long (hash_value (some h))
          | some (new_field, h') ↦ writes (bool_reply new_field) (hash_value (some h'))
        ])
        (hset_to f v (fields_of h))
field_set f v h none fits s = absurd (ground arith)
field_set f v h (some (new_field, h')) fits s =
    let there = value_at-is_some (find f h.fields) ∙ s.1 in
    let new : (if is_some (fields_of h f) then false else true) ≡ new_field =
      ground (arith, there) in
    (rw (new, assigned f v h h' s.2) refl, s.0)

-- A field that its length check lets through.
abbrev pub FieldFits : Bytes → Type 0
FieldFits f = ltb max_field_size (length f) ≡ false

pub created-IsHash : IsHash hash_create
unfolding IsMap total
created-IsHash = record { map = tt; counted = refl; charged = refl; fits = omega arith }

created_empty : fields_of hash_create ≡ (λ g. none)
unfolding find
created_empty = refl

set_field-Creates :
    (f v : Bytes) (h : Hash)
    → FieldFits f
    → IsHash h
    → h.memory_usage + (sizeof_field + length v) < 2 ^ 64
    → Creates (set_field f v h) (hset_to f v (fields_of h))
unfolding set_field
set_field-Creates f v h fits sound room =
    field_set f v h (hash_set h f v) fits (hash_set-SetsTo h f v sound (omega (arith, room)))

pub hset_value-Creates :
    (f v : Bytes) (old : Value Hash Chain)
    → FieldFits f
    → sizeof_field + length v < 2 ^ 64
    → Creates (hset_value f v true old) (hset_to f v (λ g. none))
unfolding hset_value find
hset_value-Creates f v old fits room =
    set_field-Creates f v hash_create fits created-IsHash (omega (arith, room))

pub hset_value-Matches :
    (f v : Bytes) (old : Value Hash Chain)
    → FieldFits f
    → IsSound old
    → used old + (sizeof_field + length v) < 2 ^ 64
    → Matches
        (hset_value f v false old)
        (some (content old))
        (with_map (hset_to f v (λ g. none)) (hset_to f v) (some (content old)))
unfolding hset_value
hset_value-Matches f v (string_value s) fits sound room = refl
hset_value-Matches f v (int_value n) fits sound room = refl
hset_value-Matches f v (hash_value none) fits sound room = absurd sound
hset_value-Matches f v (hash_value (some h)) fits sound room =
    Creates-Matches (set_field f v h) (some (content (hash_value (some h))))
      (hset_to f v (fields_of h)) (set_field-Creates f v h fits sound room)
hset_value-Matches f v (list_value l) fits sound room = refl

-- The commands on a hash that must be there.
on_hash-Matches :
    (act : Hash → Effect) (spec : (Bytes → Option Bytes) → Answer) (absent : Answer)
    (v : Value Hash Chain)
    → IsSound v
    → ((h : Hash)
        → IsHash h
        → Matches (act h) (some (record_of (fields_of h))) (spec (fields_of h)))
    → Matches (on_hash act v) (some (content v)) (with_map absent spec (some (content v)))
on_hash-Matches act spec absent (string_value s) sound m = refl
on_hash-Matches act spec absent (int_value n) sound m = refl
on_hash-Matches act spec absent (hash_value none) sound m = absurd sound
on_hash-Matches act spec absent (hash_value (some h)) sound m = m h sound
on_hash-Matches act spec absent (list_value l) sound m = refl

-- A field that is short enough is looked up.
hash_get-find : (h : Hash) (f : Bytes) → FieldFits f → hash_get h f ≡ value_at (find f h.fields)
unfolding hash_get
hash_get-find h f fits = elim (Option-cases (find f h.fields)) [
  | inl e ↦ rw (fits, e, hash_get) refl
  | inr (x, e) ↦ rw (fits, e, hash_get) refl
]

pub hget_value-Matches :
    (f : Bytes) (v : Value Hash Chain)
    → FieldFits f
    → IsSound v
    → Matches (on_hash (hget_value f) v) (some (content v)) (
        with_map
          (ok (text_reply none), none)
          (λ m. (ok (text_reply (m f)), some (record_of m)))
          (some (content v)))
hget_value-Matches f v fits sound =
    on_hash-Matches (hget_value f) _ (ok (text_reply none), none) v sound
      (λ h i. rw (hash_get-find h f fits) refl)

pub hexists_value-Matches :
    (f : Bytes) (v : Value Hash Chain)
    → FieldFits f
    → IsSound v
    → Matches (on_hash (hexists_value f) v) (some (content v)) (
        with_map
          (ok (bool_reply false), none)
          (λ m. (ok (bool_reply (is_some (m f))), some (record_of m)))
          (some (content v)))
unfolding hash_exists
hexists_value-Matches f v fits sound =
    on_hash-Matches (hexists_value f) _ (ok (bool_reply false), none) v sound
      (λ h i. rw (hash_get-find h f fits) refl)

unassigned :
    (f : Bytes) (h : Hash) → find f h.fields ≡ none → assign (fields_of h) f none ≡ fields_of h
unassigned f h e = fun_ext λ g. elim (Bool-cases (bytes_eq f g)) [
  | inl b ↦
      rw b (sym (ap (λ (j : Bytes). fields_of h j) (sym ((bytes_eq_iff f g).0 b)) ∙ ap value_at e))
  | inr b ↦ rw b refl
]

deleted :
    (f : Bytes) (h h' : Hash)
    → ((g : Bytes) → find g h'.fields ≡ (if bytes_eq f g then none else find g h.fields))
    → fields_of h' ≡ assign (fields_of h) f none
deleted f h h' s =
    fun_ext
      λ g. elim (Bool-cases (bytes_eq f g)) [ inl e ↦ rw (s g, e) refl | inr e ↦ rw (s g, e) refl ]

field_deleted :
    (f : Bytes) (h : Hash) (r : Bool × Hash)
    → FieldFits f
    → DeletesTo h f r
    → Matches
        (let (removed, h') = r in
          if removed
          then writes (bool_reply true) (hash_value (some h'))
          else answers (bool_reply false))
        (some (record_of (fields_of h)))
        (hdel_to f (fields_of h))
field_deleted f h (true, h') fits d =
    let there : is_some (find f h.fields) ≡ true =
      sym (d.3 ∙ ap (λ (b : Bool). not b && is_some (find f h.fields)) fits) in
    let known = value_at-is_some (find f h.fields) ∙ there in
    (rw (known, deleted f h h' d.1) refl, d.0)
field_deleted f h (false, h') fits d =
    let missing : is_some (find f h.fields) ≡ false =
      sym (d.3 ∙ ap (λ (b : Bool). not b && is_some (find f h.fields)) fits) in
    let known = value_at-is_some (find f h.fields) ∙ missing in
    elim (Option-cases (find f h.fields)) [
      | inl e ↦ rw (known, unassigned f h e) refl
      | inr (x, e) ↦ let there : is_some (find f h.fields) ≡ true = ap is_some e in absurd cc
    ]

pub hdel_value-Matches :
    (f : Bytes) (v : Value Hash Chain)
    → FieldFits f
    → IsSound v
    → Matches
        (on_hash (hdel_value f) v)
        (some (content v))
        (with_map (ok (bool_reply false), none) (hdel_to f) (some (content v)))
unfolding hdel_value
hdel_value-Matches f v fits sound =
    on_hash-Matches (hdel_value f) (hdel_to f) (ok (bool_reply false), none) v sound
      (λ h i. field_deleted f h (hash_del h f) fits (hash_del-DeletesTo h f i))
