-- ===== src/HashValue/Accounts.antt =====
-- The counters of a hash: they count its fields and their bytes, through every operation.
use pg_redis.Base.{
  ℕ, ◌+◌, ◌-◌, ◌^◌, ◌<◌, ◌≤◌, ◌≡◌, not, ◌&&◌, refl, sym, ap, subst, Bool, true, false, Option, none,
  some, ◌∷◌, length, ltb, if◌then◌else◌, if_true, is_some, Bytes, bytes_eq, arith, Bool-cases,
  Option-cases, inl, inr,
}
use pg_redis.Types.{max_field_size}
use pg_redis.HashValue.{
  Field, Hash, find, enter, remove, sizeof_field, size_add, size_sub, less, hash_set, hash_del,
}
use pg_redis.HashValue.Fields.{
  IsMap, cost, entries, total, find-enter, enter-IsMap, find-remove, remove-IsMap, total-enter,
  length-enter, total-remove, length-remove,
}

pub record IsHash (h : Hash) : Type 0 where
  pub map : IsMap h.fields
  pub counted : h.field_count ≡ length h.fields
  pub charged : h.memory_usage ≡ total h.fields
  pub fits : h.memory_usage < 2 ^ 64

-- What a set does: the field has the value and is dirty, the others are as they were.
abbrev pub SetsTo : Hash → Bytes → Bytes → Option (Bool × Hash) → Type 0
SetsTo h field value none = max_field_size < length field
SetsTo h field value (some (is_new, h')) =
    IsHash h'
    × (is_some (find field h.fields) ≡ (if is_new then false else true))
    × ((g : Bytes)
        → find g h'.fields ≡ (
            if bytes_eq field g
            then some (record { value = value; dirty = true })
            else find g h.fields))
    × (h'.field_count ≡ h.field_count + (if is_new then 1 else 0))
    × (h'.tombstones ≡ h.tombstones)

size_sub_lem : (a b : ℕ) → b ≤ a → a < 2 ^ 64 → size_sub a b ≡ a - b
size_sub_lem a b h k = omega arith

size_add_lem : (a b : ℕ) → a + b < 2 ^ 64 → size_add a b ≡ a + b
size_add_lem a b h = omega arith

module _ (h : Hash) (field value : Bytes) (v : IsHash h)
    (room : h.memory_usage + sizeof_field + length value < 2 ^ 64) where
  abbrev stored : Field
  stored = record { value = value; dirty = true }

  overwritten :
      (f : Field)
      → find field h.fields ≡ some f
      → SetsTo h field value (
          some (
            false,
            record h {
              fields = enter field stored h.fields;
              memory_usage = size_add (size_sub h.memory_usage (length f.value)) (length value);
            },
          ))
  overwritten f e =
      let t = total-enter field stored h.fields in
      let r = total-remove field h.fields in
      let n = length-enter field stored h.fields in
      let c = ap cost e in
      let memory : size_add (size_sub h.memory_usage (length f.value)) (length value)
          ≡ total (enter field stored h.fields) =
        omega (arith, v.charged, v.fits) in
      (
        record {
          map = enter-IsMap field stored h.fields v.map;
          counted = omega (arith, v.counted, ap entries e);
          charged = memory;
          fits = omega (arith, v.charged);
        },
        ap is_some e,
        λ g. find-enter field g stored h.fields,
        omega arith,
        refl,
      )

  inserted :
      find field h.fields ≡ none
      → SetsTo h field value (
          some (
            true,
            record h {
              fields = enter field stored h.fields;
              field_count = h.field_count + 1;
              memory_usage = size_add (size_add h.memory_usage sizeof_field) (length value);
            },
          ))
  inserted e =
      let t = total-enter field stored h.fields in
      let n = length-enter field stored h.fields in
      let c = ap cost e in
      let memory : size_add (size_add h.memory_usage sizeof_field) (length value)
          ≡ total (enter field stored h.fields) =
        omega (arith, v.charged) in
      (
        record {
          map = enter-IsMap field stored h.fields v.map;
          counted = omega (arith, v.counted, ap entries e);
          charged = memory;
          fits = omega (arith, v.charged);
        },
        ap is_some e,
        λ g. find-enter field g stored h.fields,
        refl,
        refl,
      )

-- Setting a field fails exactly when the field is too long, and else stores the value and marks it
-- dirty, says whether the field is new, keeps all other fields and the tombstones, and keeps the
-- counters right, where the bytes stay below 2 ^ 64.
pub hash_set-SetsTo :
    (h : Hash) (field value : Bytes)
    → IsHash h
    → h.memory_usage + sizeof_field + length value < 2 ^ 64
    → SetsTo h field value (hash_set h field value)
unfolding hash_set
hash_set-SetsTo h field value v room = elim (Bool-cases (ltb max_field_size (length field))) [
  | inl long ↦ subst (SetsTo h field value) (sym (if_true _ _ long)) (ground arith)
  | inr fits ↦ elim (Option-cases (find field h.fields)) [
    | inl e ↦
        let run : hash_set h field value ≡ some (true, _) = rw (fits, e, hash_set) refl in
        subst (SetsTo h field value) (sym run) (inserted h field value v room e)
    | inr (f, e) ↦
        let run : hash_set h field value ≡ some (false, _) = rw (fits, e, hash_set) refl in
        subst (SetsTo h field value) (sym run) (overwritten h field value v room f e)
  ]
]

-- What a delete does: the field is gone with a tombstone of its own, and the others are as they
-- were; of an absent or too long field nothing changes.
abbrev pub DeletesTo : Hash → Bytes → Bool × Hash → Type 0
DeletesTo h field (removed, h') =
    IsHash h'
    × ((g : Bytes)
        → find g h'.fields ≡ (if removed && bytes_eq field g then none else find g h.fields))
    × (h'.tombstones ≡ (if removed then field ∷ h.tombstones else h.tombstones))
    × (removed ≡ not (ltb max_field_size (length field)) && is_some (find field h.fields))

removes :
    (h : Hash) (field : Bytes) (f : Field)
    → IsHash h
    → ltb max_field_size (length field) ≡ false
    → find field h.fields ≡ some f
    → DeletesTo h field (
      true,
      record {
        fields = remove field h.fields;
        memory_usage = less (less h.memory_usage (length f.value)) sizeof_field;
        field_count = if ltb 0 h.field_count then h.field_count - 1 else h.field_count;
        tombstones = field ∷ h.tombstones;
      },
    )
removes h field f v fits e =
    let t = total-remove field h.fields in
    let n = length-remove field h.fields in
    let c = ap cost e in
    let memory : less (less h.memory_usage (length f.value)) sizeof_field
        ≡ total (remove field h.fields) =
      ground (arith, v.charged, v.fits) in
    (
      record {
        map = remove-IsMap field h.fields v.map;
        counted = ground (arith, v.counted, ap entries e);
        charged = memory;
        fits = omega (arith, v.charged, v.fits);
      },
      λ g. find-remove field g h.fields v.map,
      refl,
      rw (fits, e) refl,
    )

-- Deleting a field that is there removes it, leaves a tombstone for its durable row and keeps all
-- other fields; of an absent field, or one too long to be there, nothing changes; and the counters
-- stay right.
pub hash_del-DeletesTo :
    (h : Hash) (field : Bytes) → IsHash h → DeletesTo h field (hash_del h field)
unfolding hash_del
hash_del-DeletesTo h field v = elim (Bool-cases (ltb max_field_size (length field))) [
  | inl long ↦ subst (DeletesTo h field) (sym (if_true _ _ long)) (v, λ g. refl, refl, rw long refl)
  | inr fits ↦ elim (Option-cases (find field h.fields)) [
    | inl e ↦
        let run : hash_del h field ≡ (false, h) = rw (fits, e, hash_del) refl in
        subst (DeletesTo h field) (sym run) (v, λ g. refl, refl, rw (fits, e) refl)
    | inr (f, e) ↦
        let run : hash_del h field ≡ (true, _) = rw (fits, e, hash_del) refl in
        subst (DeletesTo h field) (sym run) (removes h field f v fits e)
  ]
]
