-- ===== src/Load/Fields.antt =====
-- What `load_hashes` of src/persistence.c makes of the rows of one key.
use pg_redis.Base.{
  ℕ, ◌+◌, ◌≤◌, ◌≡◌, refl, sym, ap, ◌∙◌, Bool, true, false, Option, none, some, [], ltb,
  if◌then◌else◌, ◌>>=◌, length, Bytes, bytes_eq, Bool-cases, inl, inr, arith, Option-cases,
}
use pg_redis.Types.{max_field_size}
use pg_redis.HashValue.{Field, Hash, hash_set, find, enter, sizeof_field, size_add, size_sub}
use pg_redis.HashValue.Fields.{cost, total-remove}
use pg_redis.HashValue.Accounts.{IsHash, SetsTo}
use pg_redis.Flush.{clean_fields}
use pg_redis.Load.Clean.{
  clean, find-clean_fields, clean_fields-IsMap, length-clean_fields, total-clean_fields,
}

abbrev memory_of : Option (Bool × Hash) → ℕ
memory_of none = 0
memory_of (some (b, h)) = h.memory_usage

-- A hash as the rows say: the map of its fields, all clean, with no tombstones.
pub record Holds (m : Bytes → Option Field) (h : Hash) : Type 0 where
  pub is_hash : IsHash h
  pub fields : (g : Bytes) → find g h.fields ≡ m g
  pub unburied : h.tombstones ≡ []

abbrev pub clean_field : Bytes → Field
clean_field v = record { value = v; dirty = false }

abbrev pub set_in : (Bytes → Option Field) → Bytes → Bytes → Bytes → Option Field
set_in m f v g = if bytes_eq f g then some (clean_field v) else m g

-- All fields are clean.
abbrev pub AllClean : (Bytes → Option Field) → Type 0
AllClean m = (g : Bytes) → clean (m g) ≡ m g

pub set_in-AllClean :
    (m : Bytes → Option Field) (f v : Bytes) → AllClean m → AllClean (set_in m f v)
set_in-AllClean m f v c g = elim (Bool-cases (bytes_eq f g)) [
  | inl e ↦ rw e refl
  | inr e ↦ rw e (c g)
]

-- The bytes that a set adds at most.
set_memory :
    (h : Hash) (f v : Bytes) (b : Bool) (h1 : Hash)
    → IsHash h
    → ltb max_field_size (length f) ≡ false
    → hash_set h f v ≡ some (b, h1)
    → h1.memory_usage ≤ h.memory_usage + (sizeof_field + length v)
unfolding hash_set
set_memory h f v b h1 sound short e = elim (Option-cases (find f h.fields)) [
  | inl q ↦
      let run : hash_set h f v
          ≡ some (
            true,
            record h {
              fields = enter f (record { value = v; dirty = true }) h.fields;
              field_count = h.field_count + 1;
              memory_usage = size_add (size_add h.memory_usage sizeof_field) (length v);
            },
          ) =
        rw (short, q, hash_set) refl in
      let same = ap (λ (r : Option (Bool × Hash)). memory_of r) (sym run ∙ e) in omega (arith, same)
  | inr (x, q) ↦
      let run : hash_set h f v
          ≡ some (
            false,
            record h {
              fields = enter f (record { value = v; dirty = true }) h.fields;
              memory_usage = size_add (size_sub h.memory_usage (length x.value)) (length v);
            },
          ) =
        rw (short, q, hash_set) refl in
      let same = ap (λ (r : Option (Bool × Hash)). memory_of r) (sym run ∙ e) in
      let less = total-remove f h.fields in
      let c = ap cost q in omega (arith, same, less, c, sound.charged, sound.fits)
]

pub cleaned :
    (m : Bytes → Option Field) (f v : Bytes) (h : Hash) (r : Option (Bool × Hash))
    → AllClean m
    → Holds m h
    → ltb max_field_size (length f) ≡ false
    → hash_set h f v ≡ r
    → SetsTo h f v r
    → (h' : Hash) × ((r >>= λ x. some (record x.1 { fields = clean_fields x.1.fields })) ≡ some h')
      × Holds (set_in m f v) h'
      × (h'.memory_usage ≤ h.memory_usage + (sizeof_field + length v))
cleaned m f v h none c holds short e s = absurd (ground arith)
cleaned m f v h (some (is_new, h1)) c holds short e s = (
  record h1 { fields = clean_fields h1.fields },
  refl,
  record {
    is_hash = record {
      map = clean_fields-IsMap h1.fields s.0.map;
      counted = s.0.counted ∙ sym (length-clean_fields h1.fields);
      charged = s.0.charged ∙ sym (total-clean_fields h1.fields);
      fits = s.0.fits;
    };
    fields = λ g.
        find-clean_fields g h1.fields ∙ ap clean (s.2 g) ∙ elim (Bool-cases (bytes_eq f g)) [
          | inl b ↦ rw b refl
          | inr b ↦ rw (b, holds.fields g) (c g)
        ];
    unburied = s.4 ∙ holds.unburied;
  },
  set_memory h f v is_new h1 holds.is_hash short e,
)
