-- ===== src/Load/Values.antt =====
-- `load_strings_and_ints` of src/persistence.c on a row that a flush has written.
use pg_redis.Base.{
  ◌^◌, ◌<◌, ◌≡◌, refl, sym, ap, subst, ◌∙◌, Bool, false, Option, none, some, ltb, length, Bytes,
  bytes_eq, bytes_eq_iff, if◌then◌else◌, if_false, Bool-cases, inl, inr,
}
use pg_redis.Base.Int.{ℤ, IsInt64}
use pg_redis.Types.{max_key_size, Value, string_value, int_value, hash_value, list_value}
use pg_redis.Binval.{encode_value, decode_string, decode_int, Bytea}
use pg_redis.Binval.Roundtrip.{decode_string-encode_value, decode_int-encode_value}
use pg_redis.HashValue.{Hash}
use pg_redis.ListValue.{Chain}
use pg_redis.Session.{Entry, Session, put, fresh, upsert}
use pg_redis.Load.{
  ValueRow, text_string, text_int, keeps, load_string, load_int, loaded, expiring_at, load_value,
}
use pg_redis.Command.Entries.{upsert_absent}

-- A string of fewer than 2 ^ 32 bytes, or an int64.
abbrev pub IsReadable : Value Hash Chain → Type 0
IsReadable (string_value none) = ⊥
IsReadable (string_value (some s)) = length s < 2 ^ 32
IsReadable (int_value n) = IsInt64 n
IsReadable (hash_value h) = ⊥
IsReadable (list_value l) = ⊥

abbrev pub type_text : Value Hash Chain → Option Bytes
type_text (string_value s) = some text_string
type_text (int_value n) = some text_int
type_text (hash_value h) = none
type_text (list_value l) = none

abbrev pub saved_expiry : Entry Hash Chain → Option ℤ
saved_expiry e = if e.has_expire then some e.expire_at else none

-- The row of `pgredis.store` that a flush writes for an entry.
abbrev pub saved_row : Bytes → Entry Hash Chain → ValueRow
saved_row k e = record {
  key = some k;
  type = type_text e.value;
  value = encode_value e.value;
  expire_at = saved_expiry e;
}

-- The entry that the load makes of the row of `e`.
abbrev pub read_entry : Entry Hash Chain → Entry Hash Chain
read_entry e = expiring_at (saved_expiry e) false (record fresh { value = e.value })

read_expiry : (e : Entry Hash Chain) → saved_expiry (read_entry e) ≡ saved_expiry e
read_expiry e = elim (Bool-cases e.has_expire) [ inl h ↦ rw h refl | inr h ↦ rw h refl ]

read_value :
    (at : Option ℤ) (v : Value Hash Chain)
    → (expiring_at at false (record (fresh {H = Hash} {L = Chain}) { value = v })).value ≡ v
read_value none v = refl
read_value (some at) v = refl

string_raw :
    (raw : Bytea) (x : Bytes) (v : Value Hash Chain)
    → decode_string (some raw) ≡ some x
    → load_string (some raw) v ≡ keeps (string_value (some x))
unfolding load_string
string_raw raw x v e = rw (e, load_string) refl

int_raw :
    (raw : Bytea) (n : ℤ) (v : Value Hash Chain)
    → decode_int (some raw) ≡ some n
    → load_int (some raw) v ≡ keeps (int_value n)
unfolding load_int
int_raw raw n v e = rw (e, load_int) refl

read_string :
    (x : Bytes) (v : Value Hash Chain)
    → length x < 2 ^ 32
    → load_string (encode_value {H = Hash} {L = Chain} (string_value (some x))) v
      ≡ keeps (string_value (some x))
unfolding encode_value
read_string x v r = string_raw _ x v (decode_string-encode_value Hash Chain x r).0

read_int :
    (n : ℤ) (v : Value Hash Chain)
    → IsInt64 n
    → load_int (encode_value {H = Hash} {L = Chain} (int_value n)) v ≡ keeps (int_value n)
unfolding encode_value
read_int n v r = int_raw _ n v (decode_int-encode_value Hash Chain n r).0

abbrev placed :
    Bytes
    → Value Hash Chain
    → Option ℤ
    → Entry Hash Chain × Bool × Session Hash Chain
    → Option (Session Hash Chain)
placed k v at x = loaded k at x.0 x.2 (keeps v)

load_row :
    (now : ℤ) (k : Bytes) (v : Value Hash Chain) (at : Option ℤ) (s : Session Hash Chain)
    → ltb max_key_size (length k) ≡ false
    → s.store k ≡ none
    → IsReadable v
    → load_value now
        (record { key = some k; type = type_text v; value = encode_value v; expire_at = at })
        s
      ≡ some
          (put k (some (expiring_at at false (record fresh { value = v }))) (put k (some fresh) s))
unfolding load_value bytes_eq
load_row now k (string_value none) at s short there r = absurd r
load_row now k (string_value (some x)) at s short there r =
    if_false _ _ short
    ∙ ap (loaded k at (upsert now k s).0 (upsert now k s).2)
        (read_string x (upsert now k s).0.value r)
    ∙ ap (placed k (string_value (some x)) at) (upsert_absent now k s there)
load_row now k (int_value n) at s short there r =
    if_false _ _ short
    ∙ ap (loaded k at (upsert now k s).0 (upsert now k s).2) (read_int n (upsert now k s).0.value r)
    ∙ ap (placed k (int_value n) at) (upsert_absent now k s there)
load_row now k (hash_value h) at s short there r = absurd r
load_row now k (list_value l) at s short there r = absurd r

-- What the load of a row leaves.
abbrev pub LoadsBack :
    Bytes → Entry Hash Chain → Session Hash Chain → Option (Session Hash Chain) → Type 0
LoadsBack k e s none = ⊥
LoadsBack k e s (some s') =
    (e' : Entry Hash Chain) × (s'.store k ≡ some e')
    × (e'.value ≡ e.value)
    × (saved_expiry e' ≡ saved_expiry e)
    × (e'.dirty ≡ false)
    × ((j : Bytes) → bytes_eq k j ≡ false → s'.store j ≡ s.store j)

read_clean :
    (at : Option ℤ) (v : Value Hash Chain)
    → (expiring_at at false (record (fresh {H = Hash} {L = Chain}) { value = v })).dirty ≡ false
read_clean none v = refl
read_clean (some at) v = refl

-- The row that a flush writes for an entry with a string of fewer than 2 ^ 32 bytes or an int64 is
-- loaded, at a key of at most 1024 bytes that has no entry, as an entry with the same value and the
-- same expiry that is not dirty; every other key keeps its entry.
pub load_value-saved_row :
    (now : ℤ) (k : Bytes) (e : Entry Hash Chain) (s : Session Hash Chain)
    → ltb max_key_size (length k) ≡ false
    → s.store k ≡ none
    → IsReadable e.value
    → LoadsBack k e s (load_value now (saved_row k e) s)
load_value-saved_row now k e s short there r =
    subst (LoadsBack k e s) (sym (load_row now k e.value (saved_expiry e) s short there r)) (
      read_entry e,
      rw ((bytes_eq_iff k k).1 refl) refl,
      read_value (saved_expiry e) e.value,
      read_expiry e,
      read_clean (saved_expiry e) e.value,
      λ j d. rw d refl,
    )
