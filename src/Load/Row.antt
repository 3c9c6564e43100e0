-- ===== src/Load/Row.antt =====
-- What the rows of the hashes say, and one of them against the entry of its key.
use pg_redis.Base.{
  ℕ, ◌+◌, ◌^◌, ◌<◌, ◌≤◌, ◌≡◌, refl, sym, subst, Bool, true, false, ◌||◌, Option, none, some, List,
  [], ◌∷◌, ltb, if◌then◌else◌, ◌>>=◌, length, Bytes, bytes_eq, arith,
}
use pg_redis.Base.Int.{ℤ, ltb_ℤ}
use pg_redis.Types.{
  max_key_size, max_field_size, Value, string_value, int_value, hash_value, list_value,
}
use pg_redis.HashValue.{Field, Hash, hash_create, hash_set, find, sizeof_field}
use pg_redis.HashValue.Accounts.{hash_set-SetsTo}
use pg_redis.ListValue.{Chain}
use pg_redis.Session.{Entry, Session, put, entry_is_expired, upsert}
use pg_redis.Load.{FieldRow, or_empty, hash_for, with_field, expiring_at, taken, load_field}
use pg_redis.Load.Fields.{Holds, set_in, AllClean, cleaned}
use pg_redis.Command.Values.{used}
use pg_redis.Command.Fields.{created-IsHash}

-- The contents of all hashes.
abbrev pub Hashes : Type 0
Hashes = Bytes → Bytes → Option Field

abbrev pub put_row : Option (Bytes × Bytes × Bytes) → Hashes → Hashes
put_row none m k = m k
put_row (some (k', f, v)) m k = if bytes_eq k' k then set_in (m k) f v else m k

-- What the rows say of all hashes: of two rows of one field the later one counts.
unfoldable pub hashes_of : List (ℤ × FieldRow) → Hashes → Hashes
hashes_of [] m = m
hashes_of ((now, row) ∷ rows) m = hashes_of rows (put_row (taken row) m)

abbrev pub weight_of : Option (Bytes × Bytes × Bytes) → ℕ
weight_of none = 0
weight_of (some (k, f, v)) = sizeof_field + length v

-- The bytes that the rows take.
unfoldable pub weight : List (ℤ × FieldRow) → ℕ
weight [] = 0
weight ((now, row) ∷ rows) = weight_of (taken row) + weight rows

-- The load is over before the time `until`, and what it loads has not expired then.
abbrev pub Late : ℤ → Option ℤ → Type 0
Late until none = Unit
Late until (some at) = (now : ℤ) → ltb_ℤ now until ≡ true → ltb_ℤ now at ≡ true

abbrev pub Proper : ℤ → ℤ × FieldRow → Type 0
Proper until (now, row) = (ltb_ℤ now until ≡ true) × Late until row.expire_at

abbrev pub Outlives : ℤ → Entry Hash Chain → Type 0
Outlives until e = (now : ℤ) → ltb_ℤ now until ≡ true → entry_is_expired now e ≡ false

abbrev pub ValueHolds : (Bytes → Option Field) → Value Hash Chain → Type 0
ValueHolds m (hash_value none) = ⊥
ValueHolds m (hash_value (some h)) = Holds m h
ValueHolds m (string_value s) = (g : Bytes) → m g ≡ none
ValueHolds m (int_value n) = (g : Bytes) → m g ≡ none
ValueHolds m (list_value l) = ⊥

-- The entry of a key, which is no list yet, has the fields `m`, outlives the load, and has room for `n` more bytes.
abbrev pub EntryHolds : ℤ → ℕ → (Bytes → Option Field) → Option (Entry Hash Chain) → Type 0
EntryHolds until n m none = ((g : Bytes) → m g ≡ none) × (n < 2 ^ 64)
EntryHolds until n m (some e) =
    Outlives until e × (used e.value + n < 2 ^ 64) × (e.in_dirty_set ≡ false) × ValueHolds m e.value

abbrev pub State : ℤ → ℕ → Hashes → Session Hash Chain → Type 0
State until n m s = (k : Bytes) → EntryHolds until n (m k) (s.store k)

pub created-Holds : (m : Bytes → Option Field) → ((g : Bytes) → m g ≡ none) → Holds m hash_create
unfolding find
created-Holds m e = record { is_hash = created-IsHash; fields = λ g. sym (e g); unburied = refl }

-- The hash that a row goes to.
pub hash_for-Holds :
    (m : Bytes → Option Field) (n : ℕ) (v : Value Hash Chain)
    → ValueHolds m v
    → used v + n < 2 ^ 64
    → (h : Hash) × (hash_for false v ≡ some h) × Holds m h × (h.memory_usage + n < 2 ^ 64)
hash_for-Holds m n (hash_value none) holds room = absurd holds
hash_for-Holds m n (hash_value (some h)) holds room = (h, refl, holds, room)
hash_for-Holds m n (string_value s) holds room = (hash_create, refl, created-Holds m holds, room)
hash_for-Holds m n (int_value i) holds room = (hash_create, refl, created-Holds m holds, room)
hash_for-Holds m n (list_value l) holds room = absurd holds

pub with_field-Holds :
    (m : Bytes → Option Field) (f v : Bytes) (h : Hash) (n : ℕ)
    → AllClean m
    → Holds m h
    → ltb max_field_size (length f) ≡ false
    → h.memory_usage + ((sizeof_field + length v) + n) < 2 ^ 64
    → (h' : Hash) × (with_field f v (some h) ≡ some h')
      × Holds (set_in m f v) h'
      × (h'.memory_usage + n < 2 ^ 64)
unfolding with_field
with_field-Holds m f v h n c holds short room =
    let (h', made, holds', more) =
      cleaned m f v h (hash_set h f v) c holds short refl
        (hash_set-SetsTo h f v holds.is_hash (omega (arith, room))) in
    (h', made, holds', omega (arith, more, room))

expiring_at-Outlives :
    (until : ℤ) (at : Option ℤ) (e : Entry Hash Chain) (v : Value Hash Chain)
    → Late until at
    → Outlives until e
    → Outlives until (expiring_at at e.has_expire (record e { value = v }))
unfolding entry_is_expired
expiring_at-Outlives until none e v late out = out
expiring_at-Outlives until (some at) e v late out = λ now early. rw (late now early) refl

-- The entry that a row leaves.
abbrev pub with_hash : FieldRow → Entry Hash Chain → Hash → Entry Hash Chain
with_hash row e h =
    expiring_at row.expire_at e.has_expire (record e { value = hash_value (some h) })

-- The write of a taken row, after the upsert of its key.
abbrev pub resume :
    Bytes
    → Bytes
    → Bytes
    → FieldRow
    → Entry Hash Chain × Bool × Session Hash Chain
    → Option (Session Hash Chain)
resume k f v row x =
    with_field f v (hash_for x.1 x.0.value) >>= λ h. some (put k (some (with_hash row x.0 h)) x.2)

pub resume_lem :
    (now : ℤ) (k f v : Bytes) (row : FieldRow) (s : Session Hash Chain)
    → taken row ≡ some (k, f, v)
    → load_field now row s ≡ resume k f v row (upsert now k s)
unfolding load_field
resume_lem now k f v row s e = rw (e, load_field) refl

field_short :
    (k f v k' f' v' : Bytes) (b : Bool)
    → ltb max_key_size (length k') || ltb max_field_size (length f') ≡ b
    → (let r : Option (Bytes × Bytes × Bytes) = if b then none else some (k', f', v') in
        r ≡ some (k, f, v))
    → ltb max_field_size (length f) ≡ false
field_short k f v k' f' v' true e h = absurd cc
field_short k f v k' f' v' false e h =
    let same : f' ≡ f = cc in
    subst (λ (x : Bytes). ltb max_field_size (length x) ≡ false) same (ground arith)

pub taken_short :
    (ko fo vo : Option Bytes) (at : Option ℤ) (k f v : Bytes)
    → taken (record { key = ko; field = fo; value = vo; expire_at = at }) ≡ some (k, f, v)
    → ltb max_field_size (length f) ≡ false
taken_short none fo vo at k f v e = absurd cc
taken_short (some k') none vo at k f v e = absurd cc
taken_short (some k') (some f') vo at k f v e = field_short k f v k' f' (or_empty vo) _ refl e

pub EntryHolds-less :
    (until : ℤ) (n n' : ℕ) (m : Bytes → Option Field) (o : Option (Entry Hash Chain))
    → n' ≤ n
    → EntryHolds until n m o
    → EntryHolds until n' m o
EntryHolds-less until n n' m none le h = (h.0, omega (arith, h.1))
EntryHolds-less until n n' m (some e) le h = (h.0, omega (arith, h.1), h.2, h.3)

pub with_hash-EntryHolds :
    (until : ℤ) (n : ℕ) (m : Bytes → Option Field) (at : Option ℤ) (e : Entry Hash Chain) (h : Hash)
    → Late until at
    → Outlives until e
    → e.in_dirty_set ≡ false
    → h.memory_usage + n < 2 ^ 64
    → Holds m h
    → EntryHolds until n m
        (some (expiring_at at e.has_expire (record e { value = hash_value (some h) })))
with_hash-EntryHolds until n m none e h late out undirty room holds =
    (expiring_at-Outlives until none e (hash_value (some h)) late out, room, undirty, holds)
with_hash-EntryHolds until n m (some at) e h late out undirty room holds =
    (expiring_at-Outlives until (some at) e (hash_value (some h)) late out, room, undirty, holds)
