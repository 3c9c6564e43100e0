-- ===== src/Load.antt =====
-- src/persistence.c: the load of the durable tables into a session's keyspace. Each list of rows is
-- what the SELECT of a loader returns, in its order, with the time at which the loader handles the row.
pub mod Clean
pub mod Fields
pub mod Row
pub mod Hashes
pub mod Ready
pub mod Values
mod Examples
use pg_redis.Base.{
  ℕ, zero, ◌+◌, Bool, true, false, not, ◌||◌, Option, none, some, List, [], ◌∷◌, ◌++◌, ltb, ◌==◌,
  if◌then◌else◌, ◌>>=◌, length, Bytes, bytes_eq,
}
use pg_redis.Base.Int.{ℤ, pos}
use pg_redis.Types.{
  max_key_size, max_field_size, Value, string_value, int_value, hash_value, list_value,
}
use pg_redis.Binval.{Bytea, decode_string, decode_int}
use pg_redis.HashValue.{Hash, hash_create, hash_set}
use pg_redis.ListValue.{Chain, Node, list_create, list_rpush, split_tail}
use pg_redis.Session.{Entry, Session, put, remove, upsert, release_value}
use pg_redis.Flush.{clean_fields}
use pg_redis.Modes.{PersistenceMode, persist_none}

-- A column that is NULL is `none`.
pub record ValueRow : Type 0 where
  pub key : Option Bytes
  pub type : Option Bytes
  pub value : Option Bytea
  pub expire_at : Option ℤ

pub record FieldRow : Type 0 where
  pub key : Option Bytes
  pub field : Option Bytes
  pub value : Option Bytes
  pub expire_at : Option ℤ

pub record ItemRow : Type 0 where
  pub key : Option Bytes
  pub ord : Option ℤ
  pub value : Option Bytes
  pub expire_at : Option ℤ

abbrev pub text_string : Bytes
text_string = b's' ∷ b't' ∷ b'r' ∷ b'i' ∷ b'n' ∷ b'g' ∷ []

abbrev pub text_int : Bytes
text_int = b'i' ∷ b'n' ∷ b't' ∷ []

-- What becomes of the union of an entry: `garbage` where a pointer of one type is taken for another.
pub data Loaded : Type 0 where
  keeps : Value Hash Chain → Loaded
  drops : Loaded
  garbage : Loaded

unfoldable pub load_string : Option Bytea → Value Hash Chain → Loaded
load_string (some raw) v = elim (decode_string (some raw)) [
  | none ↦ drops
  | some s ↦ keeps (string_value (some s))
]
load_string none (string_value s) = keeps (string_value s)
load_string none (int_value (pos zero)) = keeps (string_value none)
load_string none (hash_value none) = keeps (string_value none)
load_string none (list_value none) = keeps (string_value none)
load_string none _ = garbage

unfoldable pub load_int : Option Bytea → Value Hash Chain → Loaded
load_int (some raw) v = elim (decode_int (some raw)) [ none ↦ drops | some n ↦ keeps (int_value n) ]
load_int none (int_value n) = keeps (int_value n)
load_int none (string_value none) = keeps (int_value (pos 0))
load_int none (hash_value none) = keeps (int_value (pos 0))
load_int none (list_value none) = keeps (int_value (pos 0))
load_int none _ = garbage

-- The expiry of a row: the first loader clears the flag at NULL, the others leave it.
abbrev pub expiring_at : Option ℤ → Bool → Entry Hash Chain → Entry Hash Chain
expiring_at none flag e = record e { has_expire = flag; dirty = false }
expiring_at (some at) flag e = record e { has_expire = true; expire_at = at; dirty = false }

abbrev pub loaded :
    Bytes → Option ℤ → Entry Hash Chain → Session Hash Chain → Loaded → Option (Session Hash Chain)
loaded k at e s (keeps v) = some (put k (some (expiring_at at false (record e { value = v }))) s)
loaded k at e s drops = some (remove k s).1
loaded k at e s garbage = none

-- One row of `load_strings_and_ints`. `none` is an ERROR, or behaviour that C leaves undefined.
unfoldable pub load_value : ℤ → ValueRow → Session Hash Chain → Option (Session Hash Chain)
unfolding upsert remove load_string load_int
load_value now row s = elim row.key [
  | none ↦ some s
  | some k ↦ elim row.type [
    | none ↦ some s
    | some ty ↦
        let (e, is_new, s') = upsert now k s in
        if ltb max_key_size (length k)
        then some s
        else if bytes_eq ty text_string
        then loaded k row.expire_at e s' (load_string row.value e.value)
        else if bytes_eq ty text_int
        then loaded k row.expire_at e s' (load_int row.value e.value)
        else some s'
  ]
]

abbrev pub or_empty : Option Bytes → Bytes
or_empty none = []
or_empty (some b) = b

-- The hash, or the list, that a row goes to: a new one for a new key and for another type.
abbrev pub hash_for : Bool → Value Hash Chain → Option Hash
hash_for true v = some hash_create
hash_for false (hash_value h) = h
hash_for false _ = some hash_create

abbrev pub list_for : Bool → Value Hash Chain → Option Chain
list_for true v = some list_create
list_for false (list_value l) = l
list_for false _ = some list_create

-- The hash after the row's field: no field of it is dirty.
unfoldable pub with_field : Bytes → Bytes → Option Hash → Option Hash
with_field f v h = do
  h' ← h
  r ← hash_set h' f v
  some (record r.1 { fields = clean_fields r.1.fields })

-- The key, field and value of a row that the loader takes.
abbrev pub taken : FieldRow → Option (Bytes × Bytes × Bytes)
taken row = elim row.key [
  | none ↦ none
  | some k ↦ elim row.field [
    | none ↦ none
    | some f ↦
        if ltb max_key_size (length k) || ltb max_field_size (length f)
        then none
        else some (k, f, or_empty row.value)
  ]
]

-- One row of `load_hashes`.
unfoldable pub load_field : ℤ → FieldRow → Session Hash Chain → Option (Session Hash Chain)
unfolding upsert with_field
load_field now row s = elim (taken row) [
  | none ↦ some s
  | some (k, f, v) ↦
      let (e, is_new, s') = upsert now k s in
      do
        h ← with_field f v (hash_for is_new e.value)
        some (
            put k
              (some
                (expiring_at row.expire_at e.has_expire (record e { value = hash_value (some h) })))
              s')
]

-- The tail of the list takes the row's ordinal.
unfoldable pub set_tail : ℤ → List Node → List Node
set_tail ord [] = []
set_tail ord (n ∷ []) = record n { ord = ord; pending_insert = false } ∷ []
set_tail ord (n ∷ m ∷ ns) = n ∷ set_tail ord (m ∷ ns)

abbrev pub is_single : List Node → Bool
is_single (_ ∷ []) = true
is_single _ = false

unfoldable pub with_item : ℤ → Bytes → Option Chain → Option Chain
unfolding set_tail
with_item ord v l = do
  l' ← l
  pushed ← some (list_rpush l' v)
  some (record pushed {
    nodes = set_tail ord pushed.nodes;
    min_ord = if is_single pushed.nodes then ord else pushed.min_ord;
    max_ord = ord;
    ord_initialized = true;
  })

-- One row of `load_lists`.
unfoldable pub load_item : ℤ → ItemRow → Session Hash Chain → Option (Session Hash Chain)
unfolding upsert with_item
load_item now row s = elim row.key [
  | none ↦ some s
  | some k ↦ elim row.ord [
    | none ↦ some s
    | some ord ↦
        let (e, is_new, s') = upsert now k s in
        if ltb max_key_size (length k) then some s else (do
          l ← with_item ord (or_empty row.value) (list_for is_new e.value)
          some (
              put k
                (some (
                  expiring_at row.expire_at e.has_expire
                    (record e { value = list_value (some l) })))
                s'))
  ]
]

-- The loop of a loader over its rows.
abbrev pub each_row :
    {R : Type 0}
    → (ℤ → R → Session Hash Chain → Option (Session Hash Chain))
    → List (ℤ × R)
    → Session Hash Chain
    → Option (Session Hash Chain)
each_row load [] s = some s
each_row load ((now, row) ∷ rows) s = load now row s >>= each_row load rows

-- The rows that the three SELECTs return.
pub record Rows : Type 0 where
  pub values : List (ℤ × ValueRow)
  pub fields : List (ℤ × FieldRow)
  pub items : List (ℤ × ItemRow)

-- `pg_redis_persistence_do_load`, where SPI connects
unfoldable pub do_load : Rows → Session Hash Chain → Option (Session Hash Chain)
unfolding load_value load_field load_item
do_load rows s = do
  s1 ← each_row load_value rows.values s
  s2 ← each_row load_field rows.fields s1
  each_row load_item rows.items s2
