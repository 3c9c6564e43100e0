-- ===== src/Load/Examples.antt =====
-- Loads of concrete rows.
use pg_redis.Base.{
  ◌≡◌, refl, true, none, some, [], ◌∷◌, Bytes, bytes_eq, arith, if◌then◌else◌, Bool-cases, inl, inr,
}
use pg_redis.Base.Int.{pos}
use pg_redis.Types.{int_value}
use pg_redis.HashValue.{Hash}
use pg_redis.ListValue.{Chain}
use pg_redis.Session.{Entry, Session, fresh}
use pg_redis.Durable.{Tables}
use pg_redis.Load.{FieldRow, load_field, load_value, each_row}
use pg_redis.Load.Row.{weight, hashes_of}
use pg_redis.Load.Ready.{AreRowsOf, Shows, empty_keyspace, load_fields-IsReady}
use pg_redis.Load.Values.{LoadsBack, saved_row, load_value-saved_row}
use pg_redis.Command.Sequences.{IsReady}

abbrev key_h : Bytes
key_h = b'h' ∷ []

abbrev one_row : FieldRow
one_row = record {
  key = some key_h;
  field = some (b'f' ∷ []);
  value = some (b'v' ∷ []);
  expire_at = some (pos 9);
}

abbrev one_field : Tables
one_field = record {
  store = λ k. none;
  hash_fields = λ k g.
      if bytes_eq key_h k
      then (if bytes_eq (b'f' ∷ []) g then some (some (b'v' ∷ [])) else none)
      else none;
  list_items = λ k o. none;
}

rows-AreRowsOf : AreRowsOf one_field ((pos 3, one_row) ∷ [])
unfolding hashes_of
rows-AreRowsOf k g = elim (Bool-cases (bytes_eq key_h k)) [
  | inl a ↦
      rw a (elim (Bool-cases (bytes_eq (b'f' ∷ []) g)) [ inl b ↦ rw b refl | inr b ↦ rw b refl ])
  | inr a ↦ rw a refl
]

load_fields-IsReady_example :
    (s : Session Hash Chain) × (each_row load_field ((pos 3, one_row) ∷ []) empty_keyspace ≡ some s)
    × IsReady one_field s
    × ((k : Bytes) → Shows k one_field (s.store k))
unfolding weight
load_fields-IsReady_example =
    load_fields-IsReady (pos 5) ((pos 3, one_row) ∷ []) one_field
      ((refl, λ now early. ground arith), tt) (omega arith) rows-AreRowsOf

abbrev seven : Entry Hash Chain
seven = record fresh { value = int_value (pos 7); has_expire = true; expire_at = pos 60 }

load_value-saved_row_example :
    LoadsBack key_h seven empty_keyspace (load_value (pos 3) (saved_row key_h seven) empty_keyspace)
load_value-saved_row_example =
    load_value-saved_row (pos 3) key_h seven empty_keyspace refl refl (omega arith)
