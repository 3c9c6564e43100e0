-- ===== src/Command/Examples.antt =====
-- Commands on concrete keys.
use pg_redis.Base.{
  ◌-◌, ◌≡◌, refl, ◌∙◌, sym, ap, subst, Option, true, false, none, some, List, [], if◌then◌else◌,
  ◌∷◌, Bytes, bytes_eq, arith, inl, inr, ◌⊎◌, Bool-cases,
}
use pg_redis.Base.Int.{ℤ, pos}
use pg_redis.Types.{hash_value}
use pg_redis.HashValue.{Hash, hash_set, find, enter}
use pg_redis.ListValue.{Chain}
use pg_redis.Session.{Entry, put, upsert, mark_dirty, entry_is_expired}
use pg_redis.Session.WellFormed.{links, IsLinked}
use pg_redis.Durable.{Tables}
use pg_redis.Durable.{
  store_upsert, hash_field_delete, hash_field_upsert, fields_have_parent, last_field, last_row,
  has_key, list_item_delete, list_item_insert, store_delete,
}
use pg_redis.Durable.Batch.{run_plans}
use pg_redis.Flush.{
  row_of, collect, collect_dirty, collect_value, collect_fields, collect_tombstones,
  collect_deletes, entries, run_flush, flushed,
}
use pg_redis.Flush.Commit.{Committed}
use pg_redis.Flush.Whole.{AllTracked}
use pg_redis.HashValue.Fields.{IsMap, total}
use pg_redis.HashValue.Accounts.{IsHash}
use pg_redis.Modes.{check_key_len, check_field_len, check_value_len}
use pg_redis.Effect.{Settings, hset_value, set_field, ok, bool_reply, text_reply}
use pg_redis.Command.{Keyspace, op_hset, op_hget, check_args, update, act, run}
use pg_redis.Command.Contents.{call, view}
use pg_redis.Command.Values.{IsSound}
use pg_redis.Command.Refines.{AllSound, Follows}
use pg_redis.Command.Calls.{Fits, run-Follows}
use pg_redis.Command.Sequences.{IsReady, Runs, finished, called, Runs-Committed}
use pg_redis.Command.Revived.{hset_expired_revived}
use pg_redis.Load.{FieldRow, load_field, each_row}
use pg_redis.Load.Row.{weight, hashes_of}
use pg_redis.Load.Ready.{AreRowsOf}

-- Reads one digit, and prints nothing.
abbrev one_digit : Bytes → Option ℤ
one_digit (c ∷ []) = some (pos (c - 48))
one_digit _ = none

abbrev settings : Settings
settings = record { max_key = pos 0; max_value = pos 0; strtoll = one_digit; print_int64 = λ n. [] }

abbrev key_h : Bytes
key_h = b'h' ∷ []

abbrev field_f : Bytes
field_f = b'f' ∷ []

abbrev field_g : Bytes
field_g = b'g' ∷ []

abbrev empty_keyspace : Keyspace
empty_keyspace = record { store = λ k. none; dirty_set = []; pending_deletes = [] }

abbrev no_rows : Tables
no_rows = record { store = λ k. none; hash_fields = λ k f. none; list_items = λ k o. none }

empty-AllSound : AllSound empty_keyspace
empty-AllSound k e h = absurd cc

run-Follows_example :
    Follows
      (pos 5)
      key_h
      empty_keyspace
      (call settings (op_hset field_f (b'v' ∷ [])) key_h (view (pos 5) empty_keyspace key_h))
      (run settings (pos 5) (op_hset field_f (b'v' ∷ [])) key_h empty_keyspace)
run-Follows_example =
    run-Follows (pos 5) key_h empty_keyspace empty-AllSound settings (op_hset field_f (b'v' ∷ []))
      (omega arith)

empty-IsReady : IsReady no_rows empty_keyspace
unfolding links
empty-IsReady = record { sound = empty-AllSound; linked = λ k. refl; tracked = λ k. tt }

abbrev after_hset : Keyspace
after_hset = (run settings (pos 5) (op_hset field_f (b'v' ∷ [])) key_h empty_keyspace).1

-- HSET h f v, and HSET h g 1 after it.
abbrev after_two : Keyspace
after_two = (run settings (pos 6) (op_hset field_g (b'1' ∷ [])) key_h after_hset).1

abbrev entry_h : Entry Hash Chain
entry_h = record {
  value = hash_value (
      some (record {
        fields =
            (field_f, record { value = b'v' ∷ []; dirty = true })
            ∷ (field_g, record { value = b'1' ∷ []; dirty = true })
            ∷ [];
        field_count = 2;
        memory_usage = 2114;
        tombstones = [];
      }));
  expire_at = pos 0;
  has_expire = false;
  dirty = true;
  deleted = false;
  in_dirty_set = true;
  version = 3;
}

after_two-entry : after_two.store key_h ≡ some entry_h
unfolding run act update hset_value set_field hash_set find enter upsert mark_dirty check_args
    check_key_len check_field_len check_value_len entry_is_expired bytes_eq
after_two-entry = refl

second-Fits : Fits (pos 6) key_h after_hset (op_hset field_g (b'1' ∷ []))
unfolding run act update hset_value set_field hash_set find enter upsert mark_dirty check_args
    check_key_len check_field_len check_value_len entry_is_expired bytes_eq
second-Fits = omega arith

two_hsets : Runs settings no_rows empty_keyspace after_two
two_hsets =
    called (pos 5) (op_hset field_f (b'v' ∷ [])) key_h (omega arith) (λ h. (λ f. refl, λ o. refl))
      (called (pos 6) (op_hset field_g (b'1' ∷ [])) key_h second-Fits (λ h. (λ f. refl, λ o. refl))
        finished)

Runs-Committed_example :
    (empty_keyspace.store key_h ≡ some entry_h)
    ⊎ Committed key_h entry_h (run_flush true (λ i. false) after_two no_rows)
Runs-Committed_example =
    Runs-Committed settings no_rows empty_keyspace after_two key_h entry_h empty-IsReady two_hsets
      after_two-entry

-- A hash that expired at 3, with the row of its field.
abbrev old_hash : Hash
old_hash = record {
  fields = (field_f, record { value = b'v' ∷ []; dirty = false }) ∷ [];
  field_count = 1;
  memory_usage = 1057;
  tombstones = [];
}

abbrev old_entry : Entry Hash Chain
old_entry = record {
  value = hash_value (some old_hash);
  expire_at = pos 3;
  has_expire = true;
  dirty = false;
  deleted = false;
  in_dirty_set = false;
  version = 2;
}

abbrev old_keyspace : Keyspace
old_keyspace = put key_h (some old_entry) empty_keyspace

abbrev old_rows : Tables
old_rows = record {
  store = λ k. none;
  hash_fields = λ k x.
      if bytes_eq key_h k
      then (if bytes_eq field_f x then some (some (b'v' ∷ [])) else none)
      else none;
  list_items = λ k o. none;
}

old_hash-IsHash : IsHash old_hash
unfolding IsMap total find
old_hash-IsHash = record { map = (refl, tt); counted = refl; charged = refl; fits = omega arith }

old_only : (k : Bytes) (e : Entry Hash Chain) → old_keyspace.store k ≡ some e → e ≡ old_entry
old_only k e h = elim (Bool-cases (bytes_eq key_h k)) [
  | inl b ↦ let found : some old_entry ≡ some e = rw b at h in cc
  | inr b ↦ let missing : ◌≡◌ {A = Option (Entry Hash Chain)} none (some e) = rw b at h in absurd cc
]

old-AllSound : AllSound old_keyspace
old-AllSound k e h =
    subst (λ (x : Entry Hash Chain). IsSound x.value) (sym (old_only k e h)) old_hash-IsHash

old-AllTracked : AllTracked old_keyspace old_rows
old-AllTracked k e h d =
    let flag : e.in_dirty_set ≡ false =
      ap (λ (x : Entry Hash Chain). x.in_dirty_set) (old_only k e h) in
    absurd cc

old-IsLinked : IsLinked old_keyspace
unfolding links
old-IsLinked k = elim (Bool-cases (bytes_eq key_h k)) [ inl b ↦ rw b refl | inr b ↦ rw b refl ]

abbrev set_g : Keyspace
set_g = (run settings (pos 5) (op_hset field_g (b'w' ∷ [])) key_h old_keyspace).1

-- The rows of the two fields, as the load after the flush reads them.
abbrev row_of_field : Bytes → Bytes → ℤ × FieldRow
row_of_field f v =
    (pos 6, record { key = some key_h; field = some f; value = some v; expire_at = none })

abbrev both_rows : List (ℤ × FieldRow)
both_rows = row_of_field field_f (b'v' ∷ []) ∷ row_of_field field_g (b'w' ∷ []) ∷ []

flushed_fields :
    (k x : Bytes)
    → (run_flush true (λ i. false) set_g old_rows).2.hash_fields k x ≡ (
        if bytes_eq key_h k
        then (if bytes_eq field_g x
            then some (some (b'w' ∷ []))
            else if bytes_eq field_f x
            then some (some (b'v' ∷ []))
            else none)
        else none)
unfolding bytes_eq check_args run run_plans fields_have_parent has_key hash_field_delete
    hash_field_upsert last_field last_row list_item_delete list_item_insert store_delete
    store_upsert hset_value collect collect_deletes collect_dirty collect_fields collect_tombstones
    collect_value entries row_of run_flush enter find hash_set check_field_len check_key_len
    check_value_len mark_dirty
flushed_fields k x = elim (Bool-cases (bytes_eq key_h k)) [
  | inr a ↦ rw a refl
  | inl a ↦ rw a (elim (Bool-cases (bytes_eq field_g x)) [ inl b ↦ rw b refl | inr b ↦ rw b refl ])
]

both_rows-AreRowsOf : AreRowsOf (run_flush true (λ i. false) set_g old_rows).2 both_rows
unfolding hashes_of
both_rows-AreRowsOf k x = flushed_fields k x ∙ elim (Bool-cases (bytes_eq key_h k)) [
  | inr a ↦ rw a refl
  | inl a ↦ rw a (elim (Bool-cases (bytes_eq field_g x)) [
    | inl b ↦ rw b refl
    | inr b ↦
        rw b (elim (Bool-cases (bytes_eq field_f x)) [ inl d ↦ rw d refl | inr d ↦ rw d refl ])
  ])
]

hset_expired_revived_example :
    ((run settings (pos 5) (op_hset field_g (b'w' ∷ [])) key_h old_keyspace).0
      ≡ ok (bool_reply true))
    × ((run settings (pos 5) (op_hget field_f) key_h set_g).0 ≡ ok (text_reply none))
    × ((run_flush true (λ i. false) set_g old_rows).0 ≡ flushed)
    × (loaded : Keyspace) × (each_row load_field both_rows empty_keyspace ≡ some loaded)
    × ((run settings (pos 8) (op_hget field_f) key_h loaded).0 ≡ ok (text_reply (some (b'v' ∷ []))))
unfolding bytes_eq check_args check_key_len check_field_len check_value_len entry_is_expired weight
hset_expired_revived_example =
    hset_expired_revived settings (pos 5) (pos 9) (pos 8) key_h field_g (b'w' ∷ []) field_f
      (b'v' ∷ []) old_entry old_keyspace old_rows both_rows old-AllSound old-IsLinked old-AllTracked
      refl refl (omega arith) refl refl refl refl ((refl, tt), ((refl, tt), tt)) (omega arith)
      both_rows-AreRowsOf refl
