-- ===== src/Load/Ready.antt =====
-- The keyspace after a load of src/persistence.c: it is what the tables have, and a session that a
-- transaction and its flush can start from.
use pg_redis.Base.{
  ◌^◌, ◌<◌, ◌≡◌, refl, sym, ap, subst, ◌∙◌, Bool, false, Option, none, some, List, [], All, Bytes,
  inr,
}
use pg_redis.Base.Int.{ℤ}
use pg_redis.Types.{Value, string_value, int_value, hash_value, list_value}
use pg_redis.HashValue.{Field, Hash, find}
use pg_redis.ListValue.{Chain}
use pg_redis.Session.{Entry, Session}
use pg_redis.Session.WellFormed.{links, flag_of}
use pg_redis.Durable.{Tables, has_key}
use pg_redis.Flush.Commit.{Tracks, Mirrors, FieldTracked, durable_field}
use pg_redis.Load.{FieldRow, load_field, each_row}
use pg_redis.Load.Fields.{AllClean}
use pg_redis.Load.Clean.{clean}
use pg_redis.Load.Row.{Proper, EntryHolds, ValueHolds, hashes_of, weight}
use pg_redis.Load.Hashes.{load_fields-State}
use pg_redis.Command.Values.{IsSound}
use pg_redis.Command.Marks.{KeyTracked}
use pg_redis.Command.Sequences.{IsReady}

-- The rows are those of the tables.
abbrev pub AreRowsOf : Tables → List (ℤ × FieldRow) → Type 0
AreRowsOf t rows =
    (k g : Bytes) → t.hash_fields k g ≡ durable_field (hashes_of rows (λ j f. none) k g)

clean_tracked :
    (x : Option Field) (durable : Option (Option Bytes))
    → clean x ≡ x
    → durable ≡ durable_field x
    → FieldTracked x false durable
clean_tracked none durable c e = inr e
clean_tracked (some x) durable c e = λ d. (e, refl)

-- The key's entry is what the tables have of the key.
abbrev pub Shows : Bytes → Tables → Option (Entry Hash Chain) → Type 0
Shows k t none = (g : Bytes) → t.hash_fields k g ≡ none
Shows k t (some e) = Mirrors k e.value t

entry_facts :
    (until : ℤ) (k : Bytes) (t : Tables) (m : Bytes → Option Field) (o : Option (Entry Hash Chain))
    → EntryHolds until 0 m o
    → AllClean m
    → ((g : Bytes) → t.hash_fields k g ≡ durable_field (m g))
    → Shows k t o
      × KeyTracked k t o
      × (flag_of o ≡ 0)
      × ((e : Entry Hash Chain) → o ≡ some e → IsSound e.value)
unfolding has_key
entry_facts until k t m none h c rows =
    (λ g. rows g ∙ ap durable_field (h.0 g), tt, refl, λ e p. absurd cc)
entry_facts until k t m (some e) h c rows =
    let (shows, tracked, sound) = value_facts e.value h.3 in
    (
      shows,
      tracked,
      rw h.2 refl,
      λ e' p.
          let same : e ≡ e' = cc in subst (λ (x : Entry Hash Chain). IsSound x.value) same sound,
    )
  where
    value_facts : (v : Value Hash Chain) → ValueHolds m v → Mirrors k v t × Tracks k v t × IsSound v
    value_facts (string_value s) p = (tt, tt, tt)
    value_facts (int_value n) p = (tt, tt, tt)
    value_facts (hash_value none) p = absurd p
    value_facts (hash_value (some x)) p = (
      λ g. rows g ∙ ap durable_field (sym (p.fields g)),
      (
        p.is_hash.map,
        λ g.
            subst (λ (b : Bool). FieldTracked (find g x.fields) b (t.hash_fields k g))
              (sym (ap (has_key g) p.unburied))
              (clean_tracked (find g x.fields) (t.hash_fields k g)
                (ap clean (p.fields g) ∙ c g ∙ sym (p.fields g))
                (rows g ∙ ap durable_field (sym (p.fields g)))),
      ),
      p.is_hash,
    )
    value_facts (list_value l) p = absurd p

abbrev pub empty_keyspace : Session Hash Chain
empty_keyspace = record { store = λ k. none; dirty_set = []; pending_deletes = [] }

-- The loop of load_hashes over the rows of the tables, on an empty keyspace, where the load is over
-- before any of them expires and their bytes stay below 2 ^ 64: it succeeds, each key has exactly the
-- fields that the tables have, with none of them dirty or deleted, and the session is one that a
-- transaction can start from.
pub load_fields-IsReady :
    (until : ℤ) (rows : List (ℤ × FieldRow)) (t : Tables)
    → All (Proper until) rows
    → weight rows < 2 ^ 64
    → AreRowsOf t rows
    → (s : Session Hash Chain) × (each_row load_field rows empty_keyspace ≡ some s)
      × IsReady t s
      × ((k : Bytes) → Shows k t (s.store k))
unfolding links
load_fields-IsReady until rows t proper room same =
    let (s, ran, state, chain, clean) =
      load_fields-State until rows (λ k g. none) empty_keyspace proper (λ k g. refl)
        (λ k. (λ g. refl, room)) in
    let facts = λ (k : Bytes).
      entry_facts until k t (hashes_of rows (λ j f. none) k) (s.store k) (state k) (clean k)
        (same k) in
    (
      s,
      ran,
      record {
        sound = λ k. (facts k).3;
        linked = λ k. ap (links k) chain ∙ sym (facts k).2;
        tracked = λ k. (facts k).1;
      },
      λ k. (facts k).0,
    )
