-- ===== src/Command/Sequences.antt =====
-- Sequences of commands of src/pg_redis.c, and the flush at the commit after them.
use pg_redis.Base.{
  ◌≡◌, sym, subst, ◌∙◌, ◌⊎◌, inl, inr, true, false, none, some, Bytes, bytes_eq, bytes_eq_iff,
  Bool-cases,
}
use pg_redis.Base.Int.{ℤ}
use pg_redis.HashValue.{Hash}
use pg_redis.ListValue.{Chain}
use pg_redis.Session.{Entry}
use pg_redis.Session.WellFormed.{IsLinked}
use pg_redis.Durable.{Tables}
use pg_redis.Flush.{run_flush}
use pg_redis.Flush.Commit.{Committed}
use pg_redis.Flush.Whole.{run_flush-Committed}
use pg_redis.Effect.{Settings}
use pg_redis.Command.{Keyspace, Op, run}
use pg_redis.Command.Contents.{view}
use pg_redis.Command.Refines.{AllSound}
use pg_redis.Command.Calls.{Fits, run-Follows}
use pg_redis.Command.Tracked.{NoRows}
use pg_redis.Command.Marks.{KeyTracked, run_tracked}

-- A session whose values are sound and mark their changes since their rows were written, and whose
-- dirty chain links the flagged entries.
pub record IsReady (t : Tables) (s : Keyspace) : Type 0 where
  pub sound : AllSound s
  pub linked : IsLinked s
  pub tracked : (k : Bytes) → KeyTracked k t (s.store k)

-- The calls of one transaction, with the tables as they are before its flush. A key that a call finds
-- nothing at has no fields and items left in the tables.
pub data Runs (c : Settings) (t : Tables) : Keyspace → Keyspace → Type 0 where
  finished : {s : Keyspace} → Runs c t s s
  called :
      {s s' : Keyspace} (now : ℤ) (op : Op) (k : Bytes)
      → Fits now k s op
      → (view now s k ≡ none → NoRows k t)
      → Runs c t (run c now op k s).1 s'
      → Runs c t s s'

-- Each entry is as it was or in the dirty set.
abbrev pub Marked : Keyspace → Keyspace → Type 0
Marked s s' =
    (k : Bytes) (e : Entry Hash Chain)
    → s'.store k ≡ some e
    → (s.store k ≡ some e) ⊎ (e.in_dirty_set ≡ true)

module _ (c : Settings) (t : Tables) where
  run-IsReady :
      (now : ℤ) (op : Op) (k : Bytes) (s : Keyspace)
      → Fits now k s op
      → (view now s k ≡ none → NoRows k t)
      → IsReady t s
      → IsReady t (run c now op k s).1 × Marked s (run c now op k s).1
  run-IsReady now op k s fits rows r =
      let f = run-Follows now k s r.sound c op fits in
      (
        record {
          sound = f.sound;
          linked = f.linked r.linked;
          tracked = λ j. elim (Bool-cases (bytes_eq k j)) [
            | inl b ↦
                subst (λ (i : Bytes). KeyTracked i t ((run c now op k s).1.store i))
                  ((bytes_eq_iff k j).0 b)
                  (run_tracked now k t s r.sound c op fits rows (r.tracked k))
            | inr b ↦ subst (KeyTracked j t) (sym (f.others j b)) (r.tracked j)
          ];
        },
        λ j e there. elim (Bool-cases (bytes_eq k j)) [
          | inl b ↦
              subst
                (λ (i : Bytes).
                  (run c now op k s).1.store i ≡ some e
                  → (s.store i ≡ some e) ⊎ (e.in_dirty_set ≡ true))
                ((bytes_eq_iff k j).0 b) (f.marked e) there
          | inr b ↦ inl (sym (f.others j b) ∙ there)
        ],
      )

  Runs-IsReady : (s s' : Keyspace) → Runs c t s s' → IsReady t s → IsReady t s' × Marked s s'
  Runs-IsReady s s' finished r = (r, λ k e there. inl there)
  Runs-IsReady s s' (called now op k fits rows rest) r =
      let (ready, first) = run-IsReady now op k s fits rows r in
      let (end, later) = Runs-IsReady (run c now op k s).1 s' rest ready in
      (end, λ j e there. elim (later j e there) [ inl h ↦ first j e h | inr h ↦ inr h ])

-- A transaction of any commands on a session whose values are sound and mark their changes and whose
-- dirty chain links the flagged entries; where the bytes of each hash and list stay below 2 ^ 64, DEL
-- finds no expired entry, and the tables have no old fields or items of a key that a command finds
-- nothing at. An entry that it leaves is the one of its start, or the flush at its commit, where SPI
-- connects and no plan fails by itself, succeeds and leaves in the tables the entry's row, and exactly
-- the fields of its hash or the values of its list.
pub Runs-Committed :
    (c : Settings) (t : Tables) (s s' : Keyspace) (k : Bytes) (e : Entry Hash Chain)
    → IsReady t s
    → Runs c t s s'
    → s'.store k ≡ some e
    → (s.store k ≡ some e) ⊎ Committed k e (run_flush true (λ i. false) s' t)
Runs-Committed c t s s' k e ready runs there =
    let (end, marked) = Runs-IsReady c t s s' runs ready in
    elim (marked k e there) [
      | inl same ↦ inl same
      | inr dirty ↦ inr (
          run_flush-Committed s' t k e end.linked
            (λ j x h d. subst (KeyTracked j t) h (end.tracked j)) there dirty)
    ]
