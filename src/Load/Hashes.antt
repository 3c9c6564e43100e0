-- ===== src/Load/Hashes.antt =====
-- `load_hashes` of src/persistence.c over all its rows.
use pg_redis.Base.{
  ℕ, ◌+◌, ◌^◌, ◌<◌, ◌≡◌, refl, sym, ap, subst, ◌∙◌, Bool, true, false, Option, none, some, List, [],
  ◌∷◌, ◌>>=◌, length, All, Bytes, bytes_eq, bytes_eq_iff, Bool-cases, inl, inr, arith, Option-cases,
}
use pg_redis.Base.Int.{ℤ}
use pg_redis.HashValue.{Hash, hash_create, sizeof_field}
use pg_redis.ListValue.{Chain}
use pg_redis.Session.{Entry, Session, put, fresh, upsert}
use pg_redis.Load.{FieldRow, hash_for, taken, load_field, each_row}
use pg_redis.Load.Fields.{Holds, set_in, AllClean, set_in-AllClean}
use pg_redis.Command.Entries.{upsert_absent, upsert_live, unexpiring}
use pg_redis.Load.Row.{
  Hashes, put_row, hashes_of, weight_of, weight, Proper, Outlives, EntryHolds, State, created-Holds,
  hash_for-Holds, with_field-Holds, with_hash, resume, resume_lem, taken_short, EntryHolds-less,
  with_hash-EntryHolds,
}

module _ (until : ℤ) (n : ℕ) (now : ℤ) (row : FieldRow) (m : Hashes) (s : Session Hash Chain)
    (proper : Proper until (now, row)) (clean : (k : Bytes) → AllClean (m k)) where
  abbrev Leaves : Option (Bytes × Bytes × Bytes) → Type 0
  Leaves o =
      (s' : Session Hash Chain) × (load_field now row s ≡ some s')
      × State until n (put_row o m) s'
      × (s'.dirty_set ≡ s.dirty_set)

  -- The row goes to the hash `h` of the entry `e`, which the upsert returned.
  placed :
      (k f v : Bytes) (e : Entry Hash Chain) (is_new : Bool) (h : Hash) (s' : Session Hash Chain)
      → taken row ≡ some (k, f, v)
      → State until ((sizeof_field + length v) + n) m s
      → upsert now k s ≡ (e, is_new, s')
      → ((j : Bytes) → bytes_eq k j ≡ false → s'.store j ≡ s.store j)
      → s'.dirty_set ≡ s.dirty_set
      → Outlives until e
      → e.in_dirty_set ≡ false
      → hash_for is_new e.value ≡ some h
      → Holds (m k) h
      → h.memory_usage + ((sizeof_field + length v) + n) < 2 ^ 64
      → Leaves (some (k, f, v))
  placed k f v e is_new h s' t state up same chain out undirty found holds room =
      let (h', made, holds', fits) =
        with_field-Holds (m k) f v h n (clean k) holds
          (taken_short row.key row.field row.value row.expire_at k f v t) room in
      let ran : load_field now row s ≡ some (put k (some (with_hash row e h')) s') =
        resume_lem now k f v row s t ∙ ap (resume k f v row) up ∙ rw (found, made) refl in
      (
        put k (some (with_hash row e h')) s',
        ran,
        λ j. elim (Bool-cases (bytes_eq k j)) [
          | inl b ↦ rw b (
              subst
                (λ (i : Bytes). EntryHolds until n (set_in (m i) f v) (some (with_hash row e h')))
                ((bytes_eq_iff k j).0 b)
                (with_hash-EntryHolds until n (set_in (m k) f v) row.expire_at e h' proper.1 out
                  undirty fits holds'))
          | inr b ↦ rw b (
              subst (EntryHolds until n (m j)) (sym (same j b)) (
                EntryHolds-less until ((sizeof_field + length v) + n) n (m j) (s.store j)
                  (omega arith) (state j)))
        ],
        chain,
      )

  -- One row changes its key as it says, and no other key.
  load_field-State :
      (o : Option (Bytes × Bytes × Bytes))
      → taken row ≡ o
      → State until (weight_of o + n) m s
      → Leaves o
  unfolding load_field
  load_field-State none t state = (
    s,
    rw (t, load_field) refl,
    λ j. EntryHolds-less until (0 + n) n (m j) (s.store j) (omega arith) (state j),
    refl,
  )
  load_field-State (some (k, f, v)) t state = elim (Option-cases (s.store k)) [
    | inl x ↦
        let old = subst (EntryHolds until ((sizeof_field + length v) + n) (m k)) x (state k) in
        placed k f v fresh true hash_create (put k (some fresh) s) t state (upsert_absent now k s x)
          (λ j d. rw d refl) refl (λ at early. unexpiring {H = Hash} {L = Chain} at fresh refl) refl
          refl (created-Holds (m k) old.0) (omega (arith, old.1))
    | inr (e, x) ↦
        let old = subst (EntryHolds until ((sizeof_field + length v) + n) (m k)) x (state k) in
        let (h, found, holds, room) =
          hash_for-Holds (m k) ((sizeof_field + length v) + n) e.value old.3 old.1 in
        placed k f v e false h s t state (upsert_live now k e s x (old.0 now proper.0))
          (λ j d. refl) refl old.0 old.2 found holds room
  ]

put_row-AllClean :
    (o : Option (Bytes × Bytes × Bytes)) (m : Hashes)
    → ((k : Bytes) → AllClean (m k))
    → (k : Bytes) → AllClean (put_row o m k)
put_row-AllClean none m c k = c k
put_row-AllClean (some (k', f, v)) m c k = elim (Bool-cases (bytes_eq k' k)) [
  | inl b ↦ rw b (set_in-AllClean (m k) f v (c k))
  | inr b ↦ rw b (c k)
]

-- The loop makes of every key's hash what the rows say, all its fields clean.
pub load_fields-State :
    (until : ℤ) (rows : List (ℤ × FieldRow)) (m : Hashes) (s : Session Hash Chain)
    → All (Proper until) rows
    → ((k : Bytes) → AllClean (m k))
    → State until (weight rows) m s
    → (s' : Session Hash Chain) × (each_row load_field rows s ≡ some s')
      × State until 0 (hashes_of rows m) s'
      × (s'.dirty_set ≡ s.dirty_set)
      × ((k : Bytes) → AllClean (hashes_of rows m k))
unfolding weight hashes_of
load_fields-State until [] m s proper clean state = (s, refl, state, refl, clean)
load_fields-State until ((now, row) ∷ rows) m s proper clean state =
    let (s1, first, state1, chain1) =
      load_field-State until (weight rows) now row m s proper.0 clean (taken row) refl state in
    let (s2, rest, state2, chain2, clean2) =
      load_fields-State until rows (put_row (taken row) m) s1 proper.1
        (put_row-AllClean (taken row) m clean) state1 in
    (
      s2,
      ap (λ (x : Option (Session Hash Chain)). x >>= each_row load_field rows) first ∙ rest,
      state2,
      chain2 ∙ chain1,
      clean2,
    )
