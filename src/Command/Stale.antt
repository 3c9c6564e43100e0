-- ===== src/Command/Stale.antt =====
-- HSET of src/pg_redis.c on a hash that has expired: `pg_redis_store_upsert` makes a new entry in
-- place and records no delete, so the flush leaves the old fields in the tables.
use pg_redis.Base.{
  ◌≡◌, refl, sym, ap, subst, ◌∙◌, true, false, Option, none, some, if_true, if_false, Bool, [],
  Bytes, bytes_eq, bytes_eq_iff, arith, inl, inr, Bool-cases,
}
use pg_redis.Base.Int.{ℤ}
use pg_redis.Types.{Value, string_value, hash_value}
use pg_redis.HashValue.{Hash, hash_create, hash_set, find}
use pg_redis.HashValue.Accounts.{IsHash, SetsTo, hash_set-SetsTo}
use pg_redis.ListValue.{Chain}
use pg_redis.Session.{Entry, put, mark_dirty, entry_is_expired}
use pg_redis.Session.WellFormed.{IsLinked}
use pg_redis.Durable.{Tables, has_key}
use pg_redis.Flush.{run_flush, flushed}
use pg_redis.Flush.Commit.{applied_fields, field_left}
use pg_redis.Flush.Insertable.{ItemsMarked, Tracks-ItemsMarked}
use pg_redis.Flush.Whole.{AllTracked, AllItemsMarked, run_flush-applied}
use pg_redis.Effect.{Result, ok, bool_reply, writes, hset_value, set_field, Settings}
use pg_redis.Command.{Keyspace, changed, update, finish, op_hset, run, act, check_args}
use pg_redis.Command.Contents.{Answer, record_of, live_content, assign, call, step, view}
use pg_redis.Command.Entries.{
  flagged, flagged-value, flagged-flag, renewed, mark_dirty-put, upsert_expired,
}
use pg_redis.Command.Fields.{FieldFits, created-IsHash}
use pg_redis.Command.Refines.{AllSound}
use pg_redis.Command.Calls.{Fits, run-Follows, args-FieldOk}

-- The hash of the first field.
first_field :
    (g v : Bytes) (r : Option (Bool × Hash))
    → FieldFits g
    → SetsTo hash_create g v r
    → r ≡ hash_set hash_create g v
    → (h : Hash) × (hash_set hash_create g v ≡ some (true, h))
      × IsHash h
      × (h.tombstones ≡ [])
      × ((f : Bytes) → bytes_eq g f ≡ false → find f h.fields ≡ none)
unfolding find
first_field g v none fits s e = absurd (ground arith)
first_field g v (some (true, h)) fits s e = (h, sym e, s.0, s.4, λ f d. s.2 f ∙ if_false _ _ d)
first_field g v (some (false, h)) fits s e = absurd (let z = s.1 in cc)

module _ (c : Settings) (now : ℤ) (k g v : Bytes) (e : Entry Hash Chain) (s : Keyspace)
    (args : check_args c (op_hset g v) k ≡ none) (there : s.store k ≡ some e)
    (expired : entry_is_expired now e ≡ true) where
  -- The entry after the call.
  hset_expired :
      (h : Hash)
      → hash_set hash_create g v ≡ some (true, h)
      → run c now (op_hset g v) k s ≡ (
        ok (bool_reply true),
        mark_dirty k
            (put k (some (changed (hash_value (some h)) (renewed e))) (put k (some (renewed e)) s)),
      )
  unfolding run act hset_value set_field
  hset_expired h made =
      let start : run c now (op_hset g v) k s ≡ update now k (hset_value g v) s =
        rw (args, run) refl in
      let finished : update now k (hset_value g v) s
          ≡ finish k (renewed e) (put k (some (renewed e)) s)
              (hset_value g v true (string_value none)) =
        rw (upsert_expired now k e s there expired, update) refl in
      let effect : hset_value g v true (string_value none)
          ≡ writes (bool_reply true) (hash_value (some h)) =
        rw (made, set_field) refl in
      start ∙ finished ∙ ap (finish k (renewed e) (put k (some (renewed e)) s)) effect

-- What the call and the flush after it leave.
abbrev pub LeavesStale :
    ℤ → Bytes → Bytes → Bytes → Bytes → Option Bytes → Tables → Result × Keyspace → Type 0
LeavesStale now k g v f row t (r, s') =
    let (outcome, s'', t') = run_flush true (λ i. false) s' t in
    (r ≡ ok (bool_reply true))
    × (view now s' k ≡ some (record_of (assign (λ j. none) g (some v))))
    × (outcome ≡ flushed)
    × (t'.hash_fields k f ≡ some row)

stale_field :
    (now : ℤ) (k g v f : Bytes) (row : Option Bytes) (h : Hash) (e : Entry Hash Chain)
    (s' : Keyspace) (t : Tables)
    → IsLinked s'
    → AllItemsMarked s' t
    → s'.store k ≡ some e
    → e.in_dirty_set ≡ true
    → e.value ≡ hash_value (some h)
    → IsHash h
    → h.tombstones ≡ []
    → find f h.fields ≡ none
    → t.hash_fields k f ≡ some row
    → view now s' k ≡ some (record_of (assign (λ j. none) g (some v)))
    → LeavesStale now k g v f row t (ok (bool_reply true), s')
unfolding has_key
stale_field now k g v f row h e s' t linked items there dirty is_hash sound none_buried missing old
      shows =
    let (flush, splits) = run_flush-applied s' t k e linked items there dirty in
    let left : field_left h f (t.hash_fields k f) ≡ some row =
      rw (missing, none_buried, old) refl in
    rw flush (refl, shows, refl, applied_fields k e h s' t splits is_hash sound.map f ∙ left)

-- The lists of a session in which only the entry of the key has changed.
marked_items :
    (k : Bytes) (e : Entry Hash Chain) (s s' : Keyspace) (t : Tables)
    → ((j : Bytes) → bytes_eq k j ≡ false → s'.store j ≡ s.store j)
    → s'.store k ≡ some e
    → ItemsMarked k e.value t
    → AllTracked s t
    → AllItemsMarked s' t
marked_items k e s s' t same there items tracked j x h d = elim (Bool-cases (bytes_eq k j)) [
  | inr b ↦ Tracks-ItemsMarked j x.value t (tracked j x (sym (same j b) ∙ h) d)
  | inl b ↦
      subst (λ (i : Bytes). s'.store i ≡ some x → ItemsMarked i x.value t) ((bytes_eq_iff k j).0 b)
        (λ h'.
          let is_e : e ≡ x = (let both : some e ≡ some x = sym there ∙ h' in cc) in
          subst (λ (y : Entry Hash Chain). ItemsMarked k y.value t) is_e items)
        h
]

-- A hash of the key has expired, and the tables have a row of its field f. HSET of another field g
-- says that the field is new, and shows a hash of that field alone; but the flush at the commit, where
-- SPI connects and no plan fails by itself, succeeds and leaves the row of f.
pub hset_expired_stale :
    (c : Settings) (now : ℤ) (k g v f : Bytes) (row : Option Bytes) (e : Entry Hash Chain)
    (s : Keyspace) (t : Tables)
    → AllSound s
    → IsLinked s
    → AllTracked s t
    → check_args c (op_hset g v) k ≡ none
    → Fits now k s (op_hset g v)
    → s.store k ≡ some e
    → entry_is_expired now e ≡ true
    → t.hash_fields k f ≡ some row
    → bytes_eq g f ≡ false
    → LeavesStale now k g v f row t (run c now (op_hset g v) k s)
unfolding call step
hset_expired_stale c now k g v f row e s t sound linked tracked args fits there expired old other =
    let short = args-FieldOk c (op_hset g v) k args in
    let (h, made, is_hash, none_buried, missing) =
      first_field g v (hash_set hash_create g v) short
        (hash_set-SetsTo hash_create g v created-IsHash (omega (arith, fits))) refl in
    let f' = run-Follows now k s sound c (op_hset g v) fits in
    let e0 : Entry Hash Chain = changed (hash_value (some h)) (renewed e) in
    let e1 : Entry Hash Chain = flagged e0 in
    let is_value : e1.value ≡ hash_value (some h) = flagged-value e0 in
    let s1 : Keyspace =
      mark_dirty k
        (put k (some (changed (hash_value (some h)) (renewed e))) (put k (some (renewed e)) s)) in
    let ran : run c now (op_hset g v) k s ≡ (ok (bool_reply true), s1) =
      hset_expired c now k g v e s args there expired h made in
    let there1 : s1.store k ≡ some e1 =
      mark_dirty-put k _ (put k (some (renewed e)) s) k ∙ if_true _ _ ((bytes_eq_iff k k).1 refl) in
    let nothing : view now s k ≡ none = ap (live_content now) there ∙ if_true _ _ expired in
    let answer : call c (op_hset g v) k (view now s k)
        ≡ (ok (bool_reply true), some (record_of (assign (λ j. none) g (some v)))) =
      ap (call c (op_hset g v) k) nothing ∙ rw (args, call) refl in
    let shows : view now s1 k ≡ some (record_of (assign (λ j. none) g (some v))) =
      ap (λ (r : Result × Keyspace). view now r.1 k) (sym ran)
      ∙ f'.leaves
      ∙ ap (λ (a : Answer). a.1) answer in
    subst (LeavesStale now k g v f row t) (sym ran) (
      stale_field now k g v f row h e1 s1 t
        (subst (λ (r : Result × Keyspace). IsLinked r.1) ran (f'.linked linked))
        (marked_items k e1 s s1 t
          (subst
            (λ (r : Result × Keyspace).
              (j : Bytes) → bytes_eq k j ≡ false → r.1.store j ≡ s.store j)
            ran f'.others)
          there1 (subst (λ (x : Value Hash Chain). ItemsMarked k x t) (sym is_value) tt) tracked)
        there1 (flagged-flag e0) is_value is_hash none_buried (missing f other) old shows)
