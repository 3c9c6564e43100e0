-- ===== src/Command/Revived.antt =====
-- HSET of src/pg_redis.c on a hash that has expired, the flush, and the load of the tables after it.
use pg_redis.Base.{
  ◌^◌, ◌<◌, ◌≡◌, refl, sym, ap, subst, ◌∙◌, true, false, Option, none, some, List, All, Bytes,
  bytes_eq, if_false,
}
use pg_redis.Base.Int.{ℤ, ltb_ℤ}
use pg_redis.Types.{Value, string_value, int_value, hash_value, list_value}
use pg_redis.HashValue.{Field, Hash}
use pg_redis.ListValue.{Chain}
use pg_redis.Session.{Entry, entry_is_expired}
use pg_redis.Session.WellFormed.{IsLinked}
use pg_redis.Durable.{Tables}
use pg_redis.Flush.{run_flush, flushed}
use pg_redis.Flush.Commit.{durable_field}
use pg_redis.Flush.Whole.{AllTracked}
use pg_redis.Load.{FieldRow, load_field, each_row}
use pg_redis.Load.Row.{ValueHolds, EntryHolds, Proper, hashes_of, weight}
use pg_redis.Load.Hashes.{load_fields-State}
use pg_redis.Load.Ready.{AreRowsOf, empty_keyspace, load_fields-IsReady}
use pg_redis.Effect.{ok, bool_reply, text_reply, Settings}
use pg_redis.Command.{Keyspace, op_hset, op_hget, run, check_args}
use pg_redis.Command.Contents.{Answer, Content, call, step, view, live_content, content, value_at}
use pg_redis.Command.Refines.{AllSound}
use pg_redis.Command.Calls.{Fits, run-Follows}
use pg_redis.Command.Stale.{hset_expired_stale}

-- The reply of HGET is the one of the map that its key shows.
hget_reply :
    (c : Settings) (now : ℤ) (k f : Bytes) (s : Keyspace)
    → AllSound s
    → check_args c (op_hget f) k ≡ none
    → (run c now (op_hget f) k s).0 ≡ (step c (op_hget f) (view now s k)).0
unfolding call
hget_reply c now k f s sound args =
    (run-Follows now k s sound c (op_hget f) tt).replies
    ∙ ap (λ (a : Answer). a.0)
        (let called : call c (op_hget f) k (view now s k) ≡ step c (op_hget f) (view now s k) =
            rw (args, call) refl in
          called)

shown_value : (x : Option Field) (w : Bytes) → durable_field x ≡ some (some w) → value_at x ≡ some w
shown_value none w p = absurd cc
shown_value (some x) w p = cc

value_reply :
    (c : Settings) (f w : Bytes) (m : Bytes → Option Field) (v : Value Hash Chain)
    → ValueHolds m v
    → durable_field (m f) ≡ some (some w)
    → (step c (op_hget f) (some (content v))).0 ≡ ok (text_reply (some w))
unfolding step
value_reply c f w m (string_value s) h row = absurd (let z = h f in cc)
value_reply c f w m (int_value n) h row = absurd (let z = h f in cc)
value_reply c f w m (hash_value none) h row = absurd h
value_reply c f w m (hash_value (some x)) h row =
    ap (λ (y : Option Bytes). ok (text_reply y))
      (ap value_at (h.fields f) ∙ shown_value (m f) w row)
value_reply c f w m (list_value l) h row = absurd h

-- HGET of a field that an entry holds.
held_reply :
    (c : Settings) (until now : ℤ) (f w : Bytes) (m : Bytes → Option Field)
    (o : Option (Entry Hash Chain))
    → EntryHolds until 0 m o
    → ltb_ℤ now until ≡ true
    → durable_field (m f) ≡ some (some w)
    → (step c (op_hget f) (live_content now o)).0 ≡ ok (text_reply (some w))
held_reply c until now f w m none h early row = absurd (let z = h.0 f in cc)
held_reply c until now f w m (some e) h early row =
    let alive : live_content now (some e) ≡ some (content e.value) = if_false _ _ (h.0 now early) in
    ap (λ (x : Option Content). (step c (op_hget f) x).0) alive
    ∙ value_reply c f w m e.value h.3 row

module _ (c : Settings) (until later : ℤ) (k f w : Bytes) (t : Tables)
    (rows : List (ℤ × FieldRow)) where
  -- HGET after a load of tables that have a row of the field.
  loaded_reply :
      All (Proper until) rows
      → weight rows < 2 ^ 64
      → AreRowsOf t rows
      → ltb_ℤ later until ≡ true
      → check_args c (op_hget f) k ≡ none
      → t.hash_fields k f ≡ some (some w)
      → (s : Keyspace) × (each_row load_field rows empty_keyspace ≡ some s)
        × ((run c later (op_hget f) k s).0 ≡ ok (text_reply (some w)))
  loaded_reply proper room same early args row =
      let (s, ran, state, chain, clean) =
        load_fields-State until rows (λ j x. none) empty_keyspace proper (λ j x. refl)
          (λ j. (λ x. refl, room)) in
      let (s', ran', ready, shows) = load_fields-IsReady until rows t proper room same in
      let is_s : s' ≡ s = (let both : some s' ≡ some s = sym ran' ∙ ran in cc) in
      let sound : AllSound s = subst AllSound is_s ready.sound in
      (
        s,
        ran,
        hget_reply c later k f s sound args
            ∙ held_reply c until later f w (hashes_of rows (λ j x. none) k) (s.store k) (state k)
                early (sym (same k f) ∙ row),
      )

-- In a session whose values are sound and mark their changes, and whose dirty chain links the flagged
-- entries, a hash of the key has expired, and the tables have a row of its field f with the value w.
-- HSET of another field g, with room for its bytes, says that the field is new, and HGET of f after it finds nothing. But the rows of
-- the hashes after the flush at the commit, where SPI connects and no plan fails by itself, bring the
-- field back: when load_hashes has read them into an empty keyspace, before any of them expires and
-- with their bytes below 2 ^ 64, HGET of f answers w.
pub hset_expired_revived :
    (c : Settings) (now until later : ℤ) (k g v f w : Bytes) (e : Entry Hash Chain) (s : Keyspace)
    (t : Tables) (rows : List (ℤ × FieldRow))
    → AllSound s
    → IsLinked s
    → AllTracked s t
    → check_args c (op_hset g v) k ≡ none
    → check_args c (op_hget f) k ≡ none
    → Fits now k s (op_hset g v)
    → s.store k ≡ some e
    → entry_is_expired now e ≡ true
    → t.hash_fields k f ≡ some (some w)
    → bytes_eq g f ≡ false
    → All (Proper until) rows
    → weight rows < 2 ^ 64
    → AreRowsOf (run_flush true (λ i. false) (run c now (op_hset g v) k s).1 t).2 rows
    → ltb_ℤ later until ≡ true
    → let (reply, s') = run c now (op_hset g v) k s in
      (reply ≡ ok (bool_reply true))
      × ((run c now (op_hget f) k s').0 ≡ ok (text_reply none))
      × ((run_flush true (λ i. false) s' t).0 ≡ flushed)
      × (loaded : Keyspace) × (each_row load_field rows empty_keyspace ≡ some loaded)
      × ((run c later (op_hget f) k loaded).0 ≡ ok (text_reply (some w)))
unfolding step
hset_expired_revived c now until later k g v f w e s t rows sound linked tracked args args' fits
      there expired old other proper room same early =
    let s' = (run c now (op_hset g v) k s).1 in
    let (added, shows, done, left) =
      hset_expired_stale c now k g v f (some w) e s t sound linked tracked args fits there expired
        old other in
    let sound' : AllSound s' = (run-Follows now k s sound c (op_hset g v) fits).sound in
    let missing : (step c (op_hget f) (view now s' k)).0 ≡ ok (text_reply none) =
      ap (λ (x : Option Content). (step c (op_hget f) x).0) shows
      ∙ ap (λ (y : Option Bytes). ok (text_reply y)) (if_false _ _ other) in
    let (loaded, ran, answer) =
      loaded_reply c until later k f w (run_flush true (λ i. false) s' t).2 rows proper room same
        early args' left in
    (added, hget_reply c now k f s' sound' args' ∙ missing, done, loaded, ran, answer)
