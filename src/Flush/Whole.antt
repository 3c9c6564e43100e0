-- ===== src/Flush/Whole.antt =====
-- A whole flush at commit: the tables accept what a tracked session has collected, and have then
-- exactly what its memory has.
use pg_redis.Base.{
  ◌<◌, ◌≤◌, ◌≡◌, refl, sym, ap, subst, ◌∙◌, inl, inr, true, false, Option, none, some, List,
  is_some, if◌then◌else◌, Bytes, arith, Bool-cases,
}
use pg_redis.HashValue.{Hash}
use pg_redis.ListValue.{Chain}
use pg_redis.Session.{Session}
use pg_redis.Session.WellFormed.{IsLinked, links, flag_of}
use pg_redis.Durable.{Tables, new_item, has_item, last_row, items_insertable, or_else}
use pg_redis.Durable.Batch.{Vecs, no_vecs, vec_push}
use pg_redis.Durable.Batch.Effect.{accepted, items_deleted, applied, run_plans_lem}
use pg_redis.Flush.{
  SessionEntry, row_of, collect_dirty, collect, entries, run_flush, flushed, tracking_cleared,
  take_heads,
}
use pg_redis.Flush.Commit.{Tracks, Committed, split_row, applied-Committed}
use pg_redis.Flush.Split.{Splits, entries-Splits, split_vectors, some_work}
use pg_redis.Flush.Accepted.{dirty-KeysAll, parents_lem}
use pg_redis.Flush.Insertable.{
  Ready, dirty_insertable, entries-All, entries-UniqueKeys, parents_of, ItemsMarked,
  Tracks-ItemsMarked, value_ItemsFree,
}

flag_le : (o : Option SessionEntry) → flag_of o ≤ 1
flag_le none = omega arith
flag_le (some e) = ground arith

-- Every entry of the session that is in the dirty set is tracked.
abbrev pub AllTracked : Session Hash Chain → Tables → Type 0
AllTracked s t =
    (k : Bytes) (e : SessionEntry) → s.store k ≡ some e → e.in_dirty_set ≡ true → Tracks k e.value t

-- The same of the lists only.
abbrev pub AllItemsMarked : Session Hash Chain → Tables → Type 0
AllItemsMarked s t =
    (k : Bytes) (e : SessionEntry)
    → s.store k ≡ some e
    → e.in_dirty_set ≡ true
    → ItemsMarked k e.value t

module _ (s : Session Hash Chain) (t : Tables) (linked : IsLinked s)
    (tracked : AllItemsMarked s t) where
  abbrev es : List (Bytes × SessionEntry)
  es = entries s.dirty_set s

  abbrev batch : Vecs
  batch = collect es s.pending_deletes

  flagged :
      (k : Bytes) (e : SessionEntry)
      → 0 < links k s.dirty_set
      → s.store k ≡ some e
      → (links k s.dirty_set ≡ 1) × (e.in_dirty_set ≡ true)
  flagged k e l q =
      let f : links k s.dirty_set ≡ (if e.in_dirty_set then 1 else 0) =
        linked k ∙ ap (λ (o : Option SessionEntry). flag_of o) q in
      elim (Bool-cases e.in_dirty_set) [
        | inl d ↦ (f ∙ rw d refl, d)
        | inr d ↦ let z : links k s.dirty_set ≡ 0 = f ∙ rw d refl in absurd (omega arith)
      ]

  ready :
      (k : Bytes) (e : SessionEntry)
      → 0 < links k s.dirty_set
      → s.store k ≡ some e
      → Ready (items_deleted batch t) (k, e)
  unfolding collect has_item
  ready k e l q =
      let (once, dirty) = flagged k e l q in
      let sp = entries-Splits k e s.dirty_set s once q in
      let (u, start, end) = split_vectors k e es sp in
      (
        rw (split_row k e es sp) refl,
        value_ItemsFree k e.value (record u { store_rows = vec_push u.store_rows (k, row_of e) })
            (collect_dirty es no_vecs) t (items_deleted batch t) start.ords end (λ o. refl)
            (tracked k e q dirty),
      )

  -- The tables accept the batch.
  batch-accepted : accepted batch t ≡ true
  unfolding collect new_item items_insertable
  batch-accepted =
      let t' = items_deleted batch t in
      let all = entries-All (Ready t') s.dirty_set s ready in
      let parents =
        parents_lem batch.hf_up
          (record t { store = λ k. or_else (last_row k batch.store_rows) (t.store k) })
          (dirty-KeysAll (λ k. is_some (t'.store k) ≡ true) es no_vecs (parents_of t' es all) tt) in
      let inserts =
        dirty_insertable t' es no_vecs all
          (entries-UniqueKeys s.dirty_set s (λ k. omega (arith, linked k, flag_le (s.store k))))
          (λ k there o. refl) refl in
      rw parents inserts

-- A flush that SPI connects to, where no plan fails by itself.
pub run_flush-applied :
    (s : Session Hash Chain) (t : Tables) (k : Bytes) (e : SessionEntry)
    → IsLinked s
    → AllItemsMarked s t
    → s.store k ≡ some e
    → e.in_dirty_set ≡ true
    → (run_flush true (λ i. false) s t ≡ (
      flushed,
      tracking_cleared (entries s.dirty_set s) (take_heads s),
      applied (collect (entries s.dirty_set s) s.pending_deletes) t,
    ))
      × Splits k e (entries s.dirty_set s)
unfolding run_flush
run_flush-applied s t k e linked tracked there dirty =
    let v = collect (entries s.dirty_set s) s.pending_deletes in
    let once : links k s.dirty_set ≡ 1 = linked k ∙ rw (there, dirty) refl in
    (
      rw
          (
            some_work k s.dirty_set s.pending_deletes once,
            run_plans_lem v t,
            batch-accepted s t linked tracked,
            run_flush,
          )
          refl,
      entries-Splits k e s.dirty_set s once there,
    )

-- A flush of a session whose dirty chain links its flagged entries, and whose flagged hashes and
-- lists mark all that has changed since their rows were written: where SPI connects and no plan
-- fails by itself, it succeeds, and leaves for each flagged entry its row, for a hash exactly its
-- fields, and for a list exactly its values at their ordinals.
pub run_flush-Committed :
    (s : Session Hash Chain) (t : Tables) (k : Bytes) (e : SessionEntry)
    → IsLinked s
    → AllTracked s t
    → s.store k ≡ some e
    → e.in_dirty_set ≡ true
    → Committed k e (run_flush true (λ i. false) s t)
run_flush-Committed s t k e linked tracked there dirty =
    let (run, splits) =
      run_flush-applied s t k e linked (λ j x h d. Tracks-ItemsMarked j x.value t (tracked j x h d))
        there dirty in
    subst (Committed k e) (sym run) (
      applied-Committed k e s (tracking_cleared (entries s.dirty_set s) (take_heads s)) t splits
        (tracked k e there dirty))
