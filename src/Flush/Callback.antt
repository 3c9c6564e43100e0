-- ===== src/Flush/Callback.antt =====
-- src/persistence.c: the transaction callback, which flushes or drops what a session has changed. The
-- warning at the abort of an async transaction is left out.
use pg_redis.Types.{Value}
use pg_redis.Base.{
  ℕ, ◌+◌, ◌≡◌, refl, inl, inr, Option-cases, bytes_eq_iff, sym, ap, subst, ◌∙◌, Bool, true, false,
  none, some, [], Bytes,
}
use pg_redis.HashValue.{Hash}
use pg_redis.ListValue.{Chain}
use pg_redis.Ring.{u64}
use pg_redis.Modes.{
  PersistenceMode, persist_none, persist_sync_table, persist_async_table, persist_snapshot,
  persist_aof,
}
use pg_redis.Session.{Session, put, mark_dirty, dirty_clear, pending_deletes_clear, clear_flags}
use pg_redis.Durable.{Tables}
use pg_redis.Durable.Batch.{run_plans}
use pg_redis.Flush.{
  FlushOutcome, nothing_dirty, connect_failed, plan_failed, flushed, collect, entries, any_work,
  run_flush,
}
use pg_redis.Flush.Failed.{IsFlagged, failed_lem, mark_flagged}

-- `XactEvent`, as far as the callback tells them apart.
pub data XactEvent : Type 0 where
  xact_pre_commit : XactEvent
  xact_abort : XactEvent
  xact_other : XactEvent

-- What the callback works on: the session, `async_published_in_xact` and `persistence_loaded`.
pub record Backend : Type 0 where
  pub session : Session Hash Chain
  pub published : ℕ
  pub loaded : Bool

abbrev pub drop_tracking : Session Hash Chain → Session Hash Chain
drop_tracking s = pending_deletes_clear (dirty_clear s)

-- Whether the flush raised an error.
abbrev pub raised : FlushOutcome → Bool
raised nothing_dirty = false
raised connect_failed = true
raised plan_failed = true
raised flushed = false

-- The callback before a commit, by the effective mode; the flag is an error, which aborts.
unfoldable pub pre_commit :
    PersistenceMode → Bool → (ℕ → Bool) → Backend → Tables → Bool × Backend × Tables
pre_commit persist_async_table connects fault b t =
    (false, record b { session = drop_tracking b.session; published = 0 }, t)
pre_commit persist_sync_table connects fault b t =
    let (outcome, s, t') = run_flush connects fault b.session t in
    (raised outcome, record b { session = s }, t')
pre_commit persist_none connects fault b t =
    (false, record b { session = drop_tracking b.session }, t)
pre_commit persist_snapshot connects fault b t =
    (false, record b { session = drop_tracking b.session }, t)
pre_commit persist_aof connects fault b t =
    (false, record b { session = drop_tracking b.session }, t)

-- The callback at an abort.
abbrev pub stays_loaded : PersistenceMode → Bool → Bool
stays_loaded persist_async_table loaded = loaded
stays_loaded persist_none loaded = false
stays_loaded persist_sync_table loaded = false
stays_loaded persist_snapshot loaded = false
stays_loaded persist_aof loaded = false

-- `pg_redis_xact_cb_persistence`
unfoldable pub xact_cb_persistence :
    XactEvent → PersistenceMode → Bool → (ℕ → Bool) → Backend → Tables → Bool × Backend × Tables
xact_cb_persistence xact_pre_commit mode connects fault b t = pre_commit mode connects fault b t
xact_cb_persistence xact_abort mode connects fault b t = (
  false,
  record { session = drop_tracking b.session; published = 0; loaded = stays_loaded mode b.loaded },
  t,
)
xact_cb_persistence xact_other mode connects fault b t = (false, b, t)

-- The commit of a transaction in sync mode whose flush fails, and the abort that follows.
abbrev pub commit_then_abort : (ℕ → Bool) → Backend → Tables → Backend
commit_then_abort fault b t =
    let (error, b1, t1) = xact_cb_persistence xact_pre_commit persist_sync_table true fault b t in
    (xact_cb_persistence xact_abort persist_sync_table true fault b1 t1).1

-- A write of another value to the entry of the key, as the commands make it.
abbrev pub overwrite : Bytes → Value Hash Chain → Session Hash Chain → Session Hash Chain
overwrite k v s = elim (s.store k) [
  | none ↦ s
  | some e ↦ put k (some (record e { value = v; version = u64 (e.version + 1) })) s
]

-- The key has an entry that is flagged, while the dirty set and the pending deletes are empty.
abbrev pub IsOrphan : Bytes → Session Hash Chain → Type 0
IsOrphan k s = IsFlagged k (s.store k) × (s.dirty_set ≡ []) × (s.pending_deletes ≡ [])

drop_tracking-IsOrphan :
    (k : Bytes) (s : Session Hash Chain)
    → IsFlagged k (s.store k)
    → s.dirty_set ≡ []
    → IsOrphan k (drop_tracking s)
unfolding dirty_clear clear_flags pending_deletes_clear
drop_tracking-IsOrphan k s here e =
    let same : drop_tracking s ≡ record s { dirty_set = []; pending_deletes = [] } =
      rw (e, dirty_clear) refl in
    subst (IsOrphan k) (sym same) (here, refl, refl)

overwrite-IsOrphan :
    (k : Bytes) (v : Value Hash Chain) (s : Session Hash Chain)
    → IsOrphan k s
    → IsOrphan k (overwrite k v s)
overwrite-IsOrphan k v s stuck = elim (Option-cases (s.store k)) [
  | inl e ↦ absurd (subst (IsFlagged k) e stuck.0)
  | inr (x, e) ↦
      let written : overwrite k v s
          ≡ put k (some (record x { value = v; version = u64 (x.version + 1) })) s =
        rw (e, overwrite) refl in
      subst (IsOrphan k) (sym written)
        (rw ((bytes_eq_iff k k).1 refl) (subst (IsFlagged k) e stuck.0), stuck.1, stuck.2)
]

stuck_flush :
    (k : Bytes) (connects : Bool) (fault : ℕ → Bool) (s : Session Hash Chain) (t : Tables)
    → IsOrphan k s
    → run_flush connects fault (mark_dirty k s) t ≡ (nothing_dirty, s, t)
unfolding run_flush
stuck_flush k connects fault s t stuck =
    let quiet : any_work s.dirty_set s.pending_deletes ≡ false = rw (stuck.1, stuck.2) refl in
    ap (λ (x : Session Hash Chain). run_flush connects fault x t) (mark_flagged k s stuck.0)
    ∙ rw (quiet, run_flush) refl

-- In sync mode, when a plan of the flush at commit fails, the callback raises the error, and after
-- the abort that follows, the entries that were dirty are still flagged as being in the dirty set,
-- though that and the pending deletes are empty. When such an entry then gets another value and is
-- marked dirty, a flush finds nothing to do, and leaves the tables as they are.
pub failed_flush_stuck :
    (fault later : ℕ → Bool) (connects : Bool) (b : Backend) (t t' : Tables) (k : Bytes)
    (v : Value Hash Chain)
    → any_work b.session.dirty_set b.session.pending_deletes ≡ true
    → IsFlagged k (b.session.store k)
    → run_plans fault (collect (entries b.session.dirty_set b.session) b.session.pending_deletes) t
      ≡ none
    → let s = (commit_then_abort fault b t).session in
      ((xact_cb_persistence xact_pre_commit persist_sync_table true fault b t).0 ≡ true)
      × IsOrphan k s
      × (run_flush connects later (mark_dirty k (overwrite k v s)) t'
          ≡ (nothing_dirty, overwrite k v s, t'))
unfolding xact_cb_persistence pre_commit
failed_flush_stuck fault later connects b t t' k v work here failed =
    let (s1, run, still, empty) = failed_lem fault b.session t k work here failed in
    let session : (run_flush true fault b.session t).1 ≡ s1 =
      ap (λ (r : FlushOutcome × Session Hash Chain × Tables). r.1) run in
    let s = (commit_then_abort fault b t).session in
    let stuck : IsOrphan k s =
      subst (λ (x : Session Hash Chain). IsOrphan k (drop_tracking x)) (sym session)
        (drop_tracking-IsOrphan k s1 still empty) in
    (
      ap (λ (r : FlushOutcome × Session Hash Chain × Tables). raised r.0) run,
      stuck,
      stuck_flush k connects later (overwrite k v s) t' (overwrite-IsOrphan k v s stuck),
    )
