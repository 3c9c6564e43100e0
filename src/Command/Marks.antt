-- ===== src/Command/Marks.antt =====
-- What a flush relies on, through the calls of the commands of src/pg_redis.c.
use pg_redis.Base.{
  zero, suc, ◌≡◌, refl, sym, ap, subst, ◌∙◌, inl, inr, Bool, true, false, Option, none, some,
  if_true, Bytes, bytes_eq_iff, arith, Bool-cases, Option-cases,
}
use pg_redis.Base.Int.{ℤ, pos, negsuc}
use pg_redis.Types.{Value, string_value}
use pg_redis.HashValue.{Hash}
use pg_redis.ListValue.{Chain}
use pg_redis.Session.{Entry, put, fresh, entry_is_expired, lookup, remove, mark_dirty}
use pg_redis.Session.WellFormed.{lookup_absent, lookup_live, lookup_expired}
use pg_redis.Durable.{Tables}
use pg_redis.Flush.Commit.{Tracks}
use pg_redis.Effect.{
  Effect, raised, ok, bool_reply, int_reply, text_reply, incr_value, hset_value, hget_value,
  hdel_value, hexists_value, push_value, pop_value, llen_value, fails, breaks, crashes, answers,
  writes, Result, Reply, Error, Settings, get_value, on_hash, on_list,
}
use pg_redis.Command.{
  Keyspace, Op, op_set, op_get, op_del, op_exists, op_expire, op_incr, op_decr, op_hset, op_hget,
  op_hdel, op_hexists, op_lpush, op_rpush, op_lpop, op_rpop, op_llen, changed, finish, update,
  access, released, stored, redis_set, redis_del, redis_expire, act, run, check_args,
}
use pg_redis.Command.Contents.{view, live_content}
use pg_redis.Command.Entries.{
  flagged-value, renewed, mark_dirty-put, remove-store, upsert_absent, upsert_expired, upsert_live,
}
use pg_redis.Command.Refines.{AllSound, access-resumed}
use pg_redis.Command.Calls.{Fits, fits_entry}
use pg_redis.Command.Keys.{expire_missing, expire_removes, expire_sets}
use pg_redis.Session.Expiry.{expiring}
use pg_redis.Command.Tracked.{
  NoRows, WritesTracked, incr_tracked, hset_created, hset_tracked, hdel_tracked, push_created,
  push_tracked, pop_tracked, get_tracked, hash_read_tracked, llen_tracked,
}

-- The value of the key's entry, if it has one, marks its changes.
abbrev pub KeyTracked : Bytes → Tables → Option (Entry Hash Chain) → Type 0
KeyTracked k t none = Unit
KeyTracked k t (some e) = Tracks k e.value t

module _ (now : ℤ) (k : Bytes) (t : Tables) (s : Keyspace) (sound : AllSound s) where
  via :
      (run r : Result × Keyspace)
      → run ≡ r
      → KeyTracked k t (r.1.store k)
      → KeyTracked k t (run.1.store k)
  via run r e h = subst (λ (x : Result × Keyspace). KeyTracked k t (x.1.store k)) (sym e) h

  put_tracked :
      (e : Entry Hash Chain) (s' : Keyspace)
      → Tracks k e.value t
      → KeyTracked k t ((mark_dirty k (put k (some e) s')).store k)
  put_tracked e s' tracks =
      subst (KeyTracked k t)
        (sym (mark_dirty-put k e s' k ∙ if_true _ _ ((bytes_eq_iff k k).1 refl)))
        (subst (λ (v : Value Hash Chain). Tracks k v t) (sym (flagged-value e)) tracks)

  finish_tracked :
      (e : Entry Hash Chain) (s' : Keyspace) (f : Effect)
      → s'.store k ≡ some e
      → Tracks k e.value t
      → WritesTracked k t f
      → KeyTracked k t ((finish k e s' f).1.store k)
  finish_tracked e s' (fails x) there tracks w = subst (KeyTracked k t) (sym there) tracks
  finish_tracked e s' (breaks x v) there tracks w = rw ((bytes_eq_iff k k).1 refl) w
  finish_tracked e s' crashes there tracks w = subst (KeyTracked k t) (sym there) tracks
  finish_tracked e s' (answers r) there tracks w = subst (KeyTracked k t) (sym there) tracks
  finish_tracked e s' (writes r v) there tracks w = put_tracked (changed v e) s' w

  update_tracked :
      (f : Bool → Value Hash Chain → Effect)
      → (view now s k ≡ none → (v : Value Hash Chain) → WritesTracked k t (f true v))
      → ((e : Entry Hash Chain) → s.store k ≡ some e → WritesTracked k t (f false e.value))
      → KeyTracked k t (s.store k)
      → KeyTracked k t ((update now k f s).1.store k)
  unfolding update
  update_tracked f new old tracks = elim (Option-cases (s.store k)) [
    | inl h ↦
        via (update now k f s) (finish k fresh (put k (some fresh) s) (f true (string_value none)))
          (rw (upsert_absent now k s h, update) refl)
          (finish_tracked fresh (put k (some fresh) s) (f true (string_value none))
            (rw ((bytes_eq_iff k k).1 refl) refl) tt
            (new (ap (live_content now) h) (string_value none)))
    | inr (e, h) ↦ elim (Bool-cases (entry_is_expired now e)) [
      | inl x ↦
          via (update now k f s)
            (finish k (renewed e) (put k (some (renewed e)) s) (f true (string_value none)))
            (rw (upsert_expired now k e s h x, update) refl)
            (finish_tracked (renewed e) (put k (some (renewed e)) s) (f true (string_value none))
              (rw ((bytes_eq_iff k k).1 refl) refl) tt
              (new (ap (live_content now) h ∙ if_true _ _ x) (string_value none)))
      | inr x ↦
          via (update now k f s) (finish k e s (f false e.value))
            (rw (upsert_live now k e s h x, update) refl)
            (finish_tracked e s (f false e.value) h (subst (KeyTracked k t) h tracks) (old e h))
    ]
  ]

  removed_tracked : KeyTracked k t ((remove k s).1.store k)
  removed_tracked =
      subst (KeyTracked k t) (sym (remove-store k s k ∙ if_true _ _ ((bytes_eq_iff k k).1 refl))) tt

  access_tracked :
      (absent : Reply) (f : Value Hash Chain → Effect)
      → ((e : Entry Hash Chain) → s.store k ≡ some e → WritesTracked k t (f e.value))
      → KeyTracked k t (s.store k)
      → KeyTracked k t ((access now k absent f s).1.store k)
  access_tracked absent f old tracks = elim (Option-cases (s.store k)) [
    | inl h ↦
        via (access now k absent f s) _
          (access-resumed now k s sound absent f _ (lookup_absent now k s h)) tracks
    | inr (e, h) ↦ elim (Bool-cases (entry_is_expired now e)) [
      | inl x ↦
          via (access now k absent f s) _
            (access-resumed now k s sound absent f _ (lookup_expired now k e s h x)) removed_tracked
      | inr x ↦
          via (access now k absent f s) _
            (access-resumed now k s sound absent f _ (lookup_live now k e s h x))
            (finish_tracked e s (f e.value) h (subst (KeyTracked k t) h tracks) (old e h))
    ]
  ]

  set_tracked : (v : Bytes) → KeyTracked k t ((redis_set now k v s).1.store k)
  unfolding redis_set
  set_tracked v = elim (Option-cases (s.store k)) [
    | inl h ↦
        via (redis_set now k v s)
          (
            ok (bool_reply true),
            mark_dirty k (put k (some (stored v (released true fresh))) (put k (some fresh) s)),
          )
          (rw (upsert_absent now k s h, redis_set) refl)
          (put_tracked (stored v (released true fresh)) (put k (some fresh) s) tt)
    | inr (e, h) ↦ elim (Bool-cases (entry_is_expired now e)) [
      | inl x ↦
          via (redis_set now k v s)
            (
              ok (bool_reply true),
              mark_dirty k (
                  put k (some (stored v (released true (renewed e)))) (put k (some (renewed e)) s)),
            )
            (rw (upsert_expired now k e s h x, redis_set) refl)
            (put_tracked (stored v (released true (renewed e))) (put k (some (renewed e)) s) tt)
      | inr x ↦
          via (redis_set now k v s)
            (ok (bool_reply true), mark_dirty k (put k (some (stored v (released false e))) s))
            (rw (upsert_live now k e s h x, redis_set) refl)
            (put_tracked (stored v (released false e)) s tt)
    ]
  ]

  expire_tracked :
      (c : Settings) (seconds : ℤ)
      → KeyTracked k t (s.store k)
      → KeyTracked k t ((redis_expire now k seconds s).1.store k)
  expire_tracked c seconds tracks = elim (Option-cases (s.store k)) [
    | inl h ↦
        via (redis_expire now k seconds s) _
          (expire_missing now k s sound seconds _ s (lookup_absent now k s h)) tracks
    | inr (e, h) ↦ elim (Bool-cases (entry_is_expired now e)) [
      | inl x ↦
          via (redis_expire now k seconds s) _
            (expire_missing now k s sound seconds _ _ (lookup_expired now k e s h x))
            removed_tracked
      | inr x ↦ live seconds e (lookup_live now k e s h x) (subst (KeyTracked k t) h tracks)
    ]
  ]
    where
      live :
          (n : ℤ) (e : Entry Hash Chain)
          → lookup now k s ≡ (some e, false, s)
          → Tracks k e.value t
          → KeyTracked k t ((redis_expire now k n s).1.store k)
      live (negsuc n) e l tr =
          via (redis_expire now k (negsuc n) s) _
            (expire_removes now k s sound (negsuc n) e (ground arith) l) removed_tracked
      live (pos zero) e l tr =
          via (redis_expire now k (pos zero) s) _ (expire_removes now k s sound (pos zero) e refl l)
            removed_tracked
      live (pos (suc n)) e l tr =
          via (redis_expire now k (pos (suc n)) s) _ (expire_sets now k s sound n e l)
            (put_tracked (expiring now n e) s tr)

  del_tracked : KeyTracked k t ((redis_del k s).1.store k)
  unfolding redis_del
  del_tracked = removed_tracked

  -- What the flush relies on is kept, if a key that shows nothing has no old rows.
  act_tracked :
      (c : Settings) (op : Op)
      → Fits now k s op
      → (view now s k ≡ none → NoRows k t)
      → KeyTracked k t (s.store k)
      → KeyTracked k t ((act c now op k s).1.store k)
  unfolding act
  act_tracked c (op_set v) fits rows tracks = set_tracked v
  act_tracked c op_get fits rows tracks =
      access_tracked (text_reply none) (get_value c) (λ e h. get_tracked k t c e.value) tracks
  act_tracked c op_del fits rows tracks = del_tracked
  act_tracked c op_exists fits rows tracks =
      access_tracked (bool_reply false) (λ v. answers (bool_reply true)) (λ e h. tt) tracks
  act_tracked c (op_expire n) fits rows tracks = expire_tracked c n tracks
  act_tracked c op_incr fits rows tracks =
      update_tracked (incr_value c (pos 1)) (λ h. incr_tracked k t c (pos 1) true)
        (λ e h. incr_tracked k t c (pos 1) false e.value) tracks
  act_tracked c op_decr fits rows tracks =
      update_tracked (incr_value c (negsuc 0)) (λ h. incr_tracked k t c (negsuc 0) true)
        (λ e h. incr_tracked k t c (negsuc 0) false e.value) tracks
  act_tracked c (op_hset f v) fits rows tracks =
      update_tracked (hset_value f v)
        (λ h v'. hset_created k t f v v' (omega (arith, fits)) (rows h))
        (λ e h.
          hset_tracked k t f v e.value (sound k e h) (fits_entry now k s _ e h fits)
            (subst (KeyTracked k t) h tracks))
        tracks
  act_tracked c (op_hget f) fits rows tracks =
      access_tracked (text_reply none) (on_hash (hget_value f))
        (λ e h. hash_read_tracked k t _ e.value) tracks
  act_tracked c (op_hdel f) fits rows tracks =
      access_tracked (bool_reply false) (on_hash (hdel_value f))
        (λ e h. hdel_tracked k t f e.value (sound k e h) (subst (KeyTracked k t) h tracks)) tracks
  act_tracked c (op_hexists f) fits rows tracks =
      access_tracked (bool_reply false) (on_hash (hexists_value f))
        (λ e h. hash_read_tracked k t _ e.value) tracks
  act_tracked c (op_lpush v) fits rows tracks =
      update_tracked (push_value true v)
        (λ h v'. push_created k t true v v' (omega (arith, fits)) (rows h))
        (λ e h.
          push_tracked k t true v e.value (sound k e h) (fits_entry now k s _ e h fits)
            (subst (KeyTracked k t) h tracks))
        tracks
  act_tracked c (op_rpush v) fits rows tracks =
      update_tracked (push_value false v)
        (λ h v'. push_created k t false v v' (omega (arith, fits)) (rows h))
        (λ e h.
          push_tracked k t false v e.value (sound k e h) (fits_entry now k s _ e h fits)
            (subst (KeyTracked k t) h tracks))
        tracks
  act_tracked c op_lpop fits rows tracks =
      access_tracked (text_reply none) (on_list (pop_value true))
        (λ e h. pop_tracked k t true e.value (sound k e h) (subst (KeyTracked k t) h tracks)) tracks
  act_tracked c op_rpop fits rows tracks =
      access_tracked (text_reply none) (on_list (pop_value false))
        (λ e h. pop_tracked k t false e.value (sound k e h) (subst (KeyTracked k t) h tracks))
        tracks
  act_tracked c op_llen fits rows tracks =
      access_tracked (int_reply (pos 0)) (on_list llen_value) (λ e h. llen_tracked k t e.value)
        tracks

  pub run_tracked :
      (c : Settings) (op : Op)
      → Fits now k s op
      → (view now s k ≡ none → NoRows k t)
      → KeyTracked k t (s.store k)
      → KeyTracked k t ((run c now op k s).1.store k)
  unfolding run
  run_tracked c op fits rows tracks = checked (check_args c op k)
    where
      checked :
          (o : Option Error)
          → let after : Result × Keyspace = elim o [
            | some e ↦ (raised e, s)
            | none ↦ act c now op k s
          ] in
            KeyTracked k t (after.1.store k)
      checked none = act_tracked c op fits rows tracks
      checked (some e) = tracks
