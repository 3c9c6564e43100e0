-- ===== src/Command/Keys.antt =====
-- SET, DEL and EXPIRE of src/pg_redis.c against the contents that a client sees.
use pg_redis.Base.{
  ℕ, zero, suc, ◌*◌, ◌<◌, ◌≡◌, refl, sym, ap, subst, ◌∙◌, Bool, true, false, not, Option, none,
  some, if◌then◌else◌, if_true, if_false, Bytes, bytes_eq, bytes_eq_iff, arith, Bool-cases,
  Option-cases, inl, inr,
}
use pg_redis.Base.Int.{ℤ, pos, negsuc, ◌+ℤ◌, ltb_ℤ}
use pg_redis.Types.{string_value}
use pg_redis.HashValue.{Hash}
use pg_redis.ListValue.{Chain}
use pg_redis.Session.{
  Entry, put, fresh, entry_is_expired, release_value, lookup, remove, mark_dirty,
}
use pg_redis.Session.WellFormed.{
  lookup_absent, lookup_live, lookup_expired, remove_present, remove_absent, IsLinked, flag_of,
  put-IsLinked,
}
use pg_redis.Session.Expiry.{expiring, set_expire_live, set_expire_missing, set_expire_removes}
use pg_redis.Effect.{bool_reply, ok, Settings}
use pg_redis.Command.{
  Keyspace, released, stored, redis_set, redis_del, redis_expire, op_set, op_del, op_expire,
}
use pg_redis.Command.Contents.{Content, text, content, live_content, view, step}
use pg_redis.Command.Entries.{renewed, upsert_absent, upsert_expired, upsert_live, unexpiring}
use pg_redis.Command.Refines.{AllSound, Follows, written, unchanged, removed-Follows, shown}

either_none : (b : Bool) → ◌≡◌ {A = Option Content} (if b then none else none) none
either_none true = refl
either_none false = refl

stored-expired :
    (now : ℤ) (b : Bool) (v : Bytes) (e : Entry Hash Chain)
    → entry_is_expired now (stored v (if b then release_value false e else e))
      ≡ entry_is_expired now e
unfolding entry_is_expired release_value
stored-expired now true v e = refl
stored-expired now false v e = refl

later : (a : ℤ) (n : ℕ) → 0 < n → not (ltb_ℤ a (a +ℤ pos n)) ≡ false
unfolding ◌+ℤ◌
later (pos m) n h = ground arith
later (negsuc m) n h = ground arith

stored-flag :
    (b : Bool) (v : Bytes) (e : Entry Hash Chain)
    → flag_of (some (stored v (if b then release_value false e else e))) ≡ flag_of (some e)
unfolding release_value
stored-flag true v e = refl
stored-flag false v e = refl

abbrev pub IsAlive : ℤ → Option (Entry Hash Chain) → Type 0
IsAlive now none = Unit
IsAlive now (some e) = entry_is_expired now e ≡ false

module _ (now : ℤ) (k : Bytes) (s : Keyspace) (sound : AllSound s) where
  set_stored :
      (v : Bytes) (is_new : Bool) (e : Entry Hash Chain) (s' : Keyspace) (x : Option Content)
      → ((j : Bytes) → bytes_eq k j ≡ false → s'.store j ≡ s.store j)
      → entry_is_expired now e ≡ false
      → (IsLinked s → IsLinked s')
      → flag_of (some e) ≡ flag_of (s'.store k)
      → Follows now k s
          (ok (bool_reply true), some (text (some v)))
          (ok (bool_reply true), mark_dirty k (put k (some (stored v (released is_new e))) s'))
  set_stored v is_new e s' x same alive link flag =
      written now k s sound (stored v (released is_new e)) (string_value (some v)) s' _
        (bool_reply true) same (stored-expired now _ v e ∙ alive) refl
        (λ l. put-IsLinked k _ s' (link l) (stored-flag _ v e ∙ flag)) (refl, tt)

  pub redis_set-Follows :
      (c : Settings) (v : Bytes)
      → Follows now k s (step c (op_set v) (view now s k)) (redis_set now k v s)
  unfolding redis_set step
  redis_set-Follows c v = elim (Option-cases (s.store k)) [
    | inl h ↦
        subst (Follows now k s (step c (op_set v) none))
          (sym (rw (upsert_absent now k s h, redis_set) refl))
          (set_stored v true fresh (put k (some fresh) s) none (λ j d. rw d refl)
            (unexpiring {H = Hash} {L = Chain} now fresh refl)
            (λ l. put-IsLinked k (some fresh) s l (ap flag_of (sym h)))
            (rw ((bytes_eq_iff k k).1 refl) refl))
    | inr (e, h) ↦ elim (Bool-cases (entry_is_expired now e)) [
      | inl x ↦
          subst (Follows now k s (step c (op_set v) none))
            (sym (rw (upsert_expired now k e s h x, redis_set) refl))
            (set_stored v true (renewed e) (put k (some (renewed e)) s) none (λ j d. rw d refl)
              (unexpiring now (renewed e) refl)
              (λ l. put-IsLinked k (some (renewed e)) s l (ap flag_of (sym h)))
              (rw ((bytes_eq_iff k k).1 refl) refl))
      | inr x ↦
          subst (Follows now k s (step c (op_set v) none))
            (sym (rw (upsert_live now k e s h x, redis_set) refl))
            (set_stored v false e s none (λ j d. refl) x (λ l. l) (ap flag_of (sym h)))
    ]
  ]

  pub redis_del-Follows :
      (c : Settings)
      → IsAlive now (s.store k)
      → Follows now k s (step c op_del (view now s k)) (redis_del k s)
  unfolding redis_del step
  redis_del-Follows c alive = elim (Option-cases (s.store k)) [
    | inl h ↦
        shown now k s sound (step c op_del) none (ok (bool_reply false), s) (redis_del k s)
          (ap (live_content now) h) (rw (remove_absent k s h, redis_del) refl)
          (unchanged now k s sound _ (ok (bool_reply false)) (
            ap (λ (o : Option Content). (ok (bool_reply false), o))
              (sym (ap (live_content now) h))))
    | inr (e, h) ↦
        let x : entry_is_expired now e ≡ false = subst (IsAlive now) h alive in
        shown now k s sound (step c op_del) (some (content e.value))
          (ok (bool_reply true), (remove k s).1) (redis_del k s)
          (ap (live_content now) h ∙ if_false _ _ x) (rw (remove_present k e s h, redis_del) refl)
          (removed-Follows now k s sound _ (bool_reply true) refl)
  ]

  -- EXPIRE on a key that is not there.
  pub expire_missing :
      (seconds : ℤ) (x : Bool) (s' : Keyspace)
      → lookup now k s ≡ (none, x, s')
      → redis_expire now k seconds s ≡ (ok (bool_reply false), s')
  unfolding redis_expire
  expire_missing seconds x s' l = rw (set_expire_missing now k seconds x s s' l, redis_expire) refl

  expiring-alive : (n : ℕ) (e : Entry Hash Chain) → entry_is_expired now (expiring now n e) ≡ false
  unfolding entry_is_expired ◌+ℤ◌
  expiring-alive n e = later now (suc n * 1000 * 1000) (omega arith)

  pub expire_removes :
      (seconds : ℤ) (e : Entry Hash Chain)
      → ltb_ℤ (pos 0) seconds ≡ false
      → lookup now k s ≡ (some e, false, s)
      → redis_expire now k seconds s ≡ (ok (bool_reply true), (remove k s).1)
  unfolding redis_expire
  expire_removes seconds e d l =
      rw (set_expire_removes now k seconds e s d l, redis_expire) (rw d refl)

  pub expire_sets :
      (n : ℕ) (e : Entry Hash Chain)
      → lookup now k s ≡ (some e, false, s)
      → redis_expire now k (pos (suc n)) s
        ≡ (ok (bool_reply true), mark_dirty k (put k (some (expiring now n e)) s))
  unfolding redis_expire
  expire_sets n e l =
      let positive : ltb_ℤ (pos 0) (pos (suc n)) ≡ true = ground arith in
      rw (set_expire_live now k n e s l, redis_expire) (rw positive refl)

  redis_expire_removes :
      (seconds : ℤ) (e : Entry Hash Chain) (c : Settings)
      → ltb_ℤ (pos 0) seconds ≡ false
      → lookup now k s ≡ (some e, false, s)
      → Follows now k s
          (step c (op_expire seconds) (some (content e.value)))
          (redis_expire now k seconds s)
  unfolding redis_expire step
  redis_expire_removes seconds e c d l =
      subst (Follows now k s _) (sym (expire_removes seconds e d l)) (
        removed-Follows now k s sound _ (bool_reply true)
          (ap (λ (o : Option Content). (ok (bool_reply true), o)) (if_false _ _ d)))

  redis_expire_live :
      (seconds : ℤ) (e : Entry Hash Chain) (c : Settings)
      → s.store k ≡ some e
      → lookup now k s ≡ (some e, false, s)
      → Follows now k s
          (step c (op_expire seconds) (some (content e.value)))
          (redis_expire now k seconds s)
  unfolding redis_expire step
  redis_expire_live (negsuc n) e c there l = redis_expire_removes (negsuc n) e c (ground arith) l
  redis_expire_live (pos zero) e c there l = redis_expire_removes (pos zero) e c refl l
  redis_expire_live (pos (suc n)) e c there l =
      let positive : ltb_ℤ (pos 0) (pos (suc n)) ≡ true = ground arith in
      subst (Follows now k s _) (sym (expire_sets n e l)) (
        subst
          (λ a.
            Follows now k s a
              (ok (bool_reply true), mark_dirty k (put k (some (expiring now n e)) s)))
          (sym (ap (λ (o : Option Content). (ok (bool_reply true), o)) (if_true _ _ positive)))
          (written now k s sound (expiring now n e) e.value s _ (bool_reply true) (λ j d. refl)
            (expiring-alive n e) refl
            (λ l. put-IsLinked k (some (expiring now n e)) s l (ap flag_of (sym there)))
            (refl, sound k e there)))

  pub redis_expire-Follows :
      (c : Settings) (seconds : ℤ)
      → Follows now k s (step c (op_expire seconds) (view now s k)) (redis_expire now k seconds s)
  unfolding step
  redis_expire-Follows c seconds = elim (Option-cases (s.store k)) [
    | inl h ↦
        shown now k s sound (step c (op_expire seconds)) none _ (redis_expire now k seconds s)
          (ap (live_content now) h) (expire_missing seconds _ s (lookup_absent now k s h))
          (unchanged now k s sound _ (ok (bool_reply false))
            (unset seconds (view now s k) (sym (ap (live_content now) h))))
    | inr (e, h) ↦ elim (Bool-cases (entry_is_expired now e)) [
      | inl x ↦
          shown now k s sound (step c (op_expire seconds)) none _ (redis_expire now k seconds s)
            (ap (live_content now) h ∙ if_true _ _ x)
            (expire_missing seconds _ _ (lookup_expired now k e s h x))
            (removed-Follows now k s sound _ (bool_reply false) (unset seconds none refl))
      | inr x ↦
          subst
            (λ (o : Option Content).
              Follows now k s (step c (op_expire seconds) o) (redis_expire now k seconds s))
            (sym (ap (live_content now) h ∙ if_false _ _ x))
            (redis_expire_live seconds e c h (lookup_live now k e s h x))
    ]
  ]
    where
      unset :
          (n : ℤ) (o : Option Content)
          → none ≡ o
          → step c (op_expire n) none ≡ (ok (bool_reply false), o)
      unset n o e =
          ap (λ (x : Option Content). (ok (bool_reply false), x))
            (either_none (ltb_ℤ (pos 0) n) ∙ e)
