-- ===== src/Session/Expiry.antt =====
-- Expiry in src/ttl.c and src/kv_store.c.
use pg_redis.Base.{
  ℕ, zero, suc, ◌+◌, ◌-◌, ◌*◌, ◌/◌, ◌%◌, ◌^◌, ◌<◌, ◌≤◌, ◌≡◌, refl, ap, ◌∙◌, Bool, true, false,
  Option, none, some, ◌∷◌, Bytes, bytes_eq, bytes_eq_iff, arith,
}
use pg_redis.Base.Int.{ℤ, pos, negsuc, ◌+ℤ◌, ◌-ℤ◌, ◌≤ℤ◌, ltb_ℤ, pos_part, neg_part}
use pg_redis.Session.{
  Entry, Session, put, entry_is_expired, mark_deleted, remove, lookup, set_expire_seconds,
  ttl_seconds, int32,
}
use pg_redis.Session.WellFormed.{lookup_absent, lookup_expired, lookup_live, remove_present}

-- A sum with a number and the difference to a later time, by positive and negative parts.
later_parts :
    (a b : ℤ) (n : ℕ) → pos_part (a +ℤ pos n) + neg_part a ≡ pos_part a + n + neg_part (a +ℤ pos n)
unfolding ◌+ℤ◌
later_parts (pos m) b n = ground arith
later_parts (negsuc m) b n = ground arith

diff_part : (a b : ℤ) → pos_part (a -ℤ b) ≡ pos_part a + neg_part b - (neg_part a + pos_part b)
unfolding ◌-ℤ◌
diff_part a b = ground arith

-- The remaining time in seconds, rounded up.
round_up :
    (d : ℕ)
    → d ≤ (2 ^ 31 - 1) * 1000000
    → (t : ℕ) × (int32 ((d + 999999) / 1000000) ≡ pos t)
      × (d ≤ t * 1000000)
      × (t * 1000000 < d + 1000000)
round_up d b = ((d + 999999) / 1000000, ground arith, omega arith, omega arith)

remaining_le : (now later : ℤ) (n : ℕ) → now ≤ℤ later → pos_part ((now +ℤ pos n) -ℤ later) ≤ n
remaining_le now later n h = omega (arith, later_parts now later n, diff_part (now +ℤ pos n) later)

module _ {H L : Type 0} where
  abbrev pub expiring : ℤ → ℕ → Entry H L → Entry H L
  expiring now n e = record e {
    has_expire = true;
    expire_at = now +ℤ pos (suc n * 1000 * 1000);
    dirty = true;
    version = (e.version + 1) % 2 ^ 64;
  }

  pub set_expire_live :
      (now : ℤ) (k : Bytes) (n : ℕ) (e : Entry H L) (s : Session H L)
      → lookup now k s ≡ (some e, false, s)
      → set_expire_seconds now k (pos (suc n)) s ≡ (true, put k (some (expiring now n e)) s)
  unfolding set_expire_seconds
  set_expire_live now k n e s l =
      rw (l, set_expire_seconds)
        (ap
          (λ (x : Option (Entry H L) × Bool × Session H L).
            (true, put k (some (expiring now n e)) x.2))
          l)

  pub set_expire_missing :
      (now : ℤ) (k : Bytes) (seconds : ℤ) (expired : Bool) (s s' : Session H L)
      → lookup now k s ≡ (none, expired, s')
      → set_expire_seconds now k seconds s ≡ (false, s')
  unfolding set_expire_seconds
  set_expire_missing now k (negsuc n) expired s s' l =
      rw (l, set_expire_seconds)
        (ap (λ (x : Option (Entry H L) × Bool × Session H L). (false, x.2)) l)
  set_expire_missing now k (pos zero) expired s s' l =
      rw (l, set_expire_seconds)
        (ap (λ (x : Option (Entry H L) × Bool × Session H L). (false, x.2)) l)
  set_expire_missing now k (pos (suc n)) expired s s' l =
      rw (l, set_expire_seconds)
        (ap (λ (x : Option (Entry H L) × Bool × Session H L). (false, x.2)) l)

  pub set_expire_removes :
      (now : ℤ) (k : Bytes) (seconds : ℤ) (e : Entry H L) (s : Session H L)
      → ltb_ℤ (pos 0) seconds ≡ false
      → lookup now k s ≡ (some e, false, s)
      → set_expire_seconds now k seconds s ≡ (true, (remove k s).1)
  unfolding set_expire_seconds
  set_expire_removes now k (negsuc n) e s d l =
      rw (l, set_expire_seconds)
        (ap (λ (x : Option (Entry H L) × Bool × Session H L). (true, (remove k x.2).1)) l)
  set_expire_removes now k (pos zero) e s d l =
      rw (l, set_expire_seconds)
        (ap (λ (x : Option (Entry H L) × Bool × Session H L). (true, (remove k x.2).1)) l)
  set_expire_removes now k (pos (suc n)) e s d l = absurd (ground arith)

  ttl_live :
      (now later : ℤ) (k : Bytes) (e : Entry H L) (s : Session H L)
      → lookup now k s ≡ (some e, false, s)
      → e.has_expire ≡ true
      → ltb_ℤ later e.expire_at ≡ true
      → (ttl_seconds now later k s).0 ≡ int32 ((pos_part (e.expire_at -ℤ later) + 999999) / 1000000)
  unfolding ttl_seconds
  ttl_live now later k e s l h a = rw (l, ttl_seconds) (rw h (rw a refl))

  -- An expiry of n + 1 seconds, set at the time `now` on a key that is there and not expired, and read
  -- by TTL before it has passed (its lookup at `early`, its own clock at `later`): TTL answers the
  -- remaining seconds, rounded up, at most n + 1.
  pub ttl_seconds-set_expire :
      (now early later : ℤ) (k : Bytes) (n : ℕ) (e : Entry H L) (s : Session H L)
      → s.store k ≡ some e
      → entry_is_expired now e ≡ false
      → suc n < 2 ^ 31
      → now ≤ℤ later
      → ltb_ℤ early (now +ℤ pos (suc n * 1000 * 1000)) ≡ true
      → ltb_ℤ later (now +ℤ pos (suc n * 1000 * 1000)) ≡ true
      → let left = pos_part ((now +ℤ pos (suc n * 1000 * 1000)) -ℤ later) in
        (t : ℕ) × ((ttl_seconds early later k (set_expire_seconds now k (pos (suc n)) s).1).0
          ≡ pos t)
        × (left ≤ t * 1000000)
        × (t * 1000000 < left + 1000000)
        × (t ≤ suc n)
  unfolding entry_is_expired
  ttl_seconds-set_expire now early later k n e s found live b order a1 a2 =
      let bound = remaining_le now later (suc n * 1000 * 1000) order in
      let (t, is_t, lo, hi) =
        round_up (pos_part ((now +ℤ pos (suc n * 1000 * 1000)) -ℤ later)) (omega (arith, bound)) in
      let s' : Session H L = put k (some (expiring now n e)) s in
      let there : s'.store k ≡ some (expiring now n e) = rw ((bytes_eq_iff k k).1 refl) refl in
      let l' : lookup early k s' ≡ (some (expiring now n e), false, s') =
        lookup_live early k (expiring now n e) s' there (rw a1 refl) in
      (
        t,
        rw (set_expire_live now k n e s (lookup_live now k e s found live))
            (ttl_live early later k (expiring now n e) s' l' refl a2 ∙ is_t),
        lo,
        hi,
        omega (arith, bound, hi),
      )

  -- A lookup of a key that is not empty. Without an entry it finds nothing, and an entry that has not
  -- expired it answers, both with the store as it was. An expired entry it removes: the key has no
  -- entry then and one more pending delete, and every other key keeps its entry.
  pub lookup_lem :
      (now : ℤ) (c : ℕ) (k : Bytes) (s : Session H L)
      → (s.store (c ∷ k) ≡ none → lookup now (c ∷ k) s ≡ (none, false, s))
        × ((e : Entry H L)
            → s.store (c ∷ k) ≡ some e
            → entry_is_expired now e ≡ false
            → lookup now (c ∷ k) s ≡ (some e, false, s))
        × ((e : Entry H L)
            → s.store (c ∷ k) ≡ some e
            → entry_is_expired now e ≡ true
            → let (found, expired, s') = lookup now (c ∷ k) s in
              (found ≡ none)
              × (expired ≡ true)
              × (s'.store (c ∷ k) ≡ none)
              × (s'.pending_deletes ≡ (c ∷ k) ∷ s.pending_deletes)
              × ((j : Bytes) → bytes_eq (c ∷ k) j ≡ false → s'.store j ≡ s.store j))
  unfolding mark_deleted
  lookup_lem now c k s = (
    lookup_absent now (c ∷ k) s,
    λ e. lookup_live now (c ∷ k) e s,
    λ e found a. rw (lookup_expired now (c ∷ k) e s found a) (
        rw (remove_present (c ∷ k) e s found)
          (refl, refl, rw ((bytes_eq_iff (c ∷ k) (c ∷ k)).1 refl) refl, refl, λ j d. rw d refl)),
  )
