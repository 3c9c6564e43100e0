-- ===== src/Command/Entries.antt =====
-- The entry of a key through `pg_redis_store_upsert`, `pg_redis_store_lookup` and a write of it that
-- is marked dirty.
use pg_redis.Base.{
  ◌≡◌, refl, ap, sym, ◌∙◌, Option-cases, if_true, if_false, Bool, true, false, ◌&&◌, not, Option,
  none, some, if◌then◌else◌, Bytes, bytes_eq, bytes_eq_iff, Bool-cases, inl, inr,
}
use pg_redis.Base.Int.{ℤ, pos, ltb_ℤ}
use pg_redis.Types.{string_value}
use pg_redis.Session.{
  Entry, Session, put, fresh, release_value, entry_is_expired, upsert, remove, mark_dirty,
}
use pg_redis.Session.WellFormed.{mark_deleted-store, remove_absent, remove_present}

module _ {H L : Type 0} where
  -- An entry in the dirty set.
  abbrev pub flagged : Entry H L → Entry H L
  flagged e = if e.in_dirty_set then e else record e { in_dirty_set = true; dirty = true }

  -- The entry that an upsert makes of an expired one.
  abbrev pub renewed : Entry H L → Entry H L
  renewed e = record e {
    value = string_value none;
    expire_at = pos 0;
    has_expire = false;
    dirty = false;
    deleted = false;
    version = 1;
  }

  pub flagged-value : (e : Entry H L) → (flagged e).value ≡ e.value
  flagged-value e = elim (Bool-cases e.in_dirty_set) [ inl h ↦ rw h refl | inr h ↦ rw h refl ]

  pub flagged-flag : (e : Entry H L) → (flagged e).in_dirty_set ≡ true
  flagged-flag e = elim (Bool-cases e.in_dirty_set) [
    | inl h ↦ ap (λ (x : Entry H L). x.in_dirty_set) (if_true _ _ h) ∙ h
    | inr h ↦ ap (λ (x : Entry H L). x.in_dirty_set) (if_false _ _ h)
  ]

  pub flagged-expired :
      (now : ℤ) (e : Entry H L) → entry_is_expired now (flagged e) ≡ entry_is_expired now e
  unfolding entry_is_expired
  flagged-expired now e = elim (Bool-cases e.in_dirty_set) [ inl h ↦ rw h refl | inr h ↦ rw h refl ]

  -- An entry without an expiry has not expired.
  pub unexpiring : (now : ℤ) (e : Entry H L) → e.has_expire ≡ false → entry_is_expired now e ≡ false
  unfolding entry_is_expired
  unexpiring now e h = ap (λ (b : Bool). b && not (ltb_ℤ now e.expire_at)) h

  pub mark_dirty-put :
      (k : Bytes) (e : Entry H L) (s : Session H L) (j : Bytes)
      → (mark_dirty k (put k (some e) s)).store j
        ≡ (if bytes_eq k j then some (flagged e) else s.store j)
  unfolding mark_dirty
  mark_dirty-put k e s j =
      rw ((bytes_eq_iff k k).1 refl, mark_dirty)
        (elim (Bool-cases e.in_dirty_set) [
          | inl h ↦ rw h refl
          | inr h ↦
              rw h (elim (Bool-cases (bytes_eq k j)) [ inl b ↦ rw b refl | inr b ↦ rw b refl ])
        ])

  pub upsert_absent :
      (now : ℤ) (k : Bytes) (s : Session H L)
      → s.store k ≡ none
      → upsert now k s ≡ (fresh, true, put k (some fresh) s)
  unfolding upsert
  upsert_absent now k s h = rw (h, upsert) refl

  pub upsert_expired :
      (now : ℤ) (k : Bytes) (e : Entry H L) (s : Session H L)
      → s.store k ≡ some e
      → entry_is_expired now e ≡ true
      → upsert now k s ≡ (renewed e, true, put k (some (renewed e)) s)
  unfolding upsert release_value
  upsert_expired now k e s h a = rw (h, upsert) (rw a refl)

  pub upsert_live :
      (now : ℤ) (k : Bytes) (e : Entry H L) (s : Session H L)
      → s.store k ≡ some e
      → entry_is_expired now e ≡ false
      → upsert now k s ≡ (e, false, s)
  unfolding upsert
  upsert_live now k e s h a = rw (h, upsert) (rw a refl)

  pub remove-store :
      (k : Bytes) (s : Session H L) (j : Bytes)
      → (remove k s).1.store j ≡ (if bytes_eq k j then none else s.store j)
  remove-store k s j = elim (Option-cases (s.store k)) [
    | inl h ↦ rw (remove_absent k s h) (elim (Bool-cases (bytes_eq k j)) [
      | inl b ↦ rw b (ap s.store (sym ((bytes_eq_iff k j).0 b)) ∙ h)
      | inr b ↦ rw b refl
    ])
    | inr (e, h) ↦ rw (remove_present k e s h) (
        ap (λ (f : Bytes → Option (Entry H L)). if bytes_eq k j then none else f j)
          (mark_deleted-store k _))
  ]
