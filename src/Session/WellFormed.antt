-- ===== src/Session/WellFormed.antt =====
-- The dirty set of src/kv_store.c: its chain links exactly the entries that are flagged as being in it.
use pg_redis.Base.{
  ℕ, zero, suc, ◌+◌, ◌-◌, ◌≡◌, refl, ap, sym, ◌∙◌, Bool, true, false, Option, none, some, List, [],
  ◌∷◌, ltb, if◌then◌else◌, Bytes, bytes_eq, bytes_eq_iff, Bool-cases, Option-cases, inl, inr, arith,
}
use pg_redis.Base.Int.{ℤ, pos, negsuc, ltb_ℤ}
use pg_redis.Session.{
  Entry, Session, put, fresh, release_value, entry_is_expired, mark_deleted, unlink, remove, lookup,
  upsert, mark_dirty, clear_flags, dirty_clear, set_expire_seconds, remove_all, victims, ttl_sweep,
  ttl_seconds, pending_deletes_clear,
}

-- How often the chain links a key.
unfoldable pub links : Bytes → List Bytes → ℕ
links k [] = 0
links k (k' ∷ ks) = (if bytes_eq k' k then 1 else 0) + links k ks

unlink-links :
    (j k : Bytes) (ks : List Bytes)
    → links j (unlink k ks) ≡ (if bytes_eq k j then links j ks - 1 else links j ks)
unfolding links unlink
unlink-links j k [] = ground arith
unlink-links j k (x ∷ ks) = elim (Bool-cases (bytes_eq x k)) [
  | inl a ↦
      let same : x ≡ k = (bytes_eq_iff x k).0 a in
      rw a (
        rw same (elim (Bool-cases (bytes_eq k j)) [
          | inl b ↦ rw b (omega arith)
          | inr b ↦ rw b (omega arith)
        ]))
  | inr a ↦ rw a (
      rw (unlink-links j k ks) (elim (Bool-cases (bytes_eq k j)) [
        | inl b ↦
            let here : k ≡ j = (bytes_eq_iff k j).0 b in
            let c : bytes_eq x j ≡ false = ap (bytes_eq x) (sym here) ∙ a in
            rw b (rw c (omega arith))
        | inr b ↦ rw b refl
      ]))
]

nothing_left : (n : ℕ) → (if ltb 0 n then 0 else n) ≡ 0
nothing_left n = ground arith

one_less :
    (b : Bool) (n x y : ℕ)
    → (b ≡ true → x ≡ 0)
    → (b ≡ false → x ≡ y)
    → (if ltb 0 n then 0 else x) ≡ (if ltb 0 ((if b then 1 else 0) + n) then 0 else y)
one_less true n x y h k = let z = h refl in ground arith
one_less false n x y h k = let z = k refl in ground arith

module _ {H L : Type 0} where
  -- 1 for a key whose entry is flagged as being in the dirty set.
  abbrev pub flag_of : Option (Entry H L) → ℕ
  flag_of none = 0
  flag_of (some e) = if e.in_dirty_set then 1 else 0

  -- The chain links each flagged entry once, and no entry that is not flagged and no key without one.
  abbrev pub IsLinked : Session H L → Type 0
  IsLinked s = (k : Bytes) → links k s.dirty_set ≡ flag_of (s.store k)

  pub put-IsLinked :
      (k : Bytes) (e : Option (Entry H L)) (s : Session H L)
      → IsLinked s
      → flag_of e ≡ flag_of (s.store k)
      → IsLinked (put k e s)
  put-IsLinked k e s h same j = elim (Bool-cases (bytes_eq k j)) [
    | inl a ↦ rw a (h j ∙ ap (λ i. flag_of (s.store i)) (sym ((bytes_eq_iff k j).0 a)) ∙ sym same)
    | inr a ↦ rw a (h j)
  ]

  mark_deleted-IsLinked : (k : Bytes) (s : Session H L) → IsLinked s → IsLinked (mark_deleted k s)
  unfolding mark_deleted
  mark_deleted-IsLinked [] s h = h
  mark_deleted-IsLinked (c ∷ k) s h = h

  pub mark_deleted-store : (k : Bytes) (s : Session H L) → (mark_deleted k s).store ≡ s.store
  unfolding mark_deleted
  mark_deleted-store [] s = refl
  mark_deleted-store (c ∷ k) s = refl

  mark_deleted-dirty_set :
      (k : Bytes) (s : Session H L) → (mark_deleted k s).dirty_set ≡ s.dirty_set
  unfolding mark_deleted
  mark_deleted-dirty_set [] s = refl
  mark_deleted-dirty_set (c ∷ k) s = refl

  dropped :
      (k : Bytes) (e : Entry H L) (s : Session H L)
      → IsLinked s
      → s.store k ≡ some e
      → (j : Bytes)
      → links j (if e.in_dirty_set then unlink k s.dirty_set else s.dirty_set)
        ≡ flag_of (if bytes_eq k j then none else s.store j)
  dropped k e s h found j = elim (Bool-cases (bytes_eq k j)) [
    | inr b ↦ rw b (elim (Bool-cases e.in_dirty_set) [
      | inl c ↦ rw c (rw (unlink-links j k s.dirty_set) (rw b (h j)))
      | inr c ↦ rw c (h j)
    ])
    | inl b ↦
        let n : links j s.dirty_set ≡ flag_of (some e) =
          h j ∙ ap (λ i. flag_of (s.store i)) (sym ((bytes_eq_iff k j).0 b)) ∙ ap flag_of found in
        rw b (elim (Bool-cases e.in_dirty_set) [
          | inl c ↦ rw c (
              rw (unlink-links j k s.dirty_set)
                (rw b (let m : links j s.dirty_set ≡ 1 = n ∙ rw c refl in omega arith)))
          | inr c ↦ rw c (n ∙ rw c refl)
        ])
  ]

  abbrev pub removed : Bytes → Entry H L → Session H L → Session H L
  removed k e s = put k none (
      mark_deleted k
        (record s { dirty_set = if e.in_dirty_set then unlink k s.dirty_set else s.dirty_set }))

  pub remove_absent : (k : Bytes) (s : Session H L) → s.store k ≡ none → remove k s ≡ (false, s)
  unfolding remove
  remove_absent k s h = rw (h, remove) refl

  pub remove_present :
      (k : Bytes) (e : Entry H L) (s : Session H L)
      → s.store k ≡ some e
      → remove k s ≡ (true, removed k e s)
  unfolding remove
  remove_present k e s h = rw (h, remove) refl

  pub remove-IsLinked : (k : Bytes) (s : Session H L) → IsLinked s → IsLinked (remove k s).1
  remove-IsLinked k s h = elim (Option-cases (s.store k)) [
    | inl absent ↦ rw (remove_absent k s absent) h
    | inr (e, found) ↦ rw (remove_present k e s found) (λ j.
        ap (links j) (mark_deleted-dirty_set k _)
        ∙ dropped k e s h found j
        ∙ ap (λ (f : Bytes → Option (Entry H L)). flag_of (if bytes_eq k j then none else f j))
            (sym (mark_deleted-store k _)))
  ]

  lookup-IsLinked :
      (now : ℤ) (k : Bytes) (s : Session H L) → IsLinked s → IsLinked (lookup now k s).2
  unfolding lookup
  lookup-IsLinked now k s h = elim (Option-cases (s.store k)) [
    | inl absent ↦ rw (absent, lookup) h
    | inr (e, found) ↦
        rw (found, lookup)
          (elim (Bool-cases (entry_is_expired now e)) [
            | inl a ↦ rw a (remove-IsLinked k s h)
            | inr a ↦ rw a h
          ])
  ]

  upsert-IsLinked :
      (now : ℤ) (k : Bytes) (s : Session H L) → IsLinked s → IsLinked (upsert now k s).2
  unfolding upsert release_value
  upsert-IsLinked now k s h = elim (Option-cases (s.store k)) [
    | inl absent ↦ rw (absent, upsert) (put-IsLinked k (some fresh) s h (ap flag_of (sym absent)))
    | inr (e, found) ↦
        rw (found, upsert)
          (elim (Bool-cases (entry_is_expired now e)) [
            | inl a ↦ rw a (put-IsLinked k _ s h (ap flag_of (sym found)))
            | inr a ↦ rw a h
          ])
  ]

  IsLinked-once :
      (k : Bytes) (e : Entry H L) (s : Session H L)
      → IsLinked s
      → s.store k ≡ some e
      → e.in_dirty_set ≡ false
      → IsLinked (
          put k
            (some (record e { in_dirty_set = true; dirty = true }))
            (record s { dirty_set = k ∷ s.dirty_set }))
  unfolding links
  IsLinked-once k e s h found out j = elim (Bool-cases (bytes_eq k j)) [
    | inr b ↦ rw b (omega (arith, h j))
    | inl b ↦
        let n : links j s.dirty_set ≡ flag_of (some e) =
          h j ∙ ap (λ i. flag_of (s.store i)) (sym ((bytes_eq_iff k j).0 b)) ∙ ap flag_of found in
        let z : links j s.dirty_set ≡ 0 = n ∙ rw out refl in rw b (rw z refl)
  ]

  pub mark_dirty-IsLinked : (k : Bytes) (s : Session H L) → IsLinked s → IsLinked (mark_dirty k s)
  unfolding mark_dirty
  mark_dirty-IsLinked k s h = elim (Option-cases (s.store k)) [
    | inl absent ↦ rw (absent, mark_dirty) h
    | inr (e, found) ↦
        rw (found, mark_dirty)
          (elim (Bool-cases e.in_dirty_set) [
            | inl a ↦ rw a h
            | inr a ↦ rw a (IsLinked-once k e s h found a)
          ])
  ]

  clear_flags-flag :
      (j : Bytes) (ks : List Bytes) (s : Session H L)
      → flag_of ((clear_flags ks s).store j)
        ≡ (if ltb 0 (links j ks) then 0 else flag_of (s.store j))
  unfolding clear_flags links
  clear_flags-flag j [] s = refl
  clear_flags-flag j (k ∷ ks) s = elim (Option-cases (s.store k)) [
    | inl absent ↦
        rw (absent, clear_flags)
          (clear_flags-flag j ks s
            ∙ one_less (bytes_eq k j) (links j ks) _ _
                (λ b.
                  ap (λ i. flag_of (s.store i)) (sym ((bytes_eq_iff k j).0 b)) ∙ ap flag_of absent)
                (λ b. refl))
    | inr (e, found) ↦
        rw (found, clear_flags)
          (clear_flags-flag j ks (put k (some (record e { in_dirty_set = false })) s)
            ∙ one_less (bytes_eq k j) (links j ks) _ _ (λ b. rw b refl) (λ b. rw b refl))
  ]

  dirty_clear-IsLinked : (s : Session H L) → IsLinked s → IsLinked (dirty_clear s)
  unfolding dirty_clear links
  dirty_clear-IsLinked s h j =
      sym (clear_flags-flag j s.dirty_set s ∙ rw (h j) (nothing_left (flag_of (s.store j))))

  pub lookup_absent :
      (now : ℤ) (k : Bytes) (s : Session H L) → s.store k ≡ none → lookup now k s ≡ (none, false, s)
  unfolding lookup
  lookup_absent now k s h = rw (h, lookup) refl

  pub lookup_expired :
      (now : ℤ) (k : Bytes) (e : Entry H L) (s : Session H L)
      → s.store k ≡ some e
      → entry_is_expired now e ≡ true
      → lookup now k s ≡ (none, true, (remove k s).1)
  unfolding lookup
  lookup_expired now k e s h a = rw (h, lookup) (rw a refl)

  pub lookup_live :
      (now : ℤ) (k : Bytes) (e : Entry H L) (s : Session H L)
      → s.store k ≡ some e
      → entry_is_expired now e ≡ false
      → lookup now k s ≡ (some e, false, s)
  unfolding lookup
  lookup_live now k e s h a = rw (h, lookup) (rw a refl)

  set_expire-IsLinked :
      (now : ℤ) (k : Bytes) (seconds : ℤ) (s : Session H L)
      → IsLinked s
      → IsLinked (set_expire_seconds now k seconds s).1
  unfolding set_expire_seconds
  set_expire-IsLinked now k seconds s h = elim (Option-cases (s.store k)) [
    | inl absent ↦ unset seconds (lookup_absent now k s absent)
    | inr (e, found) ↦ elim (Bool-cases (entry_is_expired now e)) [
      | inl a ↦ unset seconds (lookup_expired now k e s found a)
      | inr a ↦ reset seconds e found (lookup_live now k e s found a)
    ]
  ]
    where
      unset :
          (sec : ℤ) {x : Bool} {s' : Session H L}
          → lookup now k s ≡ (none, x, s')
          → IsLinked (set_expire_seconds now k sec s).1
      unset (negsuc n) l = rw (l, set_expire_seconds) (lookup-IsLinked now k s h)
      unset (pos zero) l = rw (l, set_expire_seconds) (lookup-IsLinked now k s h)
      unset (pos (suc n)) l = rw (l, set_expire_seconds) (lookup-IsLinked now k s h)

      reset :
          (sec : ℤ) (e : Entry H L)
          → s.store k ≡ some e
          → lookup now k s ≡ (some e, false, s)
          → IsLinked (set_expire_seconds now k sec s).1
      reset (negsuc n) e found l =
          rw (l, set_expire_seconds)
            (remove-IsLinked k (lookup now k s).2 (lookup-IsLinked now k s h))
      reset (pos zero) e found l =
          rw (l, set_expire_seconds)
            (remove-IsLinked k (lookup now k s).2 (lookup-IsLinked now k s h))
      reset (pos (suc n)) e found l =
          rw (l, set_expire_seconds)
            (put-IsLinked k _ (lookup now k s).2 (lookup-IsLinked now k s h) (
              ap flag_of (sym found)
              ∙ ap (λ (x : Option (Entry H L) × Bool × Session H L). flag_of (x.2.store k))
                  (sym l)))

  remove_all-IsLinked :
      (ks : List Bytes) (s : Session H L) → IsLinked s → IsLinked (remove_all ks s).1
  unfolding remove_all
  remove_all-IsLinked [] s h = h
  remove_all-IsLinked (k ∷ ks) s h = remove_all-IsLinked ks (remove k s).1 (remove-IsLinked k s h)

  ttl_seconds-IsLinked :
      (now later : ℤ) (k : Bytes) (s : Session H L)
      → IsLinked s
      → IsLinked (ttl_seconds now later k s).1
  unfolding ttl_seconds
  ttl_seconds-IsLinked now later k s h =
      let s' = (lookup now k s).2 in
      let linked : IsLinked s' = lookup-IsLinked now k s h in
      elim (Option-cases (lookup now k s).0) [
        | inl absent ↦ rw (absent, ttl_seconds) linked
        | inr (e, found) ↦ elim (Bool-cases e.has_expire) [
          | inr never ↦ rw (found, never, ttl_seconds) linked
          | inl expires ↦ elim (Bool-cases (ltb_ℤ later e.expire_at)) [
            | inr past ↦ rw (found, expires, past, ttl_seconds) (remove-IsLinked k s' linked)
            | inl left ↦ rw (found, expires, left, ttl_seconds) linked
          ]
        ]
      ]

  -- The dirty chain and the flags of the entries stay in step, so that the chain links each flagged
  -- entry exactly once and has no link to an entry that is gone: under the removal of a key, a lookup,
  -- an upsert, the marks of a dirty and of a deleted key, the clearing of the dirty set and of the
  -- pending deletes, the setting of an expiry, TTL, and the sweep of expired keys. Taking the head of
  -- the chain for a flush is not among these.
  pub operations-IsLinked :
      (now later seconds : ℤ) (k : Bytes) (scan : List Bytes) (s : Session H L)
      → IsLinked s
      → IsLinked (remove k s).1
        × IsLinked (lookup now k s).2
        × IsLinked (upsert now k s).2
        × IsLinked (mark_dirty k s)
        × IsLinked (mark_deleted k s)
        × IsLinked (dirty_clear s)
        × IsLinked (set_expire_seconds now k seconds s).1
        × IsLinked (ttl_sweep now scan s).1
        × IsLinked (ttl_seconds now later k s).1
        × IsLinked (pending_deletes_clear s)
  unfolding ttl_sweep pending_deletes_clear
  operations-IsLinked now later seconds k scan s h = (
    remove-IsLinked k s h,
    lookup-IsLinked now k s h,
    upsert-IsLinked now k s h,
    mark_dirty-IsLinked k s h,
    mark_deleted-IsLinked k s h,
    dirty_clear-IsLinked s h,
    set_expire-IsLinked now k seconds s h,
    remove_all-IsLinked (victims now scan s) s h,
    ttl_seconds-IsLinked now later k s h,
    h,
  )
