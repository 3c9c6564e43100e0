-- ===== src/Command/Refines.antt =====
-- Each command of src/pg_redis.c against the contents that a client sees.
use pg_redis.Base.{
  ◌≡◌, refl, sym, ap, subst, ◌∙◌, Bool, true, false, Option, none, some, if◌then◌else◌, if_true,
  if_false, Bytes, bytes_eq, bytes_eq_iff, Bool-cases, Option-cases, ◌⊎◌, inl, inr,
}
use pg_redis.Base.Int.{ℤ}
use pg_redis.Types.{Value, string_value}
use pg_redis.HashValue.{Hash}
use pg_redis.ListValue.{Chain}
use pg_redis.Session.{Entry, put, fresh, entry_is_expired, remove, lookup, mark_dirty}
use pg_redis.Session.WellFormed.{
  lookup_absent, lookup_live, lookup_expired, IsLinked, flag_of, put-IsLinked, mark_dirty-IsLinked,
  remove-IsLinked,
}
use pg_redis.Effect.{
  Effect, fails, breaks, crashes, answers, writes, Error, Result, Reply, ok, raised,
}
use pg_redis.Command.{Keyspace, changed, finish, update, access}
use pg_redis.Command.Contents.{Content, content, live_content, view, Answer}
use pg_redis.Command.Entries.{
  flagged, renewed, flagged-value, flagged-expired, flagged-flag, unexpiring, mark_dirty-put,
  remove-store, upsert_absent, upsert_expired, upsert_live,
}
use pg_redis.Command.Values.{IsSound, Matches, Creates}

-- Every value of the keyspace is sound.
abbrev pub AllSound : Keyspace → Type 0
AllSound s = (k : Bytes) (e : Entry Hash Chain) → s.store k ≡ some e → IsSound e.value

-- A call replied as the answer says, and left its key as the answer says and every other key as it
-- was. After an ERROR the whole session is as it was; and the key's entry is as it was or in the
-- dirty set, which links the entries that are flagged.
pub record Follows (now : ℤ) (k : Bytes) (s : Keyspace) (a : Answer) (r : Result × Keyspace)
    : Type 0 where
  pub replies : r.0 ≡ a.0
  pub leaves : view now r.1 k ≡ a.1
  pub others : (j : Bytes) → bytes_eq k j ≡ false → r.1.store j ≡ s.store j
  pub sound : AllSound r.1
  pub errors : (x : Error) → r.0 ≡ raised x → r.1 ≡ s
  pub marked :
      (e : Entry Hash Chain) → r.1.store k ≡ some e → (s.store k ≡ some e) ⊎ (e.in_dirty_set ≡ true)
  pub linked : IsLinked s → IsLinked r.1

module _ (now : ℤ) (k : Bytes) (s : Keyspace) (sound : AllSound s) where
  -- A keyspace that differs from s at the key.
  differs :
      (s' : Keyspace) (o : Option (Entry Hash Chain)) (a : Answer) (r : Reply)
      → ((j : Bytes) → s'.store j ≡ (if bytes_eq k j then o else s.store j))
      → ((e : Entry Hash Chain) → o ≡ some e → IsSound e.value)
      → ((e : Entry Hash Chain) → o ≡ some e → e.in_dirty_set ≡ true)
      → (IsLinked s → IsLinked s')
      → ok r ≡ a.0
      → live_content now o ≡ a.1
      → Follows now k s a (ok r, s')
  differs s' o a r at_key ok_value ok_flag link reply shows = record {
    replies = reply;
    leaves = ap (live_content now) (at_key k ∙ if_true _ _ ((bytes_eq_iff k k).1 refl)) ∙ shows;
    others = λ j d. at_key j ∙ if_false _ _ d;
    sound = λ j e there. elim (Bool-cases (bytes_eq k j)) [
      | inl b ↦ ok_value e (sym (at_key j ∙ if_true _ _ b) ∙ there)
      | inr b ↦ sound j e (sym (at_key j ∙ if_false _ _ b) ∙ there)
    ];
    errors = λ x h. cc;
    marked = λ e there.
        inr (ok_flag e (sym (at_key k ∙ if_true _ _ ((bytes_eq_iff k k).1 refl)) ∙ there));
    linked = link;
  }

  -- The value of the key is written and marked dirty.
  pub written :
      (e : Entry Hash Chain) (v : Value Hash Chain) (s' : Keyspace) (a : Answer) (r : Reply)
      → ((j : Bytes) → bytes_eq k j ≡ false → s'.store j ≡ s.store j)
      → entry_is_expired now e ≡ false
      → e.value ≡ v
      → (IsLinked s → IsLinked (put k (some e) s'))
      → (a ≡ (ok r, some (content v))) × IsSound v
      → Follows now k s a (ok r, mark_dirty k (put k (some e) s'))
  written e v s' a r same alive is_v link (is_a, sound_v) =
      differs (mark_dirty k (put k (some e) s')) (some (flagged e)) a r
        (λ j.
          mark_dirty-put k e s' j
          ∙ elim (Bool-cases (bytes_eq k j)) [ inl b ↦ rw b refl | inr b ↦ rw b (same j b) ])
        (λ e' h.
          let is_e : flagged e ≡ e' = cc in
          subst (λ (x : Entry Hash Chain). IsSound x.value) is_e
            (subst IsSound (sym (flagged-value e ∙ is_v)) sound_v))
        (λ e' h.
          let is_e : flagged e ≡ e' = cc in
          sym (ap (λ (x : Entry Hash Chain). x.in_dirty_set) is_e) ∙ flagged-flag e)
        (λ l. mark_dirty-IsLinked k (put k (some e) s') (link l))
        (sym (ap (λ (x : Answer). x.0) is_a))
        (if_false _ _ (flagged-expired now e ∙ alive)
          ∙ ap (λ (x : Value Hash Chain). some (content x)) (flagged-value e ∙ is_v)
          ∙ sym (ap (λ (x : Answer). x.1) is_a))

  -- Nothing is changed.
  pub unchanged : (a : Answer) (r : Result) → a ≡ (r, view now s k) → Follows now k s a (r, s)
  unchanged a r is_a = record {
    replies = sym (ap (λ (x : Answer). x.0) is_a);
    leaves = sym (ap (λ (x : Answer). x.1) is_a);
    others = λ j d. refl;
    sound = sound;
    errors = λ x h. refl;
    marked = λ e there. inl there;
    linked = λ l. l;
  }

  -- A live entry.
  finish-Matches :
      (e : Entry Hash Chain) (f : Effect) (a : Answer)
      → s.store k ≡ some e
      → entry_is_expired now e ≡ false
      → Matches f (some (content e.value)) a
      → Follows now k s a (finish k e s f)
  unfolding entry_is_expired
  finish-Matches e f a there alive m = effect f m
    where
      shows : view now s k ≡ some (content e.value)
      shows = ap (live_content now) there ∙ if_false _ _ alive

      effect :
          (f : Effect) → Matches f (some (content e.value)) a → Follows now k s a (finish k e s f)
      effect (fails x) m =
          unchanged a (raised x) (m ∙ ap (λ (o : Option Content). (raised x, o)) (sym shows))
      effect (breaks x v) m = absurd m
      effect crashes m = absurd m
      effect (answers r) m =
          unchanged a (ok r) (m ∙ ap (λ (o : Option Content). (ok r, o)) (sym shows))
      effect (writes r v) m =
          written (changed v e) v s a r (λ j d. refl) alive refl
            (λ l. put-IsLinked k (some (changed v e)) s l (ap flag_of (sym there))) m

  relink :
      (e : Entry Hash Chain) (v : Value Hash Chain)
      → flag_of (some e) ≡ flag_of (s.store k)
      → IsLinked s
      → IsLinked (put k (some (changed v e)) (put k (some e) s))
  relink e v flag l =
      put-IsLinked k (some (changed v e)) (put k (some e) s) (put-IsLinked k (some e) s l flag)
        (rw ((bytes_eq_iff k k).1 refl) refl)

  -- An entry that the upsert has made.
  finish-Creates :
      (e : Entry Hash Chain) (f : Effect) (a : Answer)
      → e.has_expire ≡ false
      → flag_of (some e) ≡ flag_of (s.store k)
      → Creates f a
      → Follows now k s a (finish k e (put k (some e) s) f)
  finish-Creates e (fails x) a new flag m = absurd m
  finish-Creates e (breaks x v) a new flag m = absurd m
  finish-Creates e crashes a new flag m = absurd m
  finish-Creates e (answers r) a new flag m = absurd m
  finish-Creates e (writes r v) a new flag m =
      written (changed v e) v (put k (some e) s) a r (λ j d. rw d refl)
        (unexpiring now (changed v e) new) refl (λ l. relink e v flag l) m

  -- The key is removed.
  pub removed-Follows :
      (a : Answer) (r : Reply) → a ≡ (ok r, none) → Follows now k s a (ok r, (remove k s).1)
  removed-Follows a r is_a =
      differs (remove k s).1 none a r (remove-store k s) (λ e h. cc) (λ e h. cc)
        (remove-IsLinked k s) (sym (ap (λ (x : Answer). x.0) is_a))
        (sym (ap (λ (x : Answer). x.1) is_a))

  pub shown :
      (spec : Option Content → Answer) (x : Option Content) (r run : Result × Keyspace)
      → view now s k ≡ x
      → run ≡ r
      → Follows now k s (spec x) r
      → Follows now k s (spec (view now s k)) run
  shown spec x r run is_x is_r h =
      subst (λ (y : Option Content). Follows now k s (spec y) run) (sym is_x)
        (subst (Follows now k s (spec x)) (sym is_r) h)

  pub update-Follows :
      (f : Bool → Value Hash Chain → Effect) (spec : Option Content → Answer)
      → ((v : Value Hash Chain) → Creates (f true v) (spec none))
      → ((e : Entry Hash Chain)
          → s.store k ≡ some e
          → Matches (f false e.value) (some (content e.value)) (spec (some (content e.value))))
      → Follows now k s (spec (view now s k)) (update now k f s)
  unfolding update
  update-Follows f spec new old = elim (Option-cases (s.store k)) [
    | inl h ↦
        shown spec none _ (update now k f s) (ap (live_content now) h)
          (rw (upsert_absent now k s h, update) refl)
          (finish-Creates fresh (f true (string_value none)) (spec none) refl (ap flag_of (sym h))
            (new (string_value none)))
    | inr (e, h) ↦ elim (Bool-cases (entry_is_expired now e)) [
      | inl x ↦
          shown spec none _ (update now k f s) (ap (live_content now) h ∙ if_true _ _ x)
            (rw (upsert_expired now k e s h x, update) refl)
            (finish-Creates (renewed e) (f true (string_value none)) (spec none) refl
              (ap flag_of (sym h)) (new (string_value none)))
      | inr x ↦
          shown spec (some (content e.value)) _ (update now k f s)
            (ap (live_content now) h ∙ if_false _ _ x) (rw (upsert_live now k e s h x, update) refl)
            (finish-Matches e (f false e.value) (spec (some (content e.value))) h x (old e h))
    ]
  ]

  -- What `access` does after its lookup.
  abbrev pub resumed :
      Reply
      → (Value Hash Chain → Effect)
      → Option (Entry Hash Chain) × Bool × Keyspace
      → Result × Keyspace
  resumed absent f (none, expired, s') = (ok absent, s')
  resumed absent f (some e, expired, s') = finish k e s' (f e.value)

  resumed_lem :
      (absent : Reply) (f : Value Hash Chain → Effect)
      (x : Option (Entry Hash Chain) × Bool × Keyspace)
      → (elim x.0 [ none ↦ (ok absent, x.2) | some e ↦ finish k e x.2 (f e.value) ])
        ≡ resumed absent f x
  resumed_lem absent f (none, expired, s') = refl
  resumed_lem absent f (some e, expired, s') = refl

  pub access-resumed :
      (absent : Reply) (f : Value Hash Chain → Effect)
      (x : Option (Entry Hash Chain) × Bool × Keyspace)
      → lookup now k s ≡ x
      → access now k absent f s ≡ resumed absent f x
  unfolding access
  access-resumed absent f x e = resumed_lem absent f (lookup now k s) ∙ ap (resumed absent f) e

  pub access-Follows :
      (absent : Reply) (f : Value Hash Chain → Effect) (spec : Option Content → Answer)
      → spec none ≡ (ok absent, none)
      → ((e : Entry Hash Chain)
          → s.store k ≡ some e
          → Matches (f e.value) (some (content e.value)) (spec (some (content e.value))))
      → Follows now k s (spec (view now s k)) (access now k absent f s)
  unfolding access
  access-Follows absent f spec none_lem old = elim (Option-cases (s.store k)) [
    | inl h ↦
        shown spec none _ (access now k absent f s) (ap (live_content now) h)
          (access-resumed absent f _ (lookup_absent now k s h))
          (unchanged (spec none) (ok absent) (
            none_lem ∙ ap (λ (o : Option Content). (ok absent, o)) (sym (ap (live_content now) h))))
    | inr (e, h) ↦ elim (Bool-cases (entry_is_expired now e)) [
      | inl x ↦
          shown spec none _ (access now k absent f s) (ap (live_content now) h ∙ if_true _ _ x)
            (access-resumed absent f _ (lookup_expired now k e s h x))
            (removed-Follows (spec none) absent none_lem)
      | inr x ↦
          shown spec (some (content e.value)) _ (access now k absent f s)
            (ap (live_content now) h ∙ if_false _ _ x)
            (access-resumed absent f _ (lookup_live now k e s h x))
            (finish-Matches e (f e.value) (spec (some (content e.value))) h x (old e h))
    ]
  ]
