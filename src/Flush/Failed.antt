-- ===== src/Flush/Failed.antt =====
-- The rows of other keys, and what is left when a flush fails or a key is created again.
use pg_redis.Base.{
  ℕ, ◌≡◌, refl, sym, ap, subst, ◌∙◌, inl, inr, Bool, true, false, ◌&&◌, Option, none, some, List,
  [], ◌∷◌, if◌then◌else◌, Bytes, bytes_eq, bytes_eq_iff, Bool-cases, Option-cases,
}
use pg_redis.Base.Int.{ℤ}
use pg_redis.HashValue.{Hash}
use pg_redis.ListValue.{Chain}
use pg_redis.Session.{Session, mark_dirty, put}
use pg_redis.Session.WellFormed.{links}
use pg_redis.Durable.{Tables, has_key, has_field, last_field, last_row, has_item, new_item}
use pg_redis.Durable.Batch.{no_vecs, run_plans}
use pg_redis.Durable.Batch.Effect.{applied, accepted, run_plans_lem}
use pg_redis.Flush.{
  SessionEntry, collect, collect_deletes, in_dirty, entries, run_flush, with_entry, FlushOutcome,
  nothing_dirty, connect_failed, flushed, plan_failed, any_work, tracking_cleared, take_heads,
  flags_cleared,
}
use pg_redis.Flush.Vectors.{dirty_other}
use pg_redis.Flush.Split.{entries-absent, deletes_lem, dirty_deletes}

-- The rows of a key in the tables: as in t, or gone.
pub record Rows (k : Bytes) (gone : Bool) (t t' : Tables) : Type 0 where
  pub row : t'.store k ≡ (if gone then none else t.store k)
  pub fields : (f : Bytes) → t'.hash_fields k f ≡ (if gone then none else t.hash_fields k f)
  pub items : (o : ℤ) → t'.list_items k o ≡ (if gone then none else t.list_items k o)

and_true : (b : Bool) → (b && true) ≡ b
and_true true = refl
and_true false = refl

deleted :
    (k : Bytes) (es : List (Bytes × SessionEntry)) (ks : List Bytes)
    → in_dirty k es ≡ false
    → has_key k (collect_deletes es ks []) ≡ has_key k ks
unfolding has_key
deleted k es ks h = deletes_lem k es ks [] ∙ rw h (and_true (has_key k ks))

applied-Rows :
    (s : Session Hash Chain) (t : Tables) (k : Bytes)
    → links k s.dirty_set ≡ 0
    → Rows k
        (has_key k s.pending_deletes)
        t
        (applied (collect (entries s.dirty_set s) s.pending_deletes) t)
unfolding collect has_field last_field last_row has_item new_item
applied-Rows s t k absent =
    let es = entries s.dirty_set s in
    let out = entries-absent k s.dirty_set s absent in
    let same = dirty_other k es no_vecs out in
    let keys : has_key k (collect es s.pending_deletes).store_delete_keys
        ≡ has_key k s.pending_deletes =
      ap (λ (ks : List Bytes). has_key k (collect_deletes es s.pending_deletes ks))
        (dirty_deletes es no_vecs)
      ∙ deleted k es s.pending_deletes out in
    record {
      row = rw (keys, same.rows) refl;
      fields = λ f. rw (keys, same.ups f, same.dels f) refl;
      items = λ o. rw (keys, same.ins o, same.ords o) refl;
    }

-- What a flush that connects does to the rows of a key that is not dirty.
abbrev pub FlushedRows :
    Session Hash Chain → Tables → Bytes → FlushOutcome × Session Hash Chain × Tables → Type 0
FlushedRows s t k (nothing_dirty, s', t') =
    (any_work s.dirty_set s.pending_deletes ≡ false) × (s' ≡ s) × (t' ≡ t)
FlushedRows s t k (connect_failed, s', t') = ⊥
FlushedRows s t k (plan_failed, s', t') =
    (accepted (collect (entries s.dirty_set s) s.pending_deletes) t ≡ false) × (t' ≡ t)
FlushedRows s t k (flushed, s', t') = Rows k (has_key k s.pending_deletes) t t'

-- A flush where SPI connects and no plan fails by itself either has no work and changes nothing, or
-- is refused by the tables, which stay as they were, or succeeds; then of a key that is not in the
-- dirty chain all rows are gone if the key is among the pending deletes, and all are as they were if
-- it is not.
pub run_flush-FlushedRows :
    (s : Session Hash Chain) (t : Tables) (k : Bytes)
    → links k s.dirty_set ≡ 0
    → FlushedRows s t k (run_flush true (λ i. false) s t)
unfolding run_flush
run_flush-FlushedRows s t k absent =
    let es = entries s.dirty_set s in
    let v = collect es s.pending_deletes in
    elim (Bool-cases (any_work s.dirty_set s.pending_deletes)) [
      | inr w ↦
          let run : run_flush true (λ i. false) s t ≡ (nothing_dirty, s, t) =
            rw (w, run_flush) refl in
          subst (FlushedRows s t k) (sym run) (w, refl, refl)
      | inl w ↦ elim (Bool-cases (accepted v t)) [
        | inr refused ↦
            let run : run_flush true (λ i. false) s t
                ≡ (plan_failed, flags_cleared es (take_heads s), t) =
              rw (w, run_plans_lem v t, refused, run_flush) refl in
            subst (FlushedRows s t k) (sym run) (refused, refl)
        | inl ok ↦
            let run : run_flush true (λ i. false) s t
                ≡ (flushed, tracking_cleared es (take_heads s), applied v t) =
              rw (w, run_plans_lem v t, ok, run_flush) refl in
            subst (FlushedRows s t k) (sym run) (applied-Rows s t k absent)
      ]
    ]

-- The key has an entry that is flagged as being in the dirty set.
abbrev pub IsFlagged : Bytes → Option SessionEntry → Type 0
IsFlagged k none = ⊥
IsFlagged k (some e) = e.in_dirty_set ≡ true

-- Entries of the key among these are flagged.
abbrev AreFlagged : Bytes → List (Bytes × SessionEntry) → Type 0
AreFlagged k [] = Unit
AreFlagged k ((k', e) ∷ es) = (bytes_eq k' k ≡ true → e.in_dirty_set ≡ true) × AreFlagged k es

flags_cleared-IsFlagged :
    (k : Bytes) (es : List (Bytes × SessionEntry)) (s : Session Hash Chain)
    → AreFlagged k es
    → IsFlagged k (s.store k)
    → IsFlagged k ((flags_cleared es s).store k) × ((flags_cleared es s).dirty_set ≡ s.dirty_set)
unfolding flags_cleared
flags_cleared-IsFlagged k [] s all here = (here, refl)
flags_cleared-IsFlagged k ((k', e) ∷ es) s all here =
    flags_cleared-IsFlagged k es (put k' _ s) all.1
      (elim (Bool-cases (bytes_eq k' k)) [ inl q ↦ rw q (all.0 q) | inr q ↦ rw q here ])

with_entry-AreFlagged :
    (k k' : Bytes) (o : Option SessionEntry) (es : List (Bytes × SessionEntry))
    → (bytes_eq k' k ≡ true → IsFlagged k o)
    → AreFlagged k es
    → AreFlagged k (with_entry k' o es)
with_entry-AreFlagged k k' none es h all = all
with_entry-AreFlagged k k' (some e) es h all = (h, all)

entries-AreFlagged :
    (k : Bytes) (ks : List Bytes) (s : Session Hash Chain)
    → IsFlagged k (s.store k)
    → AreFlagged k (entries ks s)
unfolding entries
entries-AreFlagged k [] s here = tt
entries-AreFlagged k (k' ∷ ks) s here =
    with_entry-AreFlagged k k' (s.store k') (entries ks s)
      (λ q. subst (λ (j : Bytes). IsFlagged k (s.store j)) (sym ((bytes_eq_iff k' k).0 q)) here)
      (entries-AreFlagged k ks s here)

pub mark_flagged :
    (k : Bytes) (s : Session Hash Chain) → IsFlagged k (s.store k) → mark_dirty k s ≡ s
unfolding mark_dirty
mark_flagged k s here = elim (Option-cases (s.store k)) [
  | inl e ↦ absurd (subst (IsFlagged k) e here)
  | inr (x, e) ↦
      let q : x.in_dirty_set ≡ true = subst (IsFlagged k) e here in rw (e, q, mark_dirty) refl
]

-- What a failed flush leaves: the chain is empty, and the dirty entries are flagged.
pub failed_lem :
    (fault : ℕ → Bool) (s : Session Hash Chain) (t : Tables) (k : Bytes)
    → any_work s.dirty_set s.pending_deletes ≡ true
    → IsFlagged k (s.store k)
    → run_plans fault (collect (entries s.dirty_set s) s.pending_deletes) t ≡ none
    → (s1 : Session Hash Chain) × (run_flush true fault s t ≡ (plan_failed, s1, t))
      × IsFlagged k (s1.store k)
      × (s1.dirty_set ≡ [])
unfolding run_flush
failed_lem fault s t k work here failed =
    let es = entries s.dirty_set s in
    let still =
      flags_cleared-IsFlagged k es (take_heads s) (entries-AreFlagged k s.dirty_set s here) here in
    (flags_cleared es (take_heads s), rw (work, failed, run_flush) refl, still.0, still.1)
