-- ===== src/Durable/Drain/Stuck.antt =====
-- A batch that the primary key of `pgredis.list_items` refuses, and the drain that meets it.
use pg_redis.Base.{
  ℕ, zero, suc, ◌≡◌, refl, ap, ap₂, sym, ◌∙◌, Bool, true, false, ◌&&◌, ◌||◌, Option, none, some,
  is_some, ◌>>=◌, List, [], ◌∷◌, ◌++◌, ◌==◌, if◌then◌else◌, Bytes, bytes_eq, bytes_eq_iff, length,
  take, Bool-cases, Option-cases, inl, inr, arith, if_true, if_false,
}
use pg_redis.Base.Int.{ℤ, eq_ℤ, eq_ℤ_refl, eq_ℤ→≡}
use pg_redis.Ring.{Ring}
use pg_redis.Ring.Valid.{IsValid, contents}
use pg_redis.Event.{Event}
use pg_redis.Ring.Collect.{collect_lem}
use pg_redis.Ring.Release.{abort_lem}
use pg_redis.Ring.Consumer.{collect, abort_batch}
use pg_redis.Durable.{
  Tables, ItemInsert, new_item, items_insertable, list_item_insert, store_upsert, hash_field_delete,
  hash_field_upsert, list_item_delete, store_delete,
}
use pg_redis.Durable.Batch.{
  Op, key_upsert, key_delete, field_upsert, field_delete, item_insert, item_delete, Vecs, no_vecs,
  dispatch, dispatch_all, run_plan, run_plans,
}
use pg_redis.Durable.Batch.Items.{new_item-push}
use pg_redis.Durable.Batch.Crossed.{batch}
use pg_redis.Durable.Drain.{spi_error, decode_all, batch_max, persist, async_drain}

-- The changes insert the item twice; `seen` says that an insert came before.
abbrev pub inserted_twice : Bytes → ℤ → Bool → List Op → Bool
inserted_twice k o seen [] = false
inserted_twice k o seen (item_insert k' o' _ ∷ ops) =
    if bytes_eq k' k && eq_ℤ o' o
    then seen || inserted_twice k o true ops
    else inserted_twice k o seen ops
inserted_twice k o seen (_ ∷ ops) = inserted_twice k o seen ops

some-push :
    (k : Bytes) (o : ℤ) (rows : List ItemInsert) (r : ItemInsert)
    → is_some (new_item k o rows) ≡ true
    → is_some (new_item k o (rows ++ (r ∷ []))) ≡ true
some-push k o rows (k', o', x) h =
    rw (new_item-push k o rows k' o' x)
      (elim (Option-cases (new_item k o rows)) [ inl e ↦ absurd cc | inr (y, e) ↦ rw e refl ])

found :
    (k1 : Bytes) (o1 : ℤ) (k' : Bytes) (o' : ℤ) (x : Option Bytes) (rows : List ItemInsert)
    → k1 ≡ k'
    → o1 ≡ o'
    → is_some (new_item k1 o1 (rows ++ ((k', o', x) ∷ []))) ≡ true
found k1 o1 k' o' x rows ek eo =
    rw (new_item-push k1 o1 rows k' o' x) (elim (Option-cases (new_item k1 o1 rows)) [
      | inl e ↦ rw e (rw (ek) (rw eo (rw ((bytes_eq_iff k' k').1 refl) (rw (eq_ℤ_refl o') refl))))
      | inr (y, e) ↦ rw e refl
    ])

refused-push :
    (rows : List ItemInsert) (r : ItemInsert) (t : Tables)
    → items_insertable rows t ≡ false
    → items_insertable (rows ++ (r ∷ [])) t ≡ false
unfolding items_insertable
refused-push [] r t h = absurd cc
refused-push ((k, o, x) ∷ rows) r t h = elim (Bool-cases (is_some (new_item k o rows))) [
  | inl e ↦ let z = some-push k o rows r e in ground arith
  | inr e ↦ elim (Bool-cases (items_insertable rows t)) [
    | inl f ↦ ground arith
    | inr f ↦ let z = refused-push rows r t f in ground arith
  ]
]

repeat-push :
    (rows : List ItemInsert) (k : Bytes) (o : ℤ) (k' : Bytes) (o' : ℤ) (x : Option Bytes)
    (t : Tables)
    → (bytes_eq k' k && eq_ℤ o' o) ≡ true
    → is_some (new_item k o rows) ≡ true
    → items_insertable (rows ++ ((k', o', x) ∷ [])) t ≡ false
unfolding items_insertable new_item
repeat-push [] k o k' o' x t m h = absurd cc
repeat-push ((k1, o1, x1) ∷ rows) k o k' o' x t m h =
    elim (Bool-cases (bytes_eq k1 k && eq_ℤ o1 o)) [
      | inl e ↦
          let ek : k1 ≡ k = ground (arith, bytes_eq_iff k1 k) in
          let ek' : k' ≡ k = ground (arith, bytes_eq_iff k' k) in
          let eo : o1 ≡ o = eq_ℤ→≡ o1 o (ground arith) in
          let eo' : o' ≡ o = eq_ℤ→≡ o' o (ground arith) in
          let z : is_some (new_item k1 o1 (rows ++ ((k', o', x) ∷ []))) ≡ true =
            found k1 o1 k' o' x rows (ek ∙ sym ek') (eo ∙ sym eo') in
          ground arith
      | inr e ↦
          let z =
            repeat-push rows k o k' o' x t m (rw⁻¹ (if_false (some x1) (new_item k o rows) e) h) in
          ground arith
    ]

pushed :
    (k : Bytes) (o : ℤ) (k' : Bytes) (o' : ℤ) (x : Option Bytes) (rows : List ItemInsert)
    → (bytes_eq k' k && eq_ℤ o' o) ≡ true
    → is_some (new_item k o (rows ++ ((k', o', x) ∷ []))) ≡ true
pushed k o k' o' x rows m =
    rw (new_item-push k o rows k' o' x) (elim (Option-cases (new_item k o rows)) [
      | inl e ↦ rw e (rw m refl)
      | inr (y, e) ↦ rw e refl
    ])

refused_stays :
    (ops : List Op) (v : Vecs) (t : Tables)
    → items_insertable v.li_ins t ≡ false
    → items_insertable (dispatch_all ops v).li_ins t ≡ false
unfolding dispatch_all dispatch
refused_stays [] v t h = h
refused_stays (key_upsert k row ∷ ops) v t h = refused_stays ops (dispatch (key_upsert k row) v) t h
refused_stays (key_delete k ∷ ops) v t h = refused_stays ops (dispatch (key_delete k) v) t h
refused_stays (field_upsert k f x ∷ ops) v t h =
    refused_stays ops (dispatch (field_upsert k f x) v) t h
refused_stays (field_delete k f ∷ ops) v t h = refused_stays ops (dispatch (field_delete k f) v) t h
refused_stays (item_insert k o x ∷ ops) v t h =
    refused_stays ops (dispatch (item_insert k o x) v) t (refused-push v.li_ins (k, o, x) t h)
refused_stays (item_delete k o ∷ ops) v t h = refused_stays ops (dispatch (item_delete k o) v) t h

twice_refused :
    (k : Bytes) (o : ℤ) (seen : Bool) (ops : List Op) (v : Vecs) (t : Tables)
    → (seen ≡ true → is_some (new_item k o v.li_ins) ≡ true)
    → inserted_twice k o seen ops ≡ true
    → items_insertable (dispatch_all ops v).li_ins t ≡ false
unfolding dispatch_all dispatch
twice_refused k o seen [] v t s h = absurd cc
twice_refused k o seen (key_upsert k' row ∷ ops) v t s h =
    twice_refused k o seen ops (dispatch (key_upsert k' row) v) t s h
twice_refused k o seen (key_delete k' ∷ ops) v t s h =
    twice_refused k o seen ops (dispatch (key_delete k') v) t s h
twice_refused k o seen (field_upsert k' f x ∷ ops) v t s h =
    twice_refused k o seen ops (dispatch (field_upsert k' f x) v) t s h
twice_refused k o seen (field_delete k' f ∷ ops) v t s h =
    twice_refused k o seen ops (dispatch (field_delete k' f) v) t s h
twice_refused k o seen (item_delete k' f ∷ ops) v t s h =
    twice_refused k o seen ops (dispatch (item_delete k' f) v) t s h
twice_refused k o seen (item_insert k' o' x ∷ ops) v t s h =
    elim (Bool-cases (bytes_eq k' k && eq_ℤ o' o)) [
      | inr m ↦
          twice_refused k o seen ops (dispatch (item_insert k' o' x) v) t
            (λ z. some-push k o v.li_ins (k', o', x) (s z)) (sym (if_false _ _ m) ∙ h)
      | inl m ↦ elim (Bool-cases seen) [
        | inl z ↦
            refused_stays ops (dispatch (item_insert k' o' x) v) t
              (repeat-push v.li_ins k o k' o' x t m (s z))
        | inr z ↦
            let h' : (seen || inserted_twice k o true ops) ≡ true = sym (if_true _ _ m) ∙ h in
            twice_refused k o true ops (dispatch (item_insert k' o' x) v) t
              (λ y. pushed k o k' o' x v.li_ins m) (ground arith)
      ]
    ]

bind_none :
    {A B : Type 0} (m : Option A) (f : A → Option B) → ((a : A) → f a ≡ none) → (m >>= f) ≡ none
bind_none none f h = refl
bind_none (some a) f h = h a

none_bind : {A B : Type 0} (m : Option A) (f : A → Option B) → m ≡ none → (m >>= f) ≡ none
none_bind m f h = rw h refl

insert_refused :
    (fault : Bool) (rows : List ItemInsert) (t : Tables)
    → items_insertable rows t ≡ false
    → run_plan fault rows list_item_insert t ≡ none
unfolding items_insertable list_item_insert
insert_refused fault [] t h = absurd cc
insert_refused true (x ∷ rows) t h = refl
insert_refused false (x ∷ rows) t h = rw h refl

-- A batch that inserts one list item twice is refused, whatever the tables hold and whatever else
-- the batch does.
refused :
    (fault : ℕ → Bool) (k : Bytes) (o : ℤ) (ops : List Op) (t : Tables)
    → inserted_twice k o false ops ≡ true
    → run_plans fault (batch ops) t ≡ none
unfolding run_plans
refused fault k o ops t h =
    bind_none (run_plan (fault 1) (batch ops).store_rows store_upsert t) _ (λ t1.
      bind_none (run_plan (fault 2) (batch ops).hf_del hash_field_delete t1) _ (λ t2.
        bind_none (run_plan (fault 3) (batch ops).hf_up hash_field_upsert t2) _ (λ t3.
          bind_none (run_plan (fault 4) (batch ops).li_del list_item_delete t3) _ (λ t4.
            none_bind _ (run_plan (fault 6) (batch ops).store_delete_keys store_delete) (
              insert_refused (fault 5) (batch ops).li_ins t4
                (twice_refused k o false ops no_vecs t4 (λ z. absurd cc) h))))))

-- The drains of a queue that nothing else changes.
abbrev pub drain_times : (ℕ → ℕ → Bool) → ℤ → ℕ → Ring → Tables → Ring × Tables
drain_times fault max zero r t = (r, t)
drain_times fault max (suc n) r t =
    let (outcome, r', t') = async_drain true (fault n) true max r t in drain_times fault max n r' t'

persist_stuck :
    (fault : ℕ → Bool) (k : Bytes) (o : ℤ) (ops : List Op) (r1 : Ring) (t : Tables)
    (events : List Event) (base : ℕ)
    → decode_all r1.dsa events ≡ some ops
    → inserted_twice k o false ops ≡ true
    → persist true fault events base r1 t ≡ (spi_error, abort_batch base (length events) r1, t)
unfolding persist decode_all
persist_stuck fault k o [] r1 t events base de h = absurd cc
persist_stuck fault k o (op ∷ ops) r1 t [] base de h = absurd cc
persist_stuck fault k o (op ∷ ops) r1 t (ev ∷ events) base de h =
    let z : (length (ev ∷ events) == 0) ≡ false = ground arith in
    rw z (rw de (rw (refused fault k o (op ∷ ops) t h) refl))

-- What the ring of a stuck drain keeps.
record Same (r r' : Ring) : Type 0 where
  pub valid : IsValid 0 r'
  pub queue : contents r' ≡ contents r
  pub dsa : r'.dsa ≡ r.dsa

stuck_once :
    (fault : ℕ → Bool) (max : ℤ) (k : Bytes) (o : ℤ) (ops : List Op) {r : Ring} (t : Tables)
    → IsValid 0 r
    → decode_all r.dsa (take (batch_max max) (contents r)) ≡ some ops
    → inserted_twice k o false ops ≡ true
    → let (outcome, r', t') = async_drain true fault true max r t in
      (outcome ≡ spi_error) × Same r r' × (t' ≡ t)
unfolding async_drain
stuck_once fault max k o ops {r} t v de h =
    let c = collect_lem (batch_max max) v in
    let a = abort_lem _ c.2 in
    let b : (collect (batch_max max) r).1 ≡ (collect (batch_max max) r).2.read_head =
      c.1 ∙ sym c.4 in
    rw
      (persist_stuck fault k o ops (collect (batch_max max) r).2 t (collect (batch_max max) r).0
        (collect (batch_max max) r).1 (ap₂ decode_all c.6 c.0 ∙ de) h)
      (rw b (refl, record { valid = a.0; queue = a.1 ∙ c.3; dsa = a.4 ∙ c.6 }, refl))

-- A queue whose first batch inserts one list item twice: every drain fails, however often it is
-- tried and whatever faults there are, and leaves the queue and the tables as they were, so no event
-- behind it becomes durable.
pub insert_twice_stuck :
    (fault : ℕ → ℕ → Bool) (last : ℕ → Bool) (max : ℤ) (n : ℕ) (k : Bytes) (o : ℤ) (ops : List Op)
    {r : Ring} (t : Tables)
    → IsValid 0 r
    → decode_all r.dsa (take (batch_max max) (contents r)) ≡ some ops
    → inserted_twice k o false ops ≡ true
    → let (r', t') = drain_times fault max n r t in
      ((async_drain true last true max r' t').0 ≡ spi_error) × (contents r' ≡ contents r) × (t' ≡ t)
insert_twice_stuck fault last max zero k o ops t v de h =
    ((stuck_once last max k o ops t v de h).0, refl, refl)
insert_twice_stuck fault last max (suc n) k o ops {r} t v de h =
    let s = stuck_once (fault n) max k o ops t v de h in
    let rest =
      insert_twice_stuck fault last max n k o ops {r = (async_drain true (fault n) true max r t).1}
        (async_drain true (fault n) true max r t).2 s.1.valid
        (ap₂ decode_all s.1.dsa (ap (take (batch_max max)) s.1.queue) ∙ de) h in
    (rest.0, rest.1 ∙ s.1.queue, rest.2 ∙ s.2)
