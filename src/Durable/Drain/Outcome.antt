-- ===== src/Durable/Drain/Outcome.antt =====
-- What a drain does to the ring and the tables, in success and in failure.
use pg_redis.Base.{
  ℕ, zero, suc, ◌≡◌, refl, ap, ap₂, subst, append-nil, sym, ◌∙◌, ◌⊎◌, inl, inr, Bool, true, false,
  none, some, List, [], ◌∷◌, ◌++◌, ◌==◌, length, take, drop, min, length-take, Bool-cases,
  Option-cases, arith,
}
use pg_redis.Base.Int.{ℤ}
use pg_redis.Event.{Event}
use pg_redis.Shmem.{Dsa}
use pg_redis.Ring.{Ring}
use pg_redis.Ring.Valid.{IsValid, contents}
use pg_redis.Ring.Collect.{collect_lem}
use pg_redis.Ring.Release.{release_lem, abort_lem, payloads}
use pg_redis.Ring.Consumer.{release_batch, abort_batch}
use pg_redis.Durable.{Tables}
use pg_redis.Durable.Batch.{Op, dispatch_all, no_vecs, run_plans}
use pg_redis.Durable.Drain.{
  Drained, drained, spi_error, wild_read, decode_all, batch_max, persist, async_drain,
}

-- The drained events have left the ring and their spilled payloads are freed, once each; and they
-- are in the tables, in one run of the plans. An error has left the queue and the tables as they
-- were. A wild read needs an event whose payload is gone.
abbrev pub Settled : (ℕ → Bool) → ℕ → Ring → Tables → Drained × Ring × Tables → Type 0
Settled fault max r t (drained n, r', t') =
    IsValid 0 r'
    × (contents r' ≡ drop n (contents r))
    × (r'.dsa.freed ≡ r.dsa.freed ++ payloads (take n (contents r)))
    × (((n ≡ 0) × (t' ≡ t))
        ⊎ ((ops : List Op) × (decode_all r.dsa (take n (contents r)) ≡ some ops)
            × (run_plans fault (dispatch_all ops no_vecs) t ≡ some t')))
Settled fault max r t (spi_error, r', t') =
    IsValid 0 r' × (contents r' ≡ contents r) × (r'.dsa ≡ r.dsa) × (t' ≡ t)
Settled fault max r t (wild_read, r', t') = decode_all r.dsa (take max (contents r)) ≡ none

take-length-take : {A : Type 0} (m : ℕ) (xs : List A) → take (length (take m xs)) xs ≡ take m xs
take-length-take zero xs = refl
take-length-take (suc m) [] = refl
take-length-take (suc m) (x ∷ xs) = ap (λ l. x ∷ l) (take-length-take m xs)

-- What a batch is, once it is collected.
record Collected (max : ℕ) (r r1 : Ring) (events : List Event) (base : ℕ) : Type 0 where
  which : events ≡ take max (contents r)
  from_head : base ≡ r1.read_head
  valid : IsValid (length events) r1
  same : contents r1 ≡ contents r
  same_dsa : r1.dsa ≡ r.dsa

drained_events :
    {max : ℕ} {r r1 : Ring} {events : List Event} {base : ℕ}
    → Collected max r r1 events base
    → take (length events) (contents r) ≡ events
drained_events {max} {r} c =
    ap (λ (l : List Event). take (length l) (contents r)) c.which
    ∙ take-length-take max (contents r)
    ∙ sym c.which

module _ (connect : Bool) (fault : ℕ → Bool) where
  aborted :
      (max : ℕ) (r r1 : Ring) (t : Tables) (events : List Event) (base : ℕ)
      → Collected max r r1 events base
      → Settled fault max r t (spi_error, abort_batch base (length events) r1, t)
  aborted max r r1 t events base c =
      let a = abort_lem (length events) c.valid in
      rw (c.from_head) (a.0, a.1 ∙ c.same, a.4 ∙ c.same_dsa, refl)

  released :
      (max : ℕ) (r r1 : Ring) (t t' : Tables) (events : List Event) (base : ℕ) (ops : List Op)
      → Collected max r r1 events base
      → decode_all r1.dsa events ≡ some ops
      → run_plans fault (dispatch_all ops no_vecs) t ≡ some t'
      → Settled fault max r t (drained (length events), release_batch base (length events) r1, t')
  released max r r1 t t' events base ops c de ru =
      let a = release_lem (length events) c.valid in
      rw (c.from_head) (
        a.0,
        a.1 ∙ ap (drop (length events)) c.same,
        a.2
            ∙ ap₂ (λ (x : Dsa) (l : List Event). x.freed ++ payloads (take (length events) l))
                c.same_dsa c.same,
        inr (ops, ap₂ decode_all (sym c.same_dsa) (drained_events c) ∙ de, ru),
      )

  persist-Settled :
      (max : ℕ) (r r1 : Ring) (t : Tables) (events : List Event) (base : ℕ)
      → Collected max r r1 events base
      → Settled fault max r t (persist connect fault events base r1 t)
  unfolding persist payloads
  persist-Settled max r r1 t events base c = elim (Bool-cases (length events == 0)) [
    | inl z ↦
        let n : length events ≡ 0 = ground arith in
        rw z (
          subst (λ k. IsValid k r1) n c.valid,
          c.same,
          ap (λ (x : Dsa). x.freed) c.same_dsa ∙ sym (append-nil r.dsa.freed),
          inl (refl, refl),
        )
    | inr z ↦ rw z (elim (Bool-cases connect) [
      | inr off ↦ rw off (aborted max r r1 t events base c)
      | inl on ↦ rw on (elim (Option-cases (decode_all r1.dsa events)) [
        | inl bad ↦ rw bad (ap₂ decode_all (sym c.same_dsa) (sym c.which) ∙ bad)
        | inr (ops, de) ↦
            rw de (elim (Option-cases (run_plans fault (dispatch_all ops no_vecs) t)) [
              | inl fails ↦ rw fails (aborted max r r1 t events base c)
              | inr (t', ru) ↦ rw ru (released max r r1 t t' events base ops c de ru)
            ])
      ])
    ])
  ]

  -- A drain of a valid ring with no batch out, whatever the connection and the plans do: the drained
  -- events are in the tables and have left the ring, which is valid again, each spilled payload
  -- freed once; or, in the error cases, the queue and the tables are as they were; or an event's
  -- payload is gone. A batch is the first `batch_max` events at most.
  pub async_drain-Settled :
      (enabled : Bool) (max_events : ℤ) {r : Ring} (t : Tables)
      → IsValid 0 r
      → Settled fault (batch_max max_events) r t (async_drain connect fault enabled max_events r t)
  unfolding async_drain payloads
  async_drain-Settled false max_events {r} t v =
      (v, refl, sym (append-nil r.dsa.freed), inl (refl, refl))
  async_drain-Settled true max_events {r} t v =
      let c = collect_lem (batch_max max_events) v in
      persist-Settled (batch_max max_events) r _ t _ _
        (record { which = c.0; from_head = c.1 ∙ sym c.4; valid = c.2; same = c.3; same_dsa = c.6 })

  persist-drains :
      (r1 : Ring) (t t' : Tables) (events : List Event) (base : ℕ) (ops : List Op)
      → connect ≡ true
      → decode_all r1.dsa events ≡ some ops
      → run_plans fault (dispatch_all ops no_vecs) t ≡ some t'
      → (persist connect fault events base r1 t).0 ≡ drained (length events)
  unfolding persist
  persist-drains r1 t t' events base ops on de ru = elim (Bool-cases (length events == 0)) [
    | inl z ↦ let n : 0 ≡ length events = ground arith in rw z (ap drained n)
    | inr z ↦ rw z (rw on (rw de (rw ru refl)))
  ]

  -- A drain that connects, of events whose payloads are there and whose batch the tables accept,
  -- does drain: the whole queue or `batch_max` events, if that is less.
  pub async_drain-drains :
      (max_events : ℤ) {r : Ring} (t t' : Tables) (ops : List Op)
      → IsValid 0 r
      → connect ≡ true
      → decode_all r.dsa (take (batch_max max_events) (contents r)) ≡ some ops
      → run_plans fault (dispatch_all ops no_vecs) t ≡ some t'
      → (async_drain connect fault true max_events r t).0
        ≡ drained (min (batch_max max_events) (length (contents r)))
  unfolding async_drain
  async_drain-drains max_events {r} t t' ops v on de ru =
      let c = collect_lem (batch_max max_events) v in
      persist-drains _ t t' _ _ ops on (ap₂ decode_all c.6 c.0 ∙ de) ru
      ∙ ap (λ (l : List Event). drained (length l)) c.0
      ∙ ap drained (length-take (batch_max max_events) (contents r))
