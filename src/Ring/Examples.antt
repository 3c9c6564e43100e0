-- ===== src/Ring/Examples.antt =====
-- The ring at concrete events: a ring of four slots, of which two are published, one is being
-- drained, or one is being written.
use pg_redis.Base.{
  ℕ, ◌+◌, ◌-◌, ◌≡◌, refl, ◌⊎◌, inr, ◌≢◌, Bool, true, false, none, [], ◌∷◌, ◌++◌, arith, length,
  take, drop, leb,
}
use pg_redis.Types.{type_string}
use pg_redis.Event.{Event, key_delete, header}
use pg_redis.Shmem.{Dsa}
use pg_redis.Ring.{Ring, slot_writing, slot_ready, slot_draining, slot_at, put_slot, init, pending}
use pg_redis.Ring.Slots.{window}
use pg_redis.Ring.Valid.{IsValid, contents, init-IsValid}
use pg_redis.Ring.Publish.{enqueued, enqueued-IsValid, publish_ok, Enqueues, publish-Enqueues}
use pg_redis.Ring.Collect.{marked, marked-IsValid, collect_lem}
use pg_redis.Ring.Release.{payloads, release_lem, abort_lem}
use pg_redis.Ring.Flush.{drop_all_pending_lem, release_after_drop}
use pg_redis.Ring.Reclaim.{reclaim_stuck_lem}
use pg_redis.Ring.Race.{stale_publish_lost}
use pg_redis.Ring.Producer.{
  publish, publish_loop, reserve, reserve_at, publish_reserved, commit, fill, publish_stale,
  ring_ok, ring_full, spinning,
}
use pg_redis.Ring.Consumer.{collect, release_batch, abort_batch, reclaim_stuck, drop_all_pending}

abbrev no_chunks : Dsa
no_chunks = record { chunk = λ p. none; freed = [] }

-- The delete of a key of one byte, inline.
abbrev inline_event : Event
inline_event = record (header key_delete type_string 1) { inline_bytes = b'k' ∷ [] }

-- One that owns the chunk at 64.
abbrev spilled_event : Event
spilled_event = record (header key_delete type_string 1) { dsa_overflow = true; dsa_payload = 64 }

abbrev four : Ring
four = init 4 no_chunks

abbrev two_events : Ring
two_events = enqueued 6 spilled_event (enqueued 5 inline_event four)

two_events-IsValid : IsValid 0 two_events
unfolding init
two_events-IsValid =
    enqueued-IsValid 6 spilled_event
      (enqueued-IsValid 5 inline_event (init-IsValid 4 no_chunks (omega arith) (omega arith)).0
        (omega arith) (omega arith))
      (omega arith) (omega arith)

abbrev one_draining : Ring
one_draining = marked slot_draining two_events 0 1

one_draining-IsValid : IsValid 1 one_draining
unfolding init
one_draining-IsValid = marked-IsValid 1 two_events-IsValid (omega arith)

-- Events and a wrap: the publishing, draining and releasing of five events in four slots.
published_two : contents two_events ≡ inline_event ∷ spilled_event ∷ []
unfolding init window
published_two = refl

publish_ok_example :
    let (outcome, r') = publish 1 7 inline_event two_events in
    (outcome ≡ ring_ok)
    × IsValid 0 r'
    × (contents r' ≡ contents two_events ++ (inline_event ∷ []))
    × (r'.dsa ≡ two_events.dsa)
unfolding init
publish_ok_example = publish_ok 0 7 inline_event two_events-IsValid (omega arith) refl (omega arith)

collect_lem_example :
    let (events, base, r') = collect 1 two_events in
    (events ≡ take 1 (contents two_events))
    × (base ≡ two_events.read_head)
    × IsValid (length events) r'
    × (contents r' ≡ contents two_events)
    × (r'.read_head ≡ two_events.read_head)
    × (r'.write_head ≡ two_events.write_head)
    × (r'.dsa ≡ two_events.dsa)
collect_lem_example = collect_lem 1 two_events-IsValid

release_lem_example :
    let r' = release_batch one_draining.read_head 1 one_draining in
    IsValid 0 r'
    × (contents r' ≡ drop 1 (contents one_draining))
    × (r'.dsa.freed ≡ one_draining.dsa.freed ++ payloads (take 1 (contents one_draining)))
release_lem_example = release_lem 1 one_draining-IsValid

abort_lem_example :
    let r' = abort_batch one_draining.read_head 1 one_draining in
    IsValid 0 r'
    × (contents r' ≡ contents one_draining)
    × (r'.read_head ≡ one_draining.read_head)
    × (r'.write_head ≡ one_draining.write_head)
    × (r'.dsa ≡ one_draining.dsa)
abort_lem_example = abort_lem 1 one_draining-IsValid

drop_all_pending_lem_example :
    let (dropped, r') = drop_all_pending one_draining in
    (dropped ≡ length (contents one_draining))
    × IsValid 0 r'
    × (contents r' ≡ [])
    × (r'.dsa.freed ≡ one_draining.dsa.freed ++ payloads (contents one_draining))
drop_all_pending_lem_example = drop_all_pending_lem one_draining-IsValid

release_after_drop_example :
    let r' = release_batch one_draining.read_head 1 (drop_all_pending one_draining).1 in
    (r'.read_head ≡ one_draining.read_head + 1)
    × (pending r' ≡ one_draining.write_head - (one_draining.read_head + 1))
    × (collect 9 r' ≡ ([], r'.read_head, r'))
unfolding init
release_after_drop_example = release_after_drop 9 one_draining-IsValid (omega arith)

stale_publish_lost_example :
    let r1 = (publish 1 7 inline_event two_events).1 in
    let (events, base, r2) = collect 9 r1 in
    let r3 = release_batch base (length events) r2 in
    let (outcome, r4) =
      publish_stale two_events.write_head two_events.read_head 7 spilled_event r3 in
    (events ≡ contents two_events ++ (inline_event ∷ []))
    × (outcome ≡ ring_ok)
    × (contents r4 ≡ [])
    × (r4.write_head ≡ two_events.write_head + 1)
    × (r4.read_head ≡ two_events.write_head + 1)
    × ((slot_at r4 (two_events.write_head + two_events.capacity)).state ≡ slot_ready)
unfolding init
stale_publish_lost_example =
    stale_publish_lost 9 7 spilled_event inline_event two_events-IsValid (omega arith) (omega arith)
      refl (omega arith) (omega arith)

-- A ring of one slot, whose writer has stood still since time 5.
abbrev one_writing : Ring
one_writing =
    put_slot (init 1 no_chunks) 0
      (record { state = slot_writing; write_started_at = 5; event = inline_event })

one_writing-IsValid : IsValid 0 one_writing
unfolding init
one_writing-IsValid = record {
  live = refl;
  room = omega arith;
  sized = refl;
  taken = omega arith;
  bounded = omega arith;
  far = omega arith;
  drained = λ p a b. absurd (omega arith);
  ready = λ p a b. absurd (omega arith);
  free = λ p a b. absurd (omega arith);
  boundary = λ h. inr refl;
}

abbrev exceeds : ℕ → ℕ → ℕ → Bool
exceeds since now ms = leb ms (now - since)

-- The same ring, where the writer has published: it is full.
abbrev one_event : Ring
one_event = enqueued 5 inline_event (init 1 no_chunks)

one_event-IsValid : IsValid 0 one_event
unfolding init
one_event-IsValid =
    enqueued-IsValid 5 inline_event (init-IsValid 1 no_chunks (omega arith) (omega arith)).0
      (omega arith) (omega arith)

publish_outcomes :
    ((publish 1 7 inline_event two_events).0 ≡ ring_ok)
    × ((publish 1 7 inline_event one_event).0 ≡ ring_full)
    × ((publish 1 7 inline_event one_writing).0 ≡ spinning)
unfolding init publish publish_loop reserve reserve_at publish_reserved commit fill
publish_outcomes = (refl, refl, refl)

publish-Enqueues_example : Enqueues 0 inline_event one_event (publish 1 7 inline_event one_event)
unfolding init
publish-Enqueues_example = publish-Enqueues 0 7 inline_event one_event-IsValid (omega arith)

reclaim_stuck_lem_example :
    let (n, r') = reclaim_stuck exceeds 3 9 one_writing in
    IsValid 0 r'
    × (contents r' ≡ contents one_writing)
    × (((slot_at one_writing one_writing.write_head).state ≡ slot_writing
          × (exceeds (slot_at one_writing one_writing.write_head).write_started_at 9 3 ≡ true)
          × (n ≡ 1)
          × ((publish 1 10 inline_event r').0 ≡ ring_ok))
        ⊎ ((((slot_at one_writing one_writing.write_head).state ≢ slot_writing)
              ⊎ (exceeds (slot_at one_writing one_writing.write_head).write_started_at 9 3 ≡ false))
            × (n ≡ 0)
            × (r' ≡ one_writing)))
unfolding init
reclaim_stuck_lem_example =
    reclaim_stuck_lem exceeds 3 9 0 10 inline_event one_writing-IsValid (omega arith)
