-- ===== src/Ring/Flush.antt =====
-- `drop_all_pending`, which FLUSHALL calls, alone and while a batch is being drained.
use native.Mathlib.Decide.{dec_lt}
use pg_redis.Base.{
  inl, inr, ◌⊎◌, ℕ, zero, suc, ◌+◌, ◌-◌, ◌%◌, ◌^◌, ◌<◌, ◌≤◌, ◌≡◌, refl, ap, ap₂, sym, ◌∙◌, true,
  false, ◌||◌, List, [], ◌++◌, arith, length, length-set, get_or-set_ne, ltb,
}
use pg_redis.Event.{Event}
use pg_redis.Ring.{
  Ring, slot_ready, slot_draining, slot_empty, state_eq, blank, slot_at, u64, unusable, pending,
}
use pg_redis.Ring.Slots.{
  over, once, window, window_ext, length-over, over_in, over_after, mod-ne, length-window,
}
use pg_redis.Ring.Valid.{IsValid, contents, usable}
use pg_redis.Ring.Release.{
  cleared, free_one, free_all, emptied, payloads, over_recycled, release_run, release_step,
  freed-free_all,
}
use pg_redis.Ring.Consumer.{collect_loop, collect, release_batch, drop_loop, drop_all_pending}

-- From position `p` on, `n` slots are ready or draining.
abbrev Droppable : Ring → ℕ → ℕ → Type 0
Droppable r p n =
    (q : ℕ)
    → p ≤ q
    → q < p + n
    → ((slot_at r q).state ≡ slot_ready) ⊎ ((slot_at r q).state ≡ slot_draining)

drop_loop_lem :
    (n p : ℕ) (r : Ring)
    → 0 < r.capacity
    → length r.slots ≡ r.capacity
    → n ≤ r.capacity
    → Droppable r p n
    → drop_loop n p r ≡ (n, emptied r p n)
unfolding drop_loop over window free_all
drop_loop_lem zero p r h l f st = refl
drop_loop_lem (suc n) p r h l f st =
    let held : (state_eq (slot_at r p).state slot_ready
          || state_eq (slot_at r p).state slot_draining)
        ≡ true =
      ground (arith, st p (omega arith) (omega arith)) in
    rw held (
      ap (λ (x : ℕ × Ring). (x.0 + 1, x.1))
        (ap (drop_loop n (p + 1)) (release_step r p h l)
          ∙ drop_loop_lem n (p + 1) r1 h (length-set r.slots _ _ ∙ l) (omega arith) (λ q a b.
            rw
              (get_or-set_ne r.slots (p % r.capacity) (q % r.capacity) (cleared (slot_at r p)) blank
                (mod-ne r.capacity p q (omega arith) (omega arith)))
              (st q (omega arith) (omega arith)))
          ∙ ap
              (λ (l : List Event). (
                n,
                record r {
                  slots = over cleared r.capacity (once cleared r.capacity r.slots p) (p + 1) n;
                  dsa = free_all l (free_one (slot_at r p).event r.dsa);
                },
              ))
              (window_ext r.capacity r.slots _ (p + 1) n (λ x a b.
                ap (λ s. s.event)
                  (get_or-set_ne r.slots (p % r.capacity) (x % r.capacity) _ blank
                    (mod-ne r.capacity p x (omega arith) (omega arith))))))
      ∙ ap (λ k. (k, emptied r p (suc n))) one)
  where
    one : n + 1 ≡ suc n
    one = omega arith

    r1 : Ring
    r1 = record r {
      slots = once cleared r.capacity r.slots p;
      dsa = free_one (slot_at r p).event r.dsa;
    }

module _ {d : ℕ} {r : Ring} (v : IsValid d r) where
  abbrev count : ℕ
  count = r.write_head - r.read_head

  droppable : Droppable r r.read_head count
  droppable q a b = elim (dec_lt q (r.read_head + d)) [
    | yes h ↦ inr (v.drained q a h)
    | no h ↦ inl (v.ready q (omega arith) (omega arith))
  ]

  drop_eq :
      drop_all_pending r
      ≡ (count, record (emptied r r.read_head count) { read_head = r.write_head })
  unfolding drop_all_pending
  drop_eq = rw (usable v) (
      rw (drop_loop_lem count r.read_head r v.room v.sized (omega arith) droppable)
        (elim (dec_lt 0 count) [
          | yes h ↦
              let some_left : ltb 0 count ≡ true = ground arith in
              let end : u64 (r.read_head + count) ≡ r.write_head = omega arith in
              rw some_left (ap (λ k. (count, record after { read_head = k })) end)
          | no h ↦
              let none_left : ltb 0 count ≡ false = ground arith in
              let nothing : 0 ≡ count = omega arith in
              let end : r.read_head ≡ r.write_head = omega arith in
              rw none_left (ap₂ (λ (n k : ℕ). (n, record after { read_head = k })) nothing end)
        ]))
    where
      after : Ring
      after = emptied r r.read_head count

  drop_IsValid : IsValid 0 (record (emptied r r.read_head count) { read_head = r.write_head })
  drop_IsValid = record {
    live = v.live;
    room = v.room;
    sized = length-over cleared r.capacity r.slots r.read_head count ∙ v.sized;
    taken = omega arith;
    bounded = omega arith;
    far = v.far;
    drained = λ p a b. absurd (omega arith);
    ready = λ p a b. absurd (omega arith);
    free = λ p a b. emptied_slot p (omega arith) b;
    boundary = λ a. elim (dec_lt r.write_head (r.read_head + r.capacity)) [
      | yes h ↦
          rw (over_after cleared r.capacity r.slots r.read_head count r.write_head (omega arith) h)
            (v.boundary h)
      | no h ↦ inl (
          over_recycled r.slots r.capacity r.read_head count r.write_head v.sized (omega arith)
            (omega arith) (omega (arith, v.room)))
    ];
  }
    where
      emptied_slot :
          (p : ℕ)
          → r.write_head < p
          → p < r.write_head + r.capacity
          → (slot_at (emptied r r.read_head count) p).state ≡ slot_empty
      emptied_slot p a b = elim (dec_lt p (r.read_head + r.capacity)) [
        | yes h ↦
            ap (λ s. s.state)
              (over_after cleared r.capacity r.slots r.read_head count p (omega arith) h)
            ∙ v.free p a h
        | no h ↦
            over_recycled r.slots r.capacity r.read_head count p v.sized (omega arith) (omega arith)
              (omega arith)
      ]

-- `drop_all_pending` on a valid ring drops every published event, with those of a batch that is
-- being drained, returns their number, frees exactly the chunks that they own, once each and in
-- order, and leaves a valid ring with an empty queue.
pub drop_all_pending_lem :
    {d : ℕ} {r : Ring}
    → IsValid d r
    → let (dropped, r') = drop_all_pending r in
      (dropped ≡ length (contents r))
      × IsValid 0 r'
      × (contents r' ≡ [])
      × (r'.dsa.freed ≡ r.dsa.freed ++ payloads (contents r))
unfolding window
drop_all_pending_lem {r = r} v = rw (drop_eq v) (
  sym (length-window r.capacity r.slots r.read_head (r.write_head - r.read_head)),
  drop_IsValid v,
  (let z : r.write_head - r.write_head ≡ 0 = omega arith in
      ap
        (window r.capacity
          (over cleared r.capacity r.slots r.read_head (r.write_head - r.read_head)) r.write_head)
        z),
  freed-free_all (contents r) r.dsa,
)

collect_none :
    (max : ℕ) (r : Ring)
    → r.attached ≡ true
    → 0 < r.capacity
    → r.read_head < 2 ^ 64
    → (slot_at r r.read_head).state ≡ slot_empty
    → collect max r ≡ ([], r.read_head, r)
unfolding collect collect_loop
collect_none zero r live room far e = ground arith
collect_none (suc max) r live room far e =
    let here : u64 (r.read_head + 0) ≡ r.read_head = omega arith in
    let u : unusable r ≡ false = ground arith in rw u (rw here (rw e (ground arith)))

-- FLUSHALL between the collecting and the release of a batch: where more events were published than
-- the batch holds, the release moves the read head back below the write head, to a slot that is
-- empty; `pending` counts events that no slot holds, and no drain collects anything.
pub release_after_drop :
    {d : ℕ} {r : Ring} (max : ℕ)
    → IsValid (suc d) r
    → r.read_head + suc d < r.write_head
    → let r' = release_batch r.read_head (suc d) (drop_all_pending r).1 in
      (r'.read_head ≡ r.read_head + suc d)
      × (pending r' ≡ r.write_head - (r.read_head + suc d))
      × (collect max r' ≡ ([], r'.read_head, r'))
unfolding pending
release_after_drop {d} {r} max v more = rw (drop_eq v) (
    rw (release_run r.read_head d dropped v.live v.room sized (omega arith) (omega arith))
      (refl, waiting, collect_none max after v.live v.room (omega arith) hole))
  where
    dropped : Ring
    dropped = record (emptied r r.read_head (r.write_head - r.read_head)) {
      read_head = r.write_head;
    }

    after : Ring
    after = record (emptied dropped r.read_head (suc d)) { read_head = r.read_head + suc d }

    sized : length dropped.slots ≡ dropped.capacity
    sized =
        length-over cleared r.capacity r.slots r.read_head (r.write_head - r.read_head) ∙ v.sized

    waiting : pending after ≡ r.write_head - (r.read_head + suc d)
    waiting = ground arith

    hole : (slot_at after (r.read_head + suc d)).state ≡ slot_empty
    hole =
        ap (λ s. s.state)
          (over_after cleared r.capacity dropped.slots r.read_head (suc d) (r.read_head + suc d)
              (omega arith) (omega arith)
            ∙ over_in cleared r.capacity r.slots r.read_head (r.write_head - r.read_head)
                (r.read_head + suc d) v.sized (omega arith) (omega arith) (omega arith))
