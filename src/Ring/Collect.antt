-- ===== src/Ring/Collect.antt =====
-- Collecting a batch from the ring.
use native.Mathlib.Decide.{dec_lt}
use pg_redis.Base.{
  ℕ, zero, suc, ◌+◌, ◌-◌, ◌%◌, ◌^◌, ◌<◌, ◌≤◌, ◌≡◌, refl, ap, ap₂, sym, ◌∙◌, List, [], ◌∷◌, arith,
  min, length, take, length-set, get_or-set_self, get_or-set_ne,
}
use pg_redis.Event.{Event}
use pg_redis.Ring.{Ring, Slot, SlotState, slot_ready, slot_draining, blank, slot_at, set_state, u64}
use pg_redis.Ring.Slots.{
  over, once, window, window_ext, take-window, length-window, length-over, over_in, over_after,
  over_before, mod-ne,
}
use pg_redis.Ring.Valid.{IsValid, contents, usable}
use pg_redis.Ring.Consumer.{collect_loop, collect}

-- The slot with another state.
abbrev pub mark : SlotState → Slot → Slot
mark st s = record s { state = st }

abbrev pub marked : SlotState → Ring → ℕ → ℕ → Ring
marked st r p n = record r { slots = over (mark st) r.capacity r.slots p n }

pub set_state-once :
    (r : Ring) (p : ℕ) (st : SlotState)
    → set_state r p st ≡ record r { slots = once (mark st) r.capacity r.slots p }
unfolding set_state
set_state-once r p st = refl

collect_done :
    (left c rh wh : ℕ) (r : Ring) → wh ≤ u64 (rh + c) → collect_loop left c rh wh r ≡ ([], r)
unfolding collect_loop
collect_done zero c rh wh r h = refl
collect_done (suc left) c rh wh r h = ground arith

collect_step :
    (left c rh wh : ℕ) (r : Ring) (p : ℕ)
    → u64 (rh + c) ≡ p
    → p < wh
    → (slot_at r p).state ≡ slot_ready
    → collect_loop (suc left) c rh wh r ≡ (
        let (rest, r') = collect_loop left (c + 1) rh wh (set_state r p slot_draining) in
        ((slot_at (set_state r p slot_draining) p).event ∷ rest, r'))
unfolding collect_loop
collect_step left c rh wh r p e h st = ground arith

-- `k` ready events are left from position `p` on.
record Collectable (p k : ℕ) (r : Ring) : Type 0 where
  room : 0 < r.capacity
  sized : length r.slots ≡ r.capacity
  fits : k ≤ r.capacity
  far : p + k < 2 ^ 64
  ready : (q : ℕ) → p ≤ q → q < p + k → (slot_at r q).state ≡ slot_ready

Collectable-next :
    {p k : ℕ} {r : Ring}
    → Collectable p (suc k) r
    → Collectable (p + 1) k (marked slot_draining r p 1)
unfolding over
Collectable-next {p} {k} {r} v = record {
  room = v.room;
  sized = length-set r.slots _ _ ∙ v.sized;
  fits = omega arith;
  far = omega arith;
  ready = λ q a b.
      ap (λ s. s.state)
        (get_or-set_ne r.slots (p % r.capacity) (q % r.capacity) _ blank
          (mod-ne r.capacity p q (omega arith) (omega arith)))
      ∙ v.ready q (omega arith) (omega arith);
}

abbrev batch : Ring → ℕ → ℕ → List Event × Ring
batch r p m = (window r.capacity r.slots p m, marked slot_draining r p m)

batch-suc :
    (r : Ring) (p k m : ℕ)
    → Collectable p (suc k) r
    → m ≤ k
    → (let (rest, r') = batch (marked slot_draining r p 1) (p + 1) m in
        ((slot_at (marked slot_draining r p 1) p).event ∷ rest, r'))
      ≡ batch r p (suc m)
unfolding over window
batch-suc r p k m v h =
    ap₂ (λ (e : Event) (l : List Event). (e ∷ l, marked slot_draining r p (suc m)))
      (ap (λ s. s.event)
        (get_or-set_self r.slots (p % r.capacity) _ blank (omega (arith, v.sized, v.room))))
      (window_ext r.capacity r.slots _ (p + 1) m (λ q a b.
        ap (λ s. s.event)
          (get_or-set_ne r.slots (p % r.capacity) (q % r.capacity) _ blank
            (mod-ne r.capacity p q (omega arith) (omega arith)))))

collect_loop_lem :
    (left k c rh wh p : ℕ) (r : Ring)
    → rh + c ≡ p
    → p + k ≡ wh
    → Collectable p k r
    → collect_loop left c rh wh r ≡ batch r p (min left k)
unfolding collect_loop over window set_state
collect_loop_lem zero k c rh wh p r e f v = let z : 0 ≡ min 0 k = omega arith in ap (batch r p) z
collect_loop_lem (suc left) zero c rh wh p r e f v =
    let z : 0 ≡ min (suc left) 0 = omega arith in
    collect_done (suc left) c rh wh r (omega arith) ∙ ap (batch r p) z
collect_loop_lem (suc left) (suc k) c rh wh p r e f v =
    let z : suc (min left k) ≡ min (suc left) (suc k) = omega arith in
    collect_step left c rh wh r p (omega arith) (omega arith)
      (v.ready p (omega arith) (omega arith))
    ∙ ap (λ (x : List Event × Ring). ((slot_at (marked slot_draining r p 1) p).event ∷ x.0, x.1))
        (collect_loop_lem left k (c + 1) rh wh (p + 1) (marked slot_draining r p 1) (omega arith)
          (omega arith) (Collectable-next v))
    ∙ batch-suc r p k (min left k) v (omega arith)
    ∙ ap (batch r p) z

pub collect_eq :
    (max : ℕ) {r : Ring}
    → IsValid 0 r
    → collect max r ≡ (
      window r.capacity r.slots r.read_head (min max (r.write_head - r.read_head)),
      r.read_head,
      marked slot_draining r r.read_head (min max (r.write_head - r.read_head)),
    )
unfolding collect
collect_eq max {r} v = rw (usable v) (
    ap (λ (x : List Event × Ring). (x.0, r.read_head, x.1))
      (collect_loop_lem max (r.write_head - r.read_head) 0 r.read_head r.write_head r.read_head r
        (omega arith) (omega arith)
        (record {
          room = v.room;
          sized = v.sized;
          fits = omega arith;
          far = omega arith;
          ready = λ q a b. v.ready q (omega arith) (omega arith);
        })))

pub marked-IsValid :
    {r : Ring} (m : ℕ)
    → IsValid 0 r
    → m ≤ r.write_head - r.read_head
    → IsValid m (marked slot_draining r r.read_head m)
marked-IsValid {r} m v h = record {
  live = v.live;
  room = v.room;
  sized = length-over f c r.slots r.read_head m ∙ v.sized;
  taken = omega arith;
  bounded = v.bounded;
  far = v.far;
  drained = λ p a b.
      ap (λ s. s.state)
        (over_in f c r.slots r.read_head m p v.sized (omega arith) (omega arith) (omega arith));
  ready = λ p a b.
      ap (λ s. s.state) (over_after f c r.slots r.read_head m p (omega arith) (omega arith))
      ∙ v.ready p (omega arith) (omega arith);
  free = λ p a b.
      ap (λ s. s.state) (over_after f c r.slots r.read_head m p (omega arith) (omega arith))
      ∙ v.free p (omega arith) (omega arith);
  boundary = λ a.
      rw (over_after f c r.slots r.read_head m r.write_head (omega arith) (omega arith))
        (v.boundary a);
}
  where
    f : Slot → Slot
    f = mark slot_draining

    c : ℕ
    c = r.capacity

-- What a run of state changes leaves of the events.
pub contents-marked :
    (st : SlotState) (r : Ring) (p m : ℕ)
    → length r.slots ≡ r.capacity
    → r.write_head ≤ r.read_head + r.capacity
    → r.read_head ≤ p
    → p + m ≤ r.write_head
    → contents (marked st r p m) ≡ contents r
contents-marked st r p m l b h k =
    window_ext r.capacity r.slots _ r.read_head (r.write_head - r.read_head) (λ q a d.
      elim (dec_lt q p) [
        | yes e ↦ ap (λ s. s.event) (over_before (mark st) r.capacity r.slots p m q e (omega arith))
        | no e ↦ elim (dec_lt q (p + m)) [
          | yes g ↦
              ap (λ s. s.event)
                (over_in (mark st) r.capacity r.slots p m q l (omega arith) (omega arith) g)
          | no g ↦
              ap (λ s. s.event)
                (over_after (mark st) r.capacity r.slots p m q (omega arith) (omega arith))
        ]
      ])

-- Collecting from a ring with no batch out returns the oldest `max` events in order and the read
-- head as their base, marks just their slots as draining, moves neither head, and frees nothing.
pub collect_lem :
    (max : ℕ) {r : Ring}
    → IsValid 0 r
    → let (events, base, r') = collect max r in
      (events ≡ take max (contents r))
      × (base ≡ r.read_head)
      × IsValid (length events) r'
      × (contents r' ≡ contents r)
      × (r'.read_head ≡ r.read_head)
      × (r'.write_head ≡ r.write_head)
      × (r'.dsa ≡ r.dsa)
collect_lem max {r} v =
    let m : ℕ = min max (r.write_head - r.read_head) in
    let w : List Event = window r.capacity r.slots r.read_head m in
    rw (collect_eq max v) (
      sym (take-window r.capacity r.slots r.read_head (r.write_head - r.read_head) max),
      refl,
      rw (length-window r.capacity r.slots r.read_head m) (marked-IsValid m v (omega arith)),
      contents-marked slot_draining r r.read_head m v.sized v.bounded (omega arith) (omega arith),
      refl,
      refl,
      refl,
    )
