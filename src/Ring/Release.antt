-- ===== src/Ring/Release.antt =====
-- Releasing a batch after the durable write, or returning it after a failure.
use native.Mathlib.Decide.{dec_lt}
use native.Mathlib.Nat.{mod-eq-sub-mod}
use pg_redis.Base.{
  inl, inr, Bool-cases, append-nil, append_assoc, set-set, ℕ, zero, suc, ◌+◌, ◌-◌, ◌%◌, ◌^◌, ◌<◌,
  ◌≤◌, ◌≡◌, refl, ap, sym, ◌∙◌, Bool, true, false, not, ◌&&◌, List, [], ◌∷◌, ◌++◌, arith, min,
  length, take, drop, get_or, set, length-set, get_or-set_self, get_or-set_ne, ◌==◌, if◌then◌else◌,
}
use pg_redis.Event.{Event}
use pg_redis.Shmem.{Dsa, shared_pfree, invalid_dsa_pointer}
use pg_redis.Ring.{
  Ring, Slot, SlotState, slot_ready, slot_empty, blank, slot_at, set_state, u64, unusable,
  free_slot_spill,
}
use pg_redis.Ring.Slots.{
  over, once, window, window_ext, take-window, drop-window, length-over, over_in, over_after,
  mod-ne,
}
use pg_redis.Ring.Valid.{IsValid, contents, usable}
use pg_redis.Ring.Collect.{mark, marked, contents-marked, set_state-once}
use pg_redis.Ring.Consumer.{abort_loop, abort_batch, release_loop, release_batch}

-- Whether an event owns a chunk of shared memory.
abbrev pub owns : Event → Bool
owns e = e.dsa_overflow && not (e.dsa_payload == invalid_dsa_pointer)

-- The chunks that events own, in order.
unfoldable pub payloads : List Event → List ℕ
payloads [] = []
payloads (e ∷ es) = if owns e then e.dsa_payload ∷ payloads es else payloads es

abbrev pub disown : Event → Event
disown e =
    if owns e then record e { dsa_payload = invalid_dsa_pointer; dsa_overflow = false } else e

abbrev pub cleared : Slot → Slot
cleared s = record s { state = slot_empty; event = disown s.event }

abbrev pub free_one : Event → Dsa → Dsa
free_one e d = if owns e then shared_pfree e.dsa_payload d else d

unfoldable pub free_all : List Event → Dsa → Dsa
free_all [] d = d
free_all (e ∷ es) d = free_all es (free_one e d)

freed-free_one :
    (e : Event) (d : Dsa)
    → (free_one e d).freed ≡ (if owns e then d.freed ++ (e.dsa_payload ∷ []) else d.freed)
unfolding shared_pfree
freed-free_one e d = ground arith

pub freed-free_all : (es : List Event) (d : Dsa) → (free_all es d).freed ≡ d.freed ++ payloads es
unfolding free_all payloads
freed-free_all [] d = sym (append-nil d.freed)
freed-free_all (e ∷ es) d = freed-free_all es (free_one e d) ∙ elim (Bool-cases (owns e)) [
  | inl h ↦ rw (freed-free_one e d) (rw h (append_assoc d.freed (e.dsa_payload ∷ []) (payloads es)))
  | inr h ↦ rw (freed-free_one e d) (rw h)
]

abbrev pub emptied : Ring → ℕ → ℕ → Ring
emptied r p n = record r {
  slots = over cleared r.capacity r.slots p n;
  dsa = free_all (window r.capacity r.slots p n) r.dsa;
}

set_state-set :
    (r : Ring) (p : ℕ) (s : Slot) (d : Dsa) (st : SlotState)
    → 0 < r.capacity
    → length r.slots ≡ r.capacity
    → set_state (record r { slots = set r.slots (p % r.capacity) s; dsa = d }) p st
      ≡ record r { slots = set r.slots (p % r.capacity) (record s { state = st }); dsa = d }
unfolding set_state
set_state-set r p s d st h l =
    ap (λ xs. record r { slots = xs; dsa = d })
      (ap
          (λ (t : Slot).
            set (set r.slots (p % r.capacity) s) (p % r.capacity) (record t { state = st }))
          (get_or-set_self r.slots (p % r.capacity) s blank (omega arith))
        ∙ set-set r.slots (p % r.capacity) s (record s { state = st }))

pub release_step :
    (r : Ring) (p : ℕ)
    → 0 < r.capacity
    → length r.slots ≡ r.capacity
    → set_state (free_slot_spill r p) p slot_empty ≡ record r {
      slots = once cleared r.capacity r.slots p;
      dsa = free_one (slot_at r p).event r.dsa;
    }
unfolding free_slot_spill
release_step r p h l = elim (Bool-cases (owns (slot_at r p).event)) [
  | inl e ↦ rw e (set_state-set r p _ _ slot_empty h l)
  | inr e ↦ rw e (set_state-once r p slot_empty)
]

pub release_loop_lem :
    (n i base p : ℕ) (r : Ring)
    → 0 < r.capacity
    → length r.slots ≡ r.capacity
    → n ≤ r.capacity
    → base + i ≡ p
    → p + n < 2 ^ 64
    → release_loop n i base r ≡ emptied r p n
unfolding release_loop over window free_all
release_loop_lem zero i base p r h l f e k = refl
release_loop_lem (suc n) i base p r h l f e k =
    let q : u64 (base + i) ≡ p = omega arith in
    rw q (
      rw (release_step r p h l) (
        release_loop_lem n (i + 1) base (p + 1) _ h (length-set r.slots _ _ ∙ l) (omega arith)
          (omega arith) (omega arith)
        ∙ ap
            (λ (l : List Event). record r {
              slots = over cleared r.capacity (once cleared r.capacity r.slots p) (p + 1) n;
              dsa = free_all l (free_one (slot_at r p).event r.dsa);
            })
            (window_ext r.capacity r.slots _ (p + 1) n (λ x a b.
              ap (λ s. s.event)
                (get_or-set_ne r.slots (p % r.capacity) (x % r.capacity) _ blank
                  (mod-ne r.capacity p x (omega arith) (omega arith)))))))

abort_loop_lem :
    (n i base p : ℕ) (r : Ring)
    → base + i ≡ p
    → p + n < 2 ^ 64
    → abort_loop n i base r ≡ marked slot_ready r p n
unfolding abort_loop over set_state
abort_loop_lem zero i base p r e k = refl
abort_loop_lem (suc n) i base p r e k =
    let q : u64 (base + i) ≡ p = omega arith in
    rw q
      (abort_loop_lem n (i + 1) base (p + 1) (set_state r p slot_ready) (omega arith) (omega arith))

-- What `release_batch` makes of any attached ring, whose read head need not be the base.
pub release_run :
    (base d : ℕ) (r : Ring)
    → r.attached ≡ true
    → 0 < r.capacity
    → length r.slots ≡ r.capacity
    → suc d ≤ r.capacity
    → base + suc d < 2 ^ 64
    → release_batch base (suc d) r ≡ record (emptied r base (suc d)) { read_head = base + suc d }
unfolding release_batch
release_run base d r live h l f k =
    let u : unusable r ≡ false = ground arith in
    let t : (suc d == 0) ≡ false = ground arith in
    let z : u64 (base + suc d) ≡ base + suc d = omega arith in
    rw u (
      rw t (
        ap (λ (x : Ring). record x { read_head = u64 (base + suc d) })
          (release_loop_lem (suc d) 0 base base r h l f (omega arith) k)
        ∙ ap (λ k. record (emptied r base (suc d)) { read_head = k }) z))

pub release_eq :
    (d : ℕ) {r : Ring}
    → IsValid d r
    → release_batch r.read_head d r
      ≡ record (emptied r r.read_head d) { read_head = r.read_head + d }
unfolding release_batch over window free_all
release_eq zero {r} v =
    let z : r.read_head ≡ r.read_head + 0 = omega arith in
    rw (usable v) (ap (λ k. record r { read_head = k }) z)
release_eq (suc d) {r} v =
    release_run r.read_head d r v.live v.room v.sized (omega arith) (omega arith)

-- The positions one round later share the slots that were emptied.
pub over_recycled :
    (xs : List Slot) (c h d p : ℕ)
    → length xs ≡ c
    → d ≤ c
    → h + c ≤ p
    → p < h + d + c
    → (get_or (over cleared c xs h d) (p % c) blank).state ≡ slot_empty
over_recycled xs c h d p l m a b =
    let e : p % c ≡ (p - c) % c = mod-eq-sub-mod {n = p} {m = c} (omega arith) in
    ap (λ k. (get_or (over cleared c xs h d) k blank).state) e
    ∙ ap (λ s. s.state) (over_in cleared c xs h d (p - c) l m (omega arith) (omega arith))

pub emptied-IsValid :
    (d : ℕ) {r : Ring}
    → IsValid d r
    → IsValid 0 (record (emptied r r.read_head d) { read_head = r.read_head + d })
emptied-IsValid d {r} v = record {
  live = v.live;
  room = v.room;
  sized = length-over cleared c r.slots r.read_head d ∙ v.sized;
  taken = omega arith;
  bounded = omega arith;
  far = v.far;
  drained = λ p a b. absurd (omega arith);
  ready = λ p a b.
      ap (λ s. s.state) (over_after cleared c r.slots r.read_head d p (omega arith) (omega arith))
      ∙ v.ready p (omega arith) b;
  free = λ p a b. elim (dec_lt p (r.read_head + c)) [
    | yes h ↦
        ap (λ s. s.state) (over_after cleared c r.slots r.read_head d p (omega arith) h)
        ∙ v.free p a h
    | no h ↦ recycled p (omega arith) (omega arith)
  ];
  boundary = λ a. elim (dec_lt r.write_head (r.read_head + c)) [
    | yes h ↦
        rw (over_after cleared c r.slots r.read_head d r.write_head (omega arith) h) (v.boundary h)
    | no h ↦ inl (recycled r.write_head (omega arith) (omega arith))
  ];
}
  where
    c : ℕ
    c = r.capacity

    recycled :
        (p : ℕ)
        → r.read_head + c ≤ p
        → p < r.read_head + d + c
        → (get_or (over cleared c r.slots r.read_head d) (p % c) blank).state ≡ slot_empty
    recycled p a b = over_recycled r.slots c r.read_head d p v.sized (omega arith) a b

-- Releasing the batch that is out makes the ring valid with no batch out, drops the events of the
-- batch from the queue and no other, and frees exactly the chunks that they own, once each and in
-- order.
pub release_lem :
    (d : ℕ) {r : Ring}
    → IsValid d r
    → let r' = release_batch r.read_head d r in
      IsValid 0 r'
      × (contents r' ≡ drop d (contents r))
      × (r'.dsa.freed ≡ r.dsa.freed ++ payloads (take d (contents r)))
release_lem d {r} v = rw (release_eq d v) (
  emptied-IsValid d v,
  window_ext r.capacity r.slots _ (r.read_head + d) _ (λ q a b.
        ap (λ s. s.event)
          (over_after cleared r.capacity r.slots r.read_head d q (omega arith) (omega arith)))
      ∙ ap (window r.capacity r.slots (r.read_head + d)) rest
      ∙ sym
          (drop-window r.capacity r.slots r.read_head (r.write_head - r.read_head) d (omega arith)),
  freed-free_all (window r.capacity r.slots r.read_head d) r.dsa
      ∙ ap (λ l. r.dsa.freed ++ payloads l)
          (ap (window r.capacity r.slots r.read_head) all
            ∙ sym (take-window r.capacity r.slots r.read_head (r.write_head - r.read_head) d)),
)
  where
    rest : r.write_head - (r.read_head + d) ≡ r.write_head - r.read_head - d
    rest = omega arith

    all : d ≡ min d (r.write_head - r.read_head)
    all = omega arith

abort_eq :
    (d : ℕ) {r : Ring}
    → IsValid d r
    → abort_batch r.read_head d r ≡ marked slot_ready r r.read_head d
unfolding abort_batch over
abort_eq zero {r} v = rw (usable v)
abort_eq (suc d) {r} v =
    let t : (suc d == 0) ≡ false = ground arith in
    rw (usable v)
      (rw t (abort_loop_lem (suc d) 0 r.read_head r.read_head r (omega arith) (omega arith)))

returned-IsValid : (d : ℕ) {r : Ring} → IsValid d r → IsValid 0 (marked slot_ready r r.read_head d)
returned-IsValid d {r} v = record {
  live = v.live;
  room = v.room;
  sized = length-over f c r.slots r.read_head d ∙ v.sized;
  taken = omega arith;
  bounded = v.bounded;
  far = v.far;
  drained = λ p a b. absurd (omega arith);
  ready = λ p a b. elim (dec_lt p (r.read_head + d)) [
    | yes h ↦
        ap (λ s. s.state)
          (over_in f c r.slots r.read_head d p v.sized (omega arith) (omega arith) h)
    | no h ↦
        ap (λ s. s.state) (over_after f c r.slots r.read_head d p (omega arith) (omega arith))
        ∙ v.ready p (omega arith) b
  ];
  free = λ p a b.
      ap (λ s. s.state) (over_after f c r.slots r.read_head d p (omega arith) (omega arith))
      ∙ v.free p a b;
  boundary = λ a.
      rw (over_after f c r.slots r.read_head d r.write_head (omega arith) (omega arith))
        (v.boundary a);
}
  where
    f : Slot → Slot
    f = mark slot_ready

    c : ℕ
    c = r.capacity

-- Returning the batch that is out makes the ring valid with no batch out, with the same events in
-- the same order, both heads where they were, and nothing freed.
pub abort_lem :
    (d : ℕ) {r : Ring}
    → IsValid d r
    → let r' = abort_batch r.read_head d r in
      IsValid 0 r'
      × (contents r' ≡ contents r)
      × (r'.read_head ≡ r.read_head)
      × (r'.write_head ≡ r.write_head)
      × (r'.dsa ≡ r.dsa)
abort_lem d {r} v = rw (abort_eq d v) (
  returned-IsValid d v,
  contents-marked slot_ready r r.read_head d v.sized v.bounded (omega arith) (omega arith),
  refl,
  refl,
  refl,
)
