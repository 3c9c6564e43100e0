-- ===== src/Ring/Valid.antt =====
-- The invariant of the ring, and the queue that a ring stands for.
use pg_redis.Base.{
  ℕ, ◌+◌, ◌-◌, ◌%◌, ◌^◌, ◌<◌, ◌≤◌, ◌≡◌, refl, ◌⊎◌, true, false, List, arith, length,
  length-replicate, get_or-replicate,
}
use pg_redis.Event.{Event}
use pg_redis.Shmem.{Dsa}
use pg_redis.Ring.{
  Ring, slot_empty, slot_writing, slot_ready, slot_draining, blank, slot_at, init, unusable,
  pending, full,
}
use pg_redis.Ring.Slots.{window, length-window}

-- The first `d` positions from the read head are being drained, those up to the write head are
-- ready, and the other slots are empty, except that a producer may be writing the slot at the write
-- head. `far` keeps the positions below 2 ^ 64.
pub record IsValid (d : ℕ) (r : Ring) : Type 0 where
  pub live : r.attached ≡ true
  pub room : 0 < r.capacity
  pub sized : length r.slots ≡ r.capacity
  pub taken : r.read_head + d ≤ r.write_head
  pub bounded : r.write_head ≤ r.read_head + r.capacity
  pub far : r.write_head + r.capacity < 2 ^ 64
  pub drained :
      (p : ℕ) → r.read_head ≤ p → p < r.read_head + d → (slot_at r p).state ≡ slot_draining
  pub ready : (p : ℕ) → r.read_head + d ≤ p → p < r.write_head → (slot_at r p).state ≡ slot_ready
  pub free :
      (p : ℕ) → r.write_head < p → p < r.read_head + r.capacity → (slot_at r p).state ≡ slot_empty
  pub boundary :
      r.write_head < r.read_head + r.capacity
      → ((slot_at r r.write_head).state ≡ slot_empty)
        ⊎ ((slot_at r r.write_head).state ≡ slot_writing)

-- The published events that no drain has released, oldest first.
abbrev pub contents : Ring → List Event
contents r = window r.capacity r.slots r.read_head (r.write_head - r.read_head)

pub length-contents : (r : Ring) → length (contents r) ≡ r.write_head - r.read_head
length-contents r = length-window r.capacity r.slots r.read_head (r.write_head - r.read_head)

pub usable : {d : ℕ} {r : Ring} → IsValid d r → unusable r ≡ false
usable v = ground arith

-- A new ring of 1 to 2 ^ 63 slots is valid and holds nothing.
pub init-IsValid :
    (n : ℕ) (d : Dsa)
    → 0 < n
    → n < 2 ^ 63
    → IsValid 0 (init n d) × (length (contents (init n d)) ≡ 0)
unfolding init
init-IsValid n d h k = (
  record {
    live = refl;
    room = h;
    sized = length-replicate n blank;
    taken = omega arith;
    bounded = omega arith;
    far = omega arith;
    drained = λ p a b. absurd (omega arith);
    ready = λ p a b. absurd (omega arith);
    free = λ p a b. ground (arith, get_or-replicate n blank blank (p % n));
    boundary = λ a. ground (arith, get_or-replicate n blank blank (0 % n));
  },
  length-window n _ 0 0,
)

-- `pending` counts the events of a valid ring, and `full` says whether they fill it.
pub pending-length :
    {d : ℕ} {r : Ring}
    → IsValid d r
    → (pending r ≡ length (contents r))
      × ((full r ≡ true → length (contents r) ≡ r.capacity)
          × (length (contents r) ≡ r.capacity → full r ≡ true))
unfolding full
pending-length {d} {r} v = (
  ground (arith, length-contents r),
  (λ h. ground (arith, length-contents r), λ h. ground (arith, length-contents r)),
)
