-- ===== src/Ring/Slots.antt =====
-- Positions and slots: which positions share a slot, what a run of slot updates changes, and the
-- events that a run of positions holds.
use pg_redis.Base.{
  ℕ, zero, suc, ◌+◌, ◌-◌, ◌%◌, ◌<◌, ◌≤◌, ◌≡◌, ◌≢◌, refl, ap, ap₂, ◌∙◌, List, [], ◌∷◌, ◌++◌, arith,
  length, get_or, set, take, drop, min, length-set, get_or-set_self, get_or-set_ne,
}
use native.Mathlib.Decide.{ℕ_discrete}
use pg_redis.Event.{Event}
use pg_redis.Ring.{Slot, blank}

-- Two positions less than the capacity apart have different slots.
pub mod-ne : (c p q : ℕ) → p < q → q < p + c → p % c ≢ q % c
mod-ne c p q h k e = grind arith

-- `f` applied to the slot at position `p`.
abbrev pub once : (Slot → Slot) → ℕ → List Slot → ℕ → List Slot
once f cap xs p = set xs (p % cap) (f (get_or xs (p % cap) blank))

-- The slots after `f` was applied at the `n` positions from `p` on.
unfoldable pub over : (Slot → Slot) → ℕ → List Slot → ℕ → ℕ → List Slot
over f cap xs p zero = xs
over f cap xs p (suc n) = over f cap (once f cap xs p) (p + 1) n

-- The events at the `n` positions from `p` on.
unfoldable pub window : ℕ → List Slot → ℕ → ℕ → List Event
window cap xs p zero = []
window cap xs p (suc n) = (get_or xs (p % cap) blank).event ∷ window cap xs (p + 1) n

module _ (f : Slot → Slot) (cap : ℕ) where
  pub length-over : (xs : List Slot) (p n : ℕ) → length (over f cap xs p n) ≡ length xs
  unfolding over
  length-over xs p zero = refl
  length-over xs p (suc n) = length-over (once f cap xs p) (p + 1) n ∙ length-set xs _ _

  pub over_out :
      (xs : List Slot) (p n q : ℕ)
      → ((i : ℕ) → i < n → (p + i) % cap ≢ q % cap)
      → get_or (over f cap xs p n) (q % cap) blank ≡ get_or xs (q % cap) blank
  unfolding over
  over_out xs p zero q h = refl
  over_out xs p (suc n) q h =
      let first : p % cap ≢ q % cap =
        λ e. h 0 (omega arith) (ap (λ k. k % cap) (omega arith) ∙ e) in
      over_out (once f cap xs p) (p + 1) n q
        (λ i lt e. h (i + 1) (omega arith) (ap (λ k. k % cap) (omega arith) ∙ e))
      ∙ get_or-set_ne xs (p % cap) (q % cap) _ blank first

  pub over_before :
      (xs : List Slot) (p n q : ℕ)
      → q < p
      → p + n ≤ q + cap
      → get_or (over f cap xs p n) (q % cap) blank ≡ get_or xs (q % cap) blank
  over_before xs p n q h k =
      over_out xs p n q (λ i lt e. mod-ne cap q (p + i) (omega arith) (omega arith) (cc e))

  pub over_after :
      (xs : List Slot) (p n q : ℕ)
      → p + n ≤ q
      → q < p + cap
      → get_or (over f cap xs p n) (q % cap) blank ≡ get_or xs (q % cap) blank
  over_after xs p n q h k =
      over_out xs p n q (λ i lt e. mod-ne cap (p + i) q (omega arith) (omega arith) e)

  pub over_in :
      (xs : List Slot) (p n q : ℕ)
      → length xs ≡ cap
      → n ≤ cap
      → p ≤ q
      → q < p + n
      → get_or (over f cap xs p n) (q % cap) blank ≡ f (get_or xs (q % cap) blank)
  unfolding over
  over_in xs p zero q l m h k = absurd (omega arith)
  over_in xs p (suc n) q l m h k = elim (ℕ_discrete p q) [
    | yes e ↦ rw (← e) (
        over_before (once f cap xs p) (p + 1) n p (omega arith) (omega arith)
        ∙ get_or-set_self xs (p % cap) _ blank (omega arith))
    | no ne ↦
        over_in (once f cap xs p) (p + 1) n q (length-set xs _ _ ∙ l) (omega arith) (omega arith)
          (omega arith)
        ∙ ap f (
            get_or-set_ne xs (p % cap) (q % cap) _ blank
              (mod-ne cap p q (omega arith) (omega arith)))
  ]

module _ (cap : ℕ) where
  pub length-window : (xs : List Slot) (p n : ℕ) → length (window cap xs p n) ≡ n
  unfolding window
  length-window xs p zero = refl
  length-window xs p (suc n) = ap suc (length-window xs (p + 1) n)

  pub window_ext :
      (xs ys : List Slot) (p n : ℕ)
      → ((q : ℕ)
          → p ≤ q
          → q < p + n
          → (get_or ys (q % cap) blank).event ≡ (get_or xs (q % cap) blank).event)
      → window cap ys p n ≡ window cap xs p n
  unfolding window
  window_ext xs ys p zero h = refl
  window_ext xs ys p (suc n) h =
      ap₂ ◌∷◌ (h p (omega arith) (omega arith))
        (window_ext xs ys (p + 1) n (λ q a b. h q (omega arith) (omega arith)))

  pub take-window :
      (xs : List Slot) (p n k : ℕ) → take k (window cap xs p n) ≡ window cap xs p (min k n)
  unfolding window
  take-window xs p n zero = let e : 0 ≡ min 0 n = omega arith in ap (window cap xs p) e
  take-window xs p zero (suc k) = let e : 0 ≡ min (suc k) 0 = omega arith in ap (window cap xs p) e
  take-window xs p (suc n) (suc k) =
      ap (λ l. (get_or xs (p % cap) blank).event ∷ l) (take-window xs (p + 1) n k)
      ∙ ap (window cap xs p) {x = suc (min k n)} (omega arith)

  pub drop-window :
      (xs : List Slot) (p n k : ℕ)
      → k ≤ n
      → drop k (window cap xs p n) ≡ window cap xs (p + k) (n - k)
  unfolding window
  drop-window xs p n zero h = ap₂ (window cap xs) (omega arith) (omega arith)
  drop-window xs p zero (suc k) h = elim h [ ]
  drop-window xs p (suc n) (suc k) h =
      drop-window xs (p + 1) n k (omega arith) ∙ ap₂ (window cap xs) (omega arith) (omega arith)

  pub window_last :
      (xs : List Slot) (p n : ℕ)
      → window cap xs p (suc n)
        ≡ window cap xs p n ++ ((get_or xs ((p + n) % cap) blank).event ∷ [])
  unfolding window
  window_last xs p zero = ap (λ k. (get_or xs (k % cap) blank).event ∷ []) (omega arith)
  window_last xs p (suc n) =
      ap (λ l. (get_or xs (p % cap) blank).event ∷ l)
        (window_last xs (p + 1) n
          ∙ ap (λ k. window cap xs (p + 1) n ++ ((get_or xs (k % cap) blank).event ∷ []))
              (omega arith))
