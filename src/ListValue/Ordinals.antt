-- ===== src/ListValue/Ordinals.antt =====
-- Ordinals that rise from the head of a list to its tail.
use pg_redis.Base.{◌≡◌, ◌⊎◌, refl, sym, ap, subst, some, List, [], ◌∷◌, ◌++◌, arith, inl, inr}
use pg_redis.Base.Int.{ℤ, pos, negsuc, ◌<ℤ◌, ◌+ℤ◌, ◌-ℤ◌}
use pg_redis.ListValue.{Node, split_tail}

-- The nodes rise strictly from the ordinal lo to the ordinal hi.
unfoldable pub Rises : ℤ → List Node → ℤ → Type 0
Rises lo [] hi = ⊥
Rises lo (n ∷ []) hi = (n.ord ≡ lo) × (n.ord ≡ hi)
Rises lo (n ∷ m ∷ ns) hi = (n.ord ≡ lo) × (n.ord <ℤ m.ord) × Rises m.ord (m ∷ ns) hi

pub lt_pred : (a : ℤ) → (a -ℤ pos 1) <ℤ a
unfolding ◌-ℤ◌
lt_pred (pos n) = ground arith
lt_pred (negsuc n) = ground arith

pub lt_succ : (a : ℤ) → a <ℤ (a +ℤ pos 1)
unfolding ◌+ℤ◌
lt_succ (pos n) = ground arith
lt_succ (negsuc n) = ground arith

pub append-Rises :
    (lo hi : ℤ) (ns : List Node) (n : Node)
    → Rises lo ns hi
    → hi <ℤ n.ord
    → Rises lo (ns ++ (n ∷ [])) n.ord
unfolding Rises
append-Rises lo hi [] n h l = absurd h
append-Rises lo hi (m ∷ []) n h l = (h.0, subst (λ (x : ℤ). x <ℤ n.ord) (sym h.1) l, (refl, refl))
append-Rises lo hi (m ∷ k ∷ ns) n h l = (h.0, h.1, append-Rises k.ord hi (k ∷ ns) n h.2 l)

-- A list is empty, or has a tail.
pub Snoc-cases :
    (ns : List Node) → (ns ≡ []) ⊎ ((front : List Node) × (n : Node) × (ns ≡ front ++ (n ∷ [])))
Snoc-cases [] = inl refl
Snoc-cases (m ∷ ns) = elim (Snoc-cases ns) [
  | inl e ↦ inr ([], m, ap (λ (l : List Node). m ∷ l) e)
  | inr (front, n, e) ↦ inr (m ∷ front, n, ap (λ (l : List Node). m ∷ l) e)
]

pub split_tail-append : (ns : List Node) (n : Node) → split_tail (ns ++ (n ∷ [])) ≡ some (ns, n)
unfolding split_tail
split_tail-append [] n = refl
split_tail-append (m ∷ ns) n = rw (split_tail-append ns n) refl

pub init-Rises :
    (lo hi : ℤ) (ns : List Node) (m n : Node)
    → Rises lo ((ns ++ (m ∷ [])) ++ (n ∷ [])) hi
    → Rises lo (ns ++ (m ∷ [])) m.ord
unfolding Rises
init-Rises lo hi [] m n h = (h.0, refl)
init-Rises lo hi (k ∷ []) m n h = (h.0, h.1, (refl, refl))
init-Rises lo hi (k ∷ j ∷ ns) m n h = (h.0, h.1, init-Rises j.ord hi (j ∷ ns) m n h.2)
