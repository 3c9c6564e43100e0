-- ===== src/ListValue/Push.antt =====
-- The invariant of a list, with right counters and rising ordinals, and the pushes that keep it.
use pg_redis.Base.{
  ℕ, ◌+◌, ◌^◌, ◌<◌, ◌≡◌, refl, sym, subst, Bool, true, false, List, [], ◌∷◌, ◌++◌, length,
  length-append, if_true, if_false, Bytes, arith, inl, inr, Bool-cases,
}
use pg_redis.Base.Int.{ℤ, pos, ◌<ℤ◌, ◌+ℤ◌, ◌-ℤ◌}
use pg_redis.ListValue.{Node, Chain, sizeof_node, new_node, list_lpush, list_rpush}
use pg_redis.ListValue.Ordinals.{Rises, lt_pred, lt_succ, append-Rises}

-- The bytes of the nodes.
unfoldable pub total : List Node → ℕ
total [] = 0
total (n ∷ ns) = sizeof_node + length n.value + total ns

-- An empty list has no ordinals; else they rise from `min_ord` to `max_ord`.
abbrev pub Ordered : Bool → ℤ → List Node → ℤ → Type 0
Ordered init lo [] hi = init ≡ false
Ordered init lo (n ∷ ns) hi = (init ≡ true) × Rises lo (n ∷ ns) hi

pub record IsList (l : Chain) : Type 0 where
  pub counted : l.count ≡ length l.nodes
  pub charged : l.memory_usage ≡ total l.nodes
  pub fits : l.memory_usage < 2 ^ 64
  pub ordered : Ordered l.ord_initialized l.min_ord l.nodes l.max_ord

pub total-append : (xs ys : List Node) → total (xs ++ ys) ≡ total xs + total ys
unfolding total
total-append [] ys = omega arith
total-append (x ∷ xs) ys = omega (arith, total-append xs ys)

pub Ordered-Rises :
    (init : Bool) (lo hi : ℤ) (ns : List Node)
    → init ≡ true
    → Ordered init lo ns hi
    → Rises lo ns hi
Ordered-Rises init lo hi [] e o = cc
Ordered-Rises init lo hi (n ∷ ns) e o = o.1

Ordered-empty :
    (init : Bool) (lo hi : ℤ) (ns : List Node) → init ≡ false → Ordered init lo ns hi → ns ≡ []
Ordered-empty init lo hi [] e o = refl
Ordered-empty init lo hi (n ∷ ns) e o = let q = o.0 in cc

pub Rises-Ordered :
    (init : Bool) (lo hi : ℤ) (ns : List Node)
    → init ≡ true
    → Rises lo ns hi
    → Ordered init lo ns hi
unfolding Rises
Rises-Ordered init lo hi [] e r = absurd r
Rises-Ordered init lo hi (n ∷ ns) e r = (e, r)

cons-Rises :
    (lo hi : ℤ) (n : Node) (ns : List Node) → n.ord <ℤ lo → Rises lo ns hi → Rises n.ord (n ∷ ns) hi
unfolding Rises
cons-Rises lo hi n [] l r = absurd r
cons-Rises lo hi n (m ∷ []) l r = (refl, subst (λ (x : ℤ). n.ord <ℤ x) (sym r.0) l, (refl, r.1))
cons-Rises lo hi n (m ∷ k ∷ ns) l r =
    (refl, subst (λ (x : ℤ). n.ord <ℤ x) (sym r.0) l, (refl, r.1, r.2))

-- The list l' is l with a node of the value at the front, or at the back, to be inserted.
pub record Pushes (ns : ℤ → List Node) (l l' : Chain) : Type 0 where
  pub list : IsList l'
  pub ord : ℤ
  pub nodes : l'.nodes ≡ ns ord
  pub ords_kept : l'.pending_delete_ords ≡ l.pending_delete_ords

module _ (l : Chain) (value : Bytes) (v : IsList l)
    (room : l.memory_usage + (sizeof_node + length value) < 2 ^ 64) where
  pub list_lpush-Pushes : Pushes (λ o. new_node o value ∷ l.nodes) l (list_lpush l value)
  unfolding list_lpush total Rises
  list_lpush-Pushes = elim (Bool-cases l.ord_initialized) [
    | inl e ↦ subst (Pushes (λ o. new_node o value ∷ l.nodes) l) (sym (if_true _ _ e)) (record {
      list = record {
        counted = omega (arith, v.counted);
        charged = omega (arith, v.charged);
        fits = omega (arith, v.charged);
        ordered = (
          e,
          cons-Rises l.min_ord l.max_ord (new_node (l.min_ord -ℤ pos 1) value) l.nodes
              (lt_pred l.min_ord)
              (Ordered-Rises l.ord_initialized l.min_ord l.max_ord l.nodes e v.ordered),
        );
      };
      ord = l.min_ord -ℤ pos 1;
      nodes = refl;
      ords_kept = refl;
    })
    | inr e ↦ subst (Pushes (λ o. new_node o value ∷ l.nodes) l) (sym (if_false _ _ e)) (record {
      list = record {
        counted = omega (arith, v.counted);
        charged = omega (arith, v.charged);
        fits = omega (arith, v.charged);
        ordered = (
          refl,
          subst (λ (ns : List Node). Rises (pos 0) (new_node (pos 0) value ∷ ns) (pos 0))
              (sym (Ordered-empty l.ord_initialized l.min_ord l.max_ord l.nodes e v.ordered))
              (refl, refl),
        );
      };
      ord = pos 0;
      nodes = refl;
      ords_kept = refl;
    })
  ]

  -- What a node at the back adds.
  back_counted : (n : Node) → l.count + 1 ≡ length (l.nodes ++ (n ∷ []))
  back_counted n = omega (arith, v.counted, length-append l.nodes (n ∷ []))

  back_total :
      (o : ℤ)
      → total (l.nodes ++ (new_node o value ∷ [])) ≡ l.memory_usage + (sizeof_node + length value)
  unfolding total
  back_total o = omega (arith, v.charged, total-append l.nodes (new_node o value ∷ []))

  pub list_rpush-Pushes : Pushes (λ o. l.nodes ++ (new_node o value ∷ [])) l (list_rpush l value)
  unfolding list_rpush Rises
  list_rpush-Pushes = elim (Bool-cases l.ord_initialized) [
    | inl e ↦
        let n = new_node (l.max_ord +ℤ pos 1) value in
        subst (Pushes (λ o. l.nodes ++ (new_node o value ∷ [])) l) (sym (if_true _ _ e)) (record {
          list = record {
            counted = back_counted n;
            charged = omega (arith, back_total (l.max_ord +ℤ pos 1));
            fits = omega arith;
            ordered = Rises-Ordered l.ord_initialized l.min_ord n.ord (l.nodes ++ (n ∷ [])) e (
                append-Rises l.min_ord l.max_ord l.nodes n
                  (Ordered-Rises l.ord_initialized l.min_ord l.max_ord l.nodes e v.ordered)
                  (lt_succ l.max_ord));
          };
          ord = n.ord;
          nodes = refl;
          ords_kept = refl;
        })
    | inr e ↦
        let n = new_node (pos 0) value in
        subst (Pushes (λ o. l.nodes ++ (new_node o value ∷ [])) l) (sym (if_false _ _ e)) (record {
          list = record {
            counted = back_counted n;
            charged = omega (arith, back_total (pos 0));
            fits = omega arith;
            ordered = Rises-Ordered true (pos 0) (pos 0) (l.nodes ++ (n ∷ [])) refl (
                subst (λ (ns : List Node). Rises (pos 0) (ns ++ (n ∷ [])) (pos 0))
                  (sym (Ordered-empty l.ord_initialized l.min_ord l.max_ord l.nodes e v.ordered))
                  (refl, refl));
          };
          ord = pos 0;
          nodes = refl;
          ords_kept = refl;
        })
  ]
