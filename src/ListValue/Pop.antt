-- ===== src/ListValue/Pop.antt =====
-- The pops of a list: the value at an end, the rest as it was, and the invariant kept.
use pg_redis.Base.{
  ◌+◌, ◌<◌, ◌≡◌, refl, sym, ap, subst, ◌∙◌, Bool, true, Option, none, some, List, [], ◌∷◌, ◌++◌,
  length, length-append, Bytes, arith, inl, inr, ◌⊎◌,
}
use pg_redis.Base.Int.{ℤ}
use pg_redis.ListValue.{
  Node, Chain, sizeof_node, split_tail, list_lpop, list_rpop, shrunk, drained,
  record_pending_delete,
}
use pg_redis.ListValue.Ordinals.{Rises, Snoc-cases, split_tail-append, init-Rises}
use pg_redis.ListValue.Push.{total, total-append, Ordered, IsList, Rises-Ordered}

-- A list with nodes has ordinals.
Ordered-there :
    (init : Bool) (lo hi : ℤ) (ns : List Node)
    → 0 < length ns
    → Ordered init lo ns hi
    → (init ≡ true) × Rises lo ns hi
Ordered-there init lo hi [] l o = absurd (omega arith)
Ordered-there init lo hi (n ∷ ns) l o = o

-- The list l' is l without the node n, where `join` puts it back; the ordinal of a durable node is
-- recorded.
pub record Pops (join : Node → List Node → List Node) (l : Chain) (value : Bytes) (l' : Chain)
    : Type 0 where
  pub list : IsList l'
  pub node : Node
  pub nodes : l.nodes ≡ join node l'.nodes
  pub popped : value ≡ node.value
  pub ords : l'.pending_delete_ords ≡ record_pending_delete node l.pending_delete_ords

abbrev pub PopsTo : (Node → List Node → List Node) → Chain → Option (Bytes × Chain) → Type 0
PopsTo join l none = l.nodes ≡ []
PopsTo join l (some (value, l')) = Pops join l value l'

abbrev pub at_front : Node → List Node → List Node
at_front n ns = n ∷ ns

abbrev pub at_back : Node → List Node → List Node
at_back n ns = ns ++ (n ∷ [])

front_cases :
    (ns : List Node)
    → (ns ≡ [])
      ⊎ (((n : Node) × (ns ≡ n ∷ []))
          ⊎ ((n : Node) × (m : Node) × (r : List Node) × (ns ≡ n ∷ m ∷ r)))
front_cases [] = inl refl
front_cases (n ∷ []) = inr (inl (n, refl))
front_cases (n ∷ m ∷ r) = inr (inr (n, m, r, refl))

-- A pop of the only node.
drained-Pops :
    (join : Node → List Node → List Node) (l : Chain) (n : Node)
    → IsList l
    → join n [] ≡ n ∷ []
    → l.nodes ≡ n ∷ []
    → Pops join l n.value (shrunk n (drained l))
unfolding total
drained-Pops join l n v j e =
    let c = ap length e in
    let t = ap total e in
    record {
      list = record {
        counted = omega (arith, v.counted);
        charged = ground (arith, v.charged);
        fits = ground (arith, v.fits);
        ordered = refl;
      };
      node = n;
      nodes = e ∙ sym j;
      popped = refl;
      ords = refl;
    }

-- A pop of the head before another node.
front-Pops :
    (l : Chain) (n m : Node) (r : List Node)
    → IsList l
    → l.nodes ≡ n ∷ m ∷ r
    → Pops at_front l n.value (shrunk n (record l { nodes = m ∷ r; min_ord = m.ord }))
unfolding total Rises
front-Pops l n m r v e =
    let c = ap length e in
    let t = ap total e in
    let o =
      subst (λ (ns : List Node). Ordered l.ord_initialized l.min_ord ns l.max_ord) e v.ordered in
    record {
      list = record {
        counted = omega (arith, v.counted);
        charged = ground (arith, v.charged);
        fits = ground (arith, v.fits);
        ordered = (o.0, o.1.2);
      };
      node = n;
      nodes = e;
      popped = refl;
      ords = refl;
    }

-- A pop of the tail after another node.
back-Pops :
    (l : Chain) (front : List Node) (m n : Node)
    → IsList l
    → l.nodes ≡ (front ++ (m ∷ [])) ++ (n ∷ [])
    → Pops at_back l n.value (shrunk n (record l { nodes = front ++ (m ∷ []); max_ord = m.ord }))
unfolding total
back-Pops l front m n v e =
    let ns = front ++ (m ∷ []) in
    let c : length l.nodes ≡ length ns + 1 = ap length e ∙ length-append ns (n ∷ []) in
    let t : total l.nodes ≡ total ns + (sizeof_node + length n.value) =
      omega (arith, ap total e, total-append ns (n ∷ [])) in
    let full : length ns ≡ length front + 1 = length-append front (m ∷ []) in
    let there =
      Ordered-there l.ord_initialized l.min_ord l.max_ord l.nodes (omega arith) v.ordered in
    record {
      list = record {
        counted = omega (arith, v.counted);
        charged = ground (arith, v.charged);
        fits = ground (arith, v.fits);
        ordered = Rises-Ordered l.ord_initialized l.min_ord m.ord ns there.0 (
            init-Rises l.min_ord l.max_ord front m n
              (subst (λ (xs : List Node). Rises l.min_ord xs l.max_ord) e there.1));
      };
      node = n;
      nodes = e;
      popped = refl;
      ords = refl;
    }

pub list_rpop-PopsTo : (l : Chain) → IsList l → PopsTo at_back l (list_rpop l)
unfolding list_rpop split_tail
list_rpop-PopsTo l v = elim (Snoc-cases l.nodes) [
  | inl e ↦
      let run : list_rpop l ≡ none = rw (e, list_rpop) refl in subst (PopsTo at_back l) (sym run) e
  | inr (ns, n, e) ↦
      let last : split_tail l.nodes ≡ some (ns, n) = ap split_tail e ∙ split_tail-append ns n in
      elim (Snoc-cases ns) [
        | inl q ↦
            let run : list_rpop l ≡ some (n.value, shrunk n (drained l)) =
              rw (last, list_rpop) (rw q refl) in
            subst (PopsTo at_back l) (sym run)
              (drained-Pops at_back l n v refl (e ∙ ap (λ (xs : List Node). xs ++ (n ∷ [])) q))
        | inr (front, m, q) ↦
            let before : split_tail ns ≡ some (front, m) =
              ap split_tail q ∙ split_tail-append front m in
            let run : list_rpop l
                ≡ some
                    (n.value, shrunk n (record l { nodes = front ++ (m ∷ []); max_ord = m.ord })) =
              rw (last, before, sym q, list_rpop) refl in
            subst (PopsTo at_back l) (sym run)
              (back-Pops l front m n v (e ∙ ap (λ (xs : List Node). xs ++ (n ∷ [])) q))
      ]
]

pub list_lpop-PopsTo : (l : Chain) → IsList l → PopsTo at_front l (list_lpop l)
unfolding list_lpop
list_lpop-PopsTo l v = elim (front_cases l.nodes) [
  | inl e ↦
      let run : list_lpop l ≡ none = rw (e, list_lpop) refl in subst (PopsTo at_front l) (sym run) e
  | inr (inl (n, e)) ↦
      let run : list_lpop l ≡ some (n.value, shrunk n (drained l)) = rw (e, list_lpop) refl in
      subst (PopsTo at_front l) (sym run) (drained-Pops at_front l n v refl e)
  | inr (inr (n, m, r, e)) ↦
      let run : list_lpop l
          ≡ some (n.value, shrunk n (record l { nodes = m ∷ r; min_ord = m.ord })) =
        rw (e, list_lpop) refl in
      subst (PopsTo at_front l) (sym run) (front-Pops l n m r v e)
]
