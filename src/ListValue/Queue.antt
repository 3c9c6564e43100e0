-- ===== src/ListValue/Queue.antt =====
-- A list against a double-ended queue of byte strings.
use pg_redis.Base.{
  suc, ◌+◌, ◌^◌, ◌<◌, ◌≡◌, refl, sym, ap, subst, ◌∙◌, Option, none, some, List, [], ◌∷◌, ◌++◌,
  length, Bytes, arith,
}
use pg_redis.ListValue.{
  Node, Chain, sizeof_node, new_node, list_create, list_lpush, list_rpush, list_lpop, list_rpop,
}
use pg_redis.ListValue.Push.{total, IsList, list_lpush-Pushes, list_rpush-Pushes}
use pg_redis.ListValue.Pop.{PopsTo, at_front, at_back, list_lpop-PopsTo, list_rpop-PopsTo}

pub data ListOp : Type 0 where
  lpush : Bytes → ListOp
  rpush : Bytes → ListOp
  lpop : ListOp
  rpop : ListOp

-- What an operation on a queue returns, and the queue after it.
unfoldable pub unsnoc : List Bytes → Option (List Bytes × Bytes)
unsnoc [] = none
unsnoc (x ∷ xs) = elim (unsnoc xs) [ none ↦ some ([], x) | some (ys, y) ↦ some (x ∷ ys, y) ]

unfoldable pub queue_step : ListOp → List Bytes → Option Bytes × List Bytes
queue_step (lpush v) q = (none, v ∷ q)
queue_step (rpush v) q = (none, q ++ (v ∷ []))
queue_step lpop [] = (none, [])
queue_step lpop (x ∷ q) = (some x, q)
queue_step rpop q = elim (unsnoc q) [ none ↦ (none, []) | some (ys, y) ↦ (some y, ys) ]

abbrev pub popped : Chain → Option (Bytes × Chain) → Option Bytes × Chain
popped l none = (none, l)
popped l (some (v, l')) = (some v, l')

-- The same operation of the code.
abbrev pub list_step : ListOp → Chain → Option Bytes × Chain
list_step (lpush v) l = (none, list_lpush l v)
list_step (rpush v) l = (none, list_rpush l v)
list_step lpop l = popped l (list_lpop l)
list_step rpop l = popped l (list_rpop l)

unfoldable pub values : List Node → List Bytes
values [] = []
values (n ∷ ns) = n.value ∷ values ns

-- The bytes of a list stay below 2 ^ 64.
abbrev pub HasRoom : ListOp → Chain → Type 0
HasRoom (lpush v) l = l.memory_usage + (sizeof_node + length v) < 2 ^ 64
HasRoom (rpush v) l = l.memory_usage + (sizeof_node + length v) < 2 ^ 64
HasRoom lpop l = Unit
HasRoom rpop l = Unit

values-append : (xs ys : List Node) → values (xs ++ ys) ≡ values xs ++ values ys
unfolding values
values-append [] ys = refl
values-append (x ∷ xs) ys = ap (λ (l : List Bytes). x.value ∷ l) (values-append xs ys)

pub values-length : (xs : List Node) → length (values xs) ≡ length xs
unfolding values
values-length [] = refl
values-length (x ∷ xs) = ap suc (values-length xs)

unsnoc-append : (xs : List Bytes) (x : Bytes) → unsnoc (xs ++ (x ∷ [])) ≡ some (xs, x)
unfolding unsnoc
unsnoc-append [] x = refl
unsnoc-append (y ∷ xs) x = rw (unsnoc-append xs x) refl

-- The result r of the code is the result q of the queue.
pub record Agrees (q : Option Bytes × List Bytes) (r : Option Bytes × Chain) : Type 0 where
  pub list : IsList r.1
  pub output : r.0 ≡ q.0
  pub contents : values r.1.nodes ≡ q.1
  pub counted : r.1.count ≡ length q.1

agree :
    (q : Option Bytes × List Bytes) (r : Option Bytes × Chain)
    → IsList r.1
    → r.0 ≡ q.0
    → values r.1.nodes ≡ q.1
    → Agrees q r
agree q r v o c = record {
  list = v;
  output = o;
  contents = c;
  counted = omega (arith, v.counted, values-length r.1.nodes, ap length c);
}

lpop-Agrees :
    (l : Chain) (r : Option (Bytes × Chain))
    → IsList l
    → PopsTo at_front l r
    → Agrees (queue_step lpop (values l.nodes)) (popped l r)
unfolding queue_step values
lpop-Agrees l none v e =
    subst (λ (q : Option Bytes × List Bytes). Agrees q (none, l))
      (sym (ap (λ (ns : List Node). queue_step lpop (values ns)) e))
      (agree (none, []) (none, l) v refl (ap values e))
lpop-Agrees l (some (x, l')) v p =
    subst (λ (q : Option Bytes × List Bytes). Agrees q (some x, l'))
      (sym (ap (λ (ns : List Node). queue_step lpop (values ns)) p.nodes))
      (agree (some p.node.value, values l'.nodes) (some x, l') p.list
        (ap (λ (b : Bytes). some b) p.popped) refl)

rpop-Agrees :
    (l : Chain) (r : Option (Bytes × Chain))
    → IsList l
    → PopsTo at_back l r
    → Agrees (queue_step rpop (values l.nodes)) (popped l r)
unfolding queue_step values unsnoc
rpop-Agrees l none v e =
    subst (λ (q : Option Bytes × List Bytes). Agrees q (none, l))
      (sym (ap (λ (ns : List Node). queue_step rpop (values ns)) e))
      (agree (none, []) (none, l) v refl (ap values e))
rpop-Agrees l (some (x, l')) v p =
    let run : queue_step rpop (values l.nodes) ≡ (some p.node.value, values l'.nodes) =
      ap (λ (ns : List Node). queue_step rpop (values ns)) p.nodes
      ∙ ap (queue_step rpop) (values-append l'.nodes (p.node ∷ []))
      ∙ rw (unsnoc-append (values l'.nodes) p.node.value, queue_step) refl in
    subst (λ (q : Option Bytes × List Bytes). Agrees q (some x, l')) (sym run)
      (agree (some p.node.value, values l'.nodes) (some x, l') p.list
        (ap (λ (b : Bytes). some b) p.popped) refl)

-- On a list with right counters and rising ordinals, each push and pop at either end returns what a
-- queue of the values returns, leaves the values that the queue has, and a length that counts them,
-- and the list that it leaves has right counters and rising ordinals, where its bytes stay below
-- 2 ^ 64.
pub list_step-Agrees :
    (op : ListOp) (l : Chain)
    → IsList l
    → HasRoom op l
    → Agrees (queue_step op (values l.nodes)) (list_step op l)
unfolding queue_step values
list_step-Agrees (lpush x) l v room =
    let p = list_lpush-Pushes l x v room in
    agree (none, x ∷ values l.nodes) (none, list_lpush l x) p.list refl (ap values p.nodes)
list_step-Agrees (rpush x) l v room =
    let p = list_rpush-Pushes l x v room in
    agree (none, values l.nodes ++ (x ∷ [])) (none, list_rpush l x) p.list refl
      (ap values p.nodes ∙ values-append l.nodes (new_node p.ord x ∷ []))
list_step-Agrees lpop l v room = lpop-Agrees l (list_lpop l) v (list_lpop-PopsTo l v)
list_step-Agrees rpop l v room = rpop-Agrees l (list_rpop l) v (list_rpop-PopsTo l v)

-- The list of `pg_redis_list_create`.
pub list_create-IsList : IsList list_create
unfolding total
list_create-IsList = record { counted = refl; charged = refl; fits = omega arith; ordered = refl }
