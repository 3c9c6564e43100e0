-- ===== src/Command/Queues.antt =====
-- The commands of src/pg_redis.c on lists, against the queue of their values.
use pg_redis.Base.{
  ◌+◌, ◌^◌, ◌<◌, ◌≡◌, refl, sym, ◌∙◌, Bool, true, false, Option, none, some, List, [], ◌∷◌,
  if◌then◌else◌, length, Bytes, arith, Option-cases, inl, inr,
}
use pg_redis.Base.Int.{pos}
use pg_redis.Types.{Value, string_value, int_value, hash_value, list_value}
use pg_redis.HashValue.{Hash}
use pg_redis.ListValue.{Chain, list_create, list_lpop, list_rpop, sizeof_node, list_length}
use pg_redis.ListValue.Push.{IsList}
use pg_redis.ListValue.Queue.{
  lpush, rpush, lpop, rpop, Agrees, unsnoc, values-length, popped, queue_step, values,
  list_step-Agrees, list_create-IsList,
}
use pg_redis.Effect.{
  Effect, answers, writes, ok, int_reply, text_reply, push_to, push_value, on_list, pop_value,
  llen_value,
}
use pg_redis.Command.Contents.{
  queue, queue_of, content, Answer, with_queue, pushed, lpop_from, rpop_from,
}
use pg_redis.Command.Values.{IsSound, Matches, Creates, used, Creates-Matches}

push_to-Creates :
    (left : Bool) (v : Bytes) (l : Chain)
    → IsList l
    → l.memory_usage + (sizeof_node + length v) < 2 ^ 64
    → Creates (push_to left v l) (pushed left v (values l.nodes))
unfolding queue_step
push_to-Creates true v l sound room =
    let a = list_step-Agrees (lpush v) l sound room in (rw (a.counted, a.contents) refl, a.list)
push_to-Creates false v l sound room =
    let a = list_step-Agrees (rpush v) l sound room in (rw (a.counted, a.contents) refl, a.list)

pub push_value-Creates :
    (left : Bool) (v : Bytes) (old : Value Hash Chain)
    → sizeof_node + length v < 2 ^ 64
    → Creates (push_value left v true old) (pushed left v [])
unfolding push_value values
push_value-Creates left v old room =
    push_to-Creates left v list_create list_create-IsList (omega (arith, room))

pub push_value-Matches :
    (left : Bool) (v : Bytes) (old : Value Hash Chain)
    → IsSound old
    → used old + (sizeof_node + length v) < 2 ^ 64
    → Matches
        (push_value left v false old)
        (some (content old))
        (with_queue (pushed left v []) (pushed left v) (some (content old)))
unfolding push_value values
push_value-Matches left v (string_value s) sound room = refl
push_value-Matches left v (int_value n) sound room = refl
push_value-Matches left v (hash_value none) sound room = absurd sound
push_value-Matches left v (hash_value (some h)) sound room = refl
push_value-Matches left v (list_value none) sound room =
    Creates-Matches (push_to left v list_create) (some (queue [])) (pushed left v [])
      (push_to-Creates left v list_create list_create-IsList room)
push_value-Matches left v (list_value (some l)) sound room =
    Creates-Matches (push_to left v l) (some (queue (values l.nodes)))
      (pushed left v (values l.nodes)) (push_to-Creates left v l sound room)

-- The commands on a list.
on_list-Matches :
    (act : Option Chain → Effect) (spec : List Bytes → Answer) (absent : Answer)
    (v : Value Hash Chain)
    → IsSound v
    → ((l : Option Chain)
        → IsSound (list_value l)
        → Matches (act l) (some (queue (queue_of l))) (spec (queue_of l)))
    → Matches (on_list act v) (some (content v)) (with_queue absent spec (some (content v)))
on_list-Matches act spec absent (string_value s) sound m = refl
on_list-Matches act spec absent (int_value n) sound m = refl
on_list-Matches act spec absent (hash_value none) sound m = absurd sound
on_list-Matches act spec absent (hash_value (some h)) sound m = refl
on_list-Matches act spec absent (list_value l) sound m = m l sound

llen_lem : (l : Option Chain) → IsSound (list_value l) → list_length l ≡ length (queue_of l)
llen_lem none sound = refl
llen_lem (some l) sound = sound.counted ∙ sym (values-length l.nodes)

pub llen_value-Matches :
    (v : Value Hash Chain)
    → IsSound v
    → Matches (on_list llen_value v) (some (content v)) (
        with_queue
          (ok (int_reply (pos 0)), none)
          (λ q. (ok (int_reply (pos (length q))), some (queue q)))
          (some (content v)))
llen_value-Matches v sound =
    on_list-Matches llen_value _ (ok (int_reply (pos 0)), none) v sound
      (λ l i. rw (llen_lem l i) refl)

-- What a pop returns and leaves, by the queue.
popped_from : Option Bytes × List Bytes → Answer
popped_from (x, q) = (ok (text_reply x), some (queue q))

lpop_from-step : (q : List Bytes) → lpop_from q ≡ popped_from (queue_step lpop q)
unfolding lpop_from queue_step popped_from
lpop_from-step [] = refl
lpop_from-step (x ∷ q) = refl

rpop_from-step : (q : List Bytes) → rpop_from q ≡ popped_from (queue_step rpop q)
unfolding rpop_from queue_step popped_from
rpop_from-step q = elim (Option-cases (unsnoc q)) [
  | inl e ↦ rw (e, rpop_from, queue_step) refl
  | inr ((front, x), e) ↦ rw (e, rpop_from, queue_step) refl
]

-- A pop that finds nothing writes nothing, and the queue was empty.
popped-Matches :
    (l : Chain) (r : Option (Bytes × Chain)) (q : Option Bytes × List Bytes)
    → Agrees q (popped l r)
    → Matches
        (elim r [
          | none ↦ answers (text_reply none)
          | some (v, l') ↦ writes (text_reply (some v)) (list_value (some l'))
        ])
        (some (queue (values l.nodes)))
        (popped_from q)
unfolding popped_from
popped-Matches l none q a = rw (sym a.output, sym a.contents) refl
popped-Matches l (some (v, l')) q a = (rw (sym a.output, sym a.contents) refl, a.list)

pop_value-lem :
    (left : Bool) (l : Option Chain)
    → IsSound (list_value l)
    → Matches
        (pop_value left l)
        (some (queue (queue_of l)))
        ((if left then lpop_from else rpop_from) (queue_of l))
unfolding pop_value popped_from queue_step unsnoc
pop_value-lem true none sound = lpop_from-step []
pop_value-lem false none sound = rpop_from-step []
pop_value-lem true (some l) sound = rw (lpop_from-step (values l.nodes)) (
    popped-Matches l (list_lpop l) (queue_step lpop (values l.nodes))
      (list_step-Agrees lpop l sound tt))
pop_value-lem false (some l) sound = rw (rpop_from-step (values l.nodes)) (
    popped-Matches l (list_rpop l) (queue_step rpop (values l.nodes))
      (list_step-Agrees rpop l sound tt))

pub pop_value-Matches :
    (left : Bool) (v : Value Hash Chain)
    → IsSound v
    → Matches (on_list (pop_value left) v) (some (content v)) (
        with_queue
          (ok (text_reply none), none)
          (if left then lpop_from else rpop_from)
          (some (content v)))
pop_value-Matches left v sound =
    on_list-Matches (pop_value left) (if left then lpop_from else rpop_from)
      (ok (text_reply none), none) v sound (pop_value-lem left)
