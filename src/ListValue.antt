-- ===== src/ListValue.antt =====
-- src/list.c: the list of a key in a backend. The doubly linked nodes are the sequence from head to
-- tail: each node stands in one list, and no pointer to one leaves the functions. An ordinal is an
-- integer; that 2 ^ 63 pushes could overflow it is left out, as are memory contexts.
pub mod Ordinals
pub mod Push
pub mod Pop
pub mod Queue
use pg_redis.Base.{
  ℕ, zero, suc, ◌+◌, ◌-◌, ◌%◌, ◌^◌, Bool, true, false, Option, none, some, List, [], ◌∷◌, ◌++◌, leb,
  if◌then◌else◌, length, Bytes,
}
use pg_redis.Base.Int.{ℤ, pos, negsuc, ◌+ℤ◌, ◌-ℤ◌}

-- `PgRedisListNode`; `value_len` is the length of the value.
pub record Node : Type 0 where
  pub value : Bytes
  pub ord : ℤ
  pub pending_insert : Bool

-- `PgRedisList`; `nodes` stands for `head`, `tail` and the links.
pub record Chain : Type 0 where
  pub nodes : List Node
  pub count : ℕ
  pub memory_usage : ℕ
  pub min_ord : ℤ
  pub max_ord : ℤ
  pub ord_initialized : Bool
  pub pending_delete_ords : List ℤ

-- `sizeof(PgRedisListNode)` where pointers have 8 bytes.
abbrev pub sizeof_node : ℕ
sizeof_node = 48

-- `pg_redis_list_create_in`
abbrev pub list_create : Chain
list_create = record {
  nodes = [];
  count = 0;
  memory_usage = 0;
  min_ord = pos 0;
  max_ord = negsuc 0;
  ord_initialized = false;
  pending_delete_ords = [];
}

-- `new_node`, with the ordinal that the push assigns and `pending_insert` set
abbrev pub new_node : ℤ → Bytes → Node
new_node ord value = record { value = value; ord = ord; pending_insert = true }

-- The accounting of a push.
abbrev pub grown : Bytes → Chain → Chain
grown value l = record l {
  count = l.count + 1;
  memory_usage = (l.memory_usage + (sizeof_node + length value)) % 2 ^ 64;
}

-- The ordinals of the first push to an empty list.
abbrev pub first_ord : Chain → Chain
first_ord l = record l { min_ord = pos 0; max_ord = pos 0; ord_initialized = true }

-- `pg_redis_list_lpush`; the length it returns is `count` of the new list.
unfoldable pub list_lpush : Chain → Bytes → Chain
list_lpush l value =
    if l.ord_initialized
    then grown value (record l {
      nodes = new_node (l.min_ord -ℤ pos 1) value ∷ l.nodes;
      min_ord = l.min_ord -ℤ pos 1;
    })
    else grown value (record (first_ord l) { nodes = new_node (pos 0) value ∷ l.nodes })

-- `pg_redis_list_rpush`
unfoldable pub list_rpush : Chain → Bytes → Chain
list_rpush l value =
    if l.ord_initialized
    then grown value (record l {
      nodes = l.nodes ++ (new_node (l.max_ord +ℤ pos 1) value ∷ []);
      max_ord = l.max_ord +ℤ pos 1;
    })
    else grown value (record (first_ord l) { nodes = l.nodes ++ (new_node (pos 0) value ∷ []) })

-- `record_pending_delete`
abbrev pub record_pending_delete : Node → List ℤ → List ℤ
record_pending_delete n ords = if n.pending_insert then ords else n.ord ∷ ords

-- The accounting of a pop, with the node that is freed.
abbrev pub shrunk : Node → Chain → Chain
shrunk n l =
    let node_bytes = sizeof_node + length n.value in
    record l {
      count = l.count - 1;
      memory_usage =
          if leb node_bytes l.memory_usage then l.memory_usage - node_bytes else l.memory_usage;
      pending_delete_ords = record_pending_delete n l.pending_delete_ords;
    }

-- A list that a pop has drained.
abbrev pub drained : Chain → Chain
drained l = record l { nodes = []; ord_initialized = false; min_ord = pos 0; max_ord = negsuc 0 }

-- `pg_redis_list_lpop`
unfoldable pub list_lpop : Chain → Option (Bytes × Chain)
list_lpop l = elim l.nodes [
  | [] ↦ none
  | n ∷ [] ↦ some (n.value, shrunk n (drained l))
  | n ∷ m ∷ ns ↦ some (n.value, shrunk n (record l { nodes = m ∷ ns; min_ord = m.ord }))
]

-- The nodes before the tail, and the tail.
unfoldable pub split_tail : List Node → Option (List Node × Node)
split_tail [] = none
split_tail (n ∷ ns) = elim (split_tail ns) [
  | none ↦ some ([], n)
  | some (front, last) ↦ some (n ∷ front, last)
]

-- `pg_redis_list_rpop`
unfoldable pub list_rpop : Chain → Option (Bytes × Chain)
list_rpop l = elim (split_tail l.nodes) [
  | none ↦ none
  | some (front, n) ↦ elim (split_tail front) [
    | none ↦ some (n.value, shrunk n (drained l))
    | some (_, m) ↦ some (n.value, shrunk n (record l { nodes = front; max_ord = m.ord }))
  ]
]

-- `pg_redis_list_length` and `pg_redis_list_memory`
abbrev pub list_length : Option Chain → ℕ
list_length none = 0
list_length (some l) = l.count

abbrev pub list_memory : Option Chain → ℕ
list_memory none = 0
list_memory (some l) = l.memory_usage
