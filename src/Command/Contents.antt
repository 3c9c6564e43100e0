-- ===== src/Command/Contents.antt =====
-- What a client sees of a keyspace, and what each command of src/pg_redis.c should do to it: a map
-- from keys to strings, integers, maps of fields and queues. It has no dirty flags, ordinals or counters.
use pg_redis.Base.{
  Bool, true, false, Option, none, some, List, [], ◌∷◌, ◌++◌, if◌then◌else◌, is_some, length, Bytes,
  bytes_eq,
}
use pg_redis.Base.Int.{ℤ, pos, negsuc, ◌+ℤ◌, ltb_ℤ, to_u64, of_u64}
use pg_redis.Types.{
  ValueType, type_string, type_int, type_hash, type_list, Value, string_value, int_value,
  hash_value, list_value,
}
use pg_redis.HashValue.{Field, Hash, find}
use pg_redis.ListValue.{Chain}
use pg_redis.ListValue.Queue.{values, unsnoc}
use pg_redis.Session.{Entry, entry_is_expired}
use pg_redis.Effect.{
  bool_reply, int_reply, text_reply, Result, ok, raised, wrong_type, not_an_integer, Settings,
  parse_int64,
}
use pg_redis.Command.{Keyspace, Op, check_args}

-- A string can be a NULL that the tables had.
pub data Content : Type 0 where
  text : Option Bytes → Content
  number : ℤ → Content
  record_of : (Bytes → Option Bytes) → Content
  queue : List Bytes → Content

abbrev pub value_at : Option Field → Option Bytes
value_at none = none
value_at (some f) = some f.value

abbrev pub fields_of : Hash → Bytes → Option Bytes
fields_of h g = value_at (find g h.fields)

abbrev pub queue_of : Option Chain → List Bytes
queue_of none = []
queue_of (some l) = values l.nodes

abbrev pub content : Value Hash Chain → Content
content (string_value s) = text s
content (int_value i) = number i
content (hash_value none) = record_of (λ g. none)
content (hash_value (some h)) = record_of (fields_of h)
content (list_value l) = queue (queue_of l)

abbrev pub live_content : ℤ → Option (Entry Hash Chain) → Option Content
live_content now none = none
live_content now (some e) = if entry_is_expired now e then none else some (content e.value)

-- What the key shows at the time `now`.
abbrev pub view : ℤ → Keyspace → Bytes → Option Content
view now s k = live_content now (s.store k)

abbrev pub content_type : Content → ValueType
content_type (text _) = type_string
content_type (number _) = type_int
content_type (record_of _) = type_hash
content_type (queue _) = type_list

abbrev pub Answer : Type 0
Answer = Result × Option Content

-- The answer of a command that finds a value of another type.
abbrev pub mismatch : ValueType → Content → Answer
mismatch expected x = (raised (wrong_type (content_type x) expected), some x)

-- The sum wraps around as an int64.
abbrev pub count : ℤ → ℤ → Answer
count delta n = let m = of_u64 (to_u64 (n +ℤ delta)) in (ok (int_reply m), some (number m))

unfoldable pub incr : Settings → ℤ → Option Content → Answer
incr c delta none = count delta (pos 0)
incr c delta (some (number n)) = count delta n
incr c delta (some (text none)) = (raised not_an_integer, some (text none))
incr c delta (some (text (some s))) = elim (parse_int64 c s) [
  | none ↦ (raised not_an_integer, some (text (some s)))
  | some n ↦ count delta n
]
incr c delta (some (record_of m)) = mismatch type_int (record_of m)
incr c delta (some (queue q)) = mismatch type_int (queue q)

abbrev pub assign : (Bytes → Option Bytes) → Bytes → Option Bytes → Bytes → Option Bytes
assign m f v g = if bytes_eq f g then v else m g

abbrev pub hset_to : Bytes → Bytes → (Bytes → Option Bytes) → Answer
hset_to f v m = (
  ok (bool_reply (if is_some (m f) then false else true)),
  some (record_of (assign m f (some v))),
)

abbrev pub hdel_to : Bytes → (Bytes → Option Bytes) → Answer
hdel_to f m = (ok (bool_reply (is_some (m f))), some (record_of (assign m f none)))

abbrev pub with_map : Answer → ((Bytes → Option Bytes) → Answer) → Option Content → Answer
with_map absent act none = absent
with_map absent act (some (record_of m)) = act m
with_map absent act (some (text s)) = mismatch type_hash (text s)
with_map absent act (some (number n)) = mismatch type_hash (number n)
with_map absent act (some (queue q)) = mismatch type_hash (queue q)

abbrev pub with_queue : Answer → (List Bytes → Answer) → Option Content → Answer
with_queue absent act none = absent
with_queue absent act (some (queue q)) = act q
with_queue absent act (some (text s)) = mismatch type_list (text s)
with_queue absent act (some (number n)) = mismatch type_list (number n)
with_queue absent act (some (record_of m)) = mismatch type_list (record_of m)

abbrev pub pushed : Bool → Bytes → List Bytes → Answer
pushed left v q =
    let q' = if left then v ∷ q else q ++ (v ∷ []) in
    (ok (int_reply (pos (length q'))), some (queue q'))

unfoldable pub lpop_from : List Bytes → Answer
lpop_from [] = (ok (text_reply none), some (queue []))
lpop_from (x ∷ q) = (ok (text_reply (some x)), some (queue q))

unfoldable pub rpop_from : List Bytes → Answer
rpop_from q = elim (unsnoc q) [
  | none ↦ (ok (text_reply none), some (queue []))
  | some (front, x) ↦ (ok (text_reply (some x)), some (queue front))
]

unfoldable pub get : Settings → Option Content → Answer
get c none = (ok (text_reply none), none)
get c (some (text s)) = (ok (text_reply s), some (text s))
get c (some (number n)) = (ok (text_reply (some (c.print_int64 n))), some (number n))
get c (some (record_of m)) = mismatch type_string (record_of m)
get c (some (queue q)) = mismatch type_string (queue q)

-- What a command replies and leaves, by what its key shows. An expiry of no seconds or fewer deletes.
unfoldable pub step : Settings → Op → Option Content → Answer
unfolding get incr lpop_from rpop_from
step c (Op.op_set v) x = (ok (bool_reply true), some (text (some v)))
step c Op.op_get x = get c x
step c Op.op_del x = (ok (bool_reply (is_some x)), none)
step c Op.op_exists x = (ok (bool_reply (is_some x)), x)
step c (Op.op_expire n) x = (ok (bool_reply (is_some x)), if ltb_ℤ (pos 0) n then x else none)
step c Op.op_incr x = incr c (pos 1) x
step c Op.op_decr x = incr c (negsuc 0) x
step c (Op.op_hset f v) x = with_map (hset_to f v (λ g. none)) (hset_to f v) x
step c (Op.op_hget f) x =
    with_map (ok (text_reply none), none) (λ m. (ok (text_reply (m f)), some (record_of m))) x
step c (Op.op_hdel f) x = with_map (ok (bool_reply false), none) (hdel_to f) x
step c (Op.op_hexists f) x =
    with_map (ok (bool_reply false), none)
      (λ m. (ok (bool_reply (is_some (m f))), some (record_of m))) x
step c (Op.op_lpush v) x = with_queue (pushed true v []) (pushed true v) x
step c (Op.op_rpush v) x = with_queue (pushed false v []) (pushed false v) x
step c Op.op_lpop x = with_queue (ok (text_reply none), none) lpop_from x
step c Op.op_rpop x = with_queue (ok (text_reply none), none) rpop_from x
step c Op.op_llen x =
    with_queue (ok (int_reply (pos 0)), none)
      (λ q. (ok (int_reply (pos (length q))), some (queue q))) x

-- A command on a key that shows `x`: a length check that fails comes first and changes nothing.
unfoldable pub call : Settings → Op → Bytes → Option Content → Answer
unfolding step
call c op k x = elim (check_args c op k) [ some e ↦ (raised e, x) | none ↦ step c op x ]
