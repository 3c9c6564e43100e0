-- ===== src/Command/Calls.antt =====
-- Every call of a command of src/pg_redis.c against the contents that a client sees.
use pg_redis.Base.{
  ℕ, ◌+◌, ◌^◌, ◌<◌, ◌≡◌, refl, subst, true, false, Option, none, some, [], is_some, length, Bytes,
  arith,
}
use pg_redis.Base.Int.{ℤ, pos, negsuc}
use pg_redis.HashValue.{Hash, sizeof_field}
use pg_redis.ListValue.{Chain, sizeof_node}
use pg_redis.Modes.{Check, accepted, check_field_len, empty_value, limit_exceeded}
use pg_redis.Session.{Entry}
use pg_redis.Effect.{
  Error, bool_reply, ok, raised, answers, get_value, incr_value, hset_value, on_hash, hget_value,
  hdel_value, hexists_value, push_value, on_list, pop_value, llen_value, Settings,
}
use pg_redis.Command.{
  Keyspace, Op, op_set, op_get, op_del, op_exists, op_expire, op_incr, op_decr, op_hset, op_hget,
  op_hdel, op_hexists, op_lpush, op_rpush, op_lpop, op_rpop, op_llen, check, or_next, check_args,
  act, run,
}
use pg_redis.Command.Contents.{view, step, call, hset_to, with_map, with_queue, pushed, get, incr}
use pg_redis.Command.Values.{used, get_value-Matches, incr_value-Creates, incr_value-Matches}
use pg_redis.Command.Fields.{
  FieldFits, hset_value-Creates, hset_value-Matches, hget_value-Matches, hexists_value-Matches,
  hdel_value-Matches,
}
use pg_redis.Command.Queues.{
  push_value-Creates, push_value-Matches, pop_value-Matches, llen_value-Matches,
}
use pg_redis.Command.Keys.{IsAlive, redis_set-Follows, redis_del-Follows, redis_expire-Follows}
use pg_redis.Command.Refines.{AllSound, Follows, unchanged, update-Follows, access-Follows}

-- The field passes its length check.
abbrev FieldOk : Op → Type 0
FieldOk (op_hset f v) = FieldFits f
FieldOk (op_hget f) = FieldFits f
FieldOk (op_hdel f) = FieldFits f
FieldOk (op_hexists f) = FieldFits f
FieldOk _ = Unit

or_next-none : (a b : Option Error) → or_next a b ≡ none → (a ≡ none) × (b ≡ none)
or_next-none none b h = (refl, h)
or_next-none (some e) b h = absurd cc

check-FieldFits :
    (f : Bytes) (e : Error) → check (check_field_len (length f)) e ≡ none → FieldFits f
unfolding check_field_len
check-FieldFits f e h = passed (check_field_len (length f)) refl h
  where
    passed : (x : Check) → check_field_len (length f) ≡ x → check x e ≡ none → FieldFits f
    passed accepted p q = ground arith
    passed empty_value p q = absurd cc
    passed limit_exceeded p q = absurd cc

pub args-FieldOk : (c : Settings) (op : Op) (k : Bytes) → check_args c op k ≡ none → FieldOk op
unfolding check_args
args-FieldOk c (op_hset f v) k h = check-FieldFits f _ (or_next-none _ _ (or_next-none _ _ h).1).0
args-FieldOk c (op_hget f) k h = check-FieldFits f _ (or_next-none _ _ h).1
args-FieldOk c (op_hdel f) k h = check-FieldFits f _ (or_next-none _ _ h).1
args-FieldOk c (op_hexists f) k h = check-FieldFits f _ (or_next-none _ _ h).1
args-FieldOk c _ k h = tt

-- What a command asks of the key's entry: the bytes of a hash or list stay below 2 ^ 64, and DEL
-- finds no entry that has expired.
abbrev pub used_of : Option (Entry Hash Chain) → ℕ
used_of none = 0
used_of (some e) = used e.value

abbrev pub Fits : ℤ → Bytes → Keyspace → Op → Type 0
Fits now k s (op_hset f v) = used_of (s.store k) + (sizeof_field + length v) < 2 ^ 64
Fits now k s (op_lpush v) = used_of (s.store k) + (sizeof_node + length v) < 2 ^ 64
Fits now k s (op_rpush v) = used_of (s.store k) + (sizeof_node + length v) < 2 ^ 64
Fits now k s op_del = IsAlive now (s.store k)
Fits now k s _ = Unit

pub fits_entry :
    (now : ℤ) (k : Bytes) (s : Keyspace) (n : ℕ) (e : Entry Hash Chain)
    → s.store k ≡ some e
    → used_of (s.store k) + n < 2 ^ 64
    → used e.value + n < 2 ^ 64
fits_entry now k s n e h f = subst (λ (o : Option (Entry Hash Chain)). used_of o + n < 2 ^ 64) h f

module _ (now : ℤ) (k : Bytes) (s : Keyspace) (sound : AllSound s) where
  act-Follows :
      (c : Settings) (op : Op)
      → Fits now k s op
      → FieldOk op
      → Follows now k s (step c op (view now s k)) (act c now op k s)
  unfolding act step
  act-Follows c (op_set v) fits short = redis_set-Follows now k s sound c v
  act-Follows c op_get fits short =
      access-Follows now k s sound _ (get_value c) (get c) refl
        (λ e h. get_value-Matches c e.value (sound k e h))
  act-Follows c op_del fits short = redis_del-Follows now k s sound c fits
  act-Follows c op_exists fits short =
      access-Follows now k s sound _ (λ _. answers (bool_reply true))
        (λ x. (ok (bool_reply (is_some x)), x)) refl (λ e h. refl)
  act-Follows c (op_expire n) fits short = redis_expire-Follows now k s sound c n
  act-Follows c op_incr fits short =
      update-Follows now k s sound (incr_value c (pos 1)) (incr c (pos 1))
        (incr_value-Creates c (pos 1)) (λ e h. incr_value-Matches c (pos 1) e.value (sound k e h))
  act-Follows c op_decr fits short =
      update-Follows now k s sound (incr_value c (negsuc 0)) (incr c (negsuc 0))
        (incr_value-Creates c (negsuc 0))
        (λ e h. incr_value-Matches c (negsuc 0) e.value (sound k e h))
  act-Follows c (op_hset f v) fits short =
      update-Follows now k s sound (hset_value f v)
        (with_map (hset_to f v (λ g. none)) (hset_to f v))
        (λ v'. hset_value-Creates f v v' short (omega (arith, fits)))
        (λ e h. hset_value-Matches f v e.value short (sound k e h) (fits_entry now k s _ e h fits))
  act-Follows c (op_hget f) fits short =
      access-Follows now k s sound _ (on_hash (hget_value f)) (step c (op_hget f)) refl
        (λ e h. hget_value-Matches f e.value short (sound k e h))
  act-Follows c (op_hdel f) fits short =
      access-Follows now k s sound _ (on_hash (hdel_value f)) (step c (op_hdel f)) refl
        (λ e h. hdel_value-Matches f e.value short (sound k e h))
  act-Follows c (op_hexists f) fits short =
      access-Follows now k s sound _ (on_hash (hexists_value f)) (step c (op_hexists f)) refl
        (λ e h. hexists_value-Matches f e.value short (sound k e h))
  act-Follows c (op_lpush v) fits short =
      update-Follows now k s sound (push_value true v)
        (with_queue (pushed true v []) (pushed true v))
        (λ v'. push_value-Creates true v v' (omega (arith, fits)))
        (λ e h. push_value-Matches true v e.value (sound k e h) (fits_entry now k s _ e h fits))
  act-Follows c (op_rpush v) fits short =
      update-Follows now k s sound (push_value false v)
        (with_queue (pushed false v []) (pushed false v))
        (λ v'. push_value-Creates false v v' (omega (arith, fits)))
        (λ e h. push_value-Matches false v e.value (sound k e h) (fits_entry now k s _ e h fits))
  act-Follows c op_lpop fits short =
      access-Follows now k s sound _ (on_list (pop_value true)) (step c op_lpop) refl
        (λ e h. pop_value-Matches true e.value (sound k e h))
  act-Follows c op_rpop fits short =
      access-Follows now k s sound _ (on_list (pop_value false)) (step c op_rpop) refl
        (λ e h. pop_value-Matches false e.value (sound k e h))
  act-Follows c op_llen fits short =
      access-Follows now k s sound _ (on_list llen_value) (step c op_llen) refl
        (λ e h. llen_value-Matches e.value (sound k e h))

  -- A call of any command replies what a map of strings, integers, maps and queues replies, an error
  -- included, leaves its key showing what that map then has, and every other key's entry as it was;
  -- where the values are sound, the bytes of a hash or list stay below 2 ^ 64, and DEL finds no entry
  -- that has expired. The values are sound after it, an ERROR leaves the whole session as it was, and
  -- the key's entry is as it was or in the dirty set, which the chain links if it did so before.
  pub run-Follows :
      (c : Settings) (op : Op)
      → Fits now k s op
      → Follows now k s (call c op k (view now s k)) (run c now op k s)
  unfolding run call
  run-Follows c op fits = checked (check_args c op k) refl
    where
      checked :
          (o : Option Error)
          → check_args c op k ≡ o
          → Follows now k s
              (elim o [ some e ↦ (raised e, view now s k) | none ↦ step c op (view now s k) ])
              (elim o [ some e ↦ (raised e, s) | none ↦ act c now op k s ])
      checked none e = act-Follows c op fits (args-FieldOk c op k e)
      checked (some x) e = unchanged now k s sound _ (raised x) refl
