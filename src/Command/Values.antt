-- ===== src/Command/Values.antt =====
-- The commands of src/pg_redis.c on strings and integers, against what the contents of the key should
-- become, and what this means for any value.
use pg_redis.Base.{ℕ, ◌≡◌, refl, true, false, Option, none, some, Bytes}
use pg_redis.Base.Int.{ℤ}
use pg_redis.Types.{Value, string_value, int_value, hash_value, list_value}
use pg_redis.HashValue.{Hash}
use pg_redis.HashValue.Accounts.{IsHash}
use pg_redis.ListValue.{Chain}
use pg_redis.ListValue.Push.{IsList}
use pg_redis.Effect.{
  Effect, not_an_integer, fails, breaks, crashes, answers, writes, ok, raised, Settings,
  parse_int64, get_value, incr_value, count_from,
}
use pg_redis.Command.Contents.{Content, text, content, count, Answer, get, incr}

-- A hash or a list with right counters; no hash or list pointer is NULL.
abbrev pub IsSound : Value Hash Chain → Type 0
IsSound (string_value _) = Unit
IsSound (int_value _) = Unit
IsSound (hash_value none) = ⊥
IsSound (hash_value (some h)) = IsHash h
IsSound (list_value none) = ⊥
IsSound (list_value (some l)) = IsList l

-- The effect on a value with the contents `x` is the answer.
abbrev pub Matches : Effect → Option Content → Answer → Type 0
Matches (fails e) x a = a ≡ (raised e, x)
Matches (breaks e v) x a = ⊥
Matches crashes x a = ⊥
Matches (answers r) x a = a ≡ (ok r, x)
Matches (writes r v) x a = (a ≡ (ok r, some (content v))) × IsSound v

-- The same where the key has no contents yet: the value is written.
abbrev pub Creates : Effect → Answer → Type 0
Creates (fails e) a = ⊥
Creates (breaks e v) a = ⊥
Creates crashes a = ⊥
Creates (answers r) a = ⊥
Creates (writes r v) a = (a ≡ (ok r, some (content v))) × IsSound v

-- The bytes that a hash or list has already.
abbrev pub used : Value Hash Chain → ℕ
used (hash_value (some h)) = h.memory_usage
used (list_value (some l)) = l.memory_usage
used (hash_value none) = 0
used (list_value none) = 0
used (string_value _) = 0
used (int_value _) = 0

pub get_value-Matches :
    (c : Settings) (v : Value Hash Chain)
    → IsSound v
    → Matches (get_value c v) (some (content v)) (get c (some (content v)))
unfolding get_value get
get_value-Matches c (string_value s) h = refl
get_value-Matches c (int_value n) h = refl
get_value-Matches c (hash_value none) h = absurd h
get_value-Matches c (hash_value (some x)) h = refl
get_value-Matches c (list_value l) h = refl

pub incr_value-Creates :
    (c : Settings) (delta : ℤ) (v : Value Hash Chain)
    → Creates (incr_value c delta true v) (incr c delta none)
unfolding incr_value incr
incr_value-Creates c delta v = (refl, tt)

parsed :
    (delta : ℤ) (s : Bytes) (o : Option ℤ)
    → Matches
        (elim o [ none ↦ fails not_an_integer | some n ↦ count_from delta n ])
        (some (text (some s)))
        (elim o [ none ↦ (raised not_an_integer, some (text (some s))) | some n ↦ count delta n ])
parsed delta s none = refl
parsed delta s (some n) = (refl, tt)

pub incr_value-Matches :
    (c : Settings) (delta : ℤ) (v : Value Hash Chain)
    → IsSound v
    → Matches (incr_value c delta false v) (some (content v)) (incr c delta (some (content v)))
unfolding incr_value incr
incr_value-Matches c delta (string_value none) h = refl
incr_value-Matches c delta (string_value (some s)) h = parsed delta s (parse_int64 c s)
incr_value-Matches c delta (int_value n) h = (refl, tt)
incr_value-Matches c delta (hash_value none) h = absurd h
incr_value-Matches c delta (hash_value (some x)) h = refl
incr_value-Matches c delta (list_value l) h = refl

pub Creates-Matches : (e : Effect) (x : Option Content) (a : Answer) → Creates e a → Matches e x a
Creates-Matches (fails e) x a m = absurd m
Creates-Matches (breaks e v) x a m = m
Creates-Matches crashes x a m = m
Creates-Matches (answers r) x a m = absurd m
Creates-Matches (writes r v) x a m = m
