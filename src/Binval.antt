-- ===== src/Binval.antt =====
-- src/binval.c: the tag, length and payload bytes of a string or an int in `pgredis.store.value`.
-- A varlena is its header size (4, or 1 for a packed short value) and its body.
pub mod Roundtrip
mod Examples
use pg_redis.Base.{
  ℕ, ◌+◌, ◌*◌, ◌/◌, ◌%◌, ◌^◌, Bool, Option, none, some, List, [], ◌∷◌, ◌++◌, ltb, ◌==◌,
  if◌then◌else◌, length, get_or, take, drop, Bytes,
}
use pg_redis.Base.Int.{ℤ, to_u64, of_u64}
use pg_redis.Types.{Value, string_value, int_value, hash_value, list_value}

abbrev pub tlv_string : ℕ
tlv_string = 1

abbrev pub tlv_int : ℕ
tlv_int = 2

abbrev pub tlv_header_size : ℕ
tlv_header_size = 5

abbrev pub varhdrsz : ℕ
varhdrsz = 4

pub record Bytea : Type 0 where
  pub hdrsz : ℕ
  pub body : Bytes

-- `VARSIZE_ANY`
abbrev pub varsize_any : Bytea → ℕ
varsize_any raw = raw.hdrsz + length raw.body

-- `>> 8 * i` is `/ 2 ^ (8 * i)`, and `& 0xFF` is `% 256`.
pub put_u32_le : ℕ → Bytes
put_u32_le v = (v % 256) ∷ (v / 2 ^ 8 % 256) ∷ (v / 2 ^ 16 % 256) ∷ (v / 2 ^ 24 % 256) ∷ []

-- The shifted bytes have no bit in common, so `|` adds them.
pub get_u32_le : Bytes → ℕ
get_u32_le p = get_or p 0 0 + get_or p 1 0 * 2 ^ 8 + get_or p 2 0 * 2 ^ 16 + get_or p 3 0 * 2 ^ 24

put_u64_le : ℕ → Bytes
put_u64_le u =
    (u % 256)
    ∷ (u / 2 ^ 8 % 256)
    ∷ (u / 2 ^ 16 % 256)
    ∷ (u / 2 ^ 24 % 256)
    ∷ (u / 2 ^ 32 % 256)
    ∷ (u / 2 ^ 40 % 256)
    ∷ (u / 2 ^ 48 % 256)
    ∷ (u / 2 ^ 56 % 256)
    ∷ []

pub put_i64_le : ℤ → Bytes
unfolding put_u64_le
put_i64_le v = put_u64_le (to_u64 v)

get_u64_le : Bytes → ℕ
get_u64_le p =
    get_or p 0 0
    + get_or p 1 0 * 2 ^ 8
    + get_or p 2 0 * 2 ^ 16
    + get_or p 3 0 * 2 ^ 24
    + get_or p 4 0 * 2 ^ 32
    + get_or p 5 0 * 2 ^ 40
    + get_or p 6 0 * 2 ^ 48
    + get_or p 7 0 * 2 ^ 56

pub get_i64_le : Bytes → ℤ
unfolding get_u64_le
get_i64_le p = of_u64 (get_u64_le p)

-- The bytes of `string_value`, of length `string_len`.
abbrev pub string_bytes : Option Bytes → Bytes
string_bytes none = []
string_bytes (some s) = s

-- `none` is NULL, the answer for hashes and lists.
unfoldable pub encode_value : {H L : Type 0} → Value H L → Option Bytea
unfolding put_u32_le put_i64_le
encode_value (string_value s) =
    let payload = string_bytes s in
    some (record {
      hdrsz = varhdrsz;
      body = tlv_string ∷ put_u32_le (length payload % 2 ^ 32) ++ payload;
    })
encode_value (int_value v) =
    some (record { hdrsz = varhdrsz; body = tlv_int ∷ put_u32_le 8 ++ put_i64_le v })
encode_value (hash_value _) = none
encode_value (list_value _) = none

-- The payload bytes with their declared length.
decode_payload : Bytes → ℕ → Option (Bytes × ℕ)
unfolding get_u32_le
decode_payload p expected_tag =
    if get_or p 0 0 == expected_tag
    then (let declared_len = get_u32_le (drop 1 p) in
        if declared_len + tlv_header_size == length p
        then some (drop tlv_header_size p, declared_len)
        else none)
    else none

pub decode_header : Option Bytea → ℕ → Option (Bytes × ℕ)
unfolding decode_payload
decode_header none expected_tag = none
decode_header (some raw) expected_tag =
    if ltb (varsize_any raw) (varhdrsz + tlv_header_size)
    then none
    else if ltb (length raw.body) tlv_header_size
    then none
    else decode_payload raw.body expected_tag

-- The out parameters are the result; no caller passes a NULL one.
unfoldable pub decode_string : Option Bytea → Option Bytes
unfolding decode_header
decode_string raw = elim (decode_header raw tlv_string) [
  | none ↦ none
  | some (payload, payload_len) ↦ some (take payload_len payload)
]

unfoldable pub decode_int : Option Bytea → Option ℤ
unfolding decode_header get_i64_le
decode_int raw = elim (decode_header raw tlv_int) [
  | none ↦ none
  | some (payload, payload_len) ↦ if payload_len == 8 then some (get_i64_le payload) else none
]
