-- ===== src/Binval/Roundtrip.antt =====
-- What is written is read back, under its own tag and no other; what is read was written.
use pg_redis.Base.{
  ℕ, ◌+◌, ◌%◌, ◌^◌, ◌<◌, ◌≤◌, ◌≡◌, ◌≢◌, refl, sym, ◌∙◌, ap, Option, none, some, [], ◌∷◌, ◌++◌,
  arith, length, take, take-length, Bytes, AreBytes,
}
use pg_redis.Base.Int.{ℤ, to_u64, of_u64, IsInt64, to_u64-lt, of_u64-to_u64}
use pg_redis.Types.{Value, string_value, int_value}
use pg_redis.Binval.{
  Bytea, tlv_string, tlv_int, put_u32_le, get_u32_le, put_u64_le, put_i64_le, get_u64_le,
  get_i64_le, encode_value, decode_payload, decode_header, decode_string, decode_int,
}

get_u32_le-put_u32_le : (v : ℕ) (rest : Bytes) → v < 2 ^ 32 → get_u32_le (put_u32_le v ++ rest) ≡ v
unfolding get_u32_le put_u32_le
get_u32_le-put_u32_le v rest h = omega arith

get_u64_le-put_u64_le : (v : ℕ) → v < 2 ^ 64 → get_u64_le (put_u64_le v) ≡ v
unfolding get_u64_le put_u64_le
get_u64_le-put_u64_le v h = omega arith

-- An int64 is read back from its eight bytes.
get_i64_le-put_i64_le : (v : ℤ) → IsInt64 v → get_i64_le (put_i64_le v) ≡ v
unfolding get_i64_le put_i64_le
get_i64_le-put_i64_le v h =
    ap of_u64 (get_u64_le-put_u64_le (to_u64 v) (to_u64-lt v)) ∙ of_u64-to_u64 v h

-- A well-formed body passes the checks of the header, at its own tag only.
header_ok :
    (tag expected n : ℕ) (payload : Bytes)
    → n < 2 ^ 32
    → n ≡ length payload
    → decode_header (some (record { hdrsz = 4; body = tag ∷ put_u32_le n ++ payload })) expected
      ≡ decode_payload (tag ∷ put_u32_le n ++ payload) expected
unfolding decode_header put_u32_le
header_ok tag expected n payload h e = ground arith

payload_ok :
    (tag n : ℕ) (payload : Bytes)
    → n < 2 ^ 32
    → n ≡ length payload
    → decode_payload (tag ∷ put_u32_le n ++ payload) tag ≡ some (payload, n)
unfolding decode_payload put_u32_le
payload_ok tag n payload h e =
    let back : get_u32_le (put_u32_le n ++ payload) ≡ n = get_u32_le-put_u32_le n payload h in
    ground (arith, back)

wrong_tag :
    (tag expected n : ℕ) (payload : Bytes)
    → tag ≢ expected
    → decode_payload (tag ∷ put_u32_le n ++ payload) expected ≡ none
unfolding decode_payload put_u32_le
wrong_tag tag expected n payload ne = ground arith

-- The bodies that `encode_value` writes.
abbrev pub body_of : ℕ → Bytes → Bytes
body_of tag payload = tag ∷ put_u32_le (length payload % 2 ^ 32) ++ payload

read_back :
    (tag : ℕ) (payload : Bytes)
    → length payload < 2 ^ 32
    → decode_header (some (record { hdrsz = 4; body = body_of tag payload })) tag
      ≡ some (payload, length payload)
read_back tag payload h =
    let e : length payload % 2 ^ 32 ≡ length payload = omega arith in
    rw e (
      header_ok tag tag (length payload) payload h refl
      ∙ payload_ok tag (length payload) payload h refl)

refused :
    (tag expected : ℕ) (payload : Bytes)
    → length payload < 2 ^ 32
    → tag ≢ expected
    → decode_header (some (record { hdrsz = 4; body = body_of tag payload })) expected ≡ none
refused tag expected payload h ne =
    let e : length payload % 2 ^ 32 ≡ length payload = omega arith in
    rw e (
      header_ok tag expected (length payload) payload h refl
      ∙ wrong_tag tag expected (length payload) payload ne)

int_of_header :
    (raw : Option Bytea) (p : Bytes)
    → decode_header raw tlv_int ≡ some (p, 8)
    → decode_int raw ≡ some (get_i64_le p)
unfolding decode_int
int_of_header raw p e = rw (e, decode_int)

none_of_header : (raw : Option Bytea) → decode_header raw tlv_int ≡ none → decode_int raw ≡ none
unfolding decode_int
none_of_header raw e = rw (e, decode_int)

string_of_header :
    (raw : Option Bytea) (p : Bytes)
    → decode_header raw tlv_string ≡ some (p, length p)
    → decode_string raw ≡ some p
unfolding decode_string
string_of_header raw p e = rw (e, decode_string) (ap some (take-length p))

no_string_of_header :
    (raw : Option Bytea) → decode_header raw tlv_string ≡ none → decode_string raw ≡ none
unfolding decode_string
no_string_of_header raw e = rw (e, decode_string)

module _ (H L : Type 0) where
  abbrev pub of_string : Bytes → Value H L
  of_string s = string_value (some s)

  abbrev pub of_int : ℤ → Value H L
  of_int v = int_value v

  -- A string of fewer than 2 ^ 32 bytes is read back from its encoding, and as an int it is
  -- refused.
  pub decode_string-encode_value :
      (s : Bytes)
      → length s < 2 ^ 32
      → (decode_string (encode_value (of_string s)) ≡ some s)
        × (decode_int (encode_value (of_string s)) ≡ none)
  unfolding encode_value
  decode_string-encode_value s h = (
    string_of_header _ s (read_back tlv_string s h),
    none_of_header _ (refused tlv_string tlv_int s h (omega arith)),
  )

  -- An int64 is read back from its encoding, and as a string it is refused.
  pub decode_int-encode_value :
      (v : ℤ)
      → IsInt64 v
      → (decode_int (encode_value (of_int v)) ≡ some v)
        × (decode_string (encode_value (of_int v)) ≡ none)
  unfolding encode_value
  decode_int-encode_value v h = (
    int_of_header _ (put_i64_le v) (read_back tlv_int (put_i64_le v) (omega arith))
        ∙ ap some (get_i64_le-put_i64_le v h),
    no_string_of_header _ (refused tlv_int tlv_string (put_i64_le v) (omega arith) (omega arith)),
  )

u32_bytes :
    (a b c d n : ℕ) (rest : Bytes)
    → AreBytes (a ∷ b ∷ c ∷ d ∷ [])
    → get_u32_le (a ∷ b ∷ c ∷ d ∷ rest) ≡ n
    → (n < 2 ^ 32) × (put_u32_le n ≡ a ∷ b ∷ c ∷ d ∷ [])
unfolding get_u32_le put_u32_le
u32_bytes a b c d n rest h e = ground arith

payload_canonical :
    (t a b c d : ℕ) (rest p : Bytes) (tag n : ℕ)
    → AreBytes (a ∷ b ∷ c ∷ d ∷ [])
    → decode_payload (t ∷ a ∷ b ∷ c ∷ d ∷ rest) tag ≡ some (p, n)
    → (p ≡ rest) × (n ≡ length rest) × (t ∷ a ∷ b ∷ c ∷ d ∷ rest ≡ body_of tag rest)
unfolding decode_payload
payload_canonical t a b c d rest p tag n h e =
    ground (arith, u32_bytes a b c d (get_u32_le (a ∷ b ∷ c ∷ d ∷ rest)) rest h refl)

header_inv :
    (hdr : ℕ) (b : Bytes) (tag : ℕ) (x : Bytes × ℕ)
    → decode_header (some (record { hdrsz = hdr; body = b })) tag ≡ some x
    → (5 ≤ length b) × (9 ≤ hdr + length b) × (decode_payload b tag ≡ some x)
unfolding decode_header
header_inv hdr b tag x e = ground arith

header_canonical :
    (hdr : ℕ) (b : Bytes) (tag : ℕ) (p : Bytes) (n : ℕ)
    → AreBytes b
    → decode_header (some (record { hdrsz = hdr; body = b })) tag ≡ some (p, n)
    → (n ≡ length p) × (b ≡ body_of tag p) × (9 ≤ hdr + length b)
header_canonical hdr (t ∷ a ∷ b ∷ c ∷ d ∷ rest) tag p n h e =
    let inv = header_inv hdr (t ∷ a ∷ b ∷ c ∷ d ∷ rest) tag (p, n) e in
    let can = payload_canonical t a b c d rest p tag n (omega arith) inv.2 in
    (rw (can.0) can.1, rw (can.0) can.2, inv.1)
header_canonical hdr [] tag p n h e = absurd (omega (arith, header_inv hdr [] tag (p, n) e))
header_canonical hdr (t ∷ []) tag p n h e =
    absurd (omega (arith, header_inv hdr (t ∷ []) tag (p, n) e))
header_canonical hdr (t ∷ a ∷ []) tag p n h e =
    absurd (omega (arith, header_inv hdr (t ∷ a ∷ []) tag (p, n) e))
header_canonical hdr (t ∷ a ∷ b ∷ []) tag p n h e =
    absurd (omega (arith, header_inv hdr (t ∷ a ∷ b ∷ []) tag (p, n) e))
header_canonical hdr (t ∷ a ∷ b ∷ c ∷ []) tag p n h e =
    absurd (omega (arith, header_inv hdr (t ∷ a ∷ b ∷ c ∷ []) tag (p, n) e))

string_inv :
    (o : Option (Bytes × ℕ)) (raw : Option Bytea) (s : Bytes)
    → decode_header raw tlv_string ≡ o
    → decode_string raw ≡ some s
    → (x : Bytes × ℕ) × (o ≡ some x) × (take x.1 x.0 ≡ s)
unfolding decode_string
string_inv none raw s q e = cc (rw (q, decode_string) at e)
string_inv (some x) raw s q e = (x, refl, cc (rw (q, decode_string) at e))

-- A body of bytes that `decode_string` accepts, under whatever varlena header, is the very body
-- that `encode_value` writes for the string returned, and it is accepted under a one-byte header
-- only from eight bytes on.
pub decode_string_canonical :
    (raw : Bytea) (s : Bytes)
    → AreBytes raw.body
    → decode_string (some raw) ≡ some s
    → (raw.body ≡ body_of tlv_string s) × (9 ≤ raw.hdrsz + length raw.body)
decode_string_canonical raw s a e =
    let (x, q, t) = string_inv (decode_header (some raw) tlv_string) (some raw) s refl e in
    let (len, body, room) = header_canonical raw.hdrsz raw.body tlv_string x.0 x.1 a q in
    let same : x.0 ≡ s = sym (take-length x.0) ∙ ap (λ k. take k x.0) (sym len) ∙ t in
    (body ∙ ap (body_of tlv_string) same, room)
