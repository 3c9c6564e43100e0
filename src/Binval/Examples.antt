-- ===== src/Binval/Examples.antt =====
-- The encoding at concrete values.
use pg_redis.Base.{ℕ, ◌+◌, ◌≤◌, ◌≡◌, refl, none, some, [], ◌∷◌, arith, length, Bytes}
use pg_redis.Base.Int.{negsuc, to_u64}
use pg_redis.Binval.{Bytea, tlv_string, encode_value, decode_string, decode_int}
use pg_redis.Binval.Roundtrip.{
  of_string, of_int, body_of, decode_string-encode_value, decode_int-encode_value,
  decode_string_canonical,
}

abbrev hi : Bytes
hi = b'h' ∷ b'i' ∷ []

abbrev stored : Bytea
stored = record { hdrsz = 4; body = 1 ∷ 2 ∷ 0 ∷ 0 ∷ 0 ∷ b'h' ∷ b'i' ∷ [] }

encode_hi : encode_value (of_string ℕ ℕ hi) ≡ some stored
unfolding encode_value
encode_hi = refl

encode_minus_two :
    encode_value (of_int ℕ ℕ (negsuc 1))
    ≡ some (record {
      hdrsz = 4;
      body = 2 ∷ 8 ∷ 0 ∷ 0 ∷ 0 ∷ 254 ∷ 255 ∷ 255 ∷ 255 ∷ 255 ∷ 255 ∷ 255 ∷ 255 ∷ [];
    })
unfolding encode_value to_u64
encode_minus_two = refl

-- The same body under a one-byte header is refused: it is shorter than nine bytes in all.
packed_refused : decode_string (some (record stored { hdrsz = 1 })) ≡ none
unfolding decode_string
packed_refused = refl

decode_string-encode_value_example :
    (decode_string (encode_value (of_string ℕ ℕ hi)) ≡ some hi)
    × (decode_int (encode_value (of_string ℕ ℕ hi)) ≡ none)
decode_string-encode_value_example = decode_string-encode_value ℕ ℕ hi (omega arith)

decode_int-encode_value_example :
    (decode_int (encode_value (of_int ℕ ℕ (negsuc 1))) ≡ some (negsuc 1))
    × (decode_string (encode_value (of_int ℕ ℕ (negsuc 1))) ≡ none)
decode_int-encode_value_example = decode_int-encode_value ℕ ℕ (negsuc 1) (omega arith)

decode_string_canonical_example :
    (stored.body ≡ body_of tlv_string hi) × (9 ≤ 4 + length stored.body)
unfolding decode_string
decode_string_canonical_example = decode_string_canonical stored hi (omega arith) refl
