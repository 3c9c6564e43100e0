-- ===== src/Event/Examples.antt =====
-- Encoded events at concrete bytes.
use pg_redis.Base.{
  ℕ, ◌^◌, ◌≡◌, ◌%◌, false, none, [], ◌∷◌, arith, length, length-replicate, take, replicate, Bytes,
}
use pg_redis.Base.Int.{pos}
use pg_redis.Types.{type_string}
use pg_redis.Shmem.{Dsa}
use pg_redis.Event.{
  encode_key_upsert, encode_key_delete, encode_hash_field_upsert, encode_hash_field_delete,
  encode_list_item_insert, encode_list_item_delete,
}
use pg_redis.Event.Roundtrip.{Packs, encode-Packs, encode_key_upsert-long}

abbrev no_chunks : Dsa
no_chunks = record { chunk = λ p. none; freed = [] }

abbrev alloc_64 : Dsa → ℕ → ℕ
alloc_64 d n = 64

abbrev key_k : Bytes
key_k = b'k' ∷ []

abbrev field_f : Bytes
field_f = b'f' ∷ []

abbrev spilled_value : Bytes
spilled_value = replicate 300 b'v'

abbrev long_value : Bytes
long_value = replicate 65540 b'v'

encode-Packs_example :
    Packs
      (encode_key_upsert alloc_64 type_string (pos 0) false 1 key_k spilled_value no_chunks)
      key_k
      []
      spilled_value
    × Packs (encode_key_delete alloc_64 key_k no_chunks) key_k [] []
    × Packs
        (encode_hash_field_upsert alloc_64 key_k field_f spilled_value no_chunks)
        key_k
        field_f
        spilled_value
    × Packs (encode_hash_field_delete alloc_64 key_k field_f no_chunks) key_k field_f []
    × Packs
        (encode_list_item_insert alloc_64 key_k (pos 7) spilled_value no_chunks)
        key_k
        []
        spilled_value
    × Packs (encode_list_item_delete alloc_64 key_k (pos 7) no_chunks) key_k [] []
encode-Packs_example =
    encode-Packs alloc_64 type_string (pos 0) (pos 7) false 1 key_k field_f spilled_value no_chunks
      (λ n h e. absurd (omega arith)) (omega arith) (omega arith)
      (omega (arith, length-replicate {A = ℕ} 300 b'v'))

encode_key_upsert-long_example :
    Packs
      (encode_key_upsert alloc_64 type_string (pos 0) false 1 key_k long_value no_chunks)
      key_k
      []
      (take (length long_value % 2 ^ 16) long_value)
    × (¬ take (length long_value % 2 ^ 16) long_value ≡ long_value)
encode_key_upsert-long_example =
    encode_key_upsert-long alloc_64 type_string (pos 0) false 1 key_k long_value no_chunks
      (λ n h e. absurd (omega arith)) (omega arith)
      (omega (arith, length-replicate {A = ℕ} 65540 b'v'))
