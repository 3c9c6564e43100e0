-- ===== src/Event/Roundtrip.antt =====
-- What the decoders of src/dirty_ring.c read from an encoded event.
use native.Mathlib.Decide.{dec_lt}
use pg_redis.Base.{
  ℕ, suc, ◌+◌, ◌%◌, ◌^◌, ◌<◌, ◌≤◌, ◌≡◌, refl, ap, subst, ◌∙◌, ◌⊎◌, inl, inr, arith, Bool, true,
  false, Option, none, some, [], ◌∷◌, ◌++◌, ltb, ◌==◌, length, take, drop, Bytes, Bool-cases,
  take-append, drop-append, take-length, length-take, replicate,
}
use pg_redis.Base.Int.{ℤ}
use pg_redis.Types.{ValueType}
use pg_redis.Shmem.{Dsa, shared_palloc, shared_addr, update}
use pg_redis.Event.{
  Event, u16, inline_capacity, write_chunk, event_inline_write, event_payload_base, decode_key,
  decode_field, decode_value, encode_key_upsert, encode_key_delete, encode_hash_field_upsert,
  encode_hash_field_delete, encode_list_item_insert, encode_list_item_delete,
}

-- The accessors read the key, the field and the value of an event.
pub record Decodes (ev : Event) (d : Dsa) (key field val : Bytes) : Type 0 where
  pub key_read : decode_key ev d ≡ some key
  pub field_read : decode_field ev d ≡ some field
  pub value_read : decode_value ev d ≡ some val

-- An encoder has succeeded, with an event that decodes.
abbrev pub Packs : Option (Event × Dsa) → Bytes → Bytes → Bytes → Type 0
Packs none key field val = ⊥
Packs (some (ev, d)) key field val = Decodes ev d key field val

-- The allocator answers the requests for spilled payloads.
abbrev pub HasRoom : (Dsa → ℕ → ℕ) → Dsa → Type 0
HasRoom alloc d = (n : ℕ) → 256 < n → ¬ (alloc d n ≡ 0)

-- The bytes fit in the slot, or the allocator answers the request.
abbrev Room : (Dsa → ℕ → ℕ) → ℕ → Dsa → Type 0
Room alloc total d = (total ≤ 256) ⊎ (¬ alloc d total ≡ 0)

slice_first : (xs ys zs : Bytes) → take (length xs) (xs ++ (ys ++ zs)) ≡ xs
slice_first xs ys zs = take-append xs (ys ++ zs)

slice_second : (xs ys zs : Bytes) → take (length ys) (drop (length xs) (xs ++ (ys ++ zs))) ≡ ys
slice_second xs ys zs = ap (take (length ys)) (drop-append xs (ys ++ zs)) ∙ take-append ys zs

slice_third : (xs ys zs : Bytes) → drop (length xs + length ys) (xs ++ (ys ++ zs)) ≡ zs
slice_third [] ys zs =
    let z : 0 + length ys ≡ length ys = omega arith in
    ap (λ k. drop k (ys ++ zs)) z ∙ drop-append ys zs
slice_third (x ∷ xs) ys zs =
    let z : length (x ∷ xs) + length ys ≡ suc (length xs + length ys) = omega arith in
    ap (λ k. drop k (x ∷ xs ++ (ys ++ zs))) z ∙ slice_third xs ys zs

-- An event whose lengths are those of the parts, except for a value length of its own.
read_parts :
    (n : ℕ) (ev : Event) (d : Dsa) (p1 p2 p3 : Bytes)
    → event_payload_base ev d ≡ some (p1 ++ (p2 ++ p3))
    → ev.key_len ≡ length p1
    → ev.field_len ≡ length p2
    → ev.value_len ≡ n
    → Decodes ev d p1 p2 (take n p3)
unfolding decode_key decode_field decode_value
read_parts n ev d p1 p2 p3 b k f v = record {
  key_read = rw (b, k) (ap (λ l. some l) (slice_first p1 p2 p3));
  field_read = rw (b, k, f) (ap (λ l. some l) (slice_second p1 p2 p3));
  value_read = rw (b, k, f, v) (ap (λ l. some (take n l)) (slice_third p1 p2 p3));
}

module _ (alloc : Dsa → ℕ → ℕ) where
  palloc_ok :
      (n : ℕ) (d : Dsa)
      → (alloc d n == 0) ≡ false
      → shared_palloc alloc n d
        ≡ (alloc d n, record d { chunk = update d.chunk (alloc d n) (some (replicate n 0)) })
  unfolding shared_palloc
  palloc_ok n d h = rw h refl

  spilled :
      (p : ℕ) (bytes : Bytes) (ev : Event) (d : Dsa)
      → (p == 0) ≡ false
      → event_payload_base
          (record ev { dsa_overflow = true; dsa_payload = p })
          (write_chunk p bytes d)
        ≡ some bytes
  unfolding event_payload_base shared_addr
  spilled p bytes ev d h = rw h (let z : (p == p) ≡ true = ground arith in rw z refl)

  inline_write-Packs :
      (n : ℕ) (ev : Event) (p1 p2 p3 : Bytes) (d : Dsa)
      → Room alloc (length p1 + length p2 + length p3) d
      → ev.key_len ≡ length p1
      → ev.field_len ≡ length p2
      → ev.value_len ≡ n
      → Packs (event_inline_write alloc ev p1 p2 p3 d) p1 p2 (take n p3)
  unfolding event_inline_write event_payload_base
  inline_write-Packs n ev p1 p2 p3 d room k f v = elim (Bool-cases (ltb inline_capacity total)) [
    | inr small ↦ rw small (read_parts n _ d p1 p2 p3 refl k f v)
    | inl big ↦ elim (Bool-cases (alloc d total == 0)) [
      | inl oom ↦ absurd (ground arith)
      | inr got ↦ rw big (
          rw (palloc_ok total d got)
            (rw got (read_parts n _ _ p1 p2 p3 (spilled (alloc d total) _ ev _ got) k f v)))
    ]
  ]
    where
      total : ℕ
      total = length p1 + length p2 + length p3

  answer : (n : ℕ) (d : Dsa) → HasRoom alloc d → Room alloc n d
  answer n d h = elim (dec_lt 256 n) [ yes a ↦ inr (h n a) | no a ↦ inl (omega arith) ]

  whole :
      (o : Option (Event × Dsa)) (key field val : Bytes)
      → length val < 2 ^ 16
      → Packs o key field (take (u16 (length val)) val)
      → Packs o key field val
  whole o key field val short h =
      let z : u16 (length val) ≡ length val = omega arith in
      subst (Packs o key field) (ap (λ k. take k val) z ∙ take-length val) h

  -- While the allocator has room, each of the six encoders succeeds, and the accessors read from its
  -- event the key, the field and the value that were encoded, empty where the kind of event has none;
  -- for keys, fields and values below 65,536 bytes, whether they are inline or spilled.
  pub encode-Packs :
      (vtype : ValueType) (expire ord : ℤ) (has_expire : Bool) (version : ℕ) (key field val : Bytes)
      (d : Dsa)
      → HasRoom alloc d
      → length key < 2 ^ 16
      → length field < 2 ^ 16
      → length val < 2 ^ 16
      → Packs (encode_key_upsert alloc vtype expire has_expire version key val d) key [] val
        × Packs (encode_key_delete alloc key d) key [] []
        × Packs (encode_hash_field_upsert alloc key field val d) key field val
        × Packs (encode_hash_field_delete alloc key field d) key field []
        × Packs (encode_list_item_insert alloc key ord val d) key [] val
        × Packs (encode_list_item_delete alloc key ord d) key [] []
  unfolding encode_key_upsert encode_key_delete encode_hash_field_upsert encode_hash_field_delete
      encode_list_item_insert encode_list_item_delete
  encode-Packs vtype expire ord has_expire version key field val d room k f v = (
    whole _ key [] val v (
        inline_write-Packs (u16 (length val)) _ key [] val d (answer _ d room) (omega arith) refl
          refl),
    inline_write-Packs 0 _ key [] [] d (answer _ d room) (omega arith) refl refl,
    whole _ key field val v (
        inline_write-Packs (u16 (length val)) _ key field val d (answer _ d room) (omega arith)
          (omega arith) refl),
    inline_write-Packs 0 _ key field [] d (answer _ d room) (omega arith) (omega arith) refl,
    whole _ key [] val v (
        inline_write-Packs (u16 (length val)) _ key [] val d (answer _ d room) (omega arith) refl
          refl),
    inline_write-Packs 0 _ key [] [] d (answer _ d room) (omega arith) refl refl,
  )

  -- A value of 65,536 bytes or more: the event still encodes, but the accessors read only the first
  -- `length val % 2 ^ 16` bytes of it, so the value that the drain writes is another one.
  pub encode_key_upsert-long :
      (vtype : ValueType) (expire : ℤ) (has_expire : Bool) (version : ℕ) (key val : Bytes) (d : Dsa)
      → HasRoom alloc d
      → length key < 2 ^ 16
      → 2 ^ 16 ≤ length val
      → Packs
          (encode_key_upsert alloc vtype expire has_expire version key val d)
          key
          []
          (take (length val % 2 ^ 16) val)
        × (¬ take (length val % 2 ^ 16) val ≡ val)
  unfolding encode_key_upsert
  encode_key_upsert-long vtype expire has_expire version key val d room k v = (
    inline_write-Packs (u16 (length val)) _ key [] val d (answer _ d room) (omega arith) refl refl,
    λ e.
        let z : length (take (length val % 2 ^ 16) val) ≡ length val =
          ap (λ (l : Bytes). length l) e in
        absurd (omega (arith, z, length-take (length val % 2 ^ 16) val)),
  )
