-- ===== src/SharedHash/Set.antt =====
-- Setting a field, on every branch: too long a value, no memory, growth, overwrite and insertion.
use pg_redis.Base.{
  ℕ, suc, ◌+◌, ◌-◌, ◌*◌, ◌^◌, ◌<◌, ◌≤◌, ◌≡◌, refl, sym, ap, subst, ◌∙◌, inl, inr, Bool, true, false,
  ◌&&◌, Option, none, some, if_true, if_false, ltb, length, set, replicate, Bytes, arith,
  Bool-cases,
}
use pg_redis.SharedHash.{
  Bucket, shb_empty, shb_occupied, bucket_at, bucket_matches, is_tombstone, Table, Request,
  for_table, for_field, for_value, init_buckets, value_granted, should_grow, occupy, rehash_table,
  set_new, set_overwritten, value_too_long, out_of_memory, store_field, grow_and_store, hash_set,
}
use pg_redis.SharedHash.Scan.{is_occupied, to_ℕ, count-set, count-replicate, scan, scan-absent}
use pg_redis.SharedHash.Write.{overwrite-IsPlaced, overwrite-Writes}
use pg_redis.SharedHash.Growth.{
  Stores, Rehashes, Rehash-cases, find_bucket-cases, occupy-Stores, rehash_table-Rehashes,
  alloc_table-IsTable, no_table,
}
use pg_redis.SharedHash.Map.{
  IsValid, IsValidPointer, SetsTo, has_room, pow_double, sixteen, SetsTo-Keeps, rehashed-IsValid,
  kept_lem,
}

refused_value :
    (grant : Request → Bool) (value : Bytes)
    → value_granted grant value ≡ false
    → grant (for_value (length value)) ≡ false
refused_value grant value e = ground arith

-- A request that was refused, where the field or the value was.
refused :
    (grant : Request → Bool) (field value : Bytes)
    → grant (for_field (length field)) && value_granted grant value ≡ false
    → (r : Request) × (grant r ≡ false)
refused grant field value e = elim (Bool-cases (grant (for_field (length field)))) [
  | inl g ↦ (for_value (length value), refused_value grant value (ground arith))
  | inr g ↦ (for_field (length field), g)
]

module _ {hash_bytes : Bytes → ℕ} (grant : Request → Bool) (field value : Bytes)
    (short : length field < 2 ^ 16) (fits : length value < 2 ^ 16) where
  overwrite-SetsTo :
      (t : Table) (i : ℕ) (w : Bytes)
      → IsValid hash_bytes t
      → i < t.bucket_count
      → bucket_at t.buckets i ≡ shb_occupied field w
      → scan field t.buckets ≡ some w
      → SetsTo hash_bytes grant field value (some t) (
        set_overwritten,
        some (record t { buckets = set t.buckets i (shb_occupied field value) }),
      )
  overwrite-SetsTo t i w v l at_i found =
      let p = v.table.placed in
      let b = shb_occupied field value in
      let below : i < length t.buckets = omega (arith, p.sized) in
      (
        record {
          table = record {
            placed = overwrite-IsPlaced t.bucket_count t.buckets i p l field w value at_i;
            occupied = omega (
              arith,
              count-set is_occupied t.buckets i b shb_empty below,
              ap (λ (x : Bucket). to_ℕ (is_occupied x)) at_i,
              v.table.occupied,
            );
            tombstones = omega (
              arith,
              count-set is_tombstone t.buckets i b shb_empty below,
              ap (λ (x : Bucket). to_ℕ (is_tombstone x)) at_i,
              v.table.tombstones,
            );
          };
          sized = v.sized;
          roomy = v.roomy;
        },
        (w, found),
        overwrite-Writes t.bucket_count t.buckets i p l field w value at_i,
        refl,
      )

  insert-SetsTo :
      (t t' : Table)
      → IsValid hash_bytes t
      → (t.occupied + t.tombstones + 1) * 10 ≤ t.bucket_count * 7
      → scan field t.buckets ≡ none
      → Stores hash_bytes field value t t'
      → SetsTo hash_bytes grant field value (some t) (set_new, some t')
  insert-SetsTo t t' v room missing s = (
    record {
      table = s.table;
      sized = (v.sized.0, s.size ∙ v.sized.1);
      roomy = omega (arith, s.size, s.occupied, s.tombstones);
    },
    missing,
    s.writes,
    s.occupied,
  )

  store_field-SetsTo :
      (t : Table)
      → IsValid hash_bytes t
      → (t.occupied + t.tombstones + 1) * 10 ≤ t.bucket_count * 7
      → SetsTo hash_bytes grant field value (some t) (store_field hash_bytes grant t field value)
  unfolding store_field
  store_field-SetsTo t v room = elim (find_bucket-cases t field v.table (has_room t v)) [
    | inl (i, w, e, l, at_i, found) ↦ elim (Bool-cases (value_granted grant value)) [
      | inl g ↦
          let run : store_field hash_bytes grant t field value ≡ (
            set_overwritten,
            some (record t { buckets = set t.buckets i (shb_occupied field value) }),
          ) =
            rw (e, store_field, g, at_i, kept_lem value fits) refl in
          subst (SetsTo hash_bytes grant field value (some t)) (sym run)
            (overwrite-SetsTo t i w v l at_i found)
      | inr g ↦
          let run : store_field hash_bytes grant t field value ≡ (out_of_memory, some t) =
            rw (e, store_field, g) refl in
          subst (SetsTo hash_bytes grant field value (some t)) (sym run)
            (v, λ g. refl, refl, (_, refused_value grant value g))
    ]
    | inr (i, e, place, missing) ↦
        elim (Bool-cases (grant (for_field (length field)) && value_granted grant value)) [
          | inl g ↦
              let run : store_field hash_bytes grant t field value
                  ≡ (set_new, some (occupy i field value t)) =
                rw (e, store_field, g, kept_lem field short, kept_lem value fits) refl in
              subst (SetsTo hash_bytes grant field value (some t)) (sym run) (
                insert-SetsTo t (occupy i field value t) v room missing
                  (occupy-Stores t i field value v.table place))
          | inr g ↦
              let run : store_field hash_bytes grant t field value ≡ (out_of_memory, some t) =
                rw (e, store_field, g) refl in
              subst (SetsTo hash_bytes grant field value (some t)) (sym run)
                (v, λ g. refl, refl, refused grant field value g)
        ]
  ]

  grown :
      (t : Table)
      → IsValid hash_bytes t
      → should_grow t.occupied t.tombstones t.bucket_count ≡ true
      → Rehashes hash_bytes grant t
          (t.bucket_count * 2)
          (rehash_table hash_bytes grant t (t.bucket_count * 2))
      → SetsTo hash_bytes grant field value (some t) (grow_and_store hash_bytes grant t field value)
  unfolding grow_and_store
  grown t v big made =
      let n = t.bucket_count * 2 in
      elim (Rehash-cases (rehash_table hash_bytes grant t n)) [
        | inl (t', e) ↦
            let (_, table, size, occ, tombs, same) = subst (Rehashes hash_bytes grant t n) e made in
            let run : grow_and_store hash_bytes grant t field value
                ≡ store_field hash_bytes grant t' field value =
              rw (big, e, grow_and_store) refl in
            let doubled : n ≡ init_buckets * 2 ^ suc (v.sized.0) =
              omega (arith, v.sized.1, pow_double v.sized.0) in
            let valid =
              rehashed-IsValid t' n (suc (v.sized.0)) table size doubled tombs
                (omega (arith, v.roomy)) in
            subst (SetsTo hash_bytes grant field value (some t)) (sym run) (
              SetsTo-Keeps hash_bytes grant field value (some t) (some t') _ fits same occ
                (store_field-SetsTo t' valid (omega (arith, v.roomy, sixteen t v))))
        | inr (inl e) ↦
            let run : grow_and_store hash_bytes grant t field value ≡ (out_of_memory, some t) =
              rw (big, e, grow_and_store) refl in
            subst (SetsTo hash_bytes grant field value (some t)) (sym run)
              (v, λ g. refl, refl, (for_table n, subst (Rehashes hash_bytes grant t n) e made))
        | inr (inr e) ↦ absurd (subst (Rehashes hash_bytes grant t n) e made)
      ]

  grow_and_store-SetsTo :
      (t : Table)
      → IsValid hash_bytes t
      → SetsTo hash_bytes grant field value (some t) (grow_and_store hash_bytes grant t field value)
  unfolding grow_and_store
  grow_and_store-SetsTo t v =
      elim (Bool-cases (should_grow t.occupied t.tombstones t.bucket_count)) [
        | inr small ↦
            let run : grow_and_store hash_bytes grant t field value
                ≡ store_field hash_bytes grant t field value =
              if_false _ _ small in
            subst (SetsTo hash_bytes grant field value (some t)) (sym run)
              (store_field-SetsTo t v (ground arith))
        | inl big ↦ grown t v big (
            rehash_table-Rehashes grant t (t.bucket_count * 2) v.table
              (omega (arith, has_room t v)))
      ]

module _ (hash_bytes : Bytes → ℕ) (grant : Request → Bool) (field value : Bytes) where
  first_set :
      length field < 2 ^ 16
      → length value < 2 ^ 16
      → SetsTo hash_bytes grant field value none (hash_set hash_bytes grant none field value)
  unfolding hash_set
  first_set short fits =
      let test : ltb (2 ^ 16 - 1) (length value) ≡ false = ground arith in
      elim (Bool-cases (grant (for_table init_buckets))) [
        | inl e ↦
            let (t, made, table, size, occ, tombs, empty) =
              alloc_table-IsTable {hash_bytes = hash_bytes} grant init_buckets (omega arith) e in
            let run : hash_set hash_bytes grant none field value
                ≡ grow_and_store hash_bytes grant t field value =
              rw (test, made, hash_set) refl in
            let valid = rehashed-IsValid t init_buckets 0 table size refl tombs (omega arith) in
            subst (SetsTo hash_bytes grant field value none) (sym run) (
              SetsTo-Keeps hash_bytes grant field value none (some t) _ fits
                (λ g.
                  ap (scan g) empty
                  ∙ scan-absent g (replicate init_buckets shb_empty)
                      (count-replicate (bucket_matches g) init_buckets shb_empty refl))
                occ (grow_and_store-SetsTo grant field value short fits t valid))
        | inr e ↦
            let run : hash_set hash_bytes grant none field value ≡ (out_of_memory, none) =
              rw (test, no_table grant init_buckets e, hash_set) refl in
            subst (SetsTo hash_bytes grant field value none) (sym run)
              (tt, λ g. refl, refl, (for_table init_buckets, e))
      ]

  too_long :
      (to : Option Table)
      → ltb (2 ^ 16 - 1) (length value) ≡ true
      → hash_set hash_bytes grant to field value ≡ (value_too_long, to)
  unfolding hash_set
  too_long none e = if_true _ _ e
  too_long (some t) e = if_true _ _ e

  fitting :
      (to : Option Table)
      → IsValidPointer hash_bytes to
      → length field < 2 ^ 16
      → ltb (2 ^ 16 - 1) (length value) ≡ false
      → SetsTo hash_bytes grant field value to (hash_set hash_bytes grant to field value)
  unfolding hash_set
  fitting none v short fits = first_set short (ground arith)
  fitting (some t) v short fits =
      subst (SetsTo hash_bytes grant field value (some t)) (sym (if_false _ _ fits))
        (grow_and_store-SetsTo grant field value short (ground arith) t v)

  -- Setting a field below 64 KB in a valid table, or in none: a new field or an overwritten one, as
  -- the field was absent or there, now has the value, every other field is kept, and the count is
  -- one more or the same; too long a value changes nothing; without memory the map and the count
  -- are kept and some request was refused; the table stays valid; and never the error of a full
  -- table.
  pub hash_set-SetsTo :
      (to : Option Table)
      → IsValidPointer hash_bytes to
      → length field < 2 ^ 16
      → SetsTo hash_bytes grant field value to (hash_set hash_bytes grant to field value)
  unfolding hash_set
  hash_set-SetsTo to v short = elim (Bool-cases (ltb (2 ^ 16 - 1) (length value))) [
    | inl long ↦
        let run : hash_set hash_bytes grant to field value ≡ (value_too_long, to) =
          too_long to long in
        subst (SetsTo hash_bytes grant field value to) (sym run) (ground arith, refl)
    | inr fits ↦ fitting to v short fits
  ]
