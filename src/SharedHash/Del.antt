-- ===== src/SharedHash/Del.antt =====
-- Deleting a field: the bucket becomes a tombstone, and a sparse table shrinks where there is
-- memory for it.
use pg_redis.Base.{
  ℕ, zero, suc, ◌+◌, ◌-◌, ◌*◌, ◌/◌, ◌^◌, ◌<◌, ◌≡◌, refl, sym, ap, subst, ◌∙◌, inl, inr, Bool, true,
  false, ◌==◌, Option, none, some, length, set, Bytes, arith, Bool-cases,
}
use pg_redis.SharedHash.{
  Bucket, shb_empty, shb_occupied, shb_tombstone, bucket_at, is_tombstone, Table, Request,
  init_buckets, should_shrink, hit, find_bucket, bury, rehashed, rehash_table, deleted, absent,
  hash_del,
}
use pg_redis.SharedHash.Scan.{is_occupied, to_ℕ, count, count-set, scan}
use pg_redis.SharedHash.Write.{bury-IsPlaced, bury-Writes}
use pg_redis.SharedHash.Growth.{Rehashes, Rehash-cases, find_bucket-cases, rehash_table-Rehashes}
use pg_redis.SharedHash.Map.{
  IsValid, IsValidPointer, DeletesTo, has_room, pow_double, rehashed-IsValid, none_occupied,
}

halved :
    (k n : ℕ) → n ≡ init_buckets * 2 ^ k → init_buckets < n → n / 2 ≡ init_buckets * 2 ^ (k - 1)
halved zero n e l = omega arith
halved (suc k) n e l =
    let q : k ≡ suc k - 1 = omega arith in
    subst (λ (j : ℕ). n / 2 ≡ init_buckets * 2 ^ j) q (omega (arith, pow_double k))

module _ {hash_bytes : Bytes → ℕ} (grant : Request → Bool) (field : Bytes) (t : Table)
    (v : IsValid hash_bytes t) where
  -- The table with the field's bucket cleared.
  module _ (i : ℕ) (w : Bytes) (l : i < t.bucket_count)
      (at_i : bucket_at t.buckets i ≡ shb_occupied field w) where
    below : i < length t.buckets
    below = omega (arith, v.table.placed.sized)

    occ : count is_occupied (set t.buckets i shb_tombstone) + 1 ≡ t.occupied
    occ = omega (
      arith,
      count-set is_occupied t.buckets i shb_tombstone shb_empty below,
      ap (λ (x : Bucket). to_ℕ (is_occupied x)) at_i,
      v.table.occupied,
    )

    bury-IsValid : IsValid hash_bytes (bury i t)
    unfolding bury
    bury-IsValid = record {
      table = record {
        placed = bury-IsPlaced t.bucket_count t.buckets i v.table.placed l field w w at_i;
        occupied = omega (arith, occ);
        tombstones = omega (
          arith,
          count-set is_tombstone t.buckets i shb_tombstone shb_empty below,
          ap (λ (x : Bucket). to_ℕ (is_tombstone x)) at_i,
          v.table.tombstones,
        );
      };
      sized = v.sized;
      roomy = omega (arith, v.roomy, occ);
    }

    bury-DeletesTo :
        scan field t.buckets ≡ some w
        → DeletesTo hash_bytes field (some t) (deleted, some (bury i t))
    unfolding bury
    bury-DeletesTo found = (
      bury-IsValid,
      (w, found),
      bury-Writes t.bucket_count t.buckets i v.table.placed l field w w at_i,
      omega (arith, occ),
    )

    shrunk_room :
        should_shrink (bury i t).occupied (bury i t).bucket_count ≡ true
        → (bury i t).occupied < (bury i t).bucket_count / 2
    unfolding bury
    shrunk_room sparse = ground arith

    -- A cleared table that has shrunk.
    shrunk-DeletesTo :
        (t' : Table)
        → scan field t.buckets ≡ some w
        → should_shrink (bury i t).occupied (bury i t).bucket_count ≡ true
        → Rehashes hash_bytes grant (bury i t) ((bury i t).bucket_count / 2) (rehashed t')
        → DeletesTo hash_bytes field (some t) (deleted, some t')
    unfolding bury
    shrunk-DeletesTo t' found sparse (_, table, size, same_count, tombs, same) =
        let (_, present, updates, counted) = bury-DeletesTo found in
        (
          rehashed-IsValid t' (t.bucket_count / 2) (v.sized.0 - 1) table size
              (halved v.sized.0 t.bucket_count v.sized.1 (ground arith)) tombs (ground arith),
          present,
          λ g. same g ∙ updates g,
          omega (arith, same_count, counted),
        )

    found-DeletesTo :
        find_bucket hash_bytes t field ≡ hit i
        → scan field t.buckets ≡ some w
        → DeletesTo hash_bytes field (some t) (hash_del hash_bytes grant (some t) field)
    unfolding hash_del
    found-DeletesTo e found =
        let n = (bury i t).bucket_count / 2 in
        let some_there : (t.occupied == 0) ≡ false = ground (arith, occ) in
        elim (Bool-cases (should_shrink (bury i t).occupied (bury i t).bucket_count)) [
          | inr large ↦
              let run : hash_del hash_bytes grant (some t) field ≡ (deleted, some (bury i t)) =
                rw (some_there, e, large, hash_del) refl in
              subst (DeletesTo hash_bytes field (some t)) (sym run) (bury-DeletesTo found)
          | inl sparse ↦
              let made =
                rehash_table-Rehashes grant (bury i t) n bury-IsValid.table (shrunk_room sparse) in
              elim (Rehash-cases (rehash_table hash_bytes grant (bury i t) n)) [
                | inl (t', q) ↦
                    let run : hash_del hash_bytes grant (some t) field ≡ (deleted, some t') =
                      rw (some_there, e, sparse, q, hash_del) refl in
                    subst (DeletesTo hash_bytes field (some t)) (sym run) (
                      shrunk-DeletesTo t' found sparse
                        (subst (Rehashes hash_bytes grant (bury i t) n) q made))
                | inr (inl q) ↦
                    let run : hash_del hash_bytes grant (some t) field
                        ≡ (deleted, some (bury i t)) =
                      rw (some_there, e, sparse, q, hash_del) refl in
                    subst (DeletesTo hash_bytes field (some t)) (sym run) (bury-DeletesTo found)
                | inr (inr q) ↦ absurd (subst (Rehashes hash_bytes grant (bury i t) n) q made)
              ]
        ]

  some_del : DeletesTo hash_bytes field (some t) (hash_del hash_bytes grant (some t) field)
  unfolding hash_del
  some_del = elim (Bool-cases (t.occupied == 0)) [
    | inl none_there ↦
        let run : hash_del hash_bytes grant (some t) field ≡ (absent, some t) =
          rw (none_there, hash_del) refl in
        subst (DeletesTo hash_bytes field (some t)) (sym run)
          (none_occupied t field v (ground arith), refl)
    | inr some_there ↦ elim (find_bucket-cases t field v.table (has_room t v)) [
      | inl (i, w, e, l, at_i, found) ↦ found-DeletesTo i w l at_i e found
      | inr (i, e, _, missing) ↦
          let run : hash_del hash_bytes grant (some t) field ≡ (absent, some t) =
            rw (some_there, e, hash_del) refl in
          subst (DeletesTo hash_bytes field (some t)) (sym run) (missing, refl)
    ]
  ]

-- Deleting a field of a valid table: `deleted` exactly as a field that was there is gone, every
-- other field kept, the count one less and the table valid, shrunk or not; `absent` when it was not
-- there, with nothing changed; and never the error of a full table.
pub hash_del-DeletesTo :
    (hash_bytes : Bytes → ℕ) (grant : Request → Bool) (field : Bytes) (to : Option Table)
    → IsValidPointer hash_bytes to
    → DeletesTo hash_bytes field to (hash_del hash_bytes grant to field)
unfolding hash_del
hash_del-DeletesTo hash_bytes grant field none v = (refl, refl)
hash_del-DeletesTo hash_bytes grant field (some t) v = some_del grant field t v
