-- ===== src/SharedHash/Scan.antt =====
-- What a table's buckets hold, by counting and by a scan from the first bucket to the last.
use pg_redis.Base.{
  ℕ, zero, suc, ◌+◌, ◌<◌, ◌≤◌, ◌≡◌, refl, ap, inl, inr, Bool, true, false, Option, none, some, List,
  [], ◌∷◌, if◌then◌else◌, length, get_or, set, replicate, Bytes, bytes_eq, bytes_eq_iff, arith,
  Bool-cases,
}
use pg_redis.SharedHash.{
  Bucket, shb_empty, shb_occupied, shb_tombstone, bucket_at, bucket_matches, is_tombstone,
}

abbrev pub is_occupied : Bucket → Bool
is_occupied shb_empty = false
is_occupied (shb_occupied _ _) = true
is_occupied shb_tombstone = false

abbrev pub is_empty : Bucket → Bool
is_empty shb_empty = true
is_empty (shb_occupied _ _) = false
is_empty shb_tombstone = false

abbrev pub to_ℕ : Bool → ℕ
to_ℕ true = 1
to_ℕ false = 0

unfoldable pub count {ℓ} : {A : Type ℓ} → (A → Bool) → List A → ℕ
count p [] = 0
count p (x ∷ xs) = let rest = count p xs in if p x then suc rest else rest

-- The value of the first bucket with the field.
unfoldable pub scan : Bytes → List Bucket → Option Bytes
scan field [] = none
scan field (shb_empty ∷ bs) = scan field bs
scan field (shb_tombstone ∷ bs) = scan field bs
scan field (shb_occupied f v ∷ bs) =
    let rest = scan field bs in if bytes_eq f field then some v else rest

module _ {ℓ} {A : Type ℓ} (p : A → Bool) where
  pub count-set :
      (xs : List A) (i : ℕ) (v d : A)
      → i < length xs
      → count p (set xs i v) + to_ℕ (p (get_or xs i d)) ≡ count p xs + to_ℕ (p v)
  unfolding count
  count-set [] i v d h = elim h [ ]
  count-set (x ∷ xs) zero v d h = ground arith
  count-set (x ∷ xs) (suc i) v d h = ground (arith, count-set xs i v d (omega arith))

  -- An element that passes is counted.
  pub count-pos :
      (xs : List A) (i : ℕ) (d : A) → i < length xs → p (get_or xs i d) ≡ true → 0 < count p xs
  unfolding count
  count-pos [] i d h e = elim h [ ]
  count-pos (x ∷ xs) zero d h e = ground arith
  count-pos (x ∷ xs) (suc i) d h e = ground (arith, count-pos xs i d (omega arith) e)

  -- Elements that all fail are not.
  pub count-none :
      (xs : List A) (d : A) → ((i : ℕ) → i < length xs → p (get_or xs i d) ≡ false) → count p xs ≡ 0
  unfolding count
  count-none [] d h = refl
  count-none (x ∷ xs) d h =
      rw (h 0 (omega arith)) (count-none xs d (λ i k. h (suc i) (omega arith)))

  pub count-replicate : (n : ℕ) (d : A) → p d ≡ false → count p (replicate n d) ≡ 0
  unfolding count
  count-replicate zero d e = refl
  count-replicate (suc n) d e = rw e (count-replicate n d e)

-- Every bucket is empty, occupied or a tombstone.
pub count-kinds :
    (bs : List Bucket)
    → count is_empty bs + count is_occupied bs + count is_tombstone bs ≡ length bs
unfolding count
count-kinds [] = refl
count-kinds (shb_empty ∷ bs) = omega (arith, count-kinds bs)
count-kinds (shb_occupied f v ∷ bs) = omega (arith, count-kinds bs)
count-kinds (shb_tombstone ∷ bs) = omega (arith, count-kinds bs)

pub count-matches-le :
    (g : Bytes) (bs : List Bucket) → count (bucket_matches g) bs ≤ count is_occupied bs
unfolding count
count-matches-le g [] = omega arith
count-matches-le g (shb_empty ∷ bs) = count-matches-le g bs
count-matches-le g (shb_occupied f v ∷ bs) = ground (arith, count-matches-le g bs)
count-matches-le g (shb_tombstone ∷ bs) = count-matches-le g bs

-- A bucket that matches has the field.
pub matches-occupied :
    (g : Bytes) (b : Bucket) → bucket_matches g b ≡ true → (v : Bytes) × (b ≡ shb_occupied g v)
matches-occupied g shb_empty h = cc
matches-occupied g (shb_occupied f v) h = (v, ap (λ x. shb_occupied x v) ((bytes_eq_iff f g).0 h))
matches-occupied g shb_tombstone h = cc

pub matches_refl : (g v : Bytes) → bucket_matches g (shb_occupied g v) ≡ true
matches_refl g v = (bytes_eq_iff g g).1 refl

pub scan-absent :
    (g : Bytes) (bs : List Bucket) → count (bucket_matches g) bs ≡ 0 → scan g bs ≡ none
unfolding count scan
scan-absent g [] h = refl
scan-absent g (shb_empty ∷ bs) h = scan-absent g bs h
scan-absent g (shb_occupied f v ∷ bs) h = ground (arith, scan-absent g bs)
scan-absent g (shb_tombstone ∷ bs) h = scan-absent g bs h

-- The only bucket with the field is the one that a scan finds.
pub scan-present :
    (g : Bytes) (bs : List Bucket) (i : ℕ) (v : Bytes)
    → count (bucket_matches g) bs ≤ 1
    → i < length bs
    → bucket_at bs i ≡ shb_occupied g v
    → scan g bs ≡ some v
unfolding count scan
scan-present g [] i v u h e = elim h [ ]
scan-present g (shb_empty ∷ bs) zero v u h e = cc
scan-present g (shb_empty ∷ bs) (suc i) v u h e = scan-present g bs i v u (omega arith) e
scan-present g (shb_tombstone ∷ bs) zero v u h e = cc
scan-present g (shb_tombstone ∷ bs) (suc i) v u h e = scan-present g bs i v u (omega arith) e
scan-present g (shb_occupied f w ∷ bs) zero v u h e =
    let same : f ≡ g = cc in
    let value : w ≡ v = cc in rw (same, value, (bytes_eq_iff g g).1 refl) refl
scan-present g (shb_occupied f w ∷ bs) (suc i) v u h e =
    let k = count-pos (bucket_matches g) bs i shb_empty (omega arith) (rw e (matches_refl g v)) in
    elim (Bool-cases (bytes_eq f g)) [
      | inl q ↦ let bad : suc (count (bucket_matches g) bs) ≤ 1 = rw q at u in absurd (omega arith)
      | inr q ↦ rw q (scan-present g bs i v (rw q at u) (omega arith) e)
    ]

-- A write that takes the field from no bucket and gives it to none.
pub scan-set :
    (g : Bytes) (bs : List Bucket) (i : ℕ) (b : Bucket)
    → bucket_matches g (bucket_at bs i) ≡ false
    → bucket_matches g b ≡ false
    → scan g (set bs i b) ≡ scan g bs
unfolding scan
scan-set g [] i b h k = refl
scan-set g (shb_empty ∷ bs) zero shb_empty h k = refl
scan-set g (shb_empty ∷ bs) zero (shb_occupied f v) h k = rw k refl
scan-set g (shb_empty ∷ bs) zero shb_tombstone h k = refl
scan-set g (shb_occupied f v ∷ bs) zero shb_empty h k = rw h refl
scan-set g (shb_occupied f v ∷ bs) zero (shb_occupied f' v') h k = rw (h, k) refl
scan-set g (shb_occupied f v ∷ bs) zero shb_tombstone h k = rw h refl
scan-set g (shb_tombstone ∷ bs) zero shb_empty h k = refl
scan-set g (shb_tombstone ∷ bs) zero (shb_occupied f v) h k = rw k refl
scan-set g (shb_tombstone ∷ bs) zero shb_tombstone h k = refl
scan-set g (shb_empty ∷ bs) (suc i) b h k = scan-set g bs i b h k
scan-set g (shb_occupied f v ∷ bs) (suc i) b h k =
    ap (λ (r : Option Bytes). if bytes_eq f g then some v else r) (scan-set g bs i b h k)
scan-set g (shb_tombstone ∷ bs) (suc i) b h k = scan-set g bs i b h k
