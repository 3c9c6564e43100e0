-- ===== src/SharedHash/Write.antt =====
-- What filling, overwriting and clearing a bucket do to what an array holds.
use pg_redis.Base.{
  ℕ, ◌+◌, ◌<◌, ◌≤◌, ◌≡◌, refl, sym, ap, subst, ◌∙◌, inl, inr, true, false, Option, none, some, List,
  if◌then◌else◌, if_true, if_false, length, set, length-set, get_or-set_self, Bytes, bytes_eq,
  bytes_eq_iff, arith, Bool-cases,
}
use pg_redis.SharedHash.{Bucket, shb_empty, shb_occupied, shb_tombstone, bucket_at, bucket_matches}
use pg_redis.SharedHash.Scan.{
  is_occupied, to_ℕ, count, count-set, scan, scan-absent, scan-present, scan-set,
}
use pg_redis.SharedHash.Placed.{IsPlaced, Reaches, set-IsPlaced}

-- The array bs' holds o of the field, and of every other field what bs holds.
abbrev pub Writes : Bytes → Option Bytes → List Bucket → List Bucket → Type 0
Writes f o bs bs' = (g : Bytes) → scan g bs' ≡ (if bytes_eq f g then o else scan g bs)

pub is_occupied-matches :
    (g : Bytes) (b : Bucket) → is_occupied b ≡ false → bucket_matches g b ≡ false
is_occupied-matches g shb_empty e = refl
is_occupied-matches g (shb_occupied f v) e = cc
is_occupied-matches g shb_tombstone e = refl

module _ {hash_bytes : Bytes → ℕ} (n : ℕ) (bs : List Bucket) (i : ℕ) (p : IsPlaced hash_bytes n bs)
    (l : i < n) where
  below : i < length bs
  below = omega (arith, p.sized)

  copies :
      (g : Bytes) (b : Bucket)
      → count (bucket_matches g) (set bs i b) + to_ℕ (bucket_matches g (bucket_at bs i))
        ≡ count (bucket_matches g) bs + to_ℕ (bucket_matches g b)
  copies g b = count-set (bucket_matches g) bs i b shb_empty below

  -- A bucket given to a field that no other bucket has.
  given :
      (f v : Bytes)
      → ((g : Bytes) → count (bucket_matches g) (set bs i (shb_occupied f v)) ≤ 1)
      → ((g : Bytes) → bytes_eq f g ≡ false → bucket_matches g (bucket_at bs i) ≡ false)
      → Writes f (some v) bs (set bs i (shb_occupied f v))
  given f v once other g =
      let bs' = set bs i (shb_occupied f v) in
      elim (Bool-cases (bytes_eq f g)) [
        | inl e ↦
            let same = (bytes_eq_iff f g).0 e in
            scan-present g bs' i v (once g)
              (omega (arith, length-set bs i (shb_occupied f v), below))
              (get_or-set_self bs i (shb_occupied f v) shb_empty below
                ∙ ap (λ (k : Bytes). shb_occupied k v) same)
            ∙ sym (if_true _ _ e)
        | inr e ↦ scan-set g bs i (shb_occupied f v) (other g e) e ∙ sym (if_false _ _ e)
      ]

  -- An absent field put in a free bucket.
  fill-once :
      (f v : Bytes)
      → is_occupied (bucket_at bs i) ≡ false
      → count (bucket_matches f) bs ≡ 0
      → (g : Bytes) → count (bucket_matches g) (set bs i (shb_occupied f v)) ≤ 1
  fill-once f v free none_yet g = elim (Bool-cases (bytes_eq f g)) [
    | inl e ↦
        let z : count (bucket_matches g) bs ≡ 0 =
          subst (λ (k : Bytes). count (bucket_matches k) bs ≡ 0) ((bytes_eq_iff f g).0 e)
            none_yet in
        ground (arith, copies g (shb_occupied f v))
    | inr e ↦ ground (arith, copies g (shb_occupied f v), p.once g)
  ]

  pub fill-IsPlaced :
      (f v : Bytes)
      → is_occupied (bucket_at bs i) ≡ false
      → Reaches bs n (hash_bytes f) i
      → count (bucket_matches f) bs ≡ 0
      → IsPlaced hash_bytes n (set bs i (shb_occupied f v))
  fill-IsPlaced f v free reaches none_yet =
      set-IsPlaced n bs i (shb_occupied f v) p l refl (fill-once f v free none_yet)
        (λ g w e. subst (λ (k : Bytes). Reaches bs n (hash_bytes k) i) (cc) reaches)

  pub fill-Writes :
      (f v : Bytes)
      → is_occupied (bucket_at bs i) ≡ false
      → count (bucket_matches f) bs ≡ 0
      → Writes f (some v) bs (set bs i (shb_occupied f v))
  fill-Writes f v free none_yet =
      given f v (fill-once f v free none_yet) (λ g e. is_occupied-matches g (bucket_at bs i) free)

  -- Another value for the field of a bucket.
  module _ (f w v : Bytes) (at_i : bucket_at bs i ≡ shb_occupied f w) where
    overwrite-once : (g : Bytes) → count (bucket_matches g) (set bs i (shb_occupied f v)) ≤ 1
    overwrite-once g = omega (
      arith,
      copies g (shb_occupied f v),
      p.once g,
      ap (λ (b : Bucket). to_ℕ (bucket_matches g b)) at_i,
    )

    pub overwrite-IsPlaced : IsPlaced hash_bytes n (set bs i (shb_occupied f v))
    overwrite-IsPlaced = set-IsPlaced n bs i (shb_occupied f v) p l refl overwrite-once (λ g w' e.
        subst (λ (k : Bytes). Reaches bs n (hash_bytes k) i) (cc) (p.reached i f w l at_i))

    pub overwrite-Writes : Writes f (some v) bs (set bs i (shb_occupied f v))
    overwrite-Writes = given f v overwrite-once (λ g e. ap (bucket_matches g) at_i ∙ e)

    -- The field of a bucket taken out.
    bury-once : (g : Bytes) → count (bucket_matches g) (set bs i shb_tombstone) ≤ 1
    bury-once g = omega (arith, copies g shb_tombstone, p.once g)

    pub bury-IsPlaced : IsPlaced hash_bytes n (set bs i shb_tombstone)
    bury-IsPlaced = set-IsPlaced n bs i shb_tombstone p l refl bury-once (λ g w' e. cc)

    pub bury-Writes : Writes f none bs (set bs i shb_tombstone)
    bury-Writes g = elim (Bool-cases (bytes_eq f g)) [
      | inl e ↦
          let here : bucket_matches g (bucket_at bs i) ≡ true = ap (bucket_matches g) at_i ∙ e in
          scan-absent g (set bs i shb_tombstone)
            (omega (arith, copies g shb_tombstone, p.once g, ap to_ℕ here))
          ∙ sym (if_true _ _ e)
      | inr e ↦
          scan-set g bs i shb_tombstone (ap (bucket_matches g) at_i ∙ e) refl ∙ sym (if_false _ _ e)
    ]
