-- ===== src/SharedHash/Find.antt =====
-- The search for a field's bucket: it finds the field or the place to put it, and never runs
-- round a table that has an empty bucket.
use pg_redis.Base.{
  ℕ, zero, suc, ◌+◌, ◌%◌, ◌<◌, ◌≤◌, ◌≡◌, ◌⊎◌, refl, sym, ap, subst, ◌∙◌, inl, inr, true, false,
  Option, none, some, List, Bytes, bytes_eq, arith, Bool-cases,
}
use native.Mathlib.Decide.{dec_lt}
use native.Mathlib.Nat.{mod-add-mod}
use pg_redis.SharedHash.{
  Bucket, shb_empty, shb_occupied, shb_tombstone, bucket_at, bucket_matches, is_tombstone, Probe,
  hit, vacant, saturated, or_else, find_loop,
}
use pg_redis.SharedHash.Scan.{is_occupied, is_empty}

-- The k-th bucket probed for a hash.
abbrev pub probe_at : ℕ → ℕ → ℕ → ℕ
probe_at h n k = (h + k) % n

-- No probe before the k-th meets an empty bucket.
abbrev pub IsPath : List Bucket → ℕ → ℕ → ℕ → Type 0
IsPath bs n h k = (j : ℕ) → j < k → is_empty (bucket_at bs (probe_at h n j)) ≡ false

-- The first k probes miss the field.
abbrev pub Misses : List Bucket → ℕ → ℕ → Bytes → ℕ → Type 0
Misses bs n h field k =
    (j : ℕ) → j < k → bucket_matches field (bucket_at bs (probe_at h n j)) ≡ false

-- The probes give up after the k-th: all buckets are seen, or this one is empty.
abbrev pub Ends : List Bucket → ℕ → ℕ → ℕ → Type 0
Ends bs n h k = (k ≡ n) ⊎ (is_empty (bucket_at bs (probe_at h n k)) ≡ true)

-- What the search for a field of hash h returns.
abbrev pub Finds : List Bucket → ℕ → ℕ → Bytes → Probe → Type 0
Finds bs n h field (hit i) =
    (k : ℕ) × (k < n) × (i ≡ probe_at h n k) × (bucket_matches field (bucket_at bs i) ≡ true)
Finds bs n h field (vacant i) =
    (k : ℕ) × (k < n)
    × (i ≡ probe_at h n k)
    × IsPath bs n h k
    × (is_occupied (bucket_at bs i) ≡ false)
    × ((m : ℕ) × Misses bs n h field m × Ends bs n h m)
Finds bs n h field saturated = (j : ℕ) → j < n → is_occupied (bucket_at bs (probe_at h n j)) ≡ true

-- What the loop knows of the first tombstone after k probes.
abbrev pub Tombs : List Bucket → ℕ → ℕ → ℕ → Option ℕ → Type 0
Tombs bs n h k none = (j : ℕ) → j < k → is_occupied (bucket_at bs (probe_at h n j)) ≡ true
Tombs bs n h k (some t) =
    (j : ℕ) × (j < k) × (t ≡ probe_at h n j) × (is_tombstone (bucket_at bs t) ≡ true)

probe_at-suc : (h n k : ℕ) → (probe_at h n k + 1) % n ≡ probe_at h n (suc k)
probe_at-suc h n k = mod-add-mod (h + k) n 1 ∙ ap (λ (x : ℕ). x % n) (omega arith)

up_to : (P : ℕ → Type 0) (k : ℕ) → ((j : ℕ) → j < k → P j) → P k → (j : ℕ) → j < suc k → P j
up_to P k h p j l = elim (dec_lt j k) [
  | yes q ↦ h j q
  | no q ↦ let e : k ≡ j = omega arith in subst P e p
]

occupied-is_empty : (b : Bucket) → is_occupied b ≡ true → is_empty b ≡ false
occupied-is_empty shb_empty e = cc
occupied-is_empty (shb_occupied f v) e = refl
occupied-is_empty shb_tombstone e = cc

tombstone-is_empty : (b : Bucket) → is_tombstone b ≡ true → is_empty b ≡ false
tombstone-is_empty shb_empty e = cc
tombstone-is_empty (shb_occupied f v) e = cc
tombstone-is_empty shb_tombstone e = refl

tombstone-is_occupied : (b : Bucket) → is_tombstone b ≡ true → is_occupied b ≡ false
tombstone-is_occupied shb_empty e = refl
tombstone-is_occupied (shb_occupied f v) e = cc
tombstone-is_occupied shb_tombstone e = refl

-- One more probe that the loop passes over.
step-IsPath :
    (bs : List Bucket) (n h : ℕ) (field : Bytes) (k : ℕ)
    → IsPath bs n h k
    → Misses bs n h field k
    → is_empty (bucket_at bs (probe_at h n k)) ≡ false
    → bucket_matches field (bucket_at bs (probe_at h n k)) ≡ false
    → IsPath bs n h (suc k) × Misses bs n h field (suc k)
step-IsPath bs n h field k path misses e m = (
  up_to (λ j. is_empty (bucket_at bs (probe_at h n j)) ≡ false) k path e,
  up_to (λ j. bucket_matches field (bucket_at bs (probe_at h n j)) ≡ false) k misses m,
)

-- The place that the loop returns where it ends after m probes.
Ends-vacant :
    (bs : List Bucket) (n h : ℕ) (field : Bytes) (m t : ℕ)
    → m ≤ n
    → IsPath bs n h m
    → Misses bs n h field m
    → Ends bs n h m
    → Tombs bs n h m (some t)
    → Finds bs n h field (vacant t)
Ends-vacant bs n h field m t le path misses ends (j, below, e, tomb) = (
  j,
  omega arith,
  e,
  λ i l. path i (omega arith),
  tombstone-is_occupied (bucket_at bs t) tomb,
  (m, misses, ends),
)

-- The place that it returns where it meets an empty bucket.
empty_vacant :
    (bs : List Bucket) (n h : ℕ) (field : Bytes) (k : ℕ) (first_tomb : Option ℕ)
    → k < n
    → IsPath bs n h k
    → Misses bs n h field k
    → Tombs bs n h k first_tomb
    → bucket_at bs (probe_at h n k) ≡ shb_empty
    → Finds bs n h field (vacant (or_else first_tomb (probe_at h n k)))
empty_vacant bs n h field k none l path misses tombs e =
    (k, l, refl, path, ap is_occupied e, (k, misses, inr (ap is_empty e)))
empty_vacant bs n h field k (some t) l path misses tombs e =
    Ends-vacant bs n h field k t (omega arith) path misses (inr (ap is_empty e)) tombs

Tombs-occupied :
    (bs : List Bucket) (n h k : ℕ) (first_tomb : Option ℕ)
    → Tombs bs n h k first_tomb
    → is_occupied (bucket_at bs (probe_at h n k)) ≡ true
    → Tombs bs n h (suc k) first_tomb
Tombs-occupied bs n h k none tombs e =
    up_to (λ j. is_occupied (bucket_at bs (probe_at h n j)) ≡ true) k tombs e
Tombs-occupied bs n h k (some t) (j, l, same, tomb) e = (j, omega arith, same, tomb)

Tombs-tombstone :
    (bs : List Bucket) (n h k : ℕ) (first_tomb : Option ℕ)
    → Tombs bs n h k first_tomb
    → is_tombstone (bucket_at bs (probe_at h n k)) ≡ true
    → Tombs bs n h (suc k) (some (or_else first_tomb (probe_at h n k)))
Tombs-tombstone bs n h k none tombs e = (k, omega arith, refl, e)
Tombs-tombstone bs n h k (some t) (j, l, same, tomb) e = (j, omega arith, same, tomb)

Bucket-cases :
    (b : Bucket)
    → (b ≡ shb_empty) ⊎ (((f : Bytes) × (v : Bytes) × (b ≡ shb_occupied f v)) ⊎ (b ≡ shb_tombstone))
Bucket-cases shb_empty = inl refl
Bucket-cases (shb_occupied f v) = inr (inl (f, v, refl))
Bucket-cases shb_tombstone = inr (inr refl)

module _ (bs : List Bucket) (n : ℕ) (field : Bytes) (probes idx : ℕ) (first_tomb : Option ℕ) where
  loop_empty :
      bucket_at bs idx ≡ shb_empty
      → find_loop bs n field (suc probes) idx first_tomb ≡ vacant (or_else first_tomb idx)
  unfolding find_loop
  loop_empty e = rw (e, find_loop) refl

  loop_hit :
      (f v : Bytes)
      → bucket_at bs idx ≡ shb_occupied f v
      → bytes_eq f field ≡ true
      → find_loop bs n field (suc probes) idx first_tomb ≡ hit idx
  unfolding find_loop
  loop_hit f v e same = rw (e, same, find_loop) refl

  loop_other :
      (f v : Bytes)
      → bucket_at bs idx ≡ shb_occupied f v
      → bytes_eq f field ≡ false
      → find_loop bs n field (suc probes) idx first_tomb
        ≡ find_loop bs n field probes ((idx + 1) % n) first_tomb
  unfolding find_loop
  loop_other f v e other = rw (e, other, find_loop) refl

  loop_tombstone :
      bucket_at bs idx ≡ shb_tombstone
      → find_loop bs n field (suc probes) idx first_tomb
        ≡ find_loop bs n field probes ((idx + 1) % n) (some (or_else first_tomb idx))
  unfolding find_loop
  loop_tombstone e = rw (e, find_loop) refl

pub find_loop-Finds :
    (bs : List Bucket) (n h : ℕ) (field : Bytes) (probes k : ℕ) (first_tomb : Option ℕ)
    → k + probes ≡ n
    → IsPath bs n h k
    → Misses bs n h field k
    → Tombs bs n h k first_tomb
    → Finds bs n h field (find_loop bs n field probes (probe_at h n k) first_tomb)
unfolding find_loop
find_loop-Finds bs n h field zero k none e path misses tombs = λ j l. tombs j (omega arith)
find_loop-Finds bs n h field zero k (some t) e path misses tombs =
    Ends-vacant bs n h field k t (omega arith) path misses (inl (omega arith)) tombs
find_loop-Finds bs n h field (suc probes) k first_tomb e path misses tombs =
    let idx = probe_at h n k in
    let next =
      λ (ft : Option ℕ) (e' : is_empty (bucket_at bs idx) ≡ false)
          (m : bucket_matches field (bucket_at bs idx) ≡ false) (t : Tombs bs n h (suc k) ft).
        let p = step-IsPath bs n h field k path misses e' m in
        subst (λ (i : ℕ). Finds bs n h field (find_loop bs n field probes i ft))
          (sym (probe_at-suc h n k))
          (find_loop-Finds bs n h field probes (suc k) ft (omega arith) p.0 p.1 t) in
    elim (Bucket-cases (bucket_at bs idx)) [
      | inl b ↦
          subst (Finds bs n h field) (sym (loop_empty bs n field probes idx first_tomb b))
            (empty_vacant bs n h field k first_tomb (omega arith) path misses tombs b)
      | inr (inl (f, v, b)) ↦ elim (Bool-cases (bytes_eq f field)) [
        | inl same ↦
            subst (Finds bs n h field) (sym (loop_hit bs n field probes idx first_tomb f v b same))
              (k, omega arith, refl, rw b same)
        | inr other ↦
            subst (Finds bs n h field)
              (sym (loop_other bs n field probes idx first_tomb f v b other))
              (next first_tomb (ap is_empty b) (rw b other)
                (Tombs-occupied bs n h k first_tomb tombs (ap is_occupied b)))
      ]
      | inr (inr b) ↦
          subst (Finds bs n h field) (sym (loop_tombstone bs n field probes idx first_tomb b)) (
            next (some (or_else first_tomb idx)) (ap is_empty b) (ap (bucket_matches field) b)
              (Tombs-tombstone bs n h k first_tomb tombs (ap is_tombstone b)))
    ]
