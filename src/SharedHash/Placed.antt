-- ===== src/SharedHash/Placed.antt =====
-- The invariant of a bucket array, what the search finds in one, and the writes that keep it.
use pg_redis.Base.{
  ℕ, ◌+◌, ◌-◌, ◌%◌, ◌<◌, ◌≤◌, ◌≡◌, ◌≢◌, ◌⊎◌, refl, sym, ap, subst, ◌∙◌, inl, inr, true, false, none,
  List, length, get_or, set, length-set, get_or-set_self, get_or-set_ne, Bytes, arith, Bool-cases,
}
use native.Mathlib.Decide.{dec_lt, ℕ_discrete}
use native.Mathlib.Nat.{mod-lt, add-mod_right, mod-eq_of_lt, mod-add-mod}
use pg_redis.SharedHash.{
  Bucket, shb_empty, shb_occupied, shb_tombstone, bucket_at, bucket_matches, is_tombstone, Probe,
  hit, vacant, saturated, find_loop,
}
use pg_redis.SharedHash.Scan.{
  is_occupied, is_empty, count, count-none, count-kinds, matches-occupied, matches_refl,
}
use pg_redis.SharedHash.Find.{probe_at, IsPath, Misses, Ends, Finds, find_loop-Finds}

-- A bucket of the field of hash h can stand at i: no empty bucket stops the search before it.
abbrev pub Reaches : List Bucket → ℕ → ℕ → ℕ → Type 0
Reaches bs n h i = (k : ℕ) × (k < n) × (i ≡ probe_at h n k) × IsPath bs n h k

module _ (hash_bytes : Bytes → ℕ) where
  -- The buckets are n, no field stands twice, and every field is where its search goes.
  pub record IsPlaced (n : ℕ) (bs : List Bucket) : Type 0 where
    pub sized : length bs ≡ n
    pub nonzero : 0 < n
    pub once : (g : Bytes) → count (bucket_matches g) bs ≤ 1
    pub reached :
        (i : ℕ) (f v : Bytes)
        → i < n
        → bucket_at bs i ≡ shb_occupied f v
        → Reaches bs n (hash_bytes f) i

-- What the search for a field finds in such an array with room left.
abbrev pub Searches : List Bucket → ℕ → ℕ → Bytes → Probe → Type 0
Searches bs n h field (hit i) = (i < n) × ((v : Bytes) × (bucket_at bs i ≡ shb_occupied field v))
Searches bs n h field (vacant i) =
    (i < n)
    × (is_occupied (bucket_at bs i) ≡ false)
    × Reaches bs n h i
    × (count (bucket_matches field) bs ≡ 0)
Searches bs n h field saturated = ⊥

-- Every bucket is probed.
probe_at-onto : (h n i : ℕ) → i < n → (k : ℕ) × (k < n) × (i ≡ probe_at h n k)
probe_at-onto h n i l =
    let r = h % n in
    let below : r < n = mod-lt h (omega arith) in
    elim (dec_lt i r) [
      | no q ↦ (
        i - r,
        omega arith,
        sym (sym (mod-add-mod h n (i - r)) ∙ ap (λ (x : ℕ). x % n) (omega arith) ∙ mod-eq_of_lt l),
      )
      | yes q ↦ (
        i + n - r,
        omega arith,
        sym (
            sym (mod-add-mod h n (i + n - r))
            ∙ ap (λ (x : ℕ). x % n) (omega arith)
            ∙ add-mod_right i n
            ∙ mod-eq_of_lt l),
      )
    ]

get_or-set :
    {A : Type 0} (xs : List A) (i j : ℕ) (v d : A)
    → i < length xs
    → (i ≡ j) × (get_or (set xs i v) j d ≡ v) ⊎ (i ≢ j) × (get_or (set xs i v) j d ≡ get_or xs j d)
get_or-set xs i j v d l = elim (ℕ_discrete i j) [
  | yes e ↦ inl (e, subst (λ (m : ℕ). get_or (set xs i v) m d ≡ v) e (get_or-set_self xs i v d l))
  | no q ↦ inr (q, get_or-set_ne xs i j v d q)
]

IsPath-set :
    (bs : List Bucket) (n h k i : ℕ) (b : Bucket)
    → i < length bs
    → is_empty b ≡ false
    → IsPath bs n h k
    → IsPath (set bs i b) n h k
IsPath-set bs n h k i b below e path j l =
    elim (get_or-set bs i (probe_at h n j) b shb_empty below) [
      | inl (_, same) ↦ rw same e
      | inr (_, same) ↦ rw same (path j l)
    ]

Reaches-set :
    (bs : List Bucket) (n h i j : ℕ) (b : Bucket)
    → i < length bs
    → is_empty b ≡ false
    → Reaches bs n h j
    → Reaches (set bs i b) n h j
Reaches-set bs n h i j b below e (k, l, at_k, path) =
    (k, l, at_k, IsPath-set bs n h k i b below e path)

-- No field stands where the search for it has not come or has passed.
meets :
    (bs : List Bucket) (n h : ℕ) (field : Bytes) (m k : ℕ)
    → Misses bs n h field m
    → Ends bs n h m
    → k < n
    → IsPath bs n h k
    → (v : Bytes) → bucket_at bs (probe_at h n k) ≡ shb_occupied field v
    → ⊥
meets bs n h field m k misses ends l path v e =
    let same = ap (bucket_matches field) e ∙ matches_refl field v in
    elim (dec_lt k m) [
      | yes q ↦ let no_match = misses k q in cc
      | no q ↦ elim ends [
        | inl all ↦ omega arith
        | inr empty ↦ elim (ℕ_discrete m k) [
          | yes at_k ↦
              let full = ap is_empty e in
              let none_here =
                subst (λ (j : ℕ). is_empty (bucket_at bs (probe_at h n j)) ≡ true) at_k empty in
              cc
          | no past ↦ let full = path m (omega arith) in cc
        ]
      ]
    ]

occupied_not_empty : (b : Bucket) → is_occupied b ≡ true → is_empty b ≡ false
occupied_not_empty shb_empty e = cc
occupied_not_empty (shb_occupied f v) e = refl
occupied_not_empty shb_tombstone e = cc

-- Where all buckets probed are occupied, no bucket is empty.
all_occupied :
    (bs : List Bucket) (n h : ℕ)
    → length bs ≡ n
    → ((j : ℕ) → j < n → is_occupied (bucket_at bs (probe_at h n j)) ≡ true)
    → count is_empty bs ≡ 0
all_occupied bs n h sized all = count-none is_empty bs shb_empty λ i l.
    let (k, below, e) = probe_at-onto h n i (omega arith) in
    occupied_not_empty (bucket_at bs i)
      (subst (λ (j : ℕ). is_occupied (bucket_at bs j) ≡ true) (sym e) (all k below))

module _ {hash_bytes : Bytes → ℕ} where
  -- A write that empties no bucket, duplicates no field and puts a field where its search goes.
  pub set-IsPlaced :
      (n : ℕ) (bs : List Bucket) (i : ℕ) (b : Bucket)
      → IsPlaced hash_bytes n bs
      → i < n
      → is_empty b ≡ false
      → ((g : Bytes) → count (bucket_matches g) (set bs i b) ≤ 1)
      → ((f v : Bytes) → b ≡ shb_occupied f v → Reaches bs n (hash_bytes f) i)
      → IsPlaced hash_bytes n (set bs i b)
  set-IsPlaced n bs i b p l e once reached =
      let below : i < length bs = omega (arith, p.sized) in
      record {
        sized = length-set bs i b ∙ p.sized;
        nonzero = p.nonzero;
        once = once;
        reached = λ j f v below_j at_j.
            Reaches-set bs n (hash_bytes f) i j b below e
              (elim (get_or-set bs i j b shb_empty below) [
                | inl (same, new) ↦
                    subst (Reaches bs n (hash_bytes f)) same (reached f v (sym new ∙ at_j))
                | inr (_, old) ↦ p.reached j f v below_j (sym old ∙ at_j)
              ]);
      }

  -- A field that the search misses stands nowhere.
  Misses-absent :
      (n : ℕ) (bs : List Bucket) (field : Bytes) (m : ℕ)
      → IsPlaced hash_bytes n bs
      → Misses bs n (hash_bytes field) field m
      → Ends bs n (hash_bytes field) m
      → count (bucket_matches field) bs ≡ 0
  Misses-absent n bs field m p misses ends = count-none (bucket_matches field) bs shb_empty λ i l.
      elim (Bool-cases (bucket_matches field (bucket_at bs i))) [
        | inr q ↦ q
        | inl q ↦
            let (v, at_i) = matches-occupied field (bucket_at bs i) q in
            let (k, below, at_k, path) = p.reached i field v (omega (arith, p.sized)) at_i in
            absurd (
              meets bs n (hash_bytes field) field m k misses ends below path v
                (subst (λ (j : ℕ). bucket_at bs j ≡ shb_occupied field v) at_k at_i))
      ]

  Finds-Searches :
      (n : ℕ) (bs : List Bucket) (field : Bytes) (r : Probe)
      → IsPlaced hash_bytes n bs
      → count is_occupied bs + count is_tombstone bs < n
      → Finds bs n (hash_bytes field) field r
      → Searches bs n (hash_bytes field) field r
  Finds-Searches n bs field (hit i) p room (k, l, e, matches) = (
    rw e (mod-lt (hash_bytes field + k) p.nonzero),
    matches-occupied field (bucket_at bs i) matches,
  )
  Finds-Searches n bs field (vacant i) p room (k, l, e, path, free, (m, misses, ends)) = (
    rw e (mod-lt (hash_bytes field + k) p.nonzero),
    free,
    (k, l, e, path),
    Misses-absent n bs field m p misses ends,
  )
  Finds-Searches n bs field saturated p room all =
      let none_empty = all_occupied bs n (hash_bytes field) p.sized all in
      omega (arith, count-kinds bs, p.sized)

  -- With room left, the search ends at the field, or at a place for it and the field is absent.
  pub find_loop-Searches :
      (n : ℕ) (bs : List Bucket) (field : Bytes)
      → IsPlaced hash_bytes n bs
      → count is_occupied bs + count is_tombstone bs < n
      → Searches bs n (hash_bytes field) field (find_loop bs n field n (hash_bytes field % n) none)
  find_loop-Searches n bs field p room =
      let h = hash_bytes field in
      let start : probe_at h n 0 ≡ h % n = ap (λ (x : ℕ). x % n) (omega arith) in
      Finds-Searches n bs field _ p room (
        subst (λ (i : ℕ). Finds bs n h field (find_loop bs n field n i none)) start
          (find_loop-Finds bs n h field n 0 none (omega arith) (λ j l. absurd (omega arith))
            (λ j l. absurd (omega arith)) (λ j l. absurd (omega arith))))
