-- ===== src/SharedHash/Growth.antt =====
-- Tables whose counters are right, and their rehashing: nothing is lost, and it never overfills.
use pg_redis.Base.{
  ℕ, suc, ◌+◌, ◌<◌, ◌≤◌, ◌≡◌, ◌⊎◌, refl, sym, ap, subst, ◌∙◌, inl, inr, Bool, true, false, Option,
  none, some, List, [], ◌∷◌, if◌then◌else◌, if_true, if_false, length, length-replicate,
  get_or-replicate, replicate, Bytes, bytes_eq, bytes_eq_iff, arith, Bool-cases,
}
use pg_redis.SharedHash.{
  Bucket, shb_empty, shb_occupied, shb_tombstone, bucket_at, bucket_matches, is_tombstone, Table,
  Request, for_table, Probe, hit, vacant, saturated, find_bucket, alloc_table, occupy, insert_owned,
  Rehash, rehashed, no_memory, overfull, rehash_loop, rehash_table,
}
use pg_redis.SharedHash.Scan.{
  is_occupied, to_ℕ, count, count-set, count-replicate, scan, scan-absent, scan-present,
}
use pg_redis.SharedHash.Placed.{IsPlaced, Searches, find_loop-Searches}
use pg_redis.SharedHash.Write.{Writes, fill-IsPlaced, fill-Writes, is_occupied-matches}

-- What one option holds, or else the other.
abbrev pub or_value : Option Bytes → Option Bytes → Option Bytes
or_value none o = o
or_value (some v) o = some v

module _ (hash_bytes : Bytes → ℕ) where
  -- A table whose array is in order and whose counters count it.
  pub record IsTable (t : Table) : Type 0 where
    pub placed : IsPlaced hash_bytes t.bucket_count t.buckets
    pub occupied : t.occupied ≡ count is_occupied t.buckets
    pub tombstones : t.tombstones ≡ count is_tombstone t.buckets

  -- The table t' is t with a value stored for an absent field.
  pub record Stores (f v : Bytes) (t t' : Table) : Type 0 where
    pub table : IsTable t'
    pub size : t'.bucket_count ≡ t.bucket_count
    pub writes : Writes f (some v) t.buckets t'.buckets
    pub occupied : t'.occupied ≡ t.occupied + 1
    pub tombstones : t'.tombstones ≤ t.tombstones
    pub copies :
        (g : Bytes)
        → count (bucket_matches g) t'.buckets
          ≡ count (bucket_matches g) t.buckets + to_ℕ (bytes_eq f g)

  -- What a rehash to n buckets may give: a table of the same contents with no tombstone.
  abbrev pub Rehashes : (Request → Bool) → Table → ℕ → Rehash → Type 0
  Rehashes grant old n (rehashed t) =
      (grant (for_table n) ≡ true)
      × IsTable t
      × (t.bucket_count ≡ n)
      × (t.occupied ≡ old.occupied)
      × (t.tombstones ≡ 0)
      × ((g : Bytes) → scan g t.buckets ≡ scan g old.buckets)
  Rehashes grant old n no_memory = grant (for_table n) ≡ false
  Rehashes grant old n overfull = ⊥

or_value-none : (o : Option Bytes) → or_value o none ≡ o
or_value-none none = refl
or_value-none (some v) = refl

pub no_table :
    (grant : Request → Bool) (n : ℕ) → grant (for_table n) ≡ false → alloc_table grant n ≡ none
unfolding alloc_table
no_table grant n e = if_false _ _ e

-- What a rehash has carried over once the first bucket left is.
carried :
    (g f v : Bytes) (bs ts ts' ts2 : List Bucket)
    → (bytes_eq f g ≡ true → count (bucket_matches g) bs ≡ 0)
    → scan g ts' ≡ (if bytes_eq f g then some v else scan g ts)
    → scan g ts2 ≡ or_value (scan g bs) (scan g ts')
    → scan g ts2 ≡ or_value (if bytes_eq f g then some v else scan g bs) (scan g ts)
carried g f v bs ts ts' ts2 gone e holds = elim (Bool-cases (bytes_eq f g)) [
  | inl q ↦ holds ∙ rw (scan-absent g bs (gone q), e, q) refl
  | inr q ↦ holds ∙ rw (e, q) refl
]

pub Rehash-cases :
    (r : Rehash) → ((t : Table) × (r ≡ rehashed t)) ⊎ ((r ≡ no_memory) ⊎ (r ≡ overfull))
Rehash-cases (rehashed t) = inl (t, refl)
Rehash-cases no_memory = inr (inl refl)
Rehash-cases overfull = inr (inr refl)

Probe-cases : (r : Probe) → ((i : ℕ) × (r ≡ hit i)) ⊎ (((i : ℕ) × (r ≡ vacant i)) ⊎ (r ≡ saturated))
Probe-cases (hit i) = inl (i, refl)
Probe-cases (vacant i) = inr (inl (i, refl))
Probe-cases saturated = inr (inr refl)

module _ {hash_bytes : Bytes → ℕ} where
  pub find_bucket-Searches :
      (t : Table) (f : Bytes)
      → IsTable hash_bytes t
      → t.occupied + t.tombstones < t.bucket_count
      → Searches t.buckets t.bucket_count (hash_bytes f) f (find_bucket hash_bytes t f)
  unfolding find_bucket
  find_bucket-Searches t f v room =
      find_loop-Searches t.bucket_count t.buckets f v.placed
        (omega (arith, v.occupied, v.tombstones))

  pub occupy-Stores :
      (t : Table) (i : ℕ) (f v : Bytes)
      → IsTable hash_bytes t
      → Searches t.buckets t.bucket_count (hash_bytes f) f (vacant i)
      → Stores hash_bytes f v t (occupy i f v t)
  unfolding occupy
  occupy-Stores t i f v valid (l, free, reaches, none_yet) =
      let p = valid.placed in
      let n = t.bucket_count in
      let b = shb_occupied f v in
      let below : i < length t.buckets = omega (arith, p.sized) in
      let occ = count-set is_occupied t.buckets i b shb_empty below in
      let tomb = count-set is_tombstone t.buckets i b shb_empty below in
      record {
        table = record {
          placed = fill-IsPlaced n t.buckets i p l f v free reaches none_yet;
          occupied = omega (arith, occ, ap to_ℕ free, valid.occupied);
          tombstones = ground (arith, tomb, valid.tombstones);
        };
        size = refl;
        writes = fill-Writes n t.buckets i p l f v free none_yet;
        occupied = refl;
        tombstones = ground arith;
        copies = λ g. omega (
          arith,
          count-set (bucket_matches g) t.buckets i b shb_empty below,
          ap to_ℕ (is_occupied-matches g (bucket_at t.buckets i) free),
        );
      }

  -- In a table in order with a bucket that is neither occupied nor a tombstone, the search for a
  -- field ends, within as many probes as there are buckets, at the bucket that has it, or at a free
  -- one when no bucket has it; it never ends in the error of a full table.
  pub find_bucket-cases :
      (t : Table) (f : Bytes)
      → IsTable hash_bytes t
      → t.occupied + t.tombstones < t.bucket_count
      → ((i : ℕ) × (w : Bytes) × (find_bucket hash_bytes t f ≡ hit i)
          × (i < t.bucket_count)
          × (bucket_at t.buckets i ≡ shb_occupied f w)
          × (scan f t.buckets ≡ some w))
        ⊎ ((i : ℕ) × (find_bucket hash_bytes t f ≡ vacant i)
            × Searches t.buckets t.bucket_count (hash_bytes f) f (vacant i)
            × (scan f t.buckets ≡ none))
  find_bucket-cases t f valid room =
      let p = valid.placed in
      let h = hash_bytes f in
      let s = find_bucket-Searches t f valid room in
      let at_ = λ (r : Probe) (e : find_bucket hash_bytes t f ≡ r).
        subst (Searches t.buckets t.bucket_count h f) e s in
      elim (Probe-cases (find_bucket hash_bytes t f)) [
        | inl (i, e) ↦
            let (l, (w, at_i)) = at_ (hit i) e in
            inl (
              i,
              w,
              e,
              l,
              at_i,
              scan-present f t.buckets i w (p.once f) (omega (arith, p.sized)) at_i,
            )
        | inr (inl (i, e)) ↦
            let place = at_ (vacant i) e in inr (i, e, place, scan-absent f t.buckets place.3)
        | inr (inr e) ↦ absurd (at_ saturated e)
      ]

  insert_owned-Stores :
      (t : Table) (f v : Bytes)
      → IsTable hash_bytes t
      → t.occupied + t.tombstones < t.bucket_count
      → count (bucket_matches f) t.buckets ≡ 0
      → (t' : Table) × (insert_owned hash_bytes f v t ≡ some t') × Stores hash_bytes f v t t'
  unfolding insert_owned
  insert_owned-Stores t f v valid room none_yet = elim (find_bucket-cases t f valid room) [
    | inl (i, w, e, l, at_i, found) ↦ let missing = scan-absent f t.buckets none_yet in cc
    | inr (i, e, place, _) ↦
        (occupy i f v t, rw (e, insert_owned) refl, occupy-Stores t i f v valid place)
  ]

  -- The rest of a rehash: the buckets left go to a table that has room for them.
  rehash_loop_lem :
      (bs : List Bucket) (t : Table)
      → IsTable hash_bytes t
      → t.tombstones ≡ 0
      → count is_occupied bs + t.occupied < t.bucket_count
      → ((g : Bytes) → count (bucket_matches g) bs + count (bucket_matches g) t.buckets ≤ 1)
      → (t' : Table) × (rehash_loop hash_bytes bs t ≡ some t')
        × IsTable hash_bytes t'
        × (t'.bucket_count ≡ t.bucket_count)
        × (t'.tombstones ≡ 0)
        × (t'.occupied ≡ count is_occupied bs + t.occupied)
        × ((g : Bytes) → scan g t'.buckets ≡ or_value (scan g bs) (scan g t.buckets))
  unfolding rehash_loop count scan
  rehash_loop_lem [] t valid none_buried room once =
      (t, refl, valid, refl, none_buried, omega arith, λ g. refl)
  rehash_loop_lem (shb_empty ∷ bs) t valid none_buried room once =
      rehash_loop_lem bs t valid none_buried room once
  rehash_loop_lem (shb_tombstone ∷ bs) t valid none_buried room once =
      rehash_loop_lem bs t valid none_buried room once
  rehash_loop_lem (shb_occupied f v ∷ bs) t valid none_buried room once =
      let first : suc (count (bucket_matches f) bs) + count (bucket_matches f) t.buckets ≤ 1 =
        rw ((bytes_eq_iff f f).1 refl) at (once f) in
      let (t1, e, s) = insert_owned-Stores t f v valid (omega arith) (omega arith) in
      let (t2, e', valid', size, tombs, occ, holds) =
        rehash_loop_lem bs t1 s.table (omega (arith, s.tombstones))
          (omega (arith, s.occupied, s.size)) (λ g. ground (arith, once g, s.copies g)) in
      (
        t2,
        rw (e, rehash_loop) e',
        valid',
        omega (arith, size, s.size),
        tombs,
        omega (arith, occ, s.occupied),
        λ g.
            carried g f v bs t.buckets t1.buckets t2.buckets
              (λ e.
                subst (λ (k : Bytes). count (bucket_matches k) bs ≡ 0) ((bytes_eq_iff f g).0 e)
                  (omega arith))
              (s.writes g) (holds g),
      )

  pub alloc_table-IsTable :
      (grant : Request → Bool) (n : ℕ)
      → 0 < n
      → grant (for_table n) ≡ true
      → (t : Table) × (alloc_table grant n ≡ some t)
        × IsTable hash_bytes t
        × (t.bucket_count ≡ n)
        × (t.occupied ≡ 0)
        × (t.tombstones ≡ 0)
        × (t.buckets ≡ replicate n shb_empty)
  unfolding alloc_table
  alloc_table-IsTable grant n nonzero e = (
    _,
    if_true _ _ e,
    record {
      placed = record {
        sized = length-replicate n shb_empty;
        nonzero = nonzero;
        once = λ g. omega (arith, count-replicate (bucket_matches g) n shb_empty refl);
        reached = λ i f v l at_i. let q = get_or-replicate n shb_empty shb_empty i l in cc;
      };
      occupied = sym (count-replicate is_occupied n shb_empty refl);
      tombstones = sym (count-replicate is_tombstone n shb_empty refl);
    },
    refl,
    refl,
    refl,
    refl,
  )

  -- A rehash to a size above the number of fields gives a table of the same contents, unless there
  -- is no memory for it.
  pub rehash_table-Rehashes :
      (grant : Request → Bool) (old : Table) (n : ℕ)
      → IsTable hash_bytes old
      → old.occupied < n
      → Rehashes hash_bytes grant old n (rehash_table hash_bytes grant old n)
  unfolding rehash_table
  rehash_table-Rehashes grant old n valid room = elim (Bool-cases (grant (for_table n))) [
    | inl e ↦
        let (t, made, table, size, occ, tombs, empty) =
          alloc_table-IsTable grant n (omega arith) e in
        let none_yet = λ (g : Bytes).
          ap (count (bucket_matches g)) empty
          ∙ count-replicate (bucket_matches g) n shb_empty refl in
        let (t', e', table', size', tombs', occ', holds) =
          rehash_loop_lem old.buckets t table tombs (omega (arith, valid.occupied))
            (λ g. omega (arith, none_yet g, valid.placed.once g)) in
        let run : rehash_table hash_bytes grant old n ≡ rehashed t' =
          rw (made, e', rehash_table) refl in
        subst (Rehashes hash_bytes grant old n) (sym run) (
          e,
          table',
          size' ∙ size,
          omega (arith, valid.occupied),
          tombs',
          λ g.
              holds g
              ∙ ap (or_value (scan g old.buckets)) (scan-absent g t.buckets (none_yet g))
              ∙ or_value-none (scan g old.buckets),
        )
    | inr e ↦
        let run : rehash_table hash_bytes grant old n ≡ no_memory =
          rw (no_table grant n e, rehash_table) refl in
        subst (Rehashes hash_bytes grant old n) (sym run) e
  ]
