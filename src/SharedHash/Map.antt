-- ===== src/SharedHash/Map.antt =====
-- The map from fields to values that a table stands for, and what the operations must do to it.
use pg_redis.Base.{
  ℕ, zero, suc, ◌+◌, ◌*◌, ◌^◌, ◌<◌, ◌≤◌, ◌≡◌, sym, ap, ◌∙◌, Bool, false, Option, none, some,
  if◌then◌else◌, length, Bytes, bytes_eq, arith, take-length, take,
}
use native.Mathlib.Nat.{mod-eq_of_lt, pow-suc}
use pg_redis.SharedHash.{
  Table, Request, init_buckets, kept, SetOutcome, set_new, set_overwritten, value_too_long,
  out_of_memory, set_saturated, DelOutcome, deleted, absent, del_saturated, hash_count,
}
use pg_redis.SharedHash.Scan.{count-matches-le, scan, scan-absent}
use pg_redis.SharedHash.Growth.{IsTable}

-- The map of a table pointer.
abbrev pub lookup : Option Table → Bytes → Option Bytes
lookup none f = none
lookup (some t) f = scan f t.buckets

-- The pointer to' maps the field to o, and every other field to what the pointer maps it to.
abbrev pub Updates : Bytes → Option Bytes → Option Table → Option Table → Type 0
Updates f o to to' = (g : Bytes) → lookup to' g ≡ (if bytes_eq f g then o else lookup to g)

abbrev pub Keeps : Option Table → Option Table → Type 0
Keeps to to' = (g : Bytes) → lookup to' g ≡ lookup to g

module _ (hash_bytes : Bytes → ℕ) where
  -- A table between operations: its size is 16 doubled, and at most 7 in 10 buckets are in use.
  pub record IsValid (t : Table) : Type 0 where
    pub table : IsTable hash_bytes t
    pub sized : (k : ℕ) × (t.bucket_count ≡ init_buckets * 2 ^ k)
    pub roomy : (t.occupied + t.tombstones) * 10 ≤ t.bucket_count * 7

  abbrev pub IsValidPointer : Option Table → Type 0
  IsValidPointer none = Unit
  IsValidPointer (some t) = IsValid t

  -- What a set of the field to the value does, by its outcome.
  abbrev pub SetsTo :
      (Request → Bool) → Bytes → Bytes → Option Table → SetOutcome × Option Table → Type 0
  SetsTo grant field value to (set_new, to') =
      IsValidPointer to'
      × (lookup to field ≡ none)
      × Updates field (some value) to to'
      × (hash_count to' ≡ hash_count to + 1)
  SetsTo grant field value to (set_overwritten, to') =
      IsValidPointer to'
      × ((w : Bytes) × (lookup to field ≡ some w))
      × Updates field (some value) to to'
      × (hash_count to' ≡ hash_count to)
  SetsTo grant field value to (value_too_long, to') = (2 ^ 16 ≤ length value) × (to' ≡ to)
  SetsTo grant field value to (out_of_memory, to') =
      IsValidPointer to'
      × Keeps to to'
      × (hash_count to' ≡ hash_count to)
      × ((r : Request) × (grant r ≡ false))
  SetsTo grant field value to (set_saturated, to') = ⊥

  -- What a delete of the field does, by its outcome.
  abbrev pub DeletesTo : Bytes → Option Table → DelOutcome × Option Table → Type 0
  DeletesTo field to (deleted, to') =
      IsValidPointer to'
      × ((w : Bytes) × (lookup to field ≡ some w))
      × Updates field none to to'
      × (hash_count to' + 1 ≡ hash_count to)
  DeletesTo field to (absent, to') = (lookup to field ≡ none) × (to' ≡ to)
  DeletesTo field to (del_saturated, to') = ⊥

pub pow_pos : (k : ℕ) → 0 < 2 ^ k
pow_pos zero = omega arith
pow_pos (suc k) = omega (arith, pow_pos k, pow-suc 2 k)

pub pow_double : (k : ℕ) → 2 ^ suc k ≡ 2 * 2 ^ k
pow_double k = omega (arith, pow-suc 2 k)

module _ {hash_bytes : Bytes → ℕ} where
  -- A valid table has 16 buckets at least.
  pub sixteen : (t : Table) → IsValid hash_bytes t → 16 ≤ t.bucket_count
  sixteen t v = omega (arith, v.sized.1, pow_pos v.sized.0)

  -- Enough buckets are free for every search to end.
  pub has_room : (t : Table) → IsValid hash_bytes t → t.occupied + t.tombstones < t.bucket_count
  has_room t v = omega (arith, v.roomy, v.table.placed.nonzero)

  -- Without a field there is nothing to find.
  pub none_occupied :
      (t : Table) (f : Bytes) → IsValid hash_bytes t → t.occupied ≡ 0 → scan f t.buckets ≡ none
  none_occupied t f v e =
      scan-absent f t.buckets (omega (arith, count-matches-le f t.buckets, v.table.occupied))

  -- A rehash of a valid table to a size that is 16 doubled and roomy enough is valid.
  pub rehashed-IsValid :
      (t : Table) (n k : ℕ)
      → IsTable hash_bytes t
      → t.bucket_count ≡ n
      → n ≡ init_buckets * 2 ^ k
      → t.tombstones ≡ 0
      → t.occupied * 10 ≤ n * 7
      → IsValid hash_bytes t
  rehashed-IsValid t n k table size doubled tombs load = record {
    table = table;
    sized = (k, size ∙ doubled);
    roomy = omega arith;
  }

-- A set that starts from a table of the same map.
pub SetsTo-Keeps :
    (hash_bytes : Bytes → ℕ) (grant : Request → Bool) (field value : Bytes) (to from : Option Table)
    (r : SetOutcome × Option Table)
    → length value < 2 ^ 16
    → Keeps to from
    → hash_count from ≡ hash_count to
    → SetsTo hash_bytes grant field value from r
    → SetsTo hash_bytes grant field value to r
SetsTo-Keeps hash_bytes grant field value to from (set_new, to') l k n (v, e, u, c) = (
  v,
  sym (k field) ∙ e,
  λ g. u g ∙ ap (λ (o : Option Bytes). if bytes_eq field g then some value else o) (k g),
  c ∙ ap (λ (m : ℕ). m + 1) n,
)
SetsTo-Keeps hash_bytes grant field value to from (set_overwritten, to') l k n (v, (w, e), u, c) = (
  v,
  (w, sym (k field) ∙ e),
  λ g. u g ∙ ap (λ (o : Option Bytes). if bytes_eq field g then some value else o) (k g),
  c ∙ n,
)
SetsTo-Keeps hash_bytes grant field value to from (value_too_long, to') l k n (h, e) =
    absurd (omega arith)
SetsTo-Keeps hash_bytes grant field value to from (out_of_memory, to') l k n (v, same, c, refused) =
    (v, λ g. same g ∙ k g, c ∙ n, refused)
SetsTo-Keeps hash_bytes grant field value to from (set_saturated, to') l k n h = h

pub kept_lem : (x : Bytes) → length x < 2 ^ 16 → kept x ≡ x
kept_lem x l = ap (λ (n : ℕ). take n x) (mod-eq_of_lt l) ∙ take-length x
