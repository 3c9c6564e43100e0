-- ===== src/Load/Clean.antt =====
-- Clearing the dirty flags of the fields of a hash.
use pg_redis.Base.{
  ◌≡◌, refl, ap, false, Option, none, some, List, [], ◌∷◌, suc, length, Bytes, bytes_eq, Bool-cases,
  inl, inr, arith,
}
use pg_redis.HashValue.{Field, find}
use pg_redis.HashValue.Fields.{IsMap, total}
use pg_redis.Flush.{clean_fields}

abbrev pub clean : Option Field → Option Field
clean none = none
clean (some x) = some (record x { dirty = false })

pub find-clean_fields :
    (f : Bytes) (fs : List (Bytes × Field)) → find f (clean_fields fs) ≡ clean (find f fs)
unfolding find clean_fields
find-clean_fields f [] = refl
find-clean_fields f ((g, x) ∷ fs) = elim (Bool-cases (bytes_eq g f)) [
  | inl e ↦ rw e refl
  | inr e ↦ rw e (find-clean_fields f fs)
]

pub clean_fields-IsMap : (fs : List (Bytes × Field)) → IsMap fs → IsMap (clean_fields fs)
unfolding IsMap clean_fields
clean_fields-IsMap [] m = tt
clean_fields-IsMap ((g, x) ∷ fs) m =
    (rw (find-clean_fields g fs, m.0) refl, clean_fields-IsMap fs m.1)

pub length-clean_fields : (fs : List (Bytes × Field)) → length (clean_fields fs) ≡ length fs
unfolding clean_fields
length-clean_fields [] = refl
length-clean_fields ((g, x) ∷ fs) = ap suc (length-clean_fields fs)

pub total-clean_fields : (fs : List (Bytes × Field)) → total (clean_fields fs) ≡ total fs
unfolding clean_fields total
total-clean_fields [] = refl
total-clean_fields ((g, x) ∷ fs) = omega (arith, total-clean_fields fs)
