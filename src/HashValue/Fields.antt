-- ===== src/HashValue/Fields.antt =====
-- The laws of the table of fields.
use pg_redis.Base.{
  ℕ, ◌+◌, ◌≡◌, refl, ◌∙◌, false, Option, none, some, List, [], ◌∷◌, length, if◌then◌else◌, if_false,
  Bytes, bytes_eq, bytes_eq_iff, arith, Bool-cases, inl, inr,
}
use pg_redis.HashValue.{Field, find, enter, remove, sizeof_field}

-- No field has two entries.
unfoldable pub IsMap : List (Bytes × Field) → Type 0
IsMap [] = Unit
IsMap ((g, x) ∷ fs) = (find g fs ≡ none) × IsMap fs

abbrev pub cost : Option Field → ℕ
cost none = 0
cost (some x) = sizeof_field + length x.value

abbrev pub entries : Option Field → ℕ
entries none = 0
entries (some x) = 1

-- The bytes that the entries take.
unfoldable pub total : List (Bytes × Field) → ℕ
total [] = 0
total ((g, x) ∷ fs) = cost (some x) + total fs

pub find-enter :
    (f g : Bytes) (x : Field) (fs : List (Bytes × Field))
    → find g (enter f x fs) ≡ (if bytes_eq f g then some x else find g fs)
unfolding find enter
find-enter f g x [] = refl
find-enter f g x ((k, y) ∷ fs) =
    ground (arith, find-enter f g x fs, bytes_eq_iff k f, bytes_eq_iff k g, bytes_eq_iff f g)

bytes_ne_sym : (k f : Bytes) → bytes_eq k f ≡ false → bytes_eq f k ≡ false
bytes_ne_sym k f e = ground (arith, bytes_eq_iff k f, bytes_eq_iff f k)

pub enter-IsMap :
    (f : Bytes) (x : Field) (fs : List (Bytes × Field)) → IsMap fs → IsMap (enter f x fs)
unfolding IsMap enter find
enter-IsMap f x [] m = (refl, tt)
enter-IsMap f x ((k, y) ∷ fs) m = elim (Bool-cases (bytes_eq k f)) [
  | inl e ↦ rw e m
  | inr e ↦
      rw e (find-enter f k x fs ∙ if_false _ _ (bytes_ne_sym k f e) ∙ m.0, enter-IsMap f x fs m.1)
]

pub find-remove :
    (f g : Bytes) (fs : List (Bytes × Field))
    → IsMap fs
    → find g (remove f fs) ≡ (if bytes_eq f g then none else find g fs)
unfolding IsMap remove find
find-remove f g [] m = ground arith
find-remove f g ((k, y) ∷ fs) m =
    ground (arith, find-remove f g fs m.1, bytes_eq_iff k f, bytes_eq_iff k g, bytes_eq_iff f g)

pub remove-IsMap : (f : Bytes) (fs : List (Bytes × Field)) → IsMap fs → IsMap (remove f fs)
unfolding IsMap remove find
remove-IsMap f [] m = tt
remove-IsMap f ((k, y) ∷ fs) m = elim (Bool-cases (bytes_eq k f)) [
  | inl e ↦ rw e m.1
  | inr e ↦
      rw e (find-remove f k fs m.1 ∙ if_false _ _ (bytes_ne_sym k f e) ∙ m.0, remove-IsMap f fs m.1)
]

pub total-enter :
    (f : Bytes) (x : Field) (fs : List (Bytes × Field))
    → total (enter f x fs) + cost (find f fs) ≡ total fs + cost (some x)
unfolding enter total find
total-enter f x [] = omega arith
total-enter f x ((k, y) ∷ fs) = ground (arith, total-enter f x fs)

pub length-enter :
    (f : Bytes) (x : Field) (fs : List (Bytes × Field))
    → length (enter f x fs) + entries (find f fs) ≡ length fs + 1
unfolding enter find
length-enter f x [] = omega arith
length-enter f x ((k, y) ∷ fs) = ground (arith, length-enter f x fs)

pub total-remove :
    (f : Bytes) (fs : List (Bytes × Field)) → total (remove f fs) + cost (find f fs) ≡ total fs
unfolding remove total find
total-remove f [] = omega arith
total-remove f ((k, y) ∷ fs) = ground (arith, total-remove f fs)

pub length-remove :
    (f : Bytes) (fs : List (Bytes × Field)) → length (remove f fs) + entries (find f fs) ≡ length fs
unfolding remove find
length-remove f [] = omega arith
length-remove f ((k, y) ∷ fs) = ground (arith, length-remove f fs)
