-- ===== src/SharedHash/History.antt =====
-- A table through a history of sets and deletes: each read returns what was last written.
use pg_redis.Base.{
  ℕ, ◌^◌, ◌<◌, ◌≡◌, refl, sym, ap, subst, ◌∙◌, Bool, true, Option, none, some, List, [], ◌∷◌, All,
  if◌then◌else◌, length, Bytes, bytes_eq, bytes_eq_iff, arith, Bool-cases, inl, inr, if_true,
  if_false,
}
use pg_redis.SharedHash.{
  Table, Request, SetOutcome, set_new, set_overwritten, value_too_long, out_of_memory,
  set_saturated, DelOutcome, deleted, absent, del_saturated, hash_set, hash_get, hash_del,
}
use pg_redis.SharedHash.Map.{lookup, IsValidPointer, SetsTo, DeletesTo}
use pg_redis.SharedHash.Set.{hash_set-SetsTo}
use pg_redis.SharedHash.Del.{hash_del-DeletesTo}
use pg_redis.SharedHash.Read.{hash_get_lem}

-- A call that changes the table, with the answers of the allocator to it.
pub data Call : Type 0 where
  set_call : (Request → Bool) → Bytes → Bytes → Call
  del_call : (Request → Bool) → Bytes → Call

-- A call whose field is no longer than a bucket's length can say.
abbrev pub HasShortField : Call → Type 0
HasShortField (set_call grant f v) = length f < 2 ^ 16
HasShortField (del_call grant f) = Unit

-- A set whose value fits and whose requests are answered.
abbrev pub IsGranted : Call → Type 0
IsGranted (set_call grant f v) = (length v < 2 ^ 16) × ((r : Request) → grant r ≡ true)
IsGranted (del_call grant f) = Unit

-- The value of the field after the calls, the latest call first.
unfoldable pub last_write : Bytes → List Call → Option Bytes
last_write g [] = none
last_write g (set_call grant f v ∷ cs) =
    let before = last_write g cs in if bytes_eq f g then some v else before
last_write g (del_call grant f ∷ cs) =
    let before = last_write g cs in if bytes_eq f g then none else before

module _ (hash_bytes : Bytes → ℕ) where
  abbrev pub call : Call → Option Table → Option Table
  call (set_call grant f v) to = (hash_set hash_bytes grant to f v).1
  call (del_call grant f) to = (hash_del hash_bytes grant to f).1

  -- The pointer after the calls, the latest call first, from an invalid one.
  unfoldable pub after : List Call → Option Table
  after [] = none
  after (c ∷ cs) = call c (after cs)

  SetsTo-IsValidPointer :
      (grant : Request → Bool) (f v : Bytes) (to : Option Table) (r : SetOutcome × Option Table)
      → IsValidPointer hash_bytes to
      → SetsTo hash_bytes grant f v to r
      → IsValidPointer hash_bytes r.1
  SetsTo-IsValidPointer grant f v to (set_new, to') valid s = s.0
  SetsTo-IsValidPointer grant f v to (set_overwritten, to') valid s = s.0
  SetsTo-IsValidPointer grant f v to (value_too_long, to') valid s =
      subst (IsValidPointer hash_bytes) (sym s.1) valid
  SetsTo-IsValidPointer grant f v to (out_of_memory, to') valid s = s.0
  SetsTo-IsValidPointer grant f v to (set_saturated, to') valid s = absurd s

  DeletesTo-IsValidPointer :
      (f : Bytes) (to : Option Table) (r : DelOutcome × Option Table)
      → IsValidPointer hash_bytes to
      → DeletesTo hash_bytes f to r
      → IsValidPointer hash_bytes r.1
  DeletesTo-IsValidPointer f to (deleted, to') valid s = s.0
  DeletesTo-IsValidPointer f to (absent, to') valid s =
      subst (IsValidPointer hash_bytes) (sym s.1) valid
  DeletesTo-IsValidPointer f to (del_saturated, to') valid s = absurd s

  -- Whatever the allocator answers, the table that sets and deletes make of an invalid pointer is
  -- valid: it has 16 buckets or a doubling of that, is at most 7 in 10 full, counts its buckets
  -- rightly, has no field twice, and has each where the search for it ends.
  pub after-IsValidPointer :
      (cs : List Call) → All HasShortField cs → IsValidPointer hash_bytes (after cs)
  unfolding after
  after-IsValidPointer [] h = tt
  after-IsValidPointer (set_call grant f v ∷ cs) h =
      let valid = after-IsValidPointer cs h.1 in
      SetsTo-IsValidPointer grant f v (after cs) _ valid
        (hash_set-SetsTo hash_bytes grant f v (after cs) valid h.0)
  after-IsValidPointer (del_call grant f ∷ cs) h =
      let valid = after-IsValidPointer cs h.1 in
      DeletesTo-IsValidPointer f (after cs) _ valid
        (hash_del-DeletesTo hash_bytes grant f (after cs) valid)

  set_last :
      (grant : Request → Bool) (f v g : Bytes) (to : Option Table) (r : SetOutcome × Option Table)
      → IsGranted (set_call grant f v)
      → SetsTo hash_bytes grant f v to r
      → lookup r.1 g ≡ (if bytes_eq f g then some v else lookup to g)
  set_last grant f v g to (set_new, to') h s = s.2 g
  set_last grant f v g to (set_overwritten, to') h s = s.2 g
  set_last grant f v g to (value_too_long, to') h s = absurd (omega arith)
  set_last grant f v g to (out_of_memory, to') h s = let (r, e) = s.3 in let q = h.1 r in cc
  set_last grant f v g to (set_saturated, to') h s = absurd s

  del_last :
      (f g : Bytes) (to : Option Table) (r : DelOutcome × Option Table)
      → DeletesTo hash_bytes f to r
      → lookup r.1 g ≡ (if bytes_eq f g then none else lookup to g)
  del_last f g to (deleted, to') s = s.2 g
  del_last f g to (absent, to') s = elim (Bool-cases (bytes_eq f g)) [
    | inl e ↦
        ap (λ (t : Option Table). lookup t g) s.1
        ∙ ap (lookup to) (sym ((bytes_eq_iff f g).0 e))
        ∙ s.0
        ∙ sym (if_true _ _ e)
    | inr e ↦ ap (λ (t : Option Table). lookup t g) s.1 ∙ sym (if_false _ _ e)
  ]
  del_last f g to (del_saturated, to') s = absurd s

  lookup-after :
      (cs : List Call)
      → All HasShortField cs
      → All IsGranted cs
      → (g : Bytes) → lookup (after cs) g ≡ last_write g cs
  unfolding after last_write
  lookup-after [] h k g = refl
  lookup-after (set_call grant f v ∷ cs) h k g =
      let valid = after-IsValidPointer cs h.1 in
      set_last grant f v g (after cs) _ k.0
        (hash_set-SetsTo hash_bytes grant f v (after cs) valid h.0)
      ∙ ap (λ (o : Option Bytes). if bytes_eq f g then some v else o) (lookup-after cs h.1 k.1 g)
  lookup-after (del_call grant f ∷ cs) h k g =
      let valid = after-IsValidPointer cs h.1 in
      del_last f g (after cs) _ (hash_del-DeletesTo hash_bytes grant f (after cs) valid)
      ∙ ap (λ (o : Option Bytes). if bytes_eq f g then none else o) (lookup-after cs h.1 k.1 g)

  -- After any sets and deletes of fields below 64 KB, where the sets' values are too and their
  -- requests to the allocator are answered, a read of a field returns the value of the latest set
  -- of it, and nothing when there was none or a delete came after it; it never ends in the error of
  -- a full table.
  pub hash_get-after :
      (cs : List Call)
      → All HasShortField cs
      → All IsGranted cs
      → (g : Bytes) → hash_get hash_bytes (after cs) g ≡ some (last_write g cs)
  hash_get-after cs h k g =
      (hash_get_lem hash_bytes (after cs) g (after-IsValidPointer cs h)).0
      ∙ ap (λ (o : Option Bytes). some o) (lookup-after cs h k g)
