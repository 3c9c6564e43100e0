-- ===== src/Base/Byte.antt =====
-- Bytes are below 256.
use Prim.Native.Nat.{◌<◌}
use mathlib.Core.List.{[], ◌∷◌, ◌++◌}
use pg_redis.Base.Lists.{Bytes, All}

abbrev pub AreBytes : Bytes → Type 0
AreBytes = All (λ b. b < 256)

pub AreBytes-append : (xs ys : Bytes) → AreBytes xs → AreBytes ys → AreBytes (xs ++ ys)
AreBytes-append [] ys h k = k
AreBytes-append (x ∷ xs) ys h k = (h.0, AreBytes-append xs ys h.1 k)
