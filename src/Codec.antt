-- ===== src/Codec.antt =====
-- Big-endian fields (user/kernel/tux3.h): `encode16` to `encode64` append a field to the bytes that
-- were written, and `decode16` to `decode64` take one from the bytes that are left; `none` is a read
-- past the last byte.
pub mod RoundTrip
use tux.Base.{ℕ, ◌+◌, ◌*◌, ◌/◌, ◌%◌, ◌^◌, Option, none, some, List, [], ◌∷◌, ◌++◌}
use mathlib.Core.Option

infixl 5 ◌>>=◌
abbrev pub ◌>>=◌ {ℓ κ} : {A : Type ℓ} {B : Type κ} → Option A → (A → Option B) → Option B
none >>= f = none
some a >>= f = f a

abbrev pub be16 : ℕ → List ℕ
be16 val = (val / 2 ^ 8 % 256) ∷ (val % 256) ∷ []

abbrev pub be32 : ℕ → List ℕ
be32 val = (val / 2 ^ 24 % 256) ∷ (val / 2 ^ 16 % 256) ∷ be16 val

abbrev pub be64 : ℕ → List ℕ
be64 val =
    (val / 2 ^ 56 % 256)
    ∷ (val / 2 ^ 48 % 256)
    ∷ (val / 2 ^ 40 % 256)
    ∷ (val / 2 ^ 32 % 256)
    ∷ be32 val

unfoldable pub encode16 : List ℕ → ℕ → List ℕ
encode16 at val = at ++ be16 val

unfoldable pub encode32 : List ℕ → ℕ → List ℕ
encode32 at val = at ++ be32 val

unfoldable pub encode64 : List ℕ → ℕ → List ℕ
encode64 at val = at ++ be64 val

-- The top half goes through an `unsigned` argument.
unfoldable pub encode48 : List ℕ → ℕ → List ℕ
unfolding encode16 encode32
encode48 at val = encode32 (encode16 at (val / 2 ^ 32 % 2 ^ 32)) (val % 2 ^ 32)

unfoldable pub decode16 : List ℕ → Option (ℕ × List ℕ)
decode16 (a ∷ b ∷ rest) = some (a * 256 + b, rest)
decode16 _ = none

unfoldable pub decode32 : List ℕ → Option (ℕ × List ℕ)
decode32 (a ∷ b ∷ c ∷ d ∷ rest) = some (((a * 256 + b) * 256 + c) * 256 + d, rest)
decode32 _ = none

unfoldable pub decode64 : List ℕ → Option (ℕ × List ℕ)
unfolding decode32
decode64 at = do
  (high, at') ← decode32 at
  (low, rest) ← decode32 at'
  some (high * 2 ^ 32 + low, rest)

unfoldable pub decode48 : List ℕ → Option (ℕ × List ℕ)
unfolding decode16 decode32
decode48 at = do
  (part1, at') ← decode16 at
  (part2, rest) ← decode32 at'
  some (part1 * 2 ^ 32 + part2, rest)
