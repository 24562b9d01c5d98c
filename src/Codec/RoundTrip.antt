-- ===== src/Codec/RoundTrip.antt =====
-- Each decoder undoes its encoder, and reads nothing else.
use tux.Base.{ℕ, ◌/◌, ◌%◌, ◌^◌, ◌≡◌, ap, ◌∙◌, arith, some, List, ◌++◌, append_assoc}
use tux.Codec.{be16, be32, be64, encode48, decode16, decode32, decode48, decode64}

-- What `encode48` appends.
abbrev pub be48 : ℕ → List ℕ
be48 val = be16 (val / 2 ^ 32) ++ be32 val

pub encode48-be48 : (at : List ℕ) (val : ℕ) → encode48 at val ≡ at ++ be48 val
unfolding encode48
encode48-be48 at val =
    append_assoc at (be16 (val / 2 ^ 32 % 2 ^ 32)) (be32 (val % 2 ^ 32))
    ∙ ap (λ (t : List ℕ). at ++ t) (ground arith)

-- A field that was encoded is read back, reduced to its width, and what follows is left.
pub decode16-be16 :
    (val : ℕ) (rest : List ℕ) → decode16 (be16 val ++ rest) ≡ some (val % 2 ^ 16, rest)
unfolding decode16
decode16-be16 val rest = ground arith

pub decode32-be32 :
    (val : ℕ) (rest : List ℕ) → decode32 (be32 val ++ rest) ≡ some (val % 2 ^ 32, rest)
unfolding decode32
decode32-be32 val rest = ground arith

pub decode48-be48 :
    (val : ℕ) (rest : List ℕ) → decode48 (be48 val ++ rest) ≡ some (val % 2 ^ 48, rest)
unfolding decode48
decode48-be48 val rest = ground arith

pub decode64-be64 :
    (val : ℕ) (rest : List ℕ) → decode64 (be64 val ++ rest) ≡ some (val % 2 ^ 64, rest)
unfolding decode64
decode64-be64 val rest = ground arith
