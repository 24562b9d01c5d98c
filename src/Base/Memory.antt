-- ===== src/Base/Memory.antt =====
-- Byte-addressed memory: a pointer is an offset into a function from offsets to bytes.
use tux.Base.Tests.{ltb, leb, ◌==◌, if◌then◌else◌}
use Prim.Native.Nat.{ℕ, ◌+◌, ◌-◌}
use mathlib.Core.Bool.{◌&&◌}

abbrev pub Mem : Type 0
Mem = ℕ → ℕ

-- `m[i] = v`
abbrev pub store : Mem → ℕ → ℕ → Mem
store m i v j = if j == i then v else m j

-- `memset(m + at, v, n)`
abbrev pub memset : Mem → ℕ → ℕ → ℕ → Mem
memset m at v n j = if leb at j && ltb j (at + n) then v else m j

-- `memmove(m + to, from + at, n)`: every byte is read before any is written.
abbrev pub memmove : Mem → ℕ → Mem → ℕ → ℕ → Mem
memmove m to from at n j = if leb to j && ltb j (to + n) then from (at + (j - to)) else m j
