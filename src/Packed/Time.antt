-- ===== src/Packed/Time.antt =====
-- The fixed-point form of a time keeps every nanosecond.
use tux.Base.{ℕ, ◌+◌, ◌*◌, ◌/◌, ◌%◌, ◌^◌, ◌<◌, ◌≡◌, arith}
use tux.Base.Bits.{bit_and_ones}
use tux.Packed.{Timespec, tuxtime, spectime, high32, billionths}

pub billionths-value :
    (val : ℕ) → billionths val ≡ (val % 2 ^ 32 * 1000000000 + 0x8000_0000) / 2 ^ 32
unfolding billionths
billionths-value val = rw (bit_and_ones 32 val)

-- A time with 32-bit seconds and less than 10^9 nanoseconds is read back from its 32.32 form.
pub spectime-tuxtime :
    (time : Timespec)
    → time.tv_sec < 2 ^ 32
    → time.tv_nsec < 1000000000
    → spectime (tuxtime time) ≡ time
unfolding tuxtime spectime high32
spectime-tuxtime time h k = ground (arith, billionths-value (tuxtime time))
