-- ===== src/Go/Time.antt =====
-- What the models use of Go's package time.
use sensor_edge.Prelude.{◌%◌, ◌*◌, ◌^◌}
use sensor_edge.Prelude.Int.{ℤ, to_signed, to_unsigned}

-- time.Duration(seconds) * time.Second, of 64 bits.
abbrev pub nanoseconds : ℤ → ℤ
nanoseconds seconds = to_signed (2 ^ 64) (to_unsigned (2 ^ 64) seconds * 1000000000 % 2 ^ 64)
