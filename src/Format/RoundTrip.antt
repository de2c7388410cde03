-- ===== src/Format/RoundTrip.antt =====
-- What is written in big endian order is read back by INT, UINT and Long AB CD, whatever follows.
use sensor_edge.Prelude.{ℕ, ℤ, pos, negsuc, ◌^◌, ◌<◌, ◌≡◌, true, List, ◌++◌, arith}
use sensor_edge.Prelude.Int.{to_unsigned, leb_ℤ, ltb_ℤ}
use sensor_edge.Go.{ok}
use sensor_edge.Value.{int16, int32, uint16}
use sensor_edge.Format.Bytes.{put16, put32}
use sensor_edge.Format.{parse_format}

int_put16 :
    (z : ℤ) (w : ℕ) (rest : List ℕ)
    → leb_ℤ (negsuc 32767) z ≡ true
    → ltb_ℤ z (pos 32768) ≡ true
    → w < 2 ^ 16
    → (parse_format "INT" (put16 (to_unsigned (2 ^ 16) z) ++ rest) ≡ ok (int16 z))
      × (parse_format "UINT" (put16 w ++ rest) ≡ ok (uint16 w))
unfolding parse_format
int_put16 (pos n) w rest lo hi small = ground arith
int_put16 (negsuc n) w rest lo hi small = ground arith

long_put32 :
    (z : ℤ) (rest : List ℕ)
    → leb_ℤ (negsuc 2147483647) z ≡ true
    → ltb_ℤ z (pos 2147483648) ≡ true
    → parse_format "Long AB CD" (put32 (to_unsigned (2 ^ 32) z) ++ rest) ≡ ok (int32 z)
unfolding parse_format
long_put32 (pos n) rest lo hi = ground arith
long_put32 (negsuc n) rest lo hi = ground arith

-- The big endian bytes of a 16-bit two's complement integer parse as that integer under INT, those of a
-- word below 2 ^ 16 as that word under UINT, and those of a 32-bit two's complement integer as that
-- integer under "Long AB CD", also where more bytes follow.
pub parse_format-put :
    (z long : ℤ) (w : ℕ) (rest : List ℕ)
    → leb_ℤ (negsuc 32767) z ≡ true
    → ltb_ℤ z (pos 32768) ≡ true
    → w < 2 ^ 16
    → leb_ℤ (negsuc 2147483647) long ≡ true
    → ltb_ℤ long (pos 2147483648) ≡ true
    → (parse_format "INT" (put16 (to_unsigned (2 ^ 16) z) ++ rest) ≡ ok (int16 z))
      × (parse_format "UINT" (put16 w ++ rest) ≡ ok (uint16 w))
      × (parse_format "Long AB CD" (put32 (to_unsigned (2 ^ 32) long) ++ rest) ≡ ok (int32 long))
parse_format-put z long w rest lo hi small lo' hi' =
    let (i, u) = int_put16 z w rest lo hi small in (i, u, long_put32 long rest lo' hi')
