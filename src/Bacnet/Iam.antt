-- ===== src/Bacnet/Iam.antt =====
-- protocols/bacnet/discover.go: the two parsers of I-Am datagrams, parseIAM and ParseIAm. A datagram is
-- the list of its bytes, each below 256.
use sensor_edge.Format.Bytes.{be16, be32, put16, put32}
use sensor_edge.Go.{panic, msg, err, ok, Outcome}
use sensor_edge.Prelude.{
  false, ◌+◌, drop, ◌*◌, ◌||◌, ◌&&◌, ◌==◌, get_or, not, none, arith, ◌≡◌, length, some, ltb, ◌++◌,
  ◌^◌, ◌<◌, if◌then◌else◌, Option, String, ◌∷◌, List, ℕ,
}

-- DeviceInfo
pub record DeviceInfo : Type 0 where
  pub device_id : ℕ
  pub vendor_id : ℕ
  pub model_name : String
  pub ip : String

-- parseIAM; ListenIAM puts in the ip of the sender.
unfoldable pub parse_iam : List ℕ → Outcome DeviceInfo
parse_iam bytes =
    if ltb (length bytes) 14
    then err (msg "invalid length")
    else if not (get_or bytes 1 0 == 0x10) && not (get_or bytes 4 0 == 0xC4)
    then err (msg "not I-Am")
    else let apdu = drop 6 bytes in
      if not (get_or apdu 0 0 == 0x10) || not (get_or apdu 1 0 == 0x00)
      then err (msg "not unconfirmed I-Am")
      else ok (record {
        device_id = be32 (drop 2 apdu);
        vendor_id = be16 (drop 6 apdu);
        model_name = "Unknown";
        ip = "";
      })

-- The bytes that `|` joins do not overlap.
unfoldable pub parse_i_am : List ℕ → String → Outcome DeviceInfo
parse_i_am buf source =
    if ltb (length buf) 14
    then err (msg "I-Am too short")
    else if not (get_or buf 1 0 == 0x10) || not (get_or buf 4 0 == 0xC4)
    then err (msg "not I-Am")
    else ok (record {
      device_id =
          get_or buf 8 0 * 2 ^ 24
          + get_or buf 9 0 * 2 ^ 16
          + get_or buf 10 0 * 2 ^ 8
          + get_or buf 11 0;
      vendor_id = get_or buf 12 0 * 2 ^ 8 + get_or buf 13 0;
      model_name = "Unknown";
      ip = source;
    })

-- `info.IP = remote.IP.String()` and the handler's argument, for one datagram of ListenIAM; none where
-- the datagram is dropped.
unfoldable pub heard : List ℕ → String → Option DeviceInfo
heard bytes remote = elim (parse_iam bytes) [
  | ok info ↦ some (record info { ip = remote })
  | err e ↦ none
  | panic ↦ none
]

-- An I-Am of the device d and the vendor v: the marks of both parsers, and what neither looks at.
abbrev pub frame : ℕ → ℕ → ℕ → ℕ → ℕ → ℕ → List ℕ → List ℕ
frame a c e f d v rest = a ∷ 0x10 ∷ c ∷ e ∷ 0xC4 ∷ f ∷ 0x10 ∷ 0x00 ∷ put32 d ++ put16 v ++ rest

long_enough : (a c e f d v : ℕ) (rest : List ℕ) → ltb (length (frame a c e f d v rest)) 14 ≡ false
long_enough a c e f d v rest = ground arith

be32-put32 : (d : ℕ) (rest : List ℕ) → d < 2 ^ 32 → be32 (put32 d ++ rest) ≡ d
unfolding be32
be32-put32 d rest h = omega arith

be16-put16 : (v : ℕ) (rest : List ℕ) → v < 2 ^ 16 → be16 (put16 v ++ rest) ≡ v
unfolding be16
be16-put16 v rest h = omega arith

abbrev info : ℕ → ℕ → String → DeviceInfo
info d v source = record { device_id = d; vendor_id = v; model_name = "Unknown"; ip = source }

info_of :
    (d v d' v' : ℕ) (source : String)
    → d ≡ d'
    → v ≡ v'
    → ok (info d v source) ≡ ok (info d' v' source)
info_of d v d' v' source e f = cc

parse_iam-put :
    (a c e f d v : ℕ) (rest : List ℕ)
    → d < 2 ^ 32
    → v < 2 ^ 16
    → parse_iam (frame a c e f d v rest)
      ≡ ok (record { device_id = d; vendor_id = v; model_name = "Unknown"; ip = "" })
unfolding parse_iam
parse_iam-put a c e f d v rest h k =
    rw (long_enough a c e f d v rest)
      (info_of _ _ d v "" (be32-put32 d (put16 v ++ rest) h) (be16-put16 v rest k))

-- Out of a datagram with the marks of both, the two parsers read the same device, below 2 ^ 32, and the
-- same vendor, below 2 ^ 16, and they are those that it was made of.
pub parse_iam-frame :
    (a c e f d v : ℕ) (rest : List ℕ) (source : String)
    → d < 2 ^ 32
    → v < 2 ^ 16
    → (heard (frame a c e f d v rest) source
        ≡ some (record { device_id = d; vendor_id = v; model_name = "Unknown"; ip = source }))
      × (parse_i_am (frame a c e f d v rest) source
          ≡ ok (record { device_id = d; vendor_id = v; model_name = "Unknown"; ip = source }))
unfolding heard parse_i_am
parse_iam-frame a c e f d v rest source h k = (
  rw (parse_iam-put a c e f d v rest h k, heard),
  rw (long_enough a c e f d v rest) (info_of _ _ d v source (omega arith) (omega arith)),
)
