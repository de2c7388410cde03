-- ===== src/Bacnet/Accepts.antt =====
-- What Write accepts, against a table of the Go types of BACnet's property value types.
use sensor_edge.Value.{object_id, bools, string, bytes, float64, int, uint64, bool, Value}
use sensor_edge.Prelude.{
  ap, ◌∙◌, refl, none, if◌then◌else◌, ◌&&◌, arith, false, some, ◌≡◌, Option, true, String, Bool,
}
use sensor_edge.Bacnet.Client.{not_connected, resolve, BacnetClient}
use sensor_edge.Bacnet.Write.{point_error, write_to, set_value, checked, check_type, write}
use sensor_edge.Bacnet.Points.{
  type_object_id, type_time, type_bit_string, type_date, type_character_string, type_enumerated,
  type_octet_string, type_double, type_real, type_signed_int, type_unsigned_int, type_boolean,
  type_null, BacnetPoint, PropertyValueType,
}
use sensor_edge.Go.{panic, err, ok, Outcome}

-- The type that Go's BACnet values have for a property value type.
abbrev pub accepts : PropertyValueType → Value → Bool
accepts type_null v = true
accepts type_boolean (bool b) = true
accepts type_unsigned_int (uint64 n) = true
accepts type_signed_int (int z) = true
accepts type_enumerated (int z) = true
accepts type_real (float64 f) = true
accepts type_double (float64 f) = true
accepts type_octet_string (bytes bs) = true
accepts type_character_string (string s) = true
accepts type_date (string s) = true
accepts type_time (string s) = true
accepts type_bit_string (bools bs) = true
accepts type_object_id (object_id kind number) = true
accepts _ _ = false

abbrev pub is_ok {ℓ} : {A : Type ℓ} → Outcome A → Bool
is_ok (ok a) = true
is_ok _ = false

is_ok-check_type :
    (name : String) (t : PropertyValueType) (v : Value) → is_ok (check_type name t v) ≡ accepts t v
unfolding check_type
is_ok-check_type name type_null v = refl
is_ok-check_type name type_boolean v = ground arith
is_ok-check_type name type_unsigned_int v = ground arith
is_ok-check_type name type_signed_int v = ground arith
is_ok-check_type name type_real v = ground arith
is_ok-check_type name type_double v = ground arith
is_ok-check_type name type_octet_string v = ground arith
is_ok-check_type name type_character_string v = ground arith
is_ok-check_type name type_bit_string v = ground arith
is_ok-check_type name type_enumerated v = ground arith
is_ok-check_type name type_date v = ground arith
is_ok-check_type name type_time v = ground arith
is_ok-check_type name type_object_id v = ground arith

-- A write is permitted on a connected client, to a point that is there, is writable and takes values of
-- the type.
abbrev pub permitted : BacnetClient → Value → Option (String × BacnetPoint) → Bool
permitted c v none = false
permitted c v (some (name, pt)) = c.connected && pt.writable && accepts pt.property_value_type v

abbrev pub written : BacnetClient → Value → Option (String × BacnetPoint) → BacnetClient
written c v none = c
written c v (some (name, pt)) = set_value c name pt v

checked_lem :
    (c : BacnetClient) (name : String) (pt : BacnetPoint) (v : Value) (r : Outcome (Unit {0}))
    → (is_ok (checked c name pt v r).0 ≡ is_ok r)
      × ((checked c name pt v r).1 ≡ (if is_ok r then set_value c name pt v else c))
checked_lem c name pt v (ok u) = (refl, refl)
checked_lem c name pt v (err e) = (refl, refl)
checked_lem c name pt v panic = (refl, refl)

at_point :
    (c : BacnetClient) (v : Value) (name : String) (pt : BacnetPoint) (writable : Bool)
    → (is_ok
          (if writable
            then checked c name pt v (check_type name pt.property_value_type v)
            else (err (point_error name " is not writable"), c)).0
        ≡ (writable && accepts pt.property_value_type v))
      × ((if writable
            then checked c name pt v (check_type name pt.property_value_type v)
            else (err (point_error name " is not writable"), c)).1
          ≡ (if writable && accepts pt.property_value_type v then set_value c name pt v else c))
at_point c v name pt false = (refl, refl)
at_point c v name pt true =
    let (a, b) = checked_lem c name pt v (check_type name pt.property_value_type v) in
    let e = is_ok-check_type name pt.property_value_type v in
    (a ∙ e, b ∙ ap (λ k. if k then set_value c name pt v else c) e)

-- Write succeeds exactly where it is permitted; then the point's value, and nothing else, is changed,
-- and otherwise nothing is, a panic on a nil value included.
pub write-permitted :
    (key : String) (v : Value) (c : BacnetClient)
    → (is_ok (write key v c).0 ≡ permitted c v (resolve c key))
      × ((write key v c).1
          ≡ (if permitted c v (resolve c key) then written c v (resolve c key) else c))
unfolding write
write-permitted key v c = result c.connected (resolve c key)
  where
    result :
        (connected : Bool) (o : Option (String × BacnetPoint))
        → (is_ok (if connected then write_to c key v o else (err not_connected, c)).0
            ≡ permitted (record c { connected = connected }) v o)
          × ((if connected then write_to c key v o else (err not_connected, c)).1
              ≡ (if permitted (record c { connected = connected }) v o then written c v o else c))
    result false none = (refl, refl)
    result false (some r) = (refl, refl)
    result true none = (refl, refl)
    result true (some (name, pt)) = at_point c v name pt pt.writable
