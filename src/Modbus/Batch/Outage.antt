-- ===== src/Modbus/Batch/Outage.antt =====
-- The driver behind the interface that readWithRetry of main.go uses, when the device goes away.
use text.Mathlib.Text.{◌==◌ as str_eq}
use sensor_edge.Modbus.Points.{collect_points, AddrPoint}
use sensor_edge.Poll.Retry.{
  read_with_retry-gives_up, reconnecting, attempts, Fails, read_with_retry, Protocol,
}
use sensor_edge.Modbus.Library.{Library}
use sensor_edge.Go.{Outcome, Error, ok, err, panic}
use sensor_edge.Prelude.{
  ap, ◌∙◌, Option, refl, suc, Bool, if◌then◌else◌, ℕ, ◌≡◌, map, List, String, some, ◌∷◌, true,
  false,
}
use sensor_edge.Modbus.Session.{force_reconnect, set_slave, Session}
use sensor_edge.Modbus.Batch.{
  read_discrete_inputs_batch, read_coils_batch, read_input_registers_batch, read_batch_with_format,
  read_batch, plain,
}
use sensor_edge.Modbus.Batch.Disconnected.{batch_after_failed_reconnect}

module _ {W : Type 0} (lib : Library W) where
  abbrev pub modbus_protocol : Protocol (Session W)
  modbus_protocol = record {
    read_batch = λ device function points s. read_batch lib function points s;
    reconnect = force_reconnect lib;
    set_slave = λ slave s. (set_slave lib slave s).1;
  }

  read_batch_after_failed_reconnect :
      (function p : String) (ps : List String) (aps : List AddrPoint) (e : Error) (s : Session W)
      → collect_points (map (plain lib) (p ∷ ps)) ≡ ok aps
      → (force_reconnect lib s).0 ≡ ok (some e)
      → read_batch lib function (p ∷ ps) (force_reconnect lib s).1
        ≡ (panic, (force_reconnect lib s).1)
  unfolding read_batch
  read_batch_after_failed_reconnect function p ps aps e s parsed failed =
      let (r3, r4, r1, r2) = batch_after_failed_reconnect lib _ _ aps e s parsed failed in
      let t = (force_reconnect lib s).1 in
      by_code (str_eq (code function) "03") (str_eq (code function) "04")
        (str_eq (code function) "01") (str_eq (code function) "02")
        (read_batch_with_format lib (map (plain lib) (p ∷ ps)))
        (read_input_registers_batch lib (map (plain lib) (p ∷ ps)))
        (read_coils_batch lib (map (plain lib) (p ∷ ps)))
        (read_discrete_inputs_batch lib (map (plain lib) (p ∷ ps))) t (panic, t) r3 r4 r1 r2
    where
      code : String → String
      code f = if str_eq f "" then "03" else f

      by_code :
          {A : Type 0} (b3 b4 b1 b2 : Bool) (x3 x4 x1 x2 : Session W → A) (t : Session W) (a : A)
          → x3 t ≡ a
          → x4 t ≡ a
          → x1 t ≡ a
          → x2 t ≡ a
          → (if b3 then x3 else if b4 then x4 else if b1 then x1 else if b2 then x2 else x3) t ≡ a
      by_code true b4 b1 b2 x3 x4 x1 x2 t a e3 e4 e1 e2 = e3
      by_code false true b1 b2 x3 x4 x1 x2 t a e3 e4 e1 e2 = e4
      by_code false false true b2 x3 x4 x1 x2 t a e3 e4 e1 e2 = e1
      by_code false false false true x3 x4 x1 x2 t a e3 e4 e1 e2 = e2
      by_code false false false false x3 x4 x1 x2 t a e3 e4 e1 e2 = e3

  -- A panic ends readWithRetry.
  read_with_retry-panic :
      (device function : String) (points : List String) (k : ℕ) (s t : Session W)
      → read_batch lib function points s ≡ (panic, t)
      → read_with_retry modbus_protocol device function points (suc k) s ≡ (panic, t)
  unfolding read_with_retry attempts
  read_with_retry-panic device function points k s t e = rw e refl

  -- A readWithRetry that gives up, and whose reconnect fails as well, returns the error of its last
  -- attempt; the next one, of one point or more whose addresses parse, panics on the nil client, whatever
  -- its function code and its number of attempts.
  pub read_with_retry-panics :
      (device function other p : String) (points ps : List String) (aps : List AddrPoint) (n k : ℕ)
      (s t : Session W) (e failure : Error)
      → Fails modbus_protocol device function points n s e t
      → (force_reconnect lib t).0 ≡ ok (some failure)
      → collect_points (map (plain lib) (p ∷ ps)) ≡ ok aps
      → let first = read_with_retry modbus_protocol device function points n s in
        (first.0 ≡ err e)
        × ((read_with_retry modbus_protocol device other (p ∷ ps) (suc k) first.1).0 ≡ panic)
  read_with_retry-panics device function other p points ps aps n k s t e failure fails failed
        parsed =
      let given_up =
        read_with_retry-gives_up modbus_protocol device function points n s t e fails
        ∙ stays (force_reconnect lib t) failed in
      (
        ap (λ r. r.0) given_up,
        ap (λ r. (read_with_retry modbus_protocol device other (p ∷ ps) (suc k) r.1).0) given_up
            ∙ ap (λ r. r.0)
                (read_with_retry-panic device other (p ∷ ps) k _ _
                  (read_batch_after_failed_reconnect other p ps aps failure t parsed failed)),
      )
    where
      stays :
          (r : Outcome (Option Error) × Session W)
          → r.0 ≡ ok (some failure)
          → reconnecting modbus_protocol device function points e r ≡ (err e, r.1)
      stays (ok x, u) h = refl
      stays (err x, u) h = refl
      stays (panic, u) h = cc
