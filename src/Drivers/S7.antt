-- ===== src/Drivers/S7.antt =====
-- protocols/s7/s7.go. The library gos7 is a parameter: the world `W` holds its handlers, which are named
-- by numbers, and the clock.
use sensor_edge.Drivers.Net.{string_at}
use sensor_edge.Drivers.Batch.{ask_points}
use sensor_edge.Prelude.Dict.{lookup, Dict}
use sensor_edge.Go.{err, ok, panic, Error, Outcome}
use sensor_edge.Prelude.{
  [], ◌==◌, ◌∷◌, ◌%◌, pos, get_or, Bool, some, ℕ, ℤ, Option, List, none, String,
}
use sensor_edge.Floats.{Floats}
use sensor_edge.Value.{bool, float64, int, PointValue, Value}

pub record Gos7 (W : Type 0) : Type 0 where
  -- gos7.NewTCPClientHandler(ip, rack, slot), with the timeout that Init sets
  pub new_handler : String → ℤ → ℤ → W → ℕ × W
  pub connect : ℕ → W → Option Error × W
  pub close : ℕ → W → Option Error × W
  -- AGReadDB of a client over the handler: database, start, size; the buffer and the error
  pub ag_read_db : ℕ → ℕ → ℕ → ℕ → W → (List ℕ × Option Error) × W
  pub unix : W → ℕ

-- A client made by gos7.NewClient is the handler that it was made over.
pub record S7Client : Type 0 where
  pub client : Option ℕ
  pub handler : Option ℕ

pub record S7Session (W : Type 0) : Type 0 where
  pub s : S7Client
  pub world : W

-- NewS7Client
abbrev pub new_s7_client : S7Client
new_s7_client = record { client = none; handler = none }

-- The switch over a setting's type; any other type leaves 0.
abbrev pub number_at : Floats → String → Dict Value → ℤ
number_at fl key config = number (lookup key config)
  where
    number : Option Value → ℤ
    number (some (float64 v)) = fl.to_int v
    number (some (int v)) = v
    number _ = pos 0

-- buffer[0]&1 == 1
abbrev pub running : List ℕ → Bool
running buffer = get_or buffer 0 0 % 2 == 1

module _ {W : Type 0} (lib : Gos7 W) where
  -- Where Connect fails the handler stays, and the client is the one of before.
  connect_to : S7Client → ℕ → W → Outcome (Unit {0}) × S7Session W
  connect_to c h w = connected_to c h (lib.connect h w)
    where
      connected_to : S7Client → ℕ → Option Error × W → Outcome (Unit {0}) × S7Session W
      connected_to c h (some e, w') =
          (err e, record { s = record c { handler = some h }; world = w' })
      connected_to c h (none, w') =
          (ok tt, record { s = record { client = some h; handler = some h }; world = w' })

  abbrev init_with : Outcome String → ℤ → ℤ → S7Session W → Outcome (Unit {0}) × S7Session W
  init_with (ok ip) rack slot c =
      let (h, w) = lib.new_handler ip rack slot c.world in connect_to c.s h w
  init_with _ rack slot c = (panic, c)

  unfoldable pub init : Floats → Dict Value → S7Session W → Outcome (Unit {0}) × S7Session W
  unfolding connect_to
  init fl config c =
      init_with (string_at "ip" config) (number_at fl "rack" config) (number_at fl "slot" config) c

  abbrev read_result : ℕ → List ℕ × Option Error → Outcome (List PointValue)
  read_result now (buffer, some e) = err e
  read_result now (buffer, none) = ok (
      record {
        point_id = "fan_status";
        value = bool (running buffer);
        quality = "good";
        timestamp = now;
      }
      ∷ [])

  unfoldable pub read : S7Session W → Outcome (List PointValue) × S7Session W
  read c = elim c.s.client [
    | none ↦ (panic, c)
    | some h ↦
        let (answer, w) = lib.ag_read_db h 1 0 2 c.world in
        (read_result (lib.unix w) answer, record c { world = w })
  ]

  abbrev answer_value : List ℕ × Option Error → Option Value
  answer_value (buffer, some e) = none
  answer_value (buffer, none) = some (bool (running buffer))

  -- The point is not looked at: every one is the first bit of DB1.
  unfoldable pub ask : S7Client → String → W → Outcome (Option Value) × W
  ask c pt w = elim c.client [
    | none ↦ (panic, w)
    | some h ↦ let (answer, w') = lib.ag_read_db h 1 0 2 w in (ok (answer_value answer), w')
  ]

  unfoldable pub read_batch : List String → S7Session W → Outcome (List PointValue) × S7Session W
  read_batch points c =
      let (r, w) = ask_points lib.unix (ask c.s) points c.world in (r, record c { world = w })

  -- A nil handler panics.
  unfoldable pub close : S7Session W → Outcome (Option Error) × S7Session W
  close c = elim c.s.handler [
    | none ↦ (panic, c)
    | some h ↦ let (e, w) = lib.close h c.world in (ok e, record c { world = w })
  ]

  unfoldable pub reconnect : S7Session W → Outcome (Unit {0}) × S7Session W
  unfolding connect_to
  reconnect c = elim c.s.handler [ none ↦ (ok tt, c) | some h ↦ connect_to c.s h c.world ]

-- Write does nothing.
abbrev pub write : String → Value → Outcome (Unit {0})
write point value = ok tt
