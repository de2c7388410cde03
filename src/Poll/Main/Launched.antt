-- ===== src/Poll/Main/Launched.antt =====
-- Which point sets main starts a goroutine for.
use sensor_edge.Go.{Error, err}
use sensor_edge.Poll.Points.{DevicePointSetV2}
use sensor_edge.Poll.Setup.Clients.{Driver}
use sensor_edge.Poll.Setup.Config.{DeviceConfigWithMeta}
use sensor_edge.Poll.Setup.Start.{Started, params_of, protocol_of}
use sensor_edge.Prelude.{◌⊎◌, ◌≡◌, refl, sym, suc, none, some, get_elem?, [], ◌∷◌, ℕ, List, String}
use sensor_edge.Prelude.Dict.{Dict, lookup}
use sensor_edge.Value.{Value}
use mathlib.Core.Path.{subst}

-- A point set that stands in the list.
abbrev pub IsIn : List DevicePointSetV2 → DevicePointSetV2 → Type 0
IsIn sets set = (i : ℕ) × (get_elem? sets i ≡ some set)

abbrev pub AllIn : List DevicePointSetV2 → List Started → Type 0
AllIn sets [] = Unit
AllIn sets (s ∷ ss) = IsIn sets s.set × AllIn sets ss

AllIn-suc :
    (set : DevicePointSetV2) (sets : List DevicePointSetV2) (ss : List Started)
    → AllIn sets ss
    → AllIn (set ∷ sets) ss
AllIn-suc set sets [] h = tt
AllIn-suc set sets (s ∷ ss) ((i, here), more) = ((suc i, here), AllIn-suc set sets ss more)

module _ {P : Type 0} (d : Driver P) (registry : Dict P) where
  -- Why a new client of the protocol could not be made: there is no such protocol, or its Init gave an
  -- error.
  abbrev pub IsRefused : String → Type 0
  IsRefused protocol =
      (lookup protocol registry ≡ none)
      ⊎ ((p : P) × (config : Dict Value) × (e : Error) × (lookup protocol registry ≡ some p)
          × ((d.initialise config p).0 ≡ err e))

  module _ (protocols : Dict (List (Dict Value))) (devices : Dict DeviceConfigWithMeta) where
    -- Why a point set is left out: no device has its id, no instance of the protocol has its name, or the
    -- client is refused.
    abbrev pub IsLeftOut : DevicePointSetV2 → Type 0
    IsLeftOut set =
        (lookup set.device_id devices ≡ none)
        ⊎ ((dev : DeviceConfigWithMeta) × (lookup set.device_id devices ≡ some dev)
            × ((params_of protocols set dev ≡ none) ⊎ IsRefused (protocol_of set dev)))

    -- There is a goroutine for each point set that is not left out, in the order of the list.
    pub data Launched : List DevicePointSetV2 → List Started → Type 0 where
      no_sets : Launched [] []
      launched :
          {set : DevicePointSetV2} {sets : List DevicePointSetV2} {s : Started} {ss : List Started}
          → s.set ≡ set
          → Launched sets ss
          → Launched (set ∷ sets) (s ∷ ss)
      left_out :
          {set : DevicePointSetV2} {sets : List DevicePointSetV2} {ss : List Started}
          → IsLeftOut set
          → Launched sets ss
          → Launched (set ∷ sets) ss

    pub Launched-AllIn :
        (sets : List DevicePointSetV2) (ss : List Started) → Launched sets ss → AllIn sets ss
    Launched-AllIn _ _ no_sets = tt
    Launched-AllIn _ _ (launched {set = set} {sets = sets} {s = s} {ss = ss} own more) = (
      (0, subst (λ x. some set ≡ some x) (sym own) refl),
      AllIn-suc set sets ss (Launched-AllIn sets ss more),
    )
    Launched-AllIn _ _ (left_out {set = set} {sets = sets} {ss = ss} out more) =
        AllIn-suc set sets ss (Launched-AllIn sets ss more)
