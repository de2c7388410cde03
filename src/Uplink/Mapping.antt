-- ===== src/Uplink/Mapping.antt =====
-- uplink/sparkplugb/subscribe.go.
use sensor_edge.Prelude.Dict.{insert, lookup, Dict}
use sensor_edge.Prelude.{ℕ, [], String, List}
use sensor_edge.Value.{Value}
use sensor_edge.Prelude.{none, some, [], ◌∷◌}

pub record SouthSubConfig : Type 0 where
  pub topic : String
  pub template : Dict String

module _ (payload : Dict Value) where
  -- One round of the loop over the template.
  abbrev pub map_entry : String → String → Dict Value → Dict Value
  map_entry k v res = elim (lookup k payload) [ none ↦ res | some val ↦ insert v val res ]

  abbrev pub map_entries : Dict String → Dict Value → Dict Value
  map_entries [] res = res
  map_entries ((k, v) ∷ tpl) res = map_entries tpl (map_entry k v res)

  unfoldable pub apply_mapping : Dict String → Dict Value
  apply_mapping tpl = map_entries tpl []

-- The callback of Start: json.Unmarshal into a map, of which an error is dropped, and json.Marshal.
unfoldable pub on_message :
    {W : Type 0}
    → (unmarshal : List ℕ → Dict Value) → (marshal : Dict Value → List ℕ)
    → (uplink : List ℕ → W → W) → SouthSubConfig
    → List ℕ
    → W
    → W
on_message unmarshal marshal uplink config message w =
    uplink (marshal (apply_mapping (unmarshal message) config.template)) w
