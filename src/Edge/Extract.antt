-- ===== src/Edge/Extract.antt =====
-- config/edge_rule_loader.go: the rules out of the grouped form of the file.
use text.Mathlib.Text.{◌==◌ as str_eq}
use sensor_edge.Prelude.{
  inr, refl, [], inl, map, Bool-cases, true, arith, if◌then◌else◌, false, ◌≡◌, ◌∷◌, ◌++◌, Bool,
  String, List,
}
use sensor_edge.Edge.{RuleEngine, AggregateRule, AlarmRuleEdge, LinkageRule}

pub record DeviceEdgeRules : Type 0 where
  pub device_id : String
  pub aggregates : List AggregateRule
  pub alarms : List AlarmRuleEdge
  pub linkages : List LinkageRule

abbrev assign_aggregate : String → AggregateRule → AggregateRule
assign_aggregate device rule = record rule { device_id = device; kind = "aggregate" }

abbrev assign_alarm : String → AlarmRuleEdge → AlarmRuleEdge
assign_alarm device rule = record rule { device_id = device; kind = "alarm" }

abbrev assign_linkage : String → LinkageRule → LinkageRule
assign_linkage device rule = record rule { source_device = device; kind = "linkage" }

unfoldable pub extract_aggregate_rules : List DeviceEdgeRules → List AggregateRule
extract_aggregate_rules [] = []
extract_aggregate_rules (dr ∷ drs) =
    map (assign_aggregate dr.device_id) dr.aggregates ++ extract_aggregate_rules drs

unfoldable pub extract_alarm_rules : List DeviceEdgeRules → List AlarmRuleEdge
extract_alarm_rules [] = []
extract_alarm_rules (dr ∷ drs) =
    map (assign_alarm dr.device_id) dr.alarms ++ extract_alarm_rules drs

unfoldable pub extract_linkage_rules : List DeviceEdgeRules → List LinkageRule
extract_linkage_rules [] = []
extract_linkage_rules (dr ∷ drs) =
    map (assign_linkage dr.device_id) dr.linkages ++ extract_linkage_rules drs

-- What main.go does on SIGHUP: the rules are replaced, the buffers and the last alarms stay.
unfoldable pub reload_rules : List DeviceEdgeRules → RuleEngine → RuleEngine
reload_rules drs r = record r {
  agg_rules = extract_aggregate_rules drs;
  alarm_rules = extract_alarm_rules drs;
  linkage_rules = extract_linkage_rules drs;
}

-- The elements that pass a test.
unfoldable pub keep {ℓ} : {A : Type ℓ} → (A → Bool) → List A → List A
keep test [] = []
keep test (x ∷ xs) = let rest = keep test xs in if test x then x ∷ rest else rest

keep-append {ℓ} :
    {A : Type ℓ} (test : A → Bool) (xs ys : List A)
    → keep test (xs ++ ys) ≡ keep test xs ++ keep test ys
unfolding keep
keep-append test [] ys = refl
keep-append test (x ∷ xs) ys = ground (arith, keep-append test xs ys)

keep-map_all {ℓ κ} :
    {A : Type ℓ} {B : Type κ} (test : B → Bool) (f : A → B) (xs : List A)
    → ((a : A) → test (f a) ≡ true)
    → keep test (map f xs) ≡ map f xs
unfolding keep
keep-map_all test f [] h = refl
keep-map_all test f (x ∷ xs) h = rw (h x, keep-map_all test f xs h)

keep-map_none {ℓ κ} :
    {A : Type ℓ} {B : Type κ} (test : B → Bool) (f : A → B) (xs : List A)
    → ((a : A) → test (f a) ≡ false)
    → keep test (map f xs) ≡ []
unfolding keep
keep-map_none test f [] h = refl
keep-map_none test f (x ∷ xs) h = rw (h x, keep-map_none test f xs h)

-- One kind of rule: `rules` are a group's, and `name` is the device that an extracted rule names.
keep-group :
    {A : Type 0} (device group : String) (name : A → String) (assign : A → A)
    (rules rest own : List A)
    → ((a : A) → name (assign a) ≡ group)
    → keep (λ a. str_eq (name a) device) rest ≡ own
    → keep (λ a. str_eq (name a) device) (map assign rules ++ rest)
      ≡ (if str_eq group device then map assign rules ++ own else own)
keep-group device group name assign rules rest own named e =
    elim (Bool-cases (str_eq group device)) [
      | inl yes_ ↦ rw (
        keep-append (λ a. str_eq (name a) device) (map assign rules) rest,
        keep-map_all (λ a. str_eq (name a) device) assign rules (λ a. rw (named a) yes_),
        e,
        yes_,
      )
      | inr no_ ↦ rw (
        keep-append (λ a. str_eq (name a) device) (map assign rules) rest,
        keep-map_none (λ a. str_eq (name a) device) assign rules (λ a. rw (named a) no_),
        e,
        no_,
      )
    ]

-- The rules of one device among the extracted ones are those extracted from the device's groups, for
-- the three kinds of rules: whatever device a rule names in the file, it takes the group's.
pub keep-extract :
    (device : String) (drs : List DeviceEdgeRules)
    → let own = keep (λ (dr : DeviceEdgeRules). str_eq dr.device_id device) drs in
      (keep (λ (r : AggregateRule). str_eq r.device_id device) (extract_aggregate_rules drs)
        ≡ extract_aggregate_rules own)
      × (keep (λ (r : AlarmRuleEdge). str_eq r.device_id device) (extract_alarm_rules drs)
          ≡ extract_alarm_rules own)
      × (keep (λ (r : LinkageRule). str_eq r.source_device device) (extract_linkage_rules drs)
          ≡ extract_linkage_rules own)
unfolding keep extract_aggregate_rules extract_alarm_rules extract_linkage_rules
keep-extract device [] = (refl, refl, refl)
keep-extract device (dr ∷ drs) =
    let (a, b, c) = keep-extract device drs in
    elim (Bool-cases (str_eq dr.device_id device)) [
      | inl e ↦ rw e (
        rw (
          keep-group device dr.device_id (λ r. r.device_id) (assign_aggregate dr.device_id)
              dr.aggregates _ _ (λ r. refl) a,
          e,
        ),
        rw (
          keep-group device dr.device_id (λ r. r.device_id) (assign_alarm dr.device_id) dr.alarms _
              _ (λ r. refl) b,
          e,
        ),
        rw (
          keep-group device dr.device_id (λ r. r.source_device) (assign_linkage dr.device_id)
              dr.linkages _ _ (λ r. refl) c,
          e,
        ),
      )
      | inr e ↦ rw e (
        rw (
          keep-group device dr.device_id (λ r. r.device_id) (assign_aggregate dr.device_id)
              dr.aggregates _ _ (λ r. refl) a,
          e,
        ),
        rw (
          keep-group device dr.device_id (λ r. r.device_id) (assign_alarm dr.device_id) dr.alarms _
              _ (λ r. refl) b,
          e,
        ),
        rw (
          keep-group device dr.device_id (λ r. r.source_device) (assign_linkage dr.device_id)
              dr.linkages _ _ (λ r. refl) c,
          e,
        ),
      )
    ]
