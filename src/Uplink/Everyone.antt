-- ===== src/Uplink/Everyone.antt =====
-- Which configurations SendToAll gets through.
use text.Mathlib.TextEquality.{eq_iff}
use sensor_edge.Uplink.Http
use native.Mathlib.Omega.{arith}
-- A channel whose client is nil.
use text.Mathlib.Text.{◌==◌ as str_eq}
use sensor_edge.Go.{ok, panic, Error, Outcome}
use sensor_edge.Prelude.{
  ap, sym, inr, inl, Bool-cases, not, String, ◌∙◌, some, refl, none, [], if◌then◌else◌, ◌||◌, ℕ,
  ◌∷◌, Option, true, ◌++◌, false, ◌≡◌, List, ◌&&◌, Bool,
}
use sensor_edge.Uplink.Manager.{
  new_uplink_manager_from_config, credentials, mqtt_uplink, send, nats, kafka, sent, append_option,
  http, next_uplink, redis, mqtt, uplinks_from, send_to_all, uplink_of, UplinkConfig, Channels,
  Uplink,
}

abbrev pub has_no_client : Uplink → Bool
has_no_client (mqtt none topic name) = true
has_no_client (redis none topic name) = true
has_no_client _ = false

abbrev pub any {ℓ} : {A : Type ℓ} → (A → Bool) → List A → Bool
any test [] = false
any test (x ∷ xs) = test x || any test xs

-- The channels in front of the first without a client.
abbrev pub before_nil : List Uplink → List Uplink
before_nil [] = []
before_nil (up ∷ ups) = let rest = before_nil ups in if has_no_client up then [] else up ∷ rest

-- An enabled entry of the type redis.
abbrev pub is_redis : UplinkConfig → Bool
is_redis c = c.enable && str_eq c.kind "redis"

any-append {ℓ} :
    {A : Type ℓ} (test : A → Bool) (xs ys : List A)
    → any test (xs ++ ys) ≡ any test xs || any test ys
any-append test [] ys = refl
any-append test (x ∷ xs) ys = ground (arith, any-append test xs ys)

apart : (k s : String) → str_eq k s ≡ true → str_eq s "redis" ≡ false → str_eq k "redis" ≡ false
apart k s same other = ap (λ t. str_eq t "redis") ((eq_iff k s).0 same) ∙ other

module _ {W : Type 0} (lib : Channels W) where
  -- Sending goes on unless it panicked.
  next_uplink-sent :
      (others : W → Outcome (Unit {0}) × W) (r : Outcome (Unit {0})) (r' : Option Error × W)
      → ((w : W) → (others w).0 ≡ r)
      → (next_uplink lib others (sent lib r')).0 ≡ r
  next_uplink-sent others r (none, w) e = e w
  next_uplink-sent others r (some x, w) e = e w

  -- The payload is sent by one channel after the other, whatever errors they return.
  abbrev pub send_each : List ℕ → List Uplink → W → W
  send_each payload [] w = w
  send_each payload (up ∷ ups) w = send_each payload ups (send lib up payload w).1

  next_uplink-world :
      (others : W → Outcome (Unit {0}) × W) (after : W → W) (r : Option Error × W)
      → ((w : W) → (others w).1 ≡ after w)
      → (next_uplink lib others (sent lib r)).1 ≡ after (sent lib r).1
  next_uplink-world others after (none, w) e = e w
  next_uplink-world others after (some x, w) e = e w

  send_to_all-send_each :
      (ups : List Uplink) (payload : List ℕ) (w : W)
      → (send_to_all lib ups payload w).1 ≡ send_each payload (before_nil ups) w
  unfolding send_to_all send
  send_to_all-send_each [] payload w = refl
  send_to_all-send_each (mqtt none topic name ∷ ups) payload w = refl
  send_to_all-send_each (mqtt (some c) topic name ∷ ups) payload w =
      next_uplink-world _ _ (lib.mqtt_publish c topic payload w) (send_to_all-send_each ups payload)
  send_to_all-send_each (http c ∷ ups) payload w =
      next_uplink-world _ _ (Http.send lib.http_library c payload w)
        (send_to_all-send_each ups payload)
  send_to_all-send_each (kafka topic name ∷ ups) payload w = send_to_all-send_each ups payload w
  send_to_all-send_each (nats ∷ ups) payload w = send_to_all-send_each ups payload w
  send_to_all-send_each (redis none topic name ∷ ups) payload w = refl
  send_to_all-send_each (redis (some c) topic name ∷ ups) payload w =
      next_uplink-world _ _ (lib.redis_publish c topic payload w)
        (send_to_all-send_each ups payload)

  pub send_to_all_lem :
      (ups : List Uplink) (payload : List ℕ) (w : W)
      → (send_to_all lib ups payload w).0 ≡ (if any has_no_client ups then panic else ok tt)
  unfolding send_to_all send
  send_to_all_lem [] payload w = refl
  send_to_all_lem (mqtt none topic name ∷ ups) payload w = refl
  send_to_all_lem (mqtt (some c) topic name ∷ ups) payload w =
      next_uplink-sent _ _ (lib.mqtt_publish c topic payload w) (send_to_all_lem ups payload)
  send_to_all_lem (http c ∷ ups) payload w =
      next_uplink-sent _ _ (Http.send lib.http_library c payload w) (send_to_all_lem ups payload)
  send_to_all_lem (kafka topic name ∷ ups) payload w = send_to_all_lem ups payload w
  send_to_all_lem (nats ∷ ups) payload w = send_to_all_lem ups payload w
  send_to_all_lem (redis none topic name ∷ ups) payload w = refl
  send_to_all_lem (redis (some c) topic name ∷ ups) payload w =
      next_uplink-sent _ _ (lib.redis_publish c topic payload w) (send_to_all_lem ups payload)

  mqtt_uplink-any :
      (c : UplinkConfig) (r : Option Error × (ℕ × W))
      → any has_no_client (append_option lib [] (mqtt_uplink lib c r).0) ≡ false
  mqtt_uplink-any c (some e, (n, w)) = refl
  mqtt_uplink-any c (none, (n, w)) = refl

  -- The entry's channel has no client just where the entry is an enabled redis.
  uplink_of-is_redis :
      (c : UplinkConfig) (w : W)
      → any has_no_client (append_option lib [] (uplink_of lib c w).0) ≡ is_redis c
  unfolding uplink_of
  uplink_of-is_redis c w = by_kind c.enable c.kind connected (mqtt_uplink-any c reply)
    where
      reply : Option Error × (ℕ × W)
      reply = lib.mqtt_connect c.broker c.client_id (credentials lib c) w

      connected : Option Uplink × W
      connected = mqtt_uplink lib c reply

      by_kind :
          (b : Bool) (k : String) (o : Option Uplink × W)
          → any has_no_client (append_option lib [] o.0) ≡ false
          → any has_no_client (
              append_option lib []
                (if not b
                  then (none, w)
                  else if str_eq k "mqtt"
                  then o
                  else if str_eq k "http"
                  then (
                    some (http (record { url = c.url; method = c.method; headers = c.headers })),
                    w,
                  )
                  else if str_eq k "kafka"
                  then (some (kafka c.topic c.name), w)
                  else if str_eq k "nats"
                  then (some nats, w)
                  else if str_eq k "redis"
                  then (some (redis none "" ""), w)
                  else (none, w)).0)
            ≡ (b && str_eq k "redis")
      by_kind false k o e = refl
      by_kind true k o e = elim (Bool-cases (str_eq k "mqtt")) [
        | inl m ↦ rw m (e ∙ sym (apart k "mqtt" m refl))
        | inr m ↦ rw m (elim (Bool-cases (str_eq k "http")) [
          | inl h ↦ rw h (sym (apart k "http" h refl))
          | inr h ↦ rw h (elim (Bool-cases (str_eq k "kafka")) [
            | inl f ↦ rw f (sym (apart k "kafka" f refl))
            | inr f ↦ rw f (elim (Bool-cases (str_eq k "nats")) [
              | inl n ↦ rw n (sym (apart k "nats" n refl))
              | inr n ↦
                  rw n
                    (elim (Bool-cases (str_eq k "redis")) [ inl r ↦ rw r refl | inr r ↦ rw r refl ])
            ])
          ])
        ])
      ]

  append_option-any :
      (ups : List Uplink) (o : Option Uplink)
      → any has_no_client (append_option lib ups o)
        ≡ any has_no_client ups || any has_no_client (append_option lib [] o)
  append_option-any ups none = ground arith
  append_option-any ups (some up) = any-append has_no_client ups (up ∷ [])

  uplinks_from-any :
      (cs : List UplinkConfig) (ups : List Uplink) (w : W)
      → any has_no_client (uplinks_from lib cs ups w).0 ≡ any has_no_client ups || any is_redis cs
  unfolding uplinks_from
  uplinks_from-any [] ups w = ground arith
  uplinks_from-any (c ∷ cs) ups w =
      uplinks_from-any cs (append_option lib ups (uplink_of lib c w).0) (uplink_of lib c w).1
      ∙ ground (arith, append_option-any ups (uplink_of lib c w).0, uplink_of-is_redis c w)

  -- SendToAll of a manager that NewUplinkManagerFromConfig made panics if an enabled entry has the type
  -- redis, and otherwise it returns no error, whatever the channels answer and in whatever state the
  -- network is at either time. The channels in front of the first without a client are each sent the
  -- payload, one after the other, whatever errors those before them returned, and no other is.
  pub send_to_all-new_uplink_manager_from_config :
      (cfgs : List UplinkConfig) (payload : List ℕ) (then_ now : W)
      → let ups = (new_uplink_manager_from_config lib cfgs then_).0 in
        ((send_to_all lib ups payload now).0 ≡ (if any is_redis cfgs then panic else ok tt))
        × ((send_to_all lib ups payload now).1 ≡ send_each payload (before_nil ups) now)
  unfolding new_uplink_manager_from_config
  send_to_all-new_uplink_manager_from_config cfgs payload then_ now =
      let ups = (new_uplink_manager_from_config lib cfgs then_).0 in
      (
        send_to_all_lem ups payload now
            ∙ ap (λ b. if b then panic else ok tt) (uplinks_from-any cfgs [] then_),
        send_to_all-send_each ups payload now,
      )
