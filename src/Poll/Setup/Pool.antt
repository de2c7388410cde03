-- ===== src/Poll/Setup/Pool.antt =====
-- Clients of the pool are shared.
use sensor_edge.Poll.Setup.Clients.{
  create, found_or_new, keep_client, client_key, new_client, ClientPool, ClientKey,
  get_or_create_client, Driver, cached,
}
use text.Mathlib.TextPositions.{eq_refl}
use sensor_edge.Value.{Value}
use sensor_edge.Go.{ok-injective, panic, err, ok, Outcome}
use sensor_edge.Prelude.Dict.{Dict}
use sensor_edge.Prelude.Int.{leb_ℤ}
use sensor_edge.Floats.{Floats}
use sensor_edge.Prelude.{
  none, refl, Option, negsuc, ◌∙◌, arith, length, pos, ap, some, true, String, ◌≡◌, ◌∷◌, List, ℕ, ℤ,
}

leb_ℤ_refl : (z : ℤ) → leb_ℤ z z ≡ true
leb_ℤ_refl (pos n) = ground arith
leb_ℤ_refl (negsuc n) = ground arith

cached_first :
    (key : ClientKey) (client : ℕ) (rest : List (ClientKey × ℕ))
    → cached key ((key, client) ∷ rest) ≡ some client
unfolding cached
cached_first key client rest =
    rw (eq_refl key.client_protocol, eq_refl key.client_ip, leb_ℤ_refl key.client_port)

module _ {P : Type 0} (d : Driver P) (fl : Floats) (registry : Dict P) where
  keep_client-cached :
      (key : ClientKey) (pool : ClientPool P) (r : Outcome (Unit {0}) × P) (client : ℕ)
      → (keep_client d fl registry key pool r).0 ≡ ok client
      → cached key (keep_client d fl registry key pool r).1.cache ≡ some client
  keep_client-cached key pool (ok u, p) client e =
      cached_first key (length pool.clients) pool.cache ∙ ap some (ok-injective _ _ e)
  keep_client-cached key pool (err x, p) client e = cc
  keep_client-cached key pool (panic, p) client e = cc

  new_client-cached :
      (key : ClientKey) (config : Dict Value) (pool : ClientPool P) (r : Outcome P) (client : ℕ)
      → (new_client d fl registry key config pool r).0 ≡ ok client
      → cached key (new_client d fl registry key config pool r).1.cache ≡ some client
  new_client-cached key config pool (ok p) client e =
      keep_client-cached key pool (d.initialise config p) client e
  new_client-cached key config pool (err x) client e = cc
  new_client-cached key config pool panic client e = cc

  found_or_new-cached :
      (protocol : String) (config : Dict Value) (pool : ClientPool P) (client : ℕ) (o : Option ℕ)
      → cached (client_key fl protocol config) pool.cache ≡ o
      → (found_or_new d fl registry protocol config pool o).0 ≡ ok client
      → cached
          (client_key fl protocol config)
          (found_or_new d fl registry protocol config pool o).1.cache
        ≡ some client
  found_or_new-cached protocol config pool client (some c) present e =
      present ∙ ap some (ok-injective _ _ e)
  found_or_new-cached protocol config pool client none absent e =
      new_client-cached (client_key fl protocol config) config pool (create protocol registry)
        client e

  get_or_create_client-cached :
      (protocol : String) (config : Dict Value) (pool : ClientPool P) (client : ℕ)
      → (get_or_create_client d fl registry protocol config pool).0 ≡ ok client
      → cached
          (client_key fl protocol config)
          (get_or_create_client d fl registry protocol config pool).1.cache
        ≡ some client
  unfolding get_or_create_client
  get_or_create_client-cached protocol config pool client =
      found_or_new-cached protocol config pool client
        (cached (client_key fl protocol config) pool.cache) refl

  -- A second device with the same protocol, address and port gets the client of the first, and
  -- nothing is created or initialised, whatever else its configuration holds, its slave id included.
  pub get_or_create_client-reuses :
      (protocol : String) (config other : Dict Value) (pool : ClientPool P) (client : ℕ)
      → (get_or_create_client d fl registry protocol config pool).0 ≡ ok client
      → client_key fl protocol other ≡ client_key fl protocol config
      → let shared = (get_or_create_client d fl registry protocol config pool).1 in
        get_or_create_client d fl registry protocol other shared ≡ (ok client, shared)
  get_or_create_client-reuses protocol config other pool client e same =
      again (get_or_create_client d fl registry protocol config pool).1 (
        ap (λ k. cached k (get_or_create_client d fl registry protocol config pool).1.cache) same
        ∙ get_or_create_client-cached protocol config pool client e)
    where
      again :
          (shared : ClientPool P)
          → cached (client_key fl protocol other) shared.cache ≡ some client
          → get_or_create_client d fl registry protocol other shared ≡ (ok client, shared)
      again shared found =
          unfold get_or_create_client in ap (found_or_new d fl registry protocol other shared) found
