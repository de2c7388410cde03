-- ===== src/Bacnet/Calls.antt =====
-- Sequences of calls on a BACnet client.
use text.Mathlib.TextPositions.{eq_refl}
use sensor_edge.Bacnet.ReadBack.{
  value_at_written, read_batch-one, updated, permitted-connected, resolve-updated,
}
use sensor_edge.Bacnet.Accepts.{written, is_ok, permitted, write-permitted}
use text.Mathlib.Text.{◌==◌ as str_eq}
use sensor_edge.Go.{ok}
use sensor_edge.Bacnet.Points.{BacnetPoint}
use sensor_edge.Bacnet.Write.{set_value, reconnect, close, discover_devices, write}
use sensor_edge.Edge.{Govaluate}
use sensor_edge.Bacnet.Index.{resolve-Found, write-IsIndexed, init-IsIndexed, IsIndexed}
use sensor_edge.Prelude.{
  if◌then◌else◌, ap, ◌∙◌, sym, true, false, ◌≢◌, some, ◌≡◌, ℕ, [], String, ◌∷◌, Option, List,
}
use sensor_edge.Bacnet.Client.{resolve, new_bacnet_client, init, read_batch, BacnetClient}
use sensor_edge.Value.{nil, Value}
use sensor_edge.Floats.{Floats}
use sensor_edge.Go.Show.{Printer}
use sensor_edge.Prelude.Dict.{lookup, Dict}

-- A call that changes the client.
pub data Call : Type 0 where
  initialise : Dict Value → Option (List (Option (Dict Value))) → Call
  set_point_value : String → Value → Call
  discover : Call
  shut : Call
  reopen : Call

module _ (pr : Printer) (fl : Floats) where
  unfoldable pub perform : Call → BacnetClient → BacnetClient
  perform (initialise config points) c = init pr fl config points c
  perform (set_point_value key v) c = (write key v c).1
  perform discover c = (discover_devices c).1
  perform shut c = (close c).1
  perform reopen c = (reconnect c).1

  unfoldable pub perform_all : List Call → BacnetClient → BacnetClient
  unfolding perform
  perform_all [] c = c
  perform_all (call ∷ calls) c = perform_all calls (perform call c)

  perform-IsIndexed : (call : Call) (c : BacnetClient) → IsIndexed c → IsIndexed (perform call c)
  unfolding perform
  perform-IsIndexed (initialise config points) c i = init-IsIndexed pr fl config points c
  perform-IsIndexed (set_point_value key v) c i = write-IsIndexed key v c i
  perform-IsIndexed discover c i =
      unfold discover_devices in record { named = i.named; ids = i.ids; addresses = i.addresses }
  perform-IsIndexed shut c i =
      unfold close in record { named = i.named; ids = i.ids; addresses = i.addresses }
  perform-IsIndexed reopen c i =
      unfold reconnect in record { named = i.named; ids = i.ids; addresses = i.addresses }

  all-IsIndexed :
      (calls : List Call) (c : BacnetClient) → IsIndexed c → IsIndexed (perform_all calls c)
  unfolding perform_all
  all-IsIndexed [] c i = i
  all-IsIndexed (call ∷ calls) c i =
      all-IsIndexed calls (perform call c) (perform-IsIndexed call c i)

  new-IsIndexed : IsIndexed new_bacnet_client
  unfolding lookup
  new-IsIndexed = record {
    named = λ name pt e. absurd (cc e);
    ids = λ key name e. absurd (cc e);
    addresses = λ key name e. absurd (cc e);
  }

  -- After any calls on a new client, every point stands under its own name, and every id and every
  -- address of the client's maps stands for a point that is there.
  pub perform_all-IsIndexed : (calls : List Call) → IsIndexed (perform_all calls new_bacnet_client)
  perform_all-IsIndexed calls = all-IsIndexed calls new_bacnet_client new-IsIndexed

  -- After any calls on a new client, a value other than nil that Write takes for a key, a name, an address
  -- or an id, is what ReadBatch returns for this key, under the point's name and with quality good, if
  -- the point has no transform; and a key of another point gives what it gave before.
  pub read_batch-write :
      (g : Govaluate) (now : ℕ) (calls : List Call) (key other name other_name : String)
      (pt p : BacnetPoint) (v : Value)
      → resolve (perform_all calls new_bacnet_client) key ≡ some (name, pt)
      → resolve (perform_all calls new_bacnet_client) other ≡ some (other_name, p)
      → (write key v (perform_all calls new_bacnet_client)).0 ≡ ok tt
      → pt.transform ≡ ""
      → v ≢ nil
      → str_eq name other_name ≡ false
      → let c = perform_all calls new_bacnet_client in
        let c' = (write key v c).1 in
        (read_batch g now (key ∷ []) c'
          ≡ ok (record { point_id = name; value = v; quality = "good"; timestamp = now } ∷ []))
        × (read_batch g now (other ∷ []) c' ≡ read_batch g now (other ∷ []) c)
  read_batch-write g now calls key other name other_name pt p v found found' done plain some_value
        apart =
      let c = perform_all calls new_bacnet_client in
      let (f, own) = resolve-Found c key (name, pt) (perform_all-IsIndexed calls) found in
      let (success, after) = write-permitted key v c in
      let allowed : permitted c v (resolve c key) ≡ true = sym success ∙ ap is_ok done in
      let allowed' : permitted c v (some (name, pt)) ≡ true =
        ap (permitted c v) (sym found) ∙ allowed in
      let same : (write key v c).1 ≡ set_value c name pt v =
        after
        ∙ ap (λ b. if b then written c v (resolve c key) else c) allowed
        ∙ ap (written c v) found in
      let online : c.connected ≡ true = permitted-connected c v name pt allowed' in
      let new : BacnetPoint = record pt { value = v } in
      let here =
        resolve-updated c name pt new f key
        ∙ ap (updated name new) found
        ∙ ap (λ b. some (name, if b then new else pt)) (eq_refl name) in
      let there =
        resolve-updated c name pt new f other
        ∙ ap (updated name new) found'
        ∙ ap (λ b. some (other_name, if b then new else p)) apart in
      (
        ap (read_batch g now (key ∷ [])) same
            ∙ read_batch-one g now key (set_value c name pt v) (some (name, new)) online here
            ∙ ap (λ x. ok (x ∷ [])) (value_at_written g now key name pt v own plain some_value),
        ap (read_batch g now (other ∷ [])) same
            ∙ read_batch-one g now other (set_value c name pt v) (some (other_name, p)) online there
            ∙ sym (read_batch-one g now other c (some (other_name, p)) online found'),
      )
