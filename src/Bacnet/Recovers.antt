-- ===== src/Bacnet/Recovers.antt =====
-- The BACnet client behind the interface that readWithRetry of main.go uses.
use sensor_edge.Poll.Retry.{
  read_with_retry-first, read_with_retry-gives_up, again, once, Fails, read_with_retry, Protocol,
}
use sensor_edge.Prelude.{◌∙◌, ap, refl, zero, map, ◌≡◌, suc, none, List, String, ℕ}
use sensor_edge.Edge.{Govaluate}
use sensor_edge.Go.{ok, err}
use sensor_edge.Bacnet.Write.{close, reconnect}
use sensor_edge.Bacnet.Client.{read_batch, resolve, value_at, BacnetClient, not_connected}

module _ (g : Govaluate) (now : ℕ) where
  abbrev pub bacnet_protocol : Protocol BacnetClient
  bacnet_protocol = record {
    read_batch = λ device function points c. (read_batch g now points c, c);
    reconnect = λ c. (ok none, (reconnect c).1);
    set_slave = λ slave c. c;
  }

  module _ (device function : String) (keys : List String) (c : BacnetClient) where
    all_fail :
        (n : ℕ)
        → Fails bacnet_protocol device function keys (suc n) (close c).1 not_connected (close c).1
    unfolding close read_batch
    all_fail zero = once refl
    all_fail (suc n) = again refl (all_fail n)

    -- On a client that was closed readWithRetry fails, whatever its number of attempts, but its reconnect
    -- after the last one is enough for the next readWithRetry, which returns a value for each of the keys at
    -- its first attempt, from the points that the client had.
    pub read_with_retry-close :
        (n k : ℕ)
        → let first = read_with_retry bacnet_protocol device function keys (suc n) (close c).1 in
          (first.0 ≡ err not_connected)
          × ((read_with_retry bacnet_protocol device function keys (suc k) first.1).0
              ≡ ok (map (λ key. value_at g now key (resolve c key)) keys))
    unfolding close reconnect read_batch resolve
    read_with_retry-close n k =
        let fails =
          read_with_retry-gives_up bacnet_protocol device function keys (suc n) (close c).1
            (close c).1 not_connected (all_fail n) in
        let again_ = ap (λ r. r.1) fails in
        (
          ap (λ r. r.0) fails,
          ap (λ s. (read_with_retry bacnet_protocol device function keys (suc k) s).0) again_
              ∙ ap (λ r. r.0)
                  (read_with_retry-first bacnet_protocol device function keys k
                    (reconnect (close c).1).1 (map (λ key. value_at g now key (resolve c key)) keys)
                    refl),
        )
