-- ===== src/Bacnet/Sockets.antt =====
-- The sockets of protocols/bacnet: DiscoverDevicesReal of bacnet.go, ListenIAM of discover.go, and the loop
-- of main.go that listens beside it.
use sensor_edge.Prelude.{[], none, ℕ, some, ◌∷◌, Option, String, List}
use sensor_edge.Go.{panic, err, ok, Error, Outcome}
use sensor_edge.Bacnet.Write.{discovered_devices, BacnetDeviceInfo}
use sensor_edge.Bacnet.Iam.{heard, parse_i_am, DeviceInfo}
use sensor_edge.Bacnet.Registry.{register_and_start_polling, Registry}

-- A UDP socket of package net over the world `W`, named by a number. Datagrams are bytes with their
-- sender.
pub record Udp (W : Type 0) : Type 0 where
  pub listen : String → W → Outcome ℕ × W  -- net.ListenPacket("udp4", address)
  pub send_to : ℕ → List ℕ → String → W → W  -- whose results are not looked at
  -- what ReadFrom gives after SetDeadline, up to its first error
  pub read_until : ℕ → W → List (List ℕ × String) × W
  pub close : ℕ → W → W

-- The Who-Is that is broadcast.
abbrev pub who_is : List ℕ
who_is = 0x81 ∷ 0x0b ∷ 0x00 ∷ 0x0c ∷ 0x01 ∷ 0x20 ∷ 0xff ∷ 0xff ∷ 0xff ∷ 0xff ∷ 0x00 ∷ 0x00 ∷ []

module _ {W : Type 0} (udp : Udp W) where
  abbrev asked : Outcome ℕ × W → Outcome (List BacnetDeviceInfo) × W
  asked (ok conn, w) =
      let (answers, w') = udp.read_until conn (udp.send_to conn who_is "255.255.255.255:47808" w) in
      (ok (discovered_devices answers), udp.close conn w')
  asked (err e, w) = (err e, w)
  asked (panic, w) = (panic, w)

  unfoldable pub discover_devices_real : W → Outcome (List BacnetDeviceInfo) × W
  discover_devices_real w = asked (udp.listen ":0" w)

-- What ReadFromUDP gives: a datagram, or an error.
abbrev pub Received : Type 0
Received = Option (List ℕ × String)

module _ {S : Type 0} (handler : DeviceInfo → S → S) where
  abbrev handle : Option DeviceInfo → S → S
  handle none s = s
  handle (some info) s = handler info s

  -- The loop of ListenIAM over what it receives. An error is passed over, and so is a datagram that
  -- does not parse.
  unfoldable pub listening : List Received → S → S
  listening [] s = s
  listening (none ∷ more) s = listening more s
  listening (some (bytes, remote) ∷ more) s = listening more (handle (heard bytes remote) s)

  -- ListenIAM, where the port is free or gives an error.
  unfoldable pub listen_iam : Option Error → List Received → S → Option Error × S
  listen_iam (some e) received s = (some e, s)
  listen_iam none received s = (none, listening received s)

abbrev pub registered : Outcome DeviceInfo → Registry → Registry
registered (ok info) r = register_and_start_polling info r
registered _ r = r

-- The second loop of main.go. Its errors are not looked at: the address of an error is nil, and taking
-- its IP panics.
unfoldable pub main_listening : List Received → Registry → Outcome Registry
main_listening [] r = ok r
main_listening (none ∷ more) r = panic
main_listening (some (bytes, remote) ∷ more) r =
    main_listening more (registered (parse_i_am bytes remote) r)
