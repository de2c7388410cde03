-- ===== src/Api.antt =====
-- cmd/api_server.go: the routes of WebApp, and the handlers, which answer with their names. Fiber's
-- matching of a path with a pattern such as /api/devices/:id is a parameter; Listen is not modelled.
use sensor_edge.Prelude.{
  false, ◌&&◌, true, if◌then◌else◌, String, Bool, List, [], ◌∷◌, Option, none, some,
}

pub data Method : Type 0 where
  get post put delete : Method

pub data Handler : Type 0 where
  list_devices add_device update_device delete_device list_protocols add_protocol : Handler
  update_protocol delete_protocol list_points import_points list_rules add_rule : Handler
  update_rule delete_rule list_uplinks add_uplink update_uplink delete_uplink : Handler
  get_uplink_format set_uplink_format stream_logs : Handler

-- c.SendString
unfoldable pub answer : Handler → String
answer list_devices = "listDevices"
answer add_device = "addDevice"
answer update_device = "updateDevice"
answer delete_device = "deleteDevice"
answer list_protocols = "listProtocols"
answer add_protocol = "addProtocol"
answer update_protocol = "updateProtocol"
answer delete_protocol = "deleteProtocol"
answer list_points = "listPoints"
answer import_points = "importPoints"
answer list_rules = "listRules"
answer add_rule = "addRule"
answer update_rule = "updateRule"
answer delete_rule = "deleteRule"
answer list_uplinks = "listUplinks"
answer add_uplink = "addUplink"
answer update_uplink = "updateUplink"
answer delete_uplink = "deleteUplink"
answer get_uplink_format = "getUplinkFormat"
answer set_uplink_format = "setUplinkFormat"
answer stream_logs = "streamLogs"

pub record Route : Type 0 where
  pub method : Method
  pub path : String
  pub handler : Handler

abbrev route : Method → String → Handler → Route
route method path handler = record { method = method; path = path; handler = handler }

-- WebApp, in the order of registration.
unfoldable pub routes : List Route
routes =
    route get "/api/protocols" list_protocols
    ∷ route post "/api/protocols" add_protocol
    ∷ route put "/api/protocols/:id" update_protocol
    ∷ route delete "/api/protocols/:id" delete_protocol
    ∷ route get "/api/devices" list_devices
    ∷ route post "/api/devices" add_device
    ∷ route put "/api/devices/:id" update_device
    ∷ route delete "/api/devices/:id" delete_device
    ∷ route get "/api/points/:device_id" list_points
    ∷ route post "/api/points/:device_id" import_points
    ∷ route get "/api/rules" list_rules
    ∷ route post "/api/rules" add_rule
    ∷ route put "/api/rules/:id" update_rule
    ∷ route delete "/api/rules/:id" delete_rule
    ∷ route get "/api/uplinks" list_uplinks
    ∷ route post "/api/uplinks" add_uplink
    ∷ route put "/api/uplinks/:id" update_uplink
    ∷ route delete "/api/uplinks/:id" delete_uplink
    ∷ route get "/api/uplink_format" get_uplink_format
    ∷ route post "/api/uplink_format" set_uplink_format
    ∷ route get "/api/logs" stream_logs
    ∷ []

abbrev same_method : Method → Method → Bool
same_method get get = true
same_method post post = true
same_method put put = true
same_method delete delete = true
same_method _ _ = false

-- The first route of the method whose pattern matches.
unfoldable pub serve :
    (matches : String → String → Bool) → List Route → Method → String → Option String
serve matches [] method path = none
serve matches (r ∷ rs) method path =
    if same_method r.method method && matches r.path path
    then some (answer r.handler)
    else serve matches rs method path
