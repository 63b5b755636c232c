-- ===== src/Api/Lists.antt =====
-- The list settings of rsbtd/src/api/settings/structured.rs: interfaces to bind, endpoints to listen on, DHT
-- bootstrap nodes.
use rsbtd.Base.{ℕ, Bool, List, [], ◌∷◌, Option, none, some, map, if◌then◌else◌}
use rsbtd.Events.{Text}
use rsbtd.Settings.Texts.{is_empty}
use rsbtd.Settings.Texts.Split.{split}
use rsbtd.Settings.Pack.{SettingsPack, Result, ok, err, map_err, ◌>>=◌}
use rsbtd.Settings.Connections.{get_outgoing_interfaces}
use rsbtd.Settings.Connections.Interfaces.{
  ListenEndpoint, outgoing_interfaces, listen_interfaces, get_listen_interfaces_parsed,
}
use rsbtd.Settings.Dht.Nodes
use rsbtd.Settings.Dht.Nodes.{dht_bootstrap_nodes, get_dht_bootstrap_nodes_parsed}
use rsbtd.Api.Input.{SettingsError, MaybeUndefined, defined, present, rb_err, port_for, unparsable}

unfoldable pub read_outgoing_interfaces : SettingsPack → Result SettingsError (List Text)
read_outgoing_interfaces pack = do
  raw ← present "outgoing_interfaces" (get_outgoing_interfaces pack)
  ok (if is_empty raw then [] else split b',' raw)

-- The value goes to a setter that may refuse it.
abbrev pub write_checked :
    {A : Type 0}
    → (A → SettingsPack → Result SettingsError SettingsPack)
    → Option A
    → SettingsPack
    → Result SettingsError SettingsPack
write_checked setter none delta = ok delta
write_checked setter (some a) delta = setter a delta

unfoldable pub write_outgoing_interfaces :
    MaybeUndefined (List Text) → SettingsPack → Result SettingsError SettingsPack
write_outgoing_interfaces input delta = do
  list ← defined "outgoing_interfaces" input
  write_checked (λ l d. map_err (rb_err "outgoing_interfaces") (outgoing_interfaces l d)) list delta

pub record ListenInterface : Type 0 where
  pub interface : Text
  pub port : ℕ
  pub ssl : Bool
  pub local : Bool

abbrev pub interface_of : ListenEndpoint → ListenInterface
interface_of e = record { interface = e.addr; port = e.port; ssl = e.ssl; local = e.local }

abbrev pub endpoint_of : ListenInterface → ListenEndpoint
endpoint_of e = record { addr = e.interface; port = e.port; ssl = e.ssl; local = e.local }

abbrev read_endpoints : Option (List ListenEndpoint) → Result SettingsError (List ListenInterface)
read_endpoints none = err (unparsable "listenInterfaces")
read_endpoints (some list) = ok (map interface_of list)

unfoldable pub read_listen_interfaces : SettingsPack → Result SettingsError (List ListenInterface)
read_listen_interfaces pack = read_endpoints (get_listen_interfaces_parsed pack)

unfoldable pub write_listen_interfaces :
    MaybeUndefined (List ListenInterface) → SettingsPack → Result SettingsError SettingsPack
write_listen_interfaces input delta = do
  list ← defined "listen_interfaces" input
  write_checked
      (λ l d. map_err (rb_err "listen_interfaces") (listen_interfaces (map endpoint_of l) d)) list
      delta

pub record HostPort : Type 0 where
  pub hostname : Text
  pub port : ℕ

abbrev pub host_port_of : Nodes.HostPort → HostPort
host_port_of n = record { hostname = n.host; port = n.port }

abbrev read_nodes : Option (List Nodes.HostPort) → Result SettingsError (List HostPort)
read_nodes none = err (unparsable "dhtBootstrapNodes")
read_nodes (some list) = ok (map host_port_of list)

unfoldable pub read_dht_bootstrap_nodes : SettingsPack → Result SettingsError (List HostPort)
read_dht_bootstrap_nodes pack = read_nodes (get_dht_bootstrap_nodes_parsed pack)

-- The first port that is 0 is the error.
unfoldable pub nodes_of : List HostPort → Result SettingsError (List Nodes.HostPort)
nodes_of [] = ok []
nodes_of (n ∷ ns) = do
  port ← port_for "dhtBootstrapNodes.port" n.port
  nodes ← nodes_of ns
  ok ((record { host = n.hostname; port = port }) ∷ nodes)

unfoldable pub write_dht_bootstrap_nodes :
    MaybeUndefined (List HostPort) → SettingsPack → Result SettingsError SettingsPack
write_dht_bootstrap_nodes input delta = do
  list ← defined "dht_bootstrap_nodes" input
  write_checked
      (λ l d. nodes_of l >>= λ nodes.
        map_err (rb_err "dht_bootstrap_nodes") (dht_bootstrap_nodes nodes d))
      list delta
