-- ===== src/Settings/Dht/Nodes.antt =====
-- `dht_bootstrap_nodes` and `get_dht_bootstrap_nodes_parsed` of rbtorrent/src/settings/dht.rs.
-- A port is a number; `NonZeroU16` refuses 0 when it is parsed.
use rsbtd.Base.{ℕ, List, [], ◌∷◌, ◌++◌, Option, some}
use rsbtd.Events.{Text}
use rsbtd.Settings.Int.{non_zero}
use rsbtd.Settings.Texts.Split.{split, join, rsplit_once}
use rsbtd.Settings.Texts.Decimal.{format, parse_u16}
use rsbtd.Settings.Tokens.{host_token}
use rsbtd.Settings.Pack.{SettingsPack, SettingsError, Result, ok, set_str, ◌>>=◌, ◌>>=?◌}
use rsbtd.Settings.Connections.Interfaces.{parse_entries}
use rsbtd.Settings.Dht.{get_dht_bootstrap_nodes}
use rsbtd.Settings.Dht.Keys.{ct_set_dht_bootstrap_nodes}

pub record HostPort : Type 0 where
  pub host : Text
  pub port : ℕ

unfoldable pub node_text : HostPort → Text
node_text node = node.host ++ b':' ∷ format node.port

unfoldable pub node_texts : List HostPort → Result SettingsError (List Text)
node_texts [] = ok []
node_texts (node ∷ nodes) = do
  u ← host_token "dht_bootstrap_nodes" "hostname" node.host
  parts ← node_texts nodes
  ok (node_text node ∷ parts)

unfoldable pub dht_bootstrap_nodes :
    List HostPort → SettingsPack → Result SettingsError SettingsPack
dht_bootstrap_nodes nodes pack = do
  parts ← node_texts nodes
  ok (set_str ct_set_dht_bootstrap_nodes (join b',' parts) pack)

abbrev pub node_from : Text × Text → Option HostPort
node_from (host, port) =
    parse_u16 port >>=? non_zero >>=? λ n. some (record { host = host; port = n })

unfoldable pub parse_node : Text → Option HostPort
parse_node entry = rsplit_once b':' entry >>=? node_from

unfoldable pub get_dht_bootstrap_nodes_parsed : SettingsPack → Option (List HostPort)
get_dht_bootstrap_nodes_parsed pack =
    get_dht_bootstrap_nodes pack >>=? λ raw. parse_entries parse_node (split b',' raw)
