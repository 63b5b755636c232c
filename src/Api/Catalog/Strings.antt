-- ===== src/Api/Catalog/Strings.antt =====
-- The text fields of `scalar_settings!` of rsbtd/src/api/settings/catalog.rs.
use rsbtd.Base.{List, [], ◌∷◌}
use rsbtd.Settings.Connections.Interfaces.{peer_fingerprint}
use rsbtd.Settings.Dht.{natpmp_gateway}
use rsbtd.Settings.Tracker.{announce_ip, handshake_client_version}
use rsbtd.Api.Scalar.{Scalar, checked_str, str_field}

abbrev pub string_fields : List Scalar
string_fields =
    str_field "announce_ip" announce_ip
    ∷ str_field "handshake_client_version" handshake_client_version
    ∷ checked_str "peer_fingerprint" peer_fingerprint
    ∷ str_field "natpmp_gateway" natpmp_gateway
    ∷ []
