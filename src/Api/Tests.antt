-- ===== src/Api/Tests.antt =====
-- The theorems on the typed settings at concrete values.
use rsbtd.Base.{ℕ, inl, ◌≡◌, refl, arith, true, false, List, [], ◌∷◌, none, some}
use rsbtd.Settings.Int.{pos, negsuc}
use rsbtd.Settings.Texts.{codes}
use rsbtd.Settings.Enums.{EncLevel}
use rsbtd.Settings.Pack.{SettingsPack, Result, ok, err, merge, new_pack}
use rsbtd.Settings.Net.{allowed_enc_level, alert_mask}
use rsbtd.Settings.Net.Keys.{ct_set_alert_mask}
use rsbtd.Api.Input.{MaybeUndefined, SettingsError}
use rsbtd.Api.Scalar.{
  Scalar, ScalarSettings, ScalarSettingsInput, name_of, read_scalars, write_scalars,
}
use rsbtd.Api.Scalar.Kept.{AllFit, SameAt, member}
use rsbtd.Api.Catalog.{catalog}
use rsbtd.Api.Scalar.Kept
use rsbtd.Api.Catalog.RoundTrip.{catalog-read}
use rsbtd.Api.Groups.{SameOn}
use rsbtd.Api.Whole.Guarded.{write-blacklist}
use rsbtd.Api.Whole.Backing.{blacklist, keys_named, backing, all_keys}
use rsbtd.Api.Whole.Reach.{write-backing, read-backing}
use rsbtd.Api.Refusals.{
  is_ok, proper_proxy, proper_i2p, proper_encryption, write_proxy-proper, write_i2p-proper,
  write_encryption-proper,
}
use rsbtd.Api.RoundTrip.Proxy.{write_proxy-read}
use rsbtd.Api.RoundTrip.Lists.{write_listen_interfaces-read, write_dht_bootstrap_nodes-read}
use rsbtd.Api.RoundTrip.Ports.{write_outgoing_port_range-read}
use rsbtd.Api.Whole.{Settings, SettingsInput, read, write}
use rsbtd.Api.Whole.RoundTrip.{Fits, updated, write-read}
use rsbtd.Api.Agent.{UserAgent, no_agent}
use rsbtd.Api.Proxy.{ProxySettings, ProxyProtocol, read_proxy, write_proxy}
use rsbtd.Api.I2p.{I2pSettings, I2pTunnel, read_i2p, write_i2p, bare_hostname}
use rsbtd.Api.Encryption.{EncryptionSettings, forced, write_encryption}
use rsbtd.Api.Transports.{PortRange, write_outgoing_port_range, read_outgoing_port_range}
use rsbtd.Api.Modes.{
  IoReadMode, IoWriteMode, MmapWriteMode, SuggestMode, ChokingAlgorithm, SeedChokingAlgorithm,
  MixedModeAlgorithm,
}
use rsbtd.Api.Lists.{
  ListenInterface, HostPort, write_listen_interfaces, read_listen_interfaces,
  write_dht_bootstrap_nodes, read_dht_bootstrap_nodes,
}

-- The pack of an effective or a default configuration: every setting is there.
abbrev complete : SettingsPack
complete =
    allowed_enc_level EncLevel.pe_both
      (record { strs = λ k. some []; ints = λ k. some (pos 0); bools = λ k. some true })

abbrev nothing : (fs : List Scalar) → ScalarSettingsInput fs
nothing [] = tt
nothing (f ∷ fs) = (MaybeUndefined.undefined, nothing fs)

abbrev uniform : (fs : List Scalar) → ScalarSettings fs
uniform [] = tt
uniform (Scalar.str_field name set ∷ fs) = ([], uniform fs)
uniform (Scalar.checked_str name set ∷ fs) = ([], uniform fs)
uniform (Scalar.int_field name set ∷ fs) = (pos 0, uniform fs)
uniform (Scalar.checked_int name set ∷ fs) = (pos 0, uniform fs)
uniform (Scalar.dscp_field name set ∷ fs) = (pos 0, uniform fs)
uniform (Scalar.bool_field name set ∷ fs) = (true, uniform fs)
uniform (Scalar.u16_field name set ∷ fs) = (0, uniform fs)
uniform (Scalar.u8_field name set ∷ fs) = (0, uniform fs)

nothing-AllFit : (fs : List Scalar) → AllFit fs (nothing fs)
nothing-AllFit [] = tt
nothing-AllFit (Scalar.str_field name set ∷ fs) = (tt, nothing-AllFit fs)
nothing-AllFit (Scalar.checked_str name set ∷ fs) = (tt, nothing-AllFit fs)
nothing-AllFit (Scalar.int_field name set ∷ fs) = (tt, nothing-AllFit fs)
nothing-AllFit (Scalar.checked_int name set ∷ fs) = (tt, nothing-AllFit fs)
nothing-AllFit (Scalar.dscp_field name set ∷ fs) = (tt, nothing-AllFit fs)
nothing-AllFit (Scalar.bool_field name set ∷ fs) = (tt, nothing-AllFit fs)
nothing-AllFit (Scalar.u16_field name set ∷ fs) = (tt, nothing-AllFit fs)
nothing-AllFit (Scalar.u8_field name set ∷ fs) = (tt, nothing-AllFit fs)

abbrev before : Settings
before = record {
  scalars = uniform catalog;
  user_agent = no_agent;
  proxy = none;
  i2p = none;
  encryption = record {
    incoming = forced;
    outgoing = forced;
    methods = record { plaintext = true; rc4 = true };
    prefers_rc4 = true;
    announce_support = true;
  };
  peer_transports = record {
    tcp = record { incoming = true; outgoing = true };
    utp = record { incoming = true; outgoing = true };
  };
  outgoing_port_range = none;
  disk_io_cache = record {
    reading = IoReadMode.enable_os_cache;
    writing = IoWriteMode.enable_os_cache;
  };
  mmap_write_mode = MmapWriteMode.always_pwrite;
  suggest_mode = SuggestMode.no_suggestions;
  choking_algorithm = ChokingAlgorithm.fixed_slots;
  seed_choking_algorithm = SeedChokingAlgorithm.round_robin;
  mixed_mode_algorithm = MixedModeAlgorithm.prefer_tcp;
  outgoing_interfaces = [];
  listen_interfaces = [];
  dht_bootstrap_nodes = [];
}

abbrev tor : ProxySettings
tor = record {
  protocol = ProxyProtocol.socks5_password;
  hostname = codes "[::1]";
  port = 9050;
  username = codes "u";
  password = codes "p";
  resolve_hostnames = true;
  peer_connections = true;
  tracker_connections = false;
  socks5_udp_send_local_endpoint = true;
  send_hostname_in_connect = false;
}

abbrev tunnel : I2pTunnel
tunnel = record { tunnels = 3; hops = 2; hop_variance = negsuc 0 }

abbrev bridge : I2pSettings
bridge = record {
  hostname = codes "localhost";
  port = 7656;
  allow_mixed = true;
  inbound = tunnel;
  outbound = tunnel;
}

abbrev endpoints : List ListenInterface
endpoints =
    record { interface = codes "0.0.0.0"; port = 6881; ssl = false; local = false }
    ∷ record { interface = codes "[::1]"; port = 0; ssl = true; local = true }
    ∷ []

abbrev nodes : List HostPort
nodes = record { hostname = codes "dht.example"; port = 25401 } ∷ []

abbrev input : SettingsInput
input = record {
  scalars = nothing catalog;
  user_agent = MaybeUndefined.value UserAgent.rsbtd_agent;
  proxy = MaybeUndefined.value tor;
  i2p = MaybeUndefined.null;
  encryption = MaybeUndefined.undefined;
  peer_transports = MaybeUndefined.undefined;
  outgoing_port_range = MaybeUndefined.value (record { first = 1024; last = 65535 });
  disk_io_cache = MaybeUndefined.undefined;
  mmap_write_mode = MaybeUndefined.undefined;
  suggest_mode = MaybeUndefined.value SuggestMode.read_cache;
  choking_algorithm = MaybeUndefined.undefined;
  seed_choking_algorithm = MaybeUndefined.undefined;
  mixed_mode_algorithm = MaybeUndefined.undefined;
  outgoing_interfaces = MaybeUndefined.undefined;
  listen_interfaces = MaybeUndefined.value endpoints;
  dht_bootstrap_nodes = MaybeUndefined.value nodes;
}

abbrev staged : Result SettingsError SettingsPack → SettingsPack
staged (ok d) = d
staged (err e) = new_pack

abbrev written : SettingsPack
written = staged (write (codes "2.0.11") (codes "0.1") complete new_pack input)

accepted : write (codes "2.0.11") (codes "0.1") complete new_pack input ≡ ok written
unfolding write rsbtd.Api.Scalar.write_scalars rsbtd.Api.Scalar.write_scalar rsbtd.Api.Input.defined
    rsbtd.Api.Agent.write_user_agent rsbtd.Api.Proxy.write_proxy rsbtd.Api.Proxy.misused
    rsbtd.Settings.Net.Proxy.proxy rsbtd.Settings.Texts.strip_prefix
    rsbtd.Settings.Texts.strip_suffix rsbtd.Settings.Net.Proxy.no_stray
    rsbtd.Settings.Tokens.bare_host_token rsbtd.Settings.Tokens.ipv6_literal
    rsbtd.Settings.Ipv6.is_ipv6 rsbtd.Settings.Texts.Split.before rsbtd.Settings.Net.Proxy.wire
    rsbtd.Settings.Net.Proxy.credentials rsbtd.Api.I2p.write_i2p
    rsbtd.Api.Encryption.write_encryption rsbtd.Api.Lists.nodes_of
    rsbtd.Api.Lists.write_dht_bootstrap_nodes rsbtd.Api.Lists.write_listen_interfaces
    rsbtd.Api.Lists.write_outgoing_interfaces rsbtd.Api.Modes.write_choking_algorithm
    rsbtd.Api.Modes.write_disk_io_cache rsbtd.Api.Modes.write_mixed_mode_algorithm
    rsbtd.Api.Modes.write_mmap_write_mode rsbtd.Api.Modes.write_seed_choking_algorithm
    rsbtd.Api.Modes.write_suggest_mode rsbtd.Api.Transports.write_outgoing_port_range
    rsbtd.Api.Transports.write_peer_transports rsbtd.Settings.Connections.Interfaces.endpoint_texts
    rsbtd.Settings.Connections.Interfaces.listen_interfaces
    rsbtd.Settings.Connections.Ports.outgoing_ports rsbtd.Settings.Dht.Nodes.dht_bootstrap_nodes
    rsbtd.Settings.Dht.Nodes.node_texts rsbtd.Settings.Net.I2p.i2p rsbtd.Settings.Tokens.bracketed
    rsbtd.Settings.Tokens.host_token
accepted = refl

read-before : read (merge complete new_pack) ≡ ok before
unfolding read rsbtd.Api.Scalar.read_scalars rsbtd.Api.Scalar.scalar_get
    rsbtd.Api.Scalar.get_str_by_name rsbtd.Settings.Table.lt_setting
    rsbtd.Api.Scalar.get_bool_by_name rsbtd.Api.Scalar.get_int_by_name
    rsbtd.Settings.Connections.Interfaces.get_peer_dscp rsbtd.Api.Agent.read_user_agent read_proxy
    read_i2p rsbtd.Settings.Net.I2p.get_i2p rsbtd.Api.Encryption.read_encryption
    rsbtd.Api.Transports.read_peer_transports rsbtd.Api.Transports.read_outgoing_port_range
    rsbtd.Settings.Connections.Ports.get_outgoing_ports rsbtd.Api.Modes.read_disk_io_cache
    rsbtd.Api.Modes.read_mmap_write_mode rsbtd.Api.Agent.recognize rsbtd.Api.Input.sat_u16
    rsbtd.Api.Input.sat_u8 rsbtd.Api.Lists.read_dht_bootstrap_nodes
    rsbtd.Api.Lists.read_listen_interfaces rsbtd.Api.Lists.read_outgoing_interfaces
    rsbtd.Api.Modes.read_choking_algorithm rsbtd.Api.Modes.read_mixed_mode_algorithm
    rsbtd.Api.Modes.read_seed_choking_algorithm rsbtd.Api.Modes.read_suggest_mode
    rsbtd.Settings.Connections.Interfaces.get_listen_interfaces_parsed
    rsbtd.Settings.Connections.Interfaces.parse_entries
    rsbtd.Settings.Dht.Nodes.get_dht_bootstrap_nodes_parsed rsbtd.Settings.Texts.Split.split
read-before = refl

no_default_proxy : read_proxy complete ≡ ok none
unfolding read_proxy
no_default_proxy = refl

no_default_bridge : read_i2p complete ≡ ok none
unfolding read_i2p rsbtd.Settings.Net.I2p.get_i2p
no_default_bridge = refl

input-Fits : Fits (codes "2.0.11") (codes "0.1") complete input
input-Fits = (
  nothing-AllFit catalog,
  (
    tt,
    (
      omega arith,
      (
        tt,
        (
          tt,
          (
            tt,
            (
              omega arith,
              (
                tt,
                (
                  tt,
                  (
                    tt,
                    (
                      tt,
                      (tt, (tt, (tt, ((omega arith, (omega arith, tt)), ((omega arith, tt), tt))))),
                    ),
                  ),
                ),
              ),
            ),
          ),
        ),
      ),
    ),
  ),
)

write-read_example : read (merge complete written) ≡ ok (updated input before)
write-read_example =
    write-read (codes "2.0.11") (codes "0.1") complete input new_pack written complete before
      no_default_proxy no_default_bridge input-Fits accepted read-before

write-blacklist_example : SameOn (keys_named blacklist) new_pack written
write-blacklist_example =
    write-blacklist (codes "2.0.11") (codes "0.1") complete input new_pack written no_default_proxy
      no_default_bridge accepted

-- One scalar field is given.
abbrev address : ScalarSettingsInput catalog
address = (MaybeUndefined.value (codes "10.0.0.1"), (nothing catalog).1)

abbrev addressed : SettingsPack
addressed = staged (write_scalars catalog address new_pack)

address-accepted : write_scalars catalog address new_pack ≡ ok addressed
unfolding write_scalars rsbtd.Api.Scalar.write_scalar rsbtd.Api.Input.defined
    rsbtd.Api.Scalar.scalar_set
address-accepted = refl

scalars-before : read_scalars catalog (merge complete new_pack) ≡ ok (uniform catalog)
unfolding read_scalars rsbtd.Api.Scalar.scalar_get rsbtd.Api.Scalar.get_str_by_name
    rsbtd.Settings.Table.lt_setting rsbtd.Api.Scalar.get_bool_by_name
    rsbtd.Api.Scalar.get_int_by_name rsbtd.Settings.Connections.Interfaces.get_peer_dscp
    rsbtd.Api.Input.sat_u16 rsbtd.Api.Input.sat_u8
scalars-before = refl

catalog-read_example :
    read_scalars catalog (merge complete addressed)
    ≡ ok (Kept.overlay catalog address (uniform catalog))
catalog-read_example =
    catalog-read address new_pack addressed complete (uniform catalog)
      (tt, (nothing-AllFit catalog).1) address-accepted scalars-before

write_proxy-proper_example :
    is_ok (write_proxy complete (MaybeUndefined.value tor) new_pack) ≡ proper_proxy tor
write_proxy-proper_example = write_proxy-proper complete tor new_pack

abbrev bridge_v6 : I2pSettings
bridge_v6 = record bridge { hostname = codes "[::1]" }

write_i2p-proper_example :
    is_ok (write_i2p complete (MaybeUndefined.value bridge_v6) new_pack)
    ≡ proper_i2p (codes "::1") bridge_v6
write_i2p-proper_example = write_i2p-proper complete bridge_v6 new_pack (codes "::1") (inl refl)

abbrev plain_only : EncryptionSettings
plain_only = record {
  incoming = forced;
  outgoing = forced;
  methods = record { plaintext = true; rc4 = false };
  prefers_rc4 = true;
  announce_support = true;
}

write_encryption-proper_example :
    is_ok (write_encryption (MaybeUndefined.value plain_only) new_pack)
    ≡ proper_encryption plain_only
write_encryption-proper_example = write_encryption-proper plain_only new_pack

abbrev proxied : SettingsPack
proxied = staged (write_proxy complete (MaybeUndefined.value tor) new_pack)

tor-accepted : write_proxy complete (MaybeUndefined.value tor) new_pack ≡ ok proxied
unfolding rsbtd.Api.Proxy.write_proxy rsbtd.Api.Proxy.misused rsbtd.Settings.Net.Proxy.proxy
    rsbtd.Settings.Texts.strip_prefix rsbtd.Settings.Texts.strip_suffix
    rsbtd.Settings.Net.Proxy.no_stray rsbtd.Settings.Tokens.bare_host_token
    rsbtd.Settings.Tokens.ipv6_literal rsbtd.Settings.Ipv6.is_ipv6 rsbtd.Settings.Texts.Split.before
    rsbtd.Settings.Net.Proxy.wire rsbtd.Settings.Net.Proxy.credentials
tor-accepted = refl

write_proxy-read_example :
    read_proxy (merge complete proxied)
    ≡ ok (some (record tor { hostname = bare_hostname tor.hostname }))
write_proxy-read_example =
    write_proxy-read complete tor new_pack proxied complete (omega arith) tor-accepted

abbrev listening : SettingsPack
listening = staged (write_listen_interfaces (MaybeUndefined.value endpoints) new_pack)

endpoints-accepted :
    write_listen_interfaces (MaybeUndefined.value endpoints) new_pack ≡ ok listening
unfolding write_listen_interfaces rsbtd.Api.Input.defined
    rsbtd.Settings.Connections.Interfaces.listen_interfaces
    rsbtd.Settings.Connections.Interfaces.endpoint_texts rsbtd.Settings.Tokens.host_token
    rsbtd.Settings.Tokens.bracketed rsbtd.Settings.Texts.strip_prefix
    rsbtd.Settings.Texts.strip_suffix rsbtd.Settings.Tokens.ipv6_literal rsbtd.Settings.Ipv6.is_ipv6
    rsbtd.Settings.Texts.Split.before
endpoints-accepted = refl

write_listen_interfaces-read_example :
    read_listen_interfaces (merge complete listening) ≡ ok endpoints
write_listen_interfaces-read_example =
    write_listen_interfaces-read endpoints new_pack listening complete
      (omega arith, (omega arith, tt)) endpoints-accepted

abbrev bootstrapped : SettingsPack
bootstrapped = staged (write_dht_bootstrap_nodes (MaybeUndefined.value nodes) new_pack)

nodes-accepted : write_dht_bootstrap_nodes (MaybeUndefined.value nodes) new_pack ≡ ok bootstrapped
unfolding write_dht_bootstrap_nodes rsbtd.Api.Input.defined rsbtd.Api.Lists.nodes_of
    rsbtd.Settings.Dht.Nodes.dht_bootstrap_nodes rsbtd.Settings.Dht.Nodes.node_texts
    rsbtd.Settings.Tokens.host_token rsbtd.Settings.Tokens.bracketed
    rsbtd.Settings.Texts.strip_prefix
nodes-accepted = refl

write_dht_bootstrap_nodes-read_example :
    read_dht_bootstrap_nodes (merge complete bootstrapped) ≡ ok nodes
write_dht_bootstrap_nodes-read_example =
    write_dht_bootstrap_nodes-read nodes new_pack bootstrapped complete (omega arith, tt)
      nodes-accepted

abbrev high_ports : PortRange
high_ports = record { first = 49152; last = 65535 }

abbrev ranged_pack : SettingsPack
ranged_pack = staged (write_outgoing_port_range (MaybeUndefined.value high_ports) new_pack)

range-accepted :
    write_outgoing_port_range (MaybeUndefined.value high_ports) new_pack ≡ ok ranged_pack
unfolding write_outgoing_port_range rsbtd.Settings.Connections.Ports.outgoing_ports
range-accepted = refl

write_outgoing_port_range-read_example :
    read_outgoing_port_range (merge complete ranged_pack) ≡ ok (some high_ports)
write_outgoing_port_range-read_example =
    write_outgoing_port_range-read high_ports new_pack ranged_pack complete (omega arith)
      range-accepted

-- The delta with another alert mask, a setting that the interface hides.
abbrev masked : SettingsPack
masked = alert_mask (pos 7) new_pack

masked-SameOn : (js : List ℕ) → member ct_set_alert_mask js ≡ false → SameOn js new_pack masked
masked-SameOn [] h = tt
masked-SameOn (j ∷ js) h = ((refl, ground (arith, h), refl), masked-SameOn js (ground (arith, h)))

mask_hidden : member ct_set_alert_mask (all_keys backing) ≡ false
unfolding rsbtd.Settings.Table.lt_setting
mask_hidden = refl

write-backing_example : SameAt ct_set_alert_mask new_pack written
write-backing_example =
    write-backing (codes "2.0.11") (codes "0.1") complete input new_pack written ct_set_alert_mask
      no_default_proxy no_default_bridge accepted mask_hidden

read-backing_example : read (merge complete masked) ≡ ok before
read-backing_example =
    read-backing (codes "2.0.11") (codes "0.1") complete new_pack masked complete before
      no_default_proxy no_default_bridge (masked-SameOn (all_keys backing) mask_hidden) read-before
