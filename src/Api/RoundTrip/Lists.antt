-- ===== src/Api/RoundTrip/Lists.antt =====
-- The interfaces and the DHT bootstrap nodes.
use rsbtd.Base.{ℕ, ◌≡◌, ◌≤◌, refl, sym, ap, ◌∙◌, arith, false, List, [], ◌∷◌, some, map, All, subst}
use rsbtd.Events.{Text}
use rsbtd.Settings.Texts.{is_empty}
use rsbtd.Settings.Texts.Split.{Lacks, join, split-join}
use rsbtd.Settings.Tokens.{host_token, bare_host_token}
use rsbtd.Settings.Pack.{SettingsPack, ok, merge, set_str}
use rsbtd.Settings.Connections.Interfaces.{
  ListenEndpoint, endpoint_text, endpoint_texts, parse_endpoint, listen_interfaces,
  get_listen_interfaces_parsed, check_entries, outgoing_interfaces,
}
use rsbtd.Settings.Connections.Keys.{ct_set_listen_interfaces, ct_set_outgoing_interfaces}
use rsbtd.Settings.Dht.Keys.{ct_set_dht_bootstrap_nodes}
use rsbtd.Settings.Dht.Nodes
use rsbtd.Settings.Dht.Nodes.{
  node_text, node_texts, parse_node, dht_bootstrap_nodes, get_dht_bootstrap_nodes_parsed,
}
use rsbtd.Api.Input.{value, rb_err, defined, port_for}
use rsbtd.Api.Lists.{
  ListenInterface, HostPort, endpoint_of, interface_of, host_port_of, write_listen_interfaces,
  read_listen_interfaces, write_outgoing_interfaces, read_outgoing_interfaces,
  write_dht_bootstrap_nodes, read_dht_bootstrap_nodes, nodes_of,
}
use rsbtd.Api.RoundTrip.{bind-ok, map_err-ok, ok-injective}
use rsbtd.Api.RoundTrip.Entries.{
  Readable, parsed-joined, host_token-Lacks, bare_host_token-Lacks, bare_host_token-filled,
  endpoint_text-Lacks, endpoint_text-filled, parse_endpoint-text, node_text-Lacks, node_text-filled,
  parse_node-text,
}

endpoint_texts-Readable :
    (es : List ListenEndpoint) (parts : List Text)
    → All (λ e. e.port ≤ 65535) es
    → endpoint_texts es ≡ ok parts
    → (parts ≡ map endpoint_text es) × All (Readable endpoint_text parse_endpoint) es
unfolding endpoint_texts
endpoint_texts-Readable [] parts bounds h = (cc h, tt)
endpoint_texts-Readable (e ∷ es) parts bounds h =
    let (u, eu, h1) = bind-ok (host_token "listen_interfaces" "address" e.addr) _ parts h in
    let (rest, er, h2) = bind-ok (endpoint_texts es) _ parts h1 in
    let (same, readable) = endpoint_texts-Readable es rest bounds.1 er in
    (
      cc (h2, same),
      (
        (
          endpoint_text-Lacks e (host_token-Lacks "listen_interfaces" "address" e.addr eu),
          endpoint_text-filled e,
          parse_endpoint-text e bounds.0,
        ),
        readable,
      ),
    )

endpoints-back : (list : List ListenInterface) → map interface_of (map endpoint_of list) ≡ list
endpoints-back [] = refl
endpoints-back (i ∷ list) = ap (λ l. i ∷ l) (endpoints-back list)

endpoints-bounds :
    (list : List ListenInterface)
    → All (λ i. i.port ≤ 65535) list
    → All (λ e. e.port ≤ 65535) (map endpoint_of list)
endpoints-bounds [] h = tt
endpoints-bounds (i ∷ list) h = (h.0, endpoints-bounds list h.1)

listen_interfaces-parsed :
    (es : List ListenEndpoint) (delta d effective : SettingsPack)
    → All (λ e. e.port ≤ 65535) es
    → listen_interfaces es delta ≡ ok d
    → get_listen_interfaces_parsed (merge effective d) ≡ some es
unfolding listen_interfaces get_listen_interfaces_parsed
listen_interfaces-parsed es delta d effective bounds h =
    let (parts, ep, h1) = bind-ok (endpoint_texts es) _ d h in
    let (same, readable) = endpoint_texts-Readable es parts bounds ep in
    subst (λ q. get_listen_interfaces_parsed (merge effective q) ≡ some es)
      (ap (λ l. set_str ct_set_listen_interfaces (join b',' l) delta) (sym same)
        ∙ ok-injective _ d h1)
      (parsed-joined endpoint_text parse_endpoint es readable)

-- A list of endpoints to listen on that is taken, with ports of 16 bits, is what is read from any
-- effective pack with the delta applied: the printed text is parsed to the same list, the empty
-- one included.
pub write_listen_interfaces-read :
    (list : List ListenInterface) (delta d effective : SettingsPack)
    → All (λ i. i.port ≤ 65535) list
    → write_listen_interfaces (value list) delta ≡ ok d
    → read_listen_interfaces (merge effective d) ≡ ok list
unfolding write_listen_interfaces read_listen_interfaces defined
write_listen_interfaces-read list delta d effective bounds h =
    rw
      (listen_interfaces-parsed (map endpoint_of list) delta d effective
        (endpoints-bounds list bounds) (map_err-ok (rb_err "listen_interfaces") _ d h))
      (ap ok (endpoints-back list))

check_entries-Readable :
    (entries : List Text)
    → check_entries entries ≡ ok tt
    → All (Lacks b',') entries × All (λ e. is_empty e ≡ false) entries
unfolding check_entries
check_entries-Readable [] h = (tt, tt)
check_entries-Readable (e ∷ entries) h =
    let (u, eu, h1) = bind-ok (bare_host_token "outgoing_interfaces" "entry" e) _ tt h in
    let (lacks, full) = check_entries-Readable entries h1 in
    (
      (bare_host_token-Lacks "outgoing_interfaces" "entry" e eu, lacks),
      (bare_host_token-filled "outgoing_interfaces" "entry" e eu, full),
    )

-- The joined entries are empty only when there are none.
joined-filled :
    (e : Text) (entries : List Text)
    → is_empty e ≡ false
    → is_empty (join b',' (e ∷ entries)) ≡ false
unfolding join
joined-filled e [] h = h
joined-filled [] (f ∷ entries) h = absurd (cc h)
joined-filled (c ∷ e) (f ∷ entries) h = refl

interfaces-read :
    (entries : List Text) (delta effective : SettingsPack)
    → All (Lacks b',') entries
    → All (λ e. is_empty e ≡ false) entries
    → read_outgoing_interfaces
        (merge effective (set_str ct_set_outgoing_interfaces (join b',' entries) delta))
      ≡ ok entries
unfolding read_outgoing_interfaces join
interfaces-read [] delta effective lacks full = refl
interfaces-read (e ∷ entries) delta effective lacks full =
    rw (joined-filled e entries full.0, split-join b',' e entries lacks) refl

pub write_outgoing_interfaces-read :
    (entries : List Text) (delta d effective : SettingsPack)
    → write_outgoing_interfaces (value entries) delta ≡ ok d
    → read_outgoing_interfaces (merge effective d) ≡ ok entries
unfolding write_outgoing_interfaces defined outgoing_interfaces
write_outgoing_interfaces-read entries delta d effective h =
    let (u, eu, h1) =
      bind-ok (check_entries entries) _ d (map_err-ok (rb_err "outgoing_interfaces") _ d h) in
    let (lacks, full) = check_entries-Readable entries eu in
    subst (λ q. read_outgoing_interfaces (merge effective q) ≡ ok entries) (ok-injective _ d h1)
      (interfaces-read entries delta effective lacks full)

node_texts-Readable :
    (ns : List Nodes.HostPort) (parts : List Text)
    → All (λ n. (1 ≤ n.port) × (n.port ≤ 65535)) ns
    → node_texts ns ≡ ok parts
    → (parts ≡ map node_text ns) × All (Readable node_text parse_node) ns
unfolding node_texts
node_texts-Readable [] parts bounds h = (cc h, tt)
node_texts-Readable (n ∷ ns) parts bounds h =
    let (u, eu, h1) = bind-ok (host_token "dht_bootstrap_nodes" "hostname" n.host) _ parts h in
    let (rest, er, h2) = bind-ok (node_texts ns) _ parts h1 in
    let (same, readable) = node_texts-Readable ns rest bounds.1 er in
    (
      cc (h2, same),
      (
        (
          node_text-Lacks n (host_token-Lacks "dht_bootstrap_nodes" "hostname" n.host eu),
          node_text-filled n,
          parse_node-text n bounds.0.0 bounds.0.1,
        ),
        readable,
      ),
    )

port_for-ok : (n port : ℕ) → port_for "dhtBootstrapNodes.port" n ≡ ok port → (port ≡ n) × (1 ≤ port)
port_for-ok n port h = (ground (arith, h), ground (arith, h))

nodes_of-ok :
    (list : List HostPort) (ns : List Nodes.HostPort)
    → All (λ n. n.port ≤ 65535) list
    → nodes_of list ≡ ok ns
    → (map host_port_of ns ≡ list) × All (λ n. (1 ≤ n.port) × (n.port ≤ 65535)) ns
unfolding nodes_of
nodes_of-ok [] [] bounds h = (refl, tt)
nodes_of-ok [] (n ∷ ns) bounds h = absurd (cc h)
nodes_of-ok (n ∷ list) ns bounds h =
    let (port, ep, h1) = bind-ok (port_for "dhtBootstrapNodes.port" n.port) _ ns h in
    let (rest, er, h2) = bind-ok (nodes_of list) _ ns h1 in
    let (back, fine) = nodes_of-ok list rest bounds.1 er in
    let (same, positive) = port_for-ok n.port port ep in
    subst (λ m. (map host_port_of m ≡ n ∷ list) × All (λ k. (1 ≤ k.port) × (k.port ≤ 65535)) m)
      (ok-injective _ ns h2) (cc (same, back), ((positive, ground (arith, same, bounds.0)), fine))

nodes-parsed :
    (ns : List Nodes.HostPort) (delta d effective : SettingsPack)
    → All (λ n. (1 ≤ n.port) × (n.port ≤ 65535)) ns
    → dht_bootstrap_nodes ns delta ≡ ok d
    → get_dht_bootstrap_nodes_parsed (merge effective d) ≡ some ns
unfolding dht_bootstrap_nodes get_dht_bootstrap_nodes_parsed
nodes-parsed ns delta d effective bounds h =
    let (parts, ep, h1) = bind-ok (node_texts ns) _ d h in
    let (same, readable) = node_texts-Readable ns parts bounds ep in
    subst (λ q. get_dht_bootstrap_nodes_parsed (merge effective q) ≡ some ns)
      (ap (λ l. set_str ct_set_dht_bootstrap_nodes (join b',' l) delta) (sym same)
        ∙ ok-injective _ d h1)
      (parsed-joined node_text parse_node ns readable)

-- A list of DHT bootstrap nodes that is taken, with ports of 16 bits, is what is read from any
-- effective pack with the delta applied, the empty one included.
pub write_dht_bootstrap_nodes-read :
    (list : List HostPort) (delta d effective : SettingsPack)
    → All (λ n. n.port ≤ 65535) list
    → write_dht_bootstrap_nodes (value list) delta ≡ ok d
    → read_dht_bootstrap_nodes (merge effective d) ≡ ok list
unfolding write_dht_bootstrap_nodes read_dht_bootstrap_nodes defined
write_dht_bootstrap_nodes-read list delta d effective bounds h =
    let (ns, en, h1) = bind-ok (nodes_of list) _ d h in
    let (back, fine) = nodes_of-ok list ns bounds en in
    rw (nodes-parsed ns delta d effective fine (map_err-ok (rb_err "dht_bootstrap_nodes") _ d h1))
      (ap ok back)
