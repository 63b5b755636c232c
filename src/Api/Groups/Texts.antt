-- ===== src/Api/Groups/Texts.antt =====
-- The groups of `SettingsInput` with texts, and the scalar settings, with their laws.
use rsbtd.Base.{ℕ, ◌≡◌, ◌≤◌, refl, arith, false, List, [], ◌∷◌, ◌==◌, All, map}
use rsbtd.Events.{Text}
use rsbtd.Settings.Pack.{SettingsPack, ok, set_str}
use rsbtd.Api.Input.{MaybeUndefined, defined, rb_err}
use rsbtd.Api.Scalar.Kept.{SameAt, member}
use rsbtd.Api.Groups.{Group, Lawful}
use rsbtd.Api.RoundTrip.{bind-ok, map_err-ok, ok-injective}
use rsbtd.Api.Groups.Parts.{plain, plain-back}
use rsbtd.Settings.Tracker.Keys.{ct_set_user_agent}
use rsbtd.Settings.Connections.Keys.{ct_set_outgoing_interfaces, ct_set_listen_interfaces}
use rsbtd.Settings.Dht.Keys.{ct_set_dht_bootstrap_nodes}
use rsbtd.Settings.Connections.Interfaces.{
  outgoing_interfaces, check_entries, listen_interfaces, endpoint_texts,
  get_listen_interfaces_parsed,
}
use rsbtd.Settings.Dht.Nodes.{dht_bootstrap_nodes, node_texts, get_dht_bootstrap_nodes_parsed}
use rsbtd.Api.Agent.{UserAgent, read_user_agent, write_user_agent}
use rsbtd.Api.Lists.{
  ListenInterface, HostPort, endpoint_of, read_outgoing_interfaces, write_outgoing_interfaces,
  read_listen_interfaces, write_listen_interfaces, read_dht_bootstrap_nodes,
  write_dht_bootstrap_nodes, nodes_of,
}
use rsbtd.Api.RoundTrip.Ports.{write_user_agent-read}
use rsbtd.Api.RoundTrip.Lists.{
  write_outgoing_interfaces-read, write_listen_interfaces-read, write_dht_bootstrap_nodes-read,
}

module _ (libtorrent_version package_version : Text) where
  abbrev pub user_agent : Group
  user_agent =
      plain UserAgent (ct_set_user_agent ∷ []) read_user_agent
        (write_user_agent libtorrent_version package_version) (λ v. Unit)

  user_agent-frame :
      (x : MaybeUndefined UserAgent) (p q : SettingsPack) (j : ℕ)
      → member j user_agent.keys ≡ false
      → write_user_agent libtorrent_version package_version x p ≡ ok q
      → SameAt j p q
  unfolding write_user_agent defined
  user_agent-frame x p q j other h = ground (arith, other, h)

  pub user_agent-Lawful : Lawful user_agent
  unfolding read_user_agent write_user_agent defined
  user_agent-Lawful = record {
    frame = user_agent-frame;
    local = λ p q effective same. ground (arith, same);
    back =
        plain-back read_user_agent (write_user_agent libtorrent_version package_version) (λ v. Unit)
          (λ p q h. cc h) (λ p q h. absurd (cc h))
          (λ v p q effective fits h.
            write_user_agent-read libtorrent_version package_version v p q effective h);
  }

-- A text put under a key changes nothing else.
put-SameAt :
    (key : ℕ) (v : Text) (p q : SettingsPack) (j : ℕ)
    → (j == key) ≡ false
    → set_str key v p ≡ q
    → SameAt j p q
put-SameAt key v p q j other h = ground (arith, other, h)

only_key : (j key : ℕ) → member j (key ∷ []) ≡ false → (j == key) ≡ false
only_key j key h = ground (arith, h)

abbrev pub outgoing_interfaces_group : Group
outgoing_interfaces_group =
    plain (List Text) (ct_set_outgoing_interfaces ∷ []) read_outgoing_interfaces
      write_outgoing_interfaces (λ v. Unit)

outgoing_interfaces-frame :
    (x : MaybeUndefined (List Text)) (p q : SettingsPack) (j : ℕ)
    → member j outgoing_interfaces_group.keys ≡ false
    → write_outgoing_interfaces x p ≡ ok q
    → SameAt j p q
unfolding write_outgoing_interfaces defined outgoing_interfaces
outgoing_interfaces-frame MaybeUndefined.undefined p q j other h = (cc h, cc h, cc h)
outgoing_interfaces-frame MaybeUndefined.null p q j other h = absurd (cc h)
outgoing_interfaces-frame (MaybeUndefined.value l) p q j other h =
    let (u, eu, h1) =
      bind-ok (check_entries l) _ q (map_err-ok (rb_err "outgoing_interfaces") _ q h) in
    put-SameAt ct_set_outgoing_interfaces _ p q j (only_key j ct_set_outgoing_interfaces other)
      (ok-injective _ q h1)

pub outgoing_interfaces-Lawful : Lawful outgoing_interfaces_group
unfolding read_outgoing_interfaces write_outgoing_interfaces defined
outgoing_interfaces-Lawful = record {
  frame = outgoing_interfaces-frame;
  local = λ p q effective same. rw (same.0.0) refl;
  back =
      plain-back read_outgoing_interfaces write_outgoing_interfaces (λ v. Unit) (λ p q h. cc h)
        (λ p q h. absurd (cc h))
        (λ l p q effective fits h. write_outgoing_interfaces-read l p q effective h);
}

abbrev pub listen_interfaces_group : Group
listen_interfaces_group =
    plain (List ListenInterface) (ct_set_listen_interfaces ∷ []) read_listen_interfaces
      write_listen_interfaces (λ l. All (λ i. i.port ≤ 65535) l)

listen_interfaces-frame :
    (x : MaybeUndefined (List ListenInterface)) (p q : SettingsPack) (j : ℕ)
    → member j listen_interfaces_group.keys ≡ false
    → write_listen_interfaces x p ≡ ok q
    → SameAt j p q
unfolding write_listen_interfaces defined listen_interfaces
listen_interfaces-frame MaybeUndefined.undefined p q j other h = (cc h, cc h, cc h)
listen_interfaces-frame MaybeUndefined.null p q j other h = absurd (cc h)
listen_interfaces-frame (MaybeUndefined.value l) p q j other h =
    let (u, eu, h1) =
      bind-ok (endpoint_texts (map endpoint_of l)) _ q
        (map_err-ok (rb_err "listen_interfaces") _ q h) in
    put-SameAt ct_set_listen_interfaces _ p q j (only_key j ct_set_listen_interfaces other)
      (ok-injective _ q h1)

pub listen_interfaces-Lawful : Lawful listen_interfaces_group
unfolding read_listen_interfaces write_listen_interfaces defined get_listen_interfaces_parsed
listen_interfaces-Lawful = record {
  frame = listen_interfaces-frame;
  local = λ p q effective same. rw (same.0.0) refl;
  back =
      plain-back read_listen_interfaces write_listen_interfaces (λ l. All (λ i. i.port ≤ 65535) l)
        (λ p q h. cc h) (λ p q h. absurd (cc h))
        (λ l p q effective fits h. write_listen_interfaces-read l p q effective fits h);
}

abbrev pub dht_bootstrap_nodes_group : Group
dht_bootstrap_nodes_group =
    plain (List HostPort) (ct_set_dht_bootstrap_nodes ∷ []) read_dht_bootstrap_nodes
      write_dht_bootstrap_nodes (λ l. All (λ n. n.port ≤ 65535) l)

dht_bootstrap_nodes-frame :
    (x : MaybeUndefined (List HostPort)) (p q : SettingsPack) (j : ℕ)
    → member j dht_bootstrap_nodes_group.keys ≡ false
    → write_dht_bootstrap_nodes x p ≡ ok q
    → SameAt j p q
unfolding write_dht_bootstrap_nodes defined dht_bootstrap_nodes
dht_bootstrap_nodes-frame MaybeUndefined.undefined p q j other h = (cc h, cc h, cc h)
dht_bootstrap_nodes-frame MaybeUndefined.null p q j other h = absurd (cc h)
dht_bootstrap_nodes-frame (MaybeUndefined.value l) p q j other h =
    let (ns, en, h1) = bind-ok (nodes_of l) _ q h in
    let (u, eu, h2) =
      bind-ok (node_texts ns) _ q (map_err-ok (rb_err "dht_bootstrap_nodes") _ q h1) in
    put-SameAt ct_set_dht_bootstrap_nodes _ p q j (only_key j ct_set_dht_bootstrap_nodes other)
      (ok-injective _ q h2)

pub dht_bootstrap_nodes-Lawful : Lawful dht_bootstrap_nodes_group
unfolding read_dht_bootstrap_nodes write_dht_bootstrap_nodes defined get_dht_bootstrap_nodes_parsed
dht_bootstrap_nodes-Lawful = record {
  frame = dht_bootstrap_nodes-frame;
  local = λ p q effective same. rw (same.0.0) refl;
  back =
      plain-back read_dht_bootstrap_nodes write_dht_bootstrap_nodes
        (λ l. All (λ n. n.port ≤ 65535) l) (λ p q h. cc h) (λ p q h. absurd (cc h))
        (λ l p q effective fits h. write_dht_bootstrap_nodes-read l p q effective fits h);
}
