-- ===== src/Api/Whole/RoundTrip.antt =====
-- A whole `SettingsInput` written and read back as `Settings`.
use rsbtd.Base.{◌≡◌, refl, subst, true, List, [], ◌∷◌, none}
use rsbtd.Events.{Text}
use rsbtd.Settings.Pack.{SettingsPack, ok, merge}
use rsbtd.Settings.Table.{lt_setting}
use rsbtd.Api.Scalar.{read_scalars}
use rsbtd.Api.Scalar.Kept
use rsbtd.Api.Scalar.Kept.{given}
use rsbtd.Api.Catalog.{catalog}
use rsbtd.Api.Whole.{Settings, SettingsInput, read, write}
use rsbtd.Api.RoundTrip.{bind-ok, ok-injective}
use rsbtd.Api.Groups.{Group, Inputs, Values, AllFit, AllLawful, write_groups, separate}
use rsbtd.Api.Groups.Frame.{write_groups-read, AllRead, read_groups-AllRead, AllRead-read_groups}
use rsbtd.Api.Groups.Parts.{given_or_null}
use rsbtd.Api.Groups.Scalars.{scalars, scalars-Lawful}
use rsbtd.Api.Groups.Texts.{
  user_agent, outgoing_interfaces_group, listen_interfaces_group, dht_bootstrap_nodes_group,
  user_agent-Lawful, outgoing_interfaces-Lawful, listen_interfaces-Lawful,
  dht_bootstrap_nodes-Lawful,
}
use rsbtd.Api.Groups.Nets.{proxy_group, i2p_group, proxy-Lawful, i2p-Lawful, kept_proxy, kept_i2p}
use rsbtd.Api.Groups.Modes.{
  encryption, peer_transports, outgoing_port_range, disk_io_cache, mmap_write_mode, suggest_mode,
  choking_algorithm, seed_choking_algorithm, mixed_mode_algorithm, encryption-Lawful,
  peer_transports-Lawful, outgoing_port_range-Lawful, disk_io_cache-Lawful, mmap_write_mode-Lawful,
  suggest_mode-Lawful, choking_algorithm-Lawful, seed_choking_algorithm-Lawful,
  mixed_mode_algorithm-Lawful,
}
use rsbtd.Api.Agent.{read_user_agent}
use rsbtd.Api.Proxy.{read_proxy}
use rsbtd.Api.I2p.{read_i2p}
use rsbtd.Api.Encryption.{read_encryption}
use rsbtd.Api.Transports.{read_peer_transports, read_outgoing_port_range}
use rsbtd.Api.Modes.{
  read_disk_io_cache, read_mmap_write_mode, read_suggest_mode, read_choking_algorithm,
  read_seed_choking_algorithm, read_mixed_mode_algorithm,
}
use rsbtd.Api.Lists.{read_outgoing_interfaces, read_listen_interfaces, read_dht_bootstrap_nodes}

-- What the settings are once the input is applied: a field that is given has its value, with the host of the
-- proxy and of the I2P bridge without brackets, and a null group is off.
abbrev pub updated : SettingsInput → Settings → Settings
updated input own = record {
  scalars = Kept.overlay catalog input.scalars own.scalars;
  user_agent = given input.user_agent own.user_agent;
  proxy = given_or_null kept_proxy input.proxy own.proxy;
  i2p = given_or_null kept_i2p input.i2p own.i2p;
  encryption = given input.encryption own.encryption;
  peer_transports = given input.peer_transports own.peer_transports;
  outgoing_port_range = given_or_null (λ r. r) input.outgoing_port_range own.outgoing_port_range;
  disk_io_cache = given input.disk_io_cache own.disk_io_cache;
  mmap_write_mode = given input.mmap_write_mode own.mmap_write_mode;
  suggest_mode = given input.suggest_mode own.suggest_mode;
  choking_algorithm = given input.choking_algorithm own.choking_algorithm;
  seed_choking_algorithm = given input.seed_choking_algorithm own.seed_choking_algorithm;
  mixed_mode_algorithm = given input.mixed_mode_algorithm own.mixed_mode_algorithm;
  outgoing_interfaces = given input.outgoing_interfaces own.outgoing_interfaces;
  listen_interfaces = given input.listen_interfaces own.listen_interfaces;
  dht_bootstrap_nodes = given input.dht_bootstrap_nodes own.dht_bootstrap_nodes;
}

module _ (libtorrent_version package_version : Text) (defaults : SettingsPack) where
  abbrev pub groups : List Group
  groups =
      scalars
      ∷ user_agent libtorrent_version package_version
      ∷ proxy_group defaults
      ∷ i2p_group defaults
      ∷ encryption
      ∷ peer_transports
      ∷ outgoing_port_range
      ∷ disk_io_cache
      ∷ mmap_write_mode
      ∷ suggest_mode
      ∷ choking_algorithm
      ∷ seed_choking_algorithm
      ∷ mixed_mode_algorithm
      ∷ outgoing_interfaces_group
      ∷ listen_interfaces_group
      ∷ dht_bootstrap_nodes_group
      ∷ []

  abbrev pub inputs_of : SettingsInput → Inputs groups
  inputs_of i = (
    i.scalars,
    (
      i.user_agent,
      (
        i.proxy,
        (
          i.i2p,
          (
            i.encryption,
            (
              i.peer_transports,
              (
                i.outgoing_port_range,
                (
                  i.disk_io_cache,
                  (
                    i.mmap_write_mode,
                    (
                      i.suggest_mode,
                      (
                        i.choking_algorithm,
                        (
                          i.seed_choking_algorithm,
                          (
                            i.mixed_mode_algorithm,
                            (
                              i.outgoing_interfaces,
                              (i.listen_interfaces, (i.dht_bootstrap_nodes, tt)),
                            ),
                          ),
                        ),
                      ),
                    ),
                  ),
                ),
              ),
            ),
          ),
        ),
      ),
    ),
  )

  -- The bounds of the Rust types of the input.
  abbrev pub Fits : SettingsInput → Type 0
  Fits input = AllFit groups (inputs_of input)

  abbrev pub values_of : Settings → Values groups
  values_of s = (
    s.scalars,
    (
      s.user_agent,
      (
        s.proxy,
        (
          s.i2p,
          (
            s.encryption,
            (
              s.peer_transports,
              (
                s.outgoing_port_range,
                (
                  s.disk_io_cache,
                  (
                    s.mmap_write_mode,
                    (
                      s.suggest_mode,
                      (
                        s.choking_algorithm,
                        (
                          s.seed_choking_algorithm,
                          (
                            s.mixed_mode_algorithm,
                            (
                              s.outgoing_interfaces,
                              (s.listen_interfaces, (s.dht_bootstrap_nodes, tt)),
                            ),
                          ),
                        ),
                      ),
                    ),
                  ),
                ),
              ),
            ),
          ),
        ),
      ),
    ),
  )

  -- No two groups share a key of the table.
  groups-separate : separate groups ≡ true
  unfolding lt_setting
  groups-separate = refl

  pub groups-Lawful : read_proxy defaults ≡ ok none → read_i2p defaults ≡ ok none → AllLawful groups
  groups-Lawful no_proxy no_i2p = (
    scalars-Lawful,
    (
      user_agent-Lawful libtorrent_version package_version,
      (
        proxy-Lawful defaults no_proxy,
        (
          i2p-Lawful defaults no_i2p,
          (
            encryption-Lawful,
            (
              peer_transports-Lawful,
              (
                outgoing_port_range-Lawful,
                (
                  disk_io_cache-Lawful,
                  (
                    mmap_write_mode-Lawful,
                    (
                      suggest_mode-Lawful,
                      (
                        choking_algorithm-Lawful,
                        (
                          seed_choking_algorithm-Lawful,
                          (
                            mixed_mode_algorithm-Lawful,
                            (
                              outgoing_interfaces-Lawful,
                              (listen_interfaces-Lawful, (dht_bootstrap_nodes-Lawful, tt)),
                            ),
                          ),
                        ),
                      ),
                    ),
                  ),
                ),
              ),
            ),
          ),
        ),
      ),
    ),
  )

  pub read-AllRead :
      (pack : SettingsPack) (s : Settings) → read pack ≡ ok s → AllRead groups pack (values_of s)
  unfolding read
  read-AllRead pack s h =
      let (v0, e0, h0) = bind-ok (read_scalars catalog pack) _ s h in
      let (v1, e1, h1) = bind-ok (read_user_agent pack) _ s h0 in
      let (v2, e2, h2) = bind-ok (read_proxy pack) _ s h1 in
      let (v3, e3, h3) = bind-ok (read_i2p pack) _ s h2 in
      let (v4, e4, h4) = bind-ok (read_encryption pack) _ s h3 in
      let (v5, e5, h5) = bind-ok (read_peer_transports pack) _ s h4 in
      let (v6, e6, h6) = bind-ok (read_outgoing_port_range pack) _ s h5 in
      let (v7, e7, h7) = bind-ok (read_disk_io_cache pack) _ s h6 in
      let (v8, e8, h8) = bind-ok (read_mmap_write_mode pack) _ s h7 in
      let (v9, e9, h9) = bind-ok (read_suggest_mode pack) _ s h8 in
      let (v10, e10, h10) = bind-ok (read_choking_algorithm pack) _ s h9 in
      let (v11, e11, h11) = bind-ok (read_seed_choking_algorithm pack) _ s h10 in
      let (v12, e12, h12) = bind-ok (read_mixed_mode_algorithm pack) _ s h11 in
      let (v13, e13, h13) = bind-ok (read_outgoing_interfaces pack) _ s h12 in
      let (v14, e14, h14) = bind-ok (read_listen_interfaces pack) _ s h13 in
      let (v15, e15, h15) = bind-ok (read_dht_bootstrap_nodes pack) _ s h14 in
      subst (λ t. AllRead groups pack (values_of t)) (ok-injective _ s h15)
        (
          e0,
          (
            e1,
            (
              e2,
              (
                e3,
                (e4, (e5, (e6, (e7, (e8, (e9, (e10, (e11, (e12, (e13, (e14, (e15, tt)))))))))))),
              ),
            ),
          ),
        )

  pub AllRead-read :
      (pack : SettingsPack) (s : Settings) → AllRead groups pack (values_of s) → read pack ≡ ok s
  unfolding read
  AllRead-read pack s known =
      rw
        (
          known.0, known.1.0, known.1.1.0, known.1.1.1.0, known.1.1.1.1.0, known.1.1.1.1.1.0,
          known.1.1.1.1.1.1.0, known.1.1.1.1.1.1.1.0, known.1.1.1.1.1.1.1.1.0,
          known.1.1.1.1.1.1.1.1.1.0, known.1.1.1.1.1.1.1.1.1.1.0, known.1.1.1.1.1.1.1.1.1.1.1.0,
          known.1.1.1.1.1.1.1.1.1.1.1.1.0, known.1.1.1.1.1.1.1.1.1.1.1.1.1.0,
          known.1.1.1.1.1.1.1.1.1.1.1.1.1.1.0, known.1.1.1.1.1.1.1.1.1.1.1.1.1.1.1.0,
        )
        refl

  -- Let no proxy and no I2P bridge be set in the defaults of libtorrent, and let the input be one
  -- that its Rust types can hold. If the write of the input succeeds, and the effective pack with
  -- the delta before it reads as some settings, then the effective pack with the delta behind it
  -- reads as these settings with the input put in: each field that is given has its value, the
  -- host of the proxy and of the I2P bridge without brackets around it, a group that is null is
  -- off, and every other field is as it was.
  pub write-read :
      (input : SettingsInput) (delta d effective : SettingsPack) (before : Settings)
      → read_proxy defaults ≡ ok none
      → read_i2p defaults ≡ ok none
      → Fits input
      → write libtorrent_version package_version defaults delta input ≡ ok d
      → read (merge effective delta) ≡ ok before
      → read (merge effective d) ≡ ok (updated input before)
  unfolding write write_groups
  write-read input delta d effective before no_proxy no_i2p fits h known =
      AllRead-read (merge effective d) (updated input before) (
        read_groups-AllRead groups (merge effective d) (values_of (updated input before)) (
          write_groups-read groups (groups-Lawful no_proxy no_i2p) (inputs_of input) delta d
            effective (values_of before) groups-separate fits h
            (AllRead-read_groups groups (merge effective delta) (values_of before)
              (read-AllRead (merge effective delta) before known))))
