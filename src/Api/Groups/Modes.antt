-- ===== src/Api/Groups/Modes.antt =====
-- The groups of `SettingsInput` without texts, with their laws.
use rsbtd.Base.{ℕ, ◌≡◌, ◌≤◌, arith, false, [], ◌∷◌}
use rsbtd.Settings.Pack.{SettingsPack, ok}
use rsbtd.Api.Input.{MaybeUndefined, defined}
use rsbtd.Api.Scalar.Kept.{SameAt, member}
use rsbtd.Api.Groups.{Group, Lawful}
use rsbtd.Api.Groups.Parts.{plain, nulled, plain-back, nulled-back}
use rsbtd.Settings.Bandwidth.Keys.{
  ct_set_choking_algorithm, ct_set_seed_choking_algorithm, ct_set_mixed_mode_algorithm,
}
use rsbtd.Settings.Storage.Keys.{
  ct_set_disk_io_read_mode, ct_set_disk_io_write_mode, ct_set_disk_write_mode, ct_set_suggest_mode,
}
use rsbtd.Settings.Net.Keys.{
  ct_set_in_enc_policy, ct_set_out_enc_policy, ct_set_allowed_enc_level, ct_set_prefer_rc4,
}
use rsbtd.Settings.Tracker.Keys.{ct_set_announce_crypto_support}
use rsbtd.Settings.Connections.Keys.{
  ct_set_enable_incoming_tcp, ct_set_enable_outgoing_tcp, ct_set_enable_incoming_utp,
  ct_set_enable_outgoing_utp, ct_set_outgoing_port, ct_set_num_outgoing_ports,
}
use rsbtd.Api.Encryption.{EncryptionSettings, read_encryption, write_encryption}
use rsbtd.Api.Transports.{
  PeerTransports, read_peer_transports, write_peer_transports, PortRange, read_outgoing_port_range,
  write_outgoing_port_range,
}
use rsbtd.Api.Modes.{
  DiskIoCache, read_disk_io_cache, write_disk_io_cache, MmapWriteMode, read_mmap_write_mode,
  write_mmap_write_mode, SuggestMode, read_suggest_mode, write_suggest_mode, ChokingAlgorithm,
  read_choking_algorithm, write_choking_algorithm, SeedChokingAlgorithm,
  read_seed_choking_algorithm, write_seed_choking_algorithm, MixedModeAlgorithm,
  read_mixed_mode_algorithm, write_mixed_mode_algorithm,
}
use rsbtd.Api.RoundTrip.Modes.{
  write_encryption-read, write_disk_io_cache-read, write_mmap_write_mode-read,
  write_suggest_mode-read, write_choking_algorithm-read, write_seed_choking_algorithm-read,
  write_mixed_mode_algorithm-read,
}
use rsbtd.Api.RoundTrip.Ports.{
  write_peer_transports-read, write_outgoing_port_range-read, write_outgoing_port_range-null,
}
use rsbtd.Settings.Connections.Ports.{outgoing_ports, get_outgoing_ports}

abbrev pub encryption : Group
encryption =
    plain EncryptionSettings
      (ct_set_out_enc_policy ∷ ct_set_in_enc_policy ∷ ct_set_allowed_enc_level ∷ ct_set_prefer_rc4
        ∷ ct_set_announce_crypto_support ∷ [])
      read_encryption write_encryption (λ v. Unit)

encryption-frame :
    (x : MaybeUndefined EncryptionSettings) (p q : SettingsPack) (j : ℕ)
    → member j encryption.keys ≡ false
    → write_encryption x p ≡ ok q
    → SameAt j p q
unfolding write_encryption defined
encryption-frame x p q j other h = ground (arith, other, h)

pub encryption-Lawful : Lawful encryption
unfolding read_encryption write_encryption defined
encryption-Lawful = record {
  frame = encryption-frame;
  local = λ p q effective same. ground (arith, same);
  back =
      plain-back read_encryption write_encryption (λ v. Unit) (λ p q h. cc h)
        (λ p q h. absurd (cc h))
        (λ v p q effective fits h. write_encryption-read v p q effective h);
}

abbrev pub peer_transports : Group
peer_transports =
    plain PeerTransports
      (ct_set_enable_incoming_tcp ∷ ct_set_enable_outgoing_tcp ∷ ct_set_enable_incoming_utp
        ∷ ct_set_enable_outgoing_utp ∷ [])
      read_peer_transports write_peer_transports (λ v. Unit)

peer_transports-frame :
    (x : MaybeUndefined PeerTransports) (p q : SettingsPack) (j : ℕ)
    → member j peer_transports.keys ≡ false
    → write_peer_transports x p ≡ ok q
    → SameAt j p q
unfolding write_peer_transports defined
peer_transports-frame x p q j other h = ground (arith, other, h)

pub peer_transports-Lawful : Lawful peer_transports
unfolding read_peer_transports write_peer_transports defined
peer_transports-Lawful = record {
  frame = peer_transports-frame;
  local = λ p q effective same. ground (arith, same);
  back =
      plain-back read_peer_transports write_peer_transports (λ v. Unit) (λ p q h. cc h)
        (λ p q h. absurd (cc h))
        (λ v p q effective fits h. write_peer_transports-read v p q effective h);
}

abbrev pub disk_io_cache : Group
disk_io_cache =
    plain DiskIoCache (ct_set_disk_io_read_mode ∷ ct_set_disk_io_write_mode ∷ []) read_disk_io_cache
      write_disk_io_cache (λ v. Unit)

disk_io_cache-frame :
    (x : MaybeUndefined DiskIoCache) (p q : SettingsPack) (j : ℕ)
    → member j disk_io_cache.keys ≡ false
    → write_disk_io_cache x p ≡ ok q
    → SameAt j p q
unfolding write_disk_io_cache defined
disk_io_cache-frame x p q j other h = ground (arith, other, h)

pub disk_io_cache-Lawful : Lawful disk_io_cache
unfolding read_disk_io_cache write_disk_io_cache defined
disk_io_cache-Lawful = record {
  frame = disk_io_cache-frame;
  local = λ p q effective same. ground (arith, same);
  back =
      plain-back read_disk_io_cache write_disk_io_cache (λ v. Unit) (λ p q h. cc h)
        (λ p q h. absurd (cc h))
        (λ v p q effective fits h. write_disk_io_cache-read v p q effective h);
}

abbrev pub mmap_write_mode : Group
mmap_write_mode =
    plain MmapWriteMode (ct_set_disk_write_mode ∷ []) read_mmap_write_mode write_mmap_write_mode
      (λ v. Unit)

mmap_write_mode-frame :
    (x : MaybeUndefined MmapWriteMode) (p q : SettingsPack) (j : ℕ)
    → member j mmap_write_mode.keys ≡ false
    → write_mmap_write_mode x p ≡ ok q
    → SameAt j p q
unfolding write_mmap_write_mode defined
mmap_write_mode-frame x p q j other h = ground (arith, other, h)

pub mmap_write_mode-Lawful : Lawful mmap_write_mode
unfolding read_mmap_write_mode write_mmap_write_mode defined
mmap_write_mode-Lawful = record {
  frame = mmap_write_mode-frame;
  local = λ p q effective same. ground (arith, same);
  back =
      plain-back read_mmap_write_mode write_mmap_write_mode (λ v. Unit) (λ p q h. cc h)
        (λ p q h. absurd (cc h))
        (λ v p q effective fits h. write_mmap_write_mode-read v p q effective h);
}

abbrev pub suggest_mode : Group
suggest_mode =
    plain SuggestMode (ct_set_suggest_mode ∷ []) read_suggest_mode write_suggest_mode (λ v. Unit)

suggest_mode-frame :
    (x : MaybeUndefined SuggestMode) (p q : SettingsPack) (j : ℕ)
    → member j suggest_mode.keys ≡ false
    → write_suggest_mode x p ≡ ok q
    → SameAt j p q
unfolding write_suggest_mode defined
suggest_mode-frame x p q j other h = ground (arith, other, h)

pub suggest_mode-Lawful : Lawful suggest_mode
unfolding read_suggest_mode write_suggest_mode defined
suggest_mode-Lawful = record {
  frame = suggest_mode-frame;
  local = λ p q effective same. ground (arith, same);
  back =
      plain-back read_suggest_mode write_suggest_mode (λ v. Unit) (λ p q h. cc h)
        (λ p q h. absurd (cc h))
        (λ v p q effective fits h. write_suggest_mode-read v p q effective h);
}

abbrev pub choking_algorithm : Group
choking_algorithm =
    plain ChokingAlgorithm (ct_set_choking_algorithm ∷ []) read_choking_algorithm
      write_choking_algorithm (λ v. Unit)

choking_algorithm-frame :
    (x : MaybeUndefined ChokingAlgorithm) (p q : SettingsPack) (j : ℕ)
    → member j choking_algorithm.keys ≡ false
    → write_choking_algorithm x p ≡ ok q
    → SameAt j p q
unfolding write_choking_algorithm defined
choking_algorithm-frame x p q j other h = ground (arith, other, h)

pub choking_algorithm-Lawful : Lawful choking_algorithm
unfolding read_choking_algorithm write_choking_algorithm defined
choking_algorithm-Lawful = record {
  frame = choking_algorithm-frame;
  local = λ p q effective same. ground (arith, same);
  back =
      plain-back read_choking_algorithm write_choking_algorithm (λ v. Unit) (λ p q h. cc h)
        (λ p q h. absurd (cc h))
        (λ v p q effective fits h. write_choking_algorithm-read v p q effective h);
}

abbrev pub seed_choking_algorithm : Group
seed_choking_algorithm =
    plain SeedChokingAlgorithm (ct_set_seed_choking_algorithm ∷ []) read_seed_choking_algorithm
      write_seed_choking_algorithm (λ v. Unit)

seed_choking_algorithm-frame :
    (x : MaybeUndefined SeedChokingAlgorithm) (p q : SettingsPack) (j : ℕ)
    → member j seed_choking_algorithm.keys ≡ false
    → write_seed_choking_algorithm x p ≡ ok q
    → SameAt j p q
unfolding write_seed_choking_algorithm defined
seed_choking_algorithm-frame x p q j other h = ground (arith, other, h)

pub seed_choking_algorithm-Lawful : Lawful seed_choking_algorithm
unfolding read_seed_choking_algorithm write_seed_choking_algorithm defined
seed_choking_algorithm-Lawful = record {
  frame = seed_choking_algorithm-frame;
  local = λ p q effective same. ground (arith, same);
  back =
      plain-back read_seed_choking_algorithm write_seed_choking_algorithm (λ v. Unit)
        (λ p q h. cc h) (λ p q h. absurd (cc h))
        (λ v p q effective fits h. write_seed_choking_algorithm-read v p q effective h);
}

abbrev pub mixed_mode_algorithm : Group
mixed_mode_algorithm =
    plain MixedModeAlgorithm (ct_set_mixed_mode_algorithm ∷ []) read_mixed_mode_algorithm
      write_mixed_mode_algorithm (λ v. Unit)

mixed_mode_algorithm-frame :
    (x : MaybeUndefined MixedModeAlgorithm) (p q : SettingsPack) (j : ℕ)
    → member j mixed_mode_algorithm.keys ≡ false
    → write_mixed_mode_algorithm x p ≡ ok q
    → SameAt j p q
unfolding write_mixed_mode_algorithm defined
mixed_mode_algorithm-frame x p q j other h = ground (arith, other, h)

pub mixed_mode_algorithm-Lawful : Lawful mixed_mode_algorithm
unfolding read_mixed_mode_algorithm write_mixed_mode_algorithm defined
mixed_mode_algorithm-Lawful = record {
  frame = mixed_mode_algorithm-frame;
  local = λ p q effective same. ground (arith, same);
  back =
      plain-back read_mixed_mode_algorithm write_mixed_mode_algorithm (λ v. Unit) (λ p q h. cc h)
        (λ p q h. absurd (cc h))
        (λ v p q effective fits h. write_mixed_mode_algorithm-read v p q effective h);
}

abbrev pub outgoing_port_range : Group
outgoing_port_range =
    nulled PortRange (λ r. r) (ct_set_outgoing_port ∷ ct_set_num_outgoing_ports ∷ [])
      read_outgoing_port_range write_outgoing_port_range (λ r. r.last ≤ 65535)

outgoing_port_range-frame :
    (x : MaybeUndefined PortRange) (p q : SettingsPack) (j : ℕ)
    → member j outgoing_port_range.keys ≡ false
    → write_outgoing_port_range x p ≡ ok q
    → SameAt j p q
unfolding write_outgoing_port_range outgoing_ports
outgoing_port_range-frame x p q j other h = ground (arith, other, h)

pub outgoing_port_range-Lawful : Lawful outgoing_port_range
unfolding read_outgoing_port_range write_outgoing_port_range get_outgoing_ports
outgoing_port_range-Lawful = record {
  frame = outgoing_port_range-frame;
  local = λ p q effective same. ground (arith, same);
  back =
      nulled-back (λ r. r) read_outgoing_port_range write_outgoing_port_range (λ r. r.last ≤ 65535)
        (λ p q h. cc h) write_outgoing_port_range-null
        (λ r p q effective fits h. write_outgoing_port_range-read r p q effective fits h);
}
