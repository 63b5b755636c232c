-- ===== src/Api/Encryption.antt =====
-- `read_encryption` and `write_encryption` of rsbtd/src/api/settings/structured.rs.
use rsbtd.Base.{Bool, true, false, not, ◌&&◌, Option, none, some, if◌then◌else◌}
use rsbtd.Settings.Enums.{EncPolicy, EncLevel}
use rsbtd.Settings.Pack.{SettingsPack, Result, ok, err, ◌>>=◌}
use rsbtd.Settings.Net.{
  in_enc_policy, out_enc_policy, allowed_enc_level, prefer_rc4, get_in_enc_policy,
  get_out_enc_policy, get_allowed_enc_level, get_prefer_rc4,
}
use rsbtd.Settings.Tracker.{announce_crypto_support, get_announce_crypto_support}
use rsbtd.Api.Input.{SettingsError, MaybeUndefined, defined, present, no_method, rc4_not_both}

pub data EncryptionPolicy : Type 0 where
  forced enabled disabled : EncryptionPolicy

abbrev pub policy_to_lt : EncryptionPolicy → EncPolicy
policy_to_lt forced = EncPolicy.pe_forced
policy_to_lt enabled = EncPolicy.pe_enabled
policy_to_lt disabled = EncPolicy.pe_disabled

abbrev pub policy_from_lt : EncPolicy → EncryptionPolicy
policy_from_lt EncPolicy.pe_forced = forced
policy_from_lt EncPolicy.pe_enabled = enabled
policy_from_lt EncPolicy.pe_disabled = disabled

pub record EncryptionMethods : Type 0 where
  pub plaintext : Bool
  pub rc4 : Bool

pub record EncryptionSettings : Type 0 where
  pub incoming : EncryptionPolicy
  pub outgoing : EncryptionPolicy
  pub methods : EncryptionMethods
  pub prefers_rc4 : Bool
  pub announce_support : Bool

abbrev methods_of : EncLevel → EncryptionMethods
methods_of EncLevel.pe_plaintext = record { plaintext = true; rc4 = false }
methods_of EncLevel.pe_rc4 = record { plaintext = false; rc4 = true }
methods_of EncLevel.pe_both = record { plaintext = true; rc4 = true }

unfoldable pub read_encryption : SettingsPack → Result SettingsError EncryptionSettings
read_encryption pack = do
  level ← present "encryption" (get_allowed_enc_level pack)
  incoming ← present "encryption" (get_in_enc_policy pack)
  outgoing ← present "encryption" (get_out_enc_policy pack)
  prefers ← present "encryption" (get_prefer_rc4 pack)
  announces ← present "encryption" (get_announce_crypto_support pack)
  ok (record {
    incoming = policy_from_lt incoming;
    outgoing = policy_from_lt outgoing;
    methods = methods_of level;
    prefers_rc4 = prefers;
    announce_support = announces;
  })

abbrev pub level_of : Bool → Bool → Result SettingsError EncLevel
level_of true true = ok EncLevel.pe_both
level_of true false = ok EncLevel.pe_plaintext
level_of false true = ok EncLevel.pe_rc4
level_of false false = err no_method

abbrev pub is_both : EncLevel → Bool
is_both EncLevel.pe_plaintext = false
is_both EncLevel.pe_rc4 = false
is_both EncLevel.pe_both = true

abbrev stage : EncryptionSettings → EncLevel → SettingsPack → SettingsPack
stage e level delta = announce_crypto_support e.announce_support (
    prefer_rc4 e.prefers_rc4 (
      allowed_enc_level level
        (out_enc_policy (policy_to_lt e.outgoing) (in_enc_policy (policy_to_lt e.incoming) delta))))

abbrev write_value : Option EncryptionSettings → SettingsPack → Result SettingsError SettingsPack
write_value none delta = ok delta
write_value (some e) delta = do
  level ← level_of e.methods.plaintext e.methods.rc4
  if e.prefers_rc4 && not (is_both level) then err rc4_not_both else ok (stage e level delta)

unfoldable pub write_encryption :
    MaybeUndefined EncryptionSettings → SettingsPack → Result SettingsError SettingsPack
write_encryption input delta = do e ← defined "encryption" input; write_value e delta
