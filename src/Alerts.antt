-- ===== src/Alerts.antt =====
-- What the engine reads of rbtorrent: alerts, handles and the session's answers
-- (rsbtd/src/engine/pump.rs, the matches of `handle_alert`).
use rsbtd.Base.{ℕ, Bool, List, Option}
use rsbtd.Events.{Text, Bytes, TrackerInfo}
use rsbtd.Types.{InfoHash}

-- What an alert's handle answers: an expired one has no client data.
pub record AlertHandle : Type 0 where
  pub id : ℕ
  pub client_data_token : Option ℕ
  pub client_data_uuid : Option ℕ

pub record Session : Type 0 where
  -- `find_torrent_by_token(token).is_some()`.
  pub has_token : ℕ → Bool
  -- `save_resume_data(flags)` on the handle of that token.
  pub saves : ℕ → ℕ → Bool

abbrev pub resume_flush_disk_cache : ℕ
resume_flush_disk_cache = 1

abbrev pub resume_save_info_dict : ℕ
resume_save_info_dict = 2

-- The five `IF_*_CHANGED` bits, 3 to 7.
abbrev pub resume_only_if_modified : ℕ
resume_only_if_modified = 248

-- The result of `write_resume_data` on a save alert.
pub data Serialized : Type 0 where
  bytes : Bytes → Serialized
  error : ℕ → Serialized

-- An alert with the values that its handler reads.
pub data Alert : Type 0 where
  add_torrent : Option ℕ → AlertHandle → Alert
  torrent_removed : ℕ → Alert
  torrent_finished : Option AlertHandle → Alert
  save_resume_data : Option AlertHandle → Serialized → Alert
  save_resume_data_failed : Option AlertHandle → Option ℕ → Alert
  state_update : List ℕ → Alert
  state_changed : Option AlertHandle → ℕ → ℕ → Alert
  torrent_error : Option AlertHandle → Option ℕ → Text → Alert
  metadata_failed : Option AlertHandle → Option ℕ → Alert
  file_renamed : Option AlertHandle → ℕ → Text → Alert
  file_rename_failed : Option AlertHandle → ℕ → Option ℕ → Alert
  storage_moved : Option AlertHandle → Text → Alert
  storage_moved_failed : Option AlertHandle → Option ℕ → Alert
  read_piece : Option AlertHandle → ℕ → Bytes → Option ℕ → Alert
  tracker_list : Option AlertHandle → List TrackerInfo → Alert
  peer_info : Option AlertHandle → List ℕ → Alert
  file_progress : Option AlertHandle → List ℕ → Alert
  scrape_reply : Option AlertHandle → Option Text → ℕ → ℕ → Alert
  scrape_failed : Option AlertHandle → Option Text → Text → Alert
  torrent_deleted : InfoHash → Alert
  torrent_delete_failed : InfoHash → Option ℕ → Alert
  alerts_dropped : Alert
  session_error : ℕ → Alert
  metadata_received : Option AlertHandle → Alert
  other : Alert
