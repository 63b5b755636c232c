-- ===== src/Events.antt =====
-- rsbtd/src/engine/events.rs: the owned events of the bus.
-- A number stands for each value that the engine only passes on: an `rbtorrent::Error`, a
-- `TorrentStatus`, a `PeerInfo`, a string, an i32 (by its bit pattern).
use rsbtd.Base.{ℕ, Bool, List, Option}

abbrev pub Text : Type 0
Text = List ℕ

abbrev pub Bytes : Type 0
Bytes = List ℕ

pub record TrackerInfo : Type 0 where
  pub url : Text
  pub trackerid : Text
  pub tier : ℕ
  pub fail_limit : ℕ
  pub source : ℕ
  pub verified : Bool

-- The three texts that a failed save is reported with.
pub data ResumeFailure : Type 0 where
  not_serialized : ℕ → ResumeFailure
  not_generated : Option ℕ → ResumeFailure
  not_written : ResumeFailure

pub data EventKind : Type 0 where
  torrent_added : EventKind
  torrent_removed : EventKind
  torrent_finished : EventKind
  metadata_received : EventKind
  metadata_failed : Option ℕ → EventKind
  torrent_error : Option ℕ → Text → EventKind
  state_changed : ℕ → ℕ → EventKind
  state_update : List ℕ → EventKind
  resume_data_saved : EventKind
  resume_data_failed : ResumeFailure → EventKind
  file_renamed : ℕ → Text → EventKind
  file_rename_failed : ℕ → Option ℕ → EventKind
  storage_moved : Text → EventKind
  storage_moved_failed : Option ℕ → EventKind
  read_piece : ℕ → Bytes → Option ℕ → EventKind
  trackers : List TrackerInfo → EventKind
  peers : List ℕ → EventKind
  file_progress : List ℕ → EventKind
  scrape_reply : Option Text → ℕ → ℕ → EventKind
  scrape_failed : Option Text → Text → EventKind
  torrent_deleted : EventKind
  torrent_delete_failed : Option ℕ → EventKind
  session_error : ℕ → EventKind

-- `torrent` is `none` for session-scoped events and for those of no known torrent.
pub record Event : Type 0 where
  pub torrent : Option ℕ
  pub kind : EventKind
