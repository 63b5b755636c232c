-- ===== src/Engine/Tests.antt =====
-- The theorems on the engine's operations at concrete values.
use rsbtd.Base.{ℕ, List, ◌+◌, ◌≡◌, refl, sym, true, false, [], ◌∷◌, none, some, arith, ◌==◌}
use rsbtd.Base.Map.{get, insert}
use rsbtd.Events.{Event, EventKind, Text, Bytes, TrackerInfo}
use rsbtd.Engine.Removing.{remove_torrent, remove_torrent-pending, parked_at}
use rsbtd.Alerts.{Session, Alert, AlertHandle}
use rsbtd.Types.{zeros, InfoHash}
use rsbtd.Errors.{Result, ok, err, torrent}
use rsbtd.Inflight.{alive, Alive}
use rsbtd.Registry.{find, Registry, TorrentEntry, new, register, get_id, resolve}
use rsbtd.Persist.{stray, Persister, returned}
use rsbtd.Correlate.{elapsed}
use rsbtd.Pump.{Pump, handle_alert, torrent_of}
use rsbtd.Engine.Queries.{
  Call, of_torrent, trackers_answer, peers_answer, progress_answer, piece_answer,
}
use rsbtd.Engine.Matching.{replies-answer, last_event}
use rsbtd.Engine.Saving.{flush, sweep, flush-counts}
use rsbtd.Engine.Settings.{SettingsPack, apply_settings, Scheduled, taken}
use rsbtd.Engine.Rollback.{DurableOrUndone, with_own, apply_settings-DurableOrUndone}
use rsbtd.Engine.Adding.{Shared, Answers}
use rsbtd.Engine.Restoring.{Visit, Restoring, legacy, restore_file}
use rsbtd.Engine.Recovered.{Restored, restore_file-Restored}
use rsbtd.Engine.Durable.{Balanced, Adds, Ended, add_torrent-Balanced, add_torrent-Concluded}

abbrev seed : TorrentEntry
seed = record { id = 7; token = 100; uuid = 1; added_at = 0 }

abbrev fan : TorrentEntry
fan = record { id = 8; token = 200; uuid = 2; added_at = 0 }

-- It has both torrents and takes the saves of the first only.
abbrev half_willing : Session
half_willing = record { has_token = λ t. true; saves = λ t f. t == 100 }

abbrev tracker : TrackerInfo
tracker = record {
  url = 5 ∷ [];
  trackerid = [];
  tier = 0;
  fail_limit = 0;
  source = 0;
  verified = true;
}

abbrev call : Call
call = record { cancelled = false; during = []; later = elapsed ∷ [] }

abbrev site : Text
site = 5 ∷ []

abbrev scraped : Event
scraped = record { torrent = some 1; kind = EventKind.scrape_reply (some (5 ∷ [])) 2 3 }

flush-counts_example :
    (flush half_willing (λ t. true) [] (seed ∷ fan ∷ []) 4 ≡ alive (1 + 4))
    × (sweep half_willing (λ t. true) (seed ∷ fan ∷ []) 4 ≡ alive (1 + 4))
flush-counts_example = flush-counts half_willing (λ t. true) [] (seed ∷ fan ∷ []) 4

abbrev handle : AlertHandle
handle = record { id = 7; client_data_token = some 100; client_data_uuid = some 1 }

abbrev known : Registry
known = register new seed

abbrev pump : Pump
pump = record {
  registry = known;
  inflight = 0;
  dirty = [];
  quiesce = false;
  pending_deletes = [];
  ops = [];
  events = [];
  posted = [];
}

replies-answer_example :
    Alive
      (λ q. of_torrent 1 trackers_answer (last_event q.events scraped) ≡ some (ok (tracker ∷ [])))
      (handle_alert half_willing 5 (Alert.tracker_list (some handle) (tracker ∷ [])) pump)
    × Alive
        (λ q. of_torrent 1 peers_answer (last_event q.events scraped) ≡ some (ok (6 ∷ [])))
        (handle_alert half_willing 5 (Alert.peer_info (some handle) (6 ∷ [])) pump)
    × Alive
        (λ q. of_torrent 1 progress_answer (last_event q.events scraped) ≡ some (ok (6 ∷ [])))
        (handle_alert half_willing 5 (Alert.file_progress (some handle) (6 ∷ [])) pump)
    × Alive
        (λ q. of_torrent 1 (piece_answer 4) (last_event q.events scraped) ≡ some (ok site))
        (handle_alert half_willing 5 (Alert.read_piece (some handle) 4 site none) pump)
    × Alive
        (λ q. of_torrent 1 (piece_answer 4) (last_event q.events scraped) ≡ some (err (torrent 9)))
        (handle_alert half_willing 5 (Alert.read_piece (some handle) 4 site (some 9)) pump)
unfolding torrent_of register new get_id resolve get insert
replies-answer_example =
    replies-answer half_willing 5 handle pump scraped 1 4 (tracker ∷ []) (6 ∷ []) site 9 refl

-- A session whose whole state is its settings; a full pack replaces them.
abbrev replace : SettingsPack → SettingsPack → Result SettingsPack
replace pack s = ok pack

abbrev read : SettingsPack → Result SettingsPack
read s = ok s

abbrev to_bytes : SettingsPack → Result Bytes
to_bytes s = ok (s.others ∷ [])

replace-reads_back : (s t u c : SettingsPack) → read s ≡ ok c → replace c t ≡ ok u → read u ≡ ok c
replace-reads_back s t u c h k = sym k

abbrev old_settings : SettingsPack
old_settings = record { alert_mask = some 3; alert_queue_size = some 2147483647; others = 1 }

abbrev delta : SettingsPack
delta = record { alert_mask = some 0; alert_queue_size = none; others = 2 }

abbrev persister : Persister
persister = record {
  disk = λ p. none;
  pid = 1;
  tmp_seq = 0;
  dirty = [];
  inflight = 0;
  events = [];
  acks = [];
}

-- The disk is full.
abbrev fails : Scheduled
fails = taken (
    returned (record {
      creates = true;
      short_write = some [];
      syncs = true;
      renames = true;
      unlinks = true;
    }))

apply_settings-DurableOrUndone_example :
    Alive
      (DurableOrUndone replace read to_bytes (with_own 3 delta) old_settings)
      (apply_settings replace read to_bytes 3 6 fails delta true old_settings persister)
apply_settings-DurableOrUndone_example =
    apply_settings-DurableOrUndone replace read to_bytes replace-reads_back 3 6 fails delta true
      old_settings persister refl

-- The torrent is removed while its add awaits the acknowledgement.
abbrev answers : Answers
answers = record {
  running = true;
  handle = ok 7;
  token = ok 100;
  uuid = 1;
  now = 0;
  bytes = ok (4 ∷ []);
  channel = 6;
  accepts = true;
  meanwhile = λ s. record s { registry = new; torrents = [] };
  ack = some true;
  accepts_later = true;
  session_left = true;
}

abbrev shared : Shared
shared = record { registry = new; torrents = []; inflight = 2; dirty = []; ops = [] }

add_torrent-Balanced_example : Adds (λ r. Balanced 2 r.0) answers shared
add_torrent-Balanced_example = add_torrent-Balanced answers 2 shared (λ t h. h) (omega arith)

add_torrent-Concluded_example : Adds (Ended answers 7 100 shared) answers shared
add_torrent-Concluded_example = add_torrent-Concluded answers 7 100 shared refl refl refl

-- A legacy record under an old name, whose new record can be written.
abbrev legacy_visit : Visit
legacy_visit = record {
  readable = true;
  record_ = legacy;
  minted = 3;
  spliced = ok (4 ∷ []);
  written =
      returned (record {
        creates = true;
        short_write = none;
        syncs = true;
        renames = true;
        unlinks = true;
      });
  renames = true;
  quarantines = true;
}

abbrev restoring : Restoring
restoring = record { disk = λ p. some (1 ∷ []); pid = 1; tmp_seq = 0; adds = [] }

restore_file-Restored_example :
    Restored
      (stray 5)
      (1 ∷ [])
      legacy_visit
      restoring
      (restore_file (stray 5) legacy_visit restoring)
restore_file-Restored_example =
    restore_file-Restored (stray 5) legacy_visit (1 ∷ []) restoring tt refl

abbrev seed_hash : InfoHash
seed_hash = record { v1 = some (record { digest = 11 ∷ zeros 19 }); v2 = none }

abbrev fan_parked : List (InfoHash × ℕ)
fan_parked = (record { v1 = some (record { digest = 12 ∷ zeros 19 }); v2 = none }, 2) ∷ []

remove_torrent-pending_example :
    ((remove_torrent known (some half_willing) 1 true seed_hash call (λ l. l) fan_parked).0
      ≡ fan_parked)
    × ((remove_torrent known
          (some half_willing)
          1
          true
          seed_hash
          call
          (λ l. fan_parked)
          fan_parked).0
        ≡ fan_parked)
unfolding register new find get insert parked_at
remove_torrent-pending_example =
    remove_torrent-pending known (some half_willing) seed true seed_hash call fan_parked refl refl
