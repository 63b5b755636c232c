-- ===== src/Engine/Adding.antt =====
-- `add_torrent` and `unwind_failed_add` of rsbtd/src/engine/mod.rs.
-- The client data embeds a fresh uuid. What rbtorrent answers, and what the other tasks do while the
-- add awaits its acknowledgement, are arguments.
use rsbtd.Base.{
  ℕ, Bool, true, false, List, [], ◌∷◌, ◌++◌, Option, none, some, if◌then◌else◌, is_some,
}
use rsbtd.Base.Set
use rsbtd.Events.{Bytes}
use rsbtd.Errors.{Result, ok, err, shutting_down, io}
use rsbtd.Inflight.{Process, alive, ◌>>=◌, inc, dec}
use rsbtd.Registry.{Registry, TorrentEntry, upsert, remove_by_id, find}
use rsbtd.Persist.{PersistOp, write_resume, delete_resume}

-- What an add touches: the registry, the tokens of the session's torrents, the saves in flight, the
-- dirty set, and the operations that the persister has yet to take, in order.
pub record Shared : Type 0 where
  pub registry : Registry
  pub torrents : List ℕ
  pub inflight : ℕ
  pub dirty : List ℕ
  pub ops : List PersistOp

-- The answers that one add gets. `token` is that of the new handle, `bytes` its `write_resume_data`.
-- `accepts` and `accepts_later` say whether the persister's channel is open at the first and at the second
-- send, `ack` is the acknowledgement if one comes, and `session_left` says whether the session is
-- still there when an add is unwound.
pub record Answers : Type 0 where
  pub running : Bool
  pub handle : Result ℕ
  pub token : Result ℕ
  pub uuid : ℕ
  pub now : ℕ
  pub bytes : Result Bytes
  pub channel : ℕ
  pub accepts : Bool
  pub meanwhile : Shared → Shared
  pub ack : Option Bool
  pub accepts_later : Bool
  pub session_left : Bool

unfoldable pub unwind_failed_add : Bool → TorrentEntry → Shared → Shared
unwind_failed_add session_left entry s = record s {
  dirty = Set.remove entry.uuid s.dirty;
  registry = (remove_by_id s.registry entry.id).0;
  torrents = if session_left then Set.remove entry.token s.torrents else s.torrents;
}

abbrev pub send : PersistOp → Shared → Shared
send op s = record s { ops = s.ops ++ (op ∷ []) }

-- The torrent is registered and its record is durable; a removal that overtook the record is made
-- good.
unfoldable pub acknowledged : Answers → TorrentEntry → Shared → Shared
acknowledged a entry s =
    if is_some (find s.registry entry.uuid)
    then s
    else if a.accepts_later
    then send (delete_resume entry.uuid) s
    else s

unfoldable pub await_ack :
    Answers → TorrentEntry → Option Bool → Shared → Shared × Result TorrentEntry
await_ack a entry (some true) s = (acknowledged a entry s, ok entry)
await_ack a entry (some false) s = (unwind_failed_add a.session_left entry s, err io)
await_ack a entry none s = (unwind_failed_add a.session_left entry s, err shutting_down)

-- The part behind `upsert`.
unfoldable pub write_record :
    Answers → TorrentEntry → Result Bytes → Shared → Process (Shared × Result TorrentEntry)
write_record a entry (err e) s = alive (unwind_failed_add a.session_left entry s, err e)
write_record a entry (ok bytes) s =
    if a.accepts
    then alive (
        await_ack a entry a.ack (
          a.meanwhile (
            send (write_resume entry.uuid bytes (some a.channel))
              (record s { inflight = inc s.inflight }))))
    else (do
      n ← dec (inc s.inflight)
      alive (unwind_failed_add a.session_left entry (record s { inflight = n }), err shutting_down))

-- The handle's token is there: the torrent is in the session.
unfoldable pub register_added : Answers → ℕ → ℕ → Shared → Process (Shared × Result TorrentEntry)
register_added a id token s =
    let (r, entry) = upsert s.registry id token a.uuid a.now in
    write_record a entry a.bytes (record s { registry = r; torrents = token ∷ s.torrents })

-- A handle without client data is removed at once.
unfoldable pub add_torrent : Answers → Shared → Process (Shared × Result TorrentEntry)
add_torrent a s =
    if a.running
    then elim a.handle [
      | err e ↦ alive (s, err e)
      | ok id ↦ elim a.token [ err e ↦ alive (s, err e) | ok token ↦ register_added a id token s ]
    ]
    else alive (s, err shutting_down)
