-- ===== src/Engine/Durable.antt =====
-- What an add of rsbtd/src/engine/mod.rs leaves behind, when it succeeds and when it fails.
use rsbtd.Base.{
  ℕ, suc, ◌+◌, ◌≡◌, refl, ◌⊎◌, inl, inr, subst, Bool, true, false, ◌&&◌, [], ◌∷◌, ◌++◌, Option,
  none, some, is_some, arith, ==_refl, Option-cases, if-cases,
}
use rsbtd.Base.Map.{get, get-remove}
use rsbtd.Base.Set
use rsbtd.Events.{Bytes}
use rsbtd.Errors.{Result, ok, err, EngineError, shutting_down, io}
use rsbtd.Inflight.{alive, inc, dec, Alive}
use rsbtd.Registry.{
  Registry, TorrentEntry, upsert, remove_by_id, remove_uuid, unlink, resolve, get_id, find,
}
use rsbtd.Registry.Invariant.{get-unlink}
use rsbtd.Persist.{write_resume, delete_resume}
use rsbtd.Pump.Accounting.{writes, writes-append}
use rsbtd.Engine.Adding.{
  Shared, Answers, unwind_failed_add, send, acknowledged, await_ack, write_record, register_added,
  add_torrent,
}

-- `n` saves are in flight besides the writes that were sent.
abbrev pub Balanced : ℕ → Shared → Type 0
Balanced n s = s.inflight ≡ n + writes s.ops

-- What one add makes of the shared state and answers.
abbrev pub Adds : (Shared × Result TorrentEntry → Type 0) → Answers → Shared → Type 0
Adds P a s = Alive P (add_torrent a s)

await_ack-Balanced :
    (a : Answers) (entry : TorrentEntry) (ack : Option Bool) (n : ℕ) (s : Shared)
    → Balanced n s
    → Balanced n (await_ack a entry ack s).0
unfolding await_ack acknowledged unwind_failed_add
await_ack-Balanced a entry (some true) n s h =
    ground (arith, writes-append s.ops (delete_resume entry.uuid ∷ []))
await_ack-Balanced a entry (some false) n s h = h
await_ack-Balanced a entry none n s h = h

write_record-Balanced :
    (a : Answers) (entry : TorrentEntry) (bytes : Result Bytes) (n : ℕ) (s : Shared)
    → ((t : Shared) → Balanced n t → Balanced n (a.meanwhile t))
    → Balanced n s
    → Alive (λ r. Balanced n r.0) (write_record a entry bytes s)
unfolding write_record unwind_failed_add inc dec
write_record-Balanced a entry (err e) n s m h = h
write_record-Balanced a entry (ok bytes) n s m h =
    if-cases (Alive (λ (r : Shared × Result TorrentEntry). Balanced n r.0)) a.accepts
      (λ o.
        let op = write_resume entry.uuid bytes (some a.channel) in
        let t : Shared = send op (record s { inflight = suc s.inflight }) in
        await_ack-Balanced a entry a.ack n (a.meanwhile t)
          (m t (ground (arith, writes-append s.ops (op ∷ [])))))
      (λ o. h)

-- The steps before the record.
add_torrent-cases :
    (P : Shared × Result TorrentEntry → Type 0) (a : Answers) (s : Shared)
    → ((e : EngineError) → P (s, err e))
    → ((id token : ℕ) → a.token ≡ ok token → Alive P (register_added a id token s))
    → Adds P a s
unfolding add_torrent
add_torrent-cases P a s f g =
    if-cases (Alive P) a.running (λ r. on_handle a.handle) (λ r. f shutting_down)
  where
    on_token :
        (id : ℕ) (t : Result ℕ)
        → a.token ≡ t
        → Alive P (elim t [ err e ↦ alive (s, err e) | ok token ↦ register_added a id token s ])
    on_token id (err e) h = f e
    on_token id (ok token) h = g id token h

    on_handle :
        (h : Result ℕ)
        → Alive P (elim h [
          | err e ↦ alive (s, err e)
          | ok id ↦ elim a.token [
            | err e ↦ alive (s, err e)
            | ok token ↦ register_added a id token s
          ]
        ])
    on_handle (err e) = f e
    on_handle (ok id) = on_token id a.token refl

register_added-Balanced :
    (a : Answers) (n id token : ℕ) (s : Shared)
    → ((t : Shared) → Balanced n t → Balanced n (a.meanwhile t))
    → Balanced n s
    → Alive (λ r. Balanced n r.0) (register_added a id token s)
unfolding register_added
register_added-Balanced a n id token s m h =
    let (r, entry) = upsert s.registry id token a.uuid a.now in
    write_record-Balanced a entry a.bytes n
      (record s { registry = r; torrents = token ∷ s.torrents }) m h

-- An add never aborts the process, and on every path it leaves the count of saves in flight equal to
-- the writes that are queued and the saves that others have under way: a refused record gives its
-- token back. This is if all that the other tasks do meanwhile keeps that balance.
pub add_torrent-Balanced :
    (a : Answers) (n : ℕ) (s : Shared)
    → ((t : Shared) → Balanced n t → Balanced n (a.meanwhile t))
    → Balanced n s
    → Adds (λ r. Balanced n r.0) a s
add_torrent-Balanced a n s m h =
    add_torrent-cases (λ r. Balanced n r.0) a s (λ e. h)
      (λ id token e. register_added-Balanced a n id token s m h)

-- The state behind the await of the acknowledgement: the record was sent, and the others went on.
abbrev pub behind : Answers → TorrentEntry → Bytes → Shared → Shared
behind a entry bytes s = a.meanwhile (record s {
  inflight = suc s.inflight;
  ops = s.ops ++ (write_resume entry.uuid bytes (some a.channel) ∷ []);
})

-- What a successful add makes of the state `t` behind the await. A torrent that is still registered
-- keeps its record. The record of one that was removed meanwhile is deleted again by one more
-- operation, the last in the queue, if the persister still takes one.
abbrev pub Settled : Answers → TorrentEntry → Shared → Shared → Type 0
Settled a entry t q =
    ((is_some (find t.registry entry.uuid) ≡ true) × (q ≡ t))
    ⊎ ((is_some (find t.registry entry.uuid) ≡ false) × (a.accepts_later ≡ false) × (q ≡ t))
    ⊎ ((is_some (find t.registry entry.uuid) ≡ false)
        × (a.accepts_later ≡ true)
        × (q ≡ record t { ops = t.ops ++ (delete_resume entry.uuid ∷ []) }))

-- How an add ends whose torrent came into the session, as `entry`, with the state `s` in which it is
-- registered. Success: the record was acknowledged as written, and `Settled`. Failure: nothing is
-- left of the torrent in the registry, the dirty set and a session that is still there.
abbrev pub Concluded : Answers → TorrentEntry → Shared → Shared × Result TorrentEntry → Type 0
Concluded a entry s (q, ok e) =
    (e ≡ entry)
    × (a.ack ≡ some true)
    × ((bytes : Bytes) × (a.bytes ≡ ok bytes) × Settled a entry (behind a entry bytes s) q)
Concluded a entry s (q, err e) =
    (get_id q.registry entry.id ≡ none)
    × (Set.contains entry.uuid q.dirty ≡ false)
    × ((a.session_left && Set.contains entry.token q.torrents) ≡ false)

-- No lookup of an id finds an entry behind its removal, in any registry.
get_id-remove_by_id : (r : Registry) (id : ℕ) → get_id (remove_by_id r id).0 id ≡ none
unfolding get_id resolve remove_by_id remove_uuid unlink
get_id-remove_by_id r id = elim (Option-cases (get id r.by_id)) [
  | inl n ↦ ground arith
  | inr (u, f) ↦ elim (Option-cases (get u r.by_uuid)) [
    | inl n ↦ ground arith
    | inr (e, g) ↦ ground (arith, get-unlink e.id id u r.by_id, get-remove u u r.by_uuid, ==_refl u)
  ]
]

unwind_failed_add-Concluded :
    (a : Answers) (entry : TorrentEntry) (e : EngineError) (s t : Shared)
    → Concluded a entry s (unwind_failed_add a.session_left entry t, err e)
unfolding unwind_failed_add
unwind_failed_add-Concluded a entry e s t = (
  get_id-remove_by_id t.registry entry.id,
  Set.contains-remove_self entry.uuid t.dirty,
  ground (arith, Set.contains-remove_self entry.token t.torrents),
)

acknowledged-Settled :
    (a : Answers) (entry : TorrentEntry) (t : Shared) → Settled a entry t (acknowledged a entry t)
unfolding acknowledged
acknowledged-Settled a entry t =
    if-cases (Settled a entry t) (is_some (find t.registry entry.uuid)) (λ f. inl (f, refl))
      (λ f.
        if-cases (Settled a entry t) a.accepts_later (λ o. inr (inr (f, o, refl)))
          (λ o. inr (inl (f, o, refl))))

await_ack-Concluded :
    (a : Answers) (entry : TorrentEntry) (ack : Option Bool) (bytes : Bytes) (s : Shared)
    → a.ack ≡ ack
    → a.bytes ≡ ok bytes
    → Concluded a entry s (await_ack a entry ack (behind a entry bytes s))
unfolding await_ack
await_ack-Concluded a entry (some true) bytes s h k =
    (refl, h, (bytes, k, acknowledged-Settled a entry (behind a entry bytes s)))
await_ack-Concluded a entry (some false) bytes s h k =
    unwind_failed_add-Concluded a entry io s (behind a entry bytes s)
await_ack-Concluded a entry none bytes s h k =
    unwind_failed_add-Concluded a entry shutting_down s (behind a entry bytes s)

write_record-Concluded :
    (a : Answers) (entry : TorrentEntry) (bytes : Result Bytes) (s : Shared)
    → a.bytes ≡ bytes
    → Alive (Concluded a entry s) (write_record a entry bytes s)
unfolding write_record inc dec
write_record-Concluded a entry (err e) s h = unwind_failed_add-Concluded a entry e s s
write_record-Concluded a entry (ok bytes) s h =
    if-cases (Alive (Concluded a entry s)) a.accepts
      (λ o. await_ack-Concluded a entry a.ack bytes s refl h)
      (λ o. unwind_failed_add-Concluded a entry shutting_down s s)

-- The state in which a new torrent is registered and in the session.
abbrev pub registered : Answers → ℕ → ℕ → Shared → Shared
registered a id token s = record s {
  registry = (upsert s.registry id token a.uuid a.now).0;
  torrents = token ∷ s.torrents;
}

-- How an add ends that gave the torrent the id and the token.
abbrev pub Ended : Answers → ℕ → ℕ → Shared → Shared × Result TorrentEntry → Type 0
Ended a id token s =
    Concluded a (upsert s.registry id token a.uuid a.now).1 (registered a id token s)

register_added-Concluded :
    (a : Answers) (id token : ℕ) (s : Shared)
    → Alive (Ended a id token s) (register_added a id token s)
unfolding register_added
register_added-Concluded a id token s =
    write_record-Concluded a (upsert s.registry id token a.uuid a.now).1 a.bytes
      (registered a id token s) refl

register_added-add_torrent :
    (a : Answers) (id token : ℕ) (s : Shared)
    → a.running ≡ true
    → a.handle ≡ ok id
    → a.token ≡ ok token
    → register_added a id token s ≡ add_torrent a s
unfolding add_torrent
register_added-add_torrent a id token s r h t = ground arith

-- Where the session takes the torrent and the new handle has its token, an add never aborts the
-- process, whatever the other tasks do meanwhile. It reports success only if the persister has
-- acknowledged the record as written. If the torrent is then still registered, nothing more changes, so
-- its record stays. If it was removed meanwhile, one more operation is queued, last, that deletes the
-- record, unless the persister takes no more. If the add reports a failure, nothing is left of the torrent
-- under its id in the registry, in the dirty set, and in the session if that is still there.
pub add_torrent-Concluded :
    (a : Answers) (id token : ℕ) (s : Shared)
    → a.running ≡ true
    → a.handle ≡ ok id
    → a.token ≡ ok token
    → Adds (Ended a id token s) a s
add_torrent-Concluded a id token s r h t =
    subst (Alive (Ended a id token s)) (register_added-add_torrent a id token s r h t)
      (register_added-Concluded a id token s)
