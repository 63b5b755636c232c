-- ===== src/Pump/Gone.antt =====
-- What the arms of `handle_alert` (rsbtd/src/engine/pump.rs) do for a torrent that is not registered: it
-- stays gone, and no write of its resume file is queued.
use rsbtd.Base.{
  ℕ, ◌≡◌, refl, Bool, true, false, List, [], ◌∷◌, ◌++◌, Option, none, some, arith, inl, inr, ◌∙◌,
  ap, subst, sym, ◌==◌, Option-cases, Bool-cases, append-nil, All, All-append, append_assoc,
}
use rsbtd.Base.Map.{get, get-remove}
use rsbtd.Inflight.{Process, alive, aborted, ◌>>=◌, dec}
use rsbtd.Events.{EventKind, ResumeFailure}
use rsbtd.Persist.{PersistOp, write_resume, delete_resume}
use rsbtd.Registry.{Registry, TorrentEntry, get_id, find, remove_by_token, remove_uuid}
use rsbtd.Types.{InfoHash}
use rsbtd.Alerts.{AlertHandle, Session, Serialized}
use rsbtd.Pump.{
  Pump, publish, push, release, post_save, request_save, take_pending_delete, on_torrent_removed,
  on_torrent_finished, on_save_resume_data, on_storage_moved, on_metadata_received, report_delete,
}

abbrev pub is_write_of : ℕ → PersistOp → Bool
is_write_of u (write_resume uuid bytes ack) = uuid == u
is_write_of u _ = false

-- The queue `ys` is `xs` with further operations, none of them a write of the torrent.
abbrev pub Later : ℕ → List PersistOp → List PersistOp → Type 0
Later u xs ys =
    (later : List PersistOp) × (ys ≡ xs ++ later) × All (λ op. is_write_of u op ≡ false) later

pub Later-refl : (u : ℕ) (xs : List PersistOp) → Later u xs xs
Later-refl u xs = ([], sym (append-nil xs), tt)

Later-one :
    (u : ℕ) (xs : List PersistOp) (op : PersistOp)
    → is_write_of u op ≡ false
    → Later u xs (xs ++ (op ∷ []))
Later-one u xs op h = (op ∷ [], refl, (h, tt))

Later-trans : (u : ℕ) (xs ys zs : List PersistOp) → Later u xs ys → Later u ys zs → Later u xs zs
Later-trans u xs ys zs (a, e, h) (b, f, k) = (
  a ++ b,
  f ∙ ap (λ l. l ++ b) e ∙ append_assoc xs a b,
  All-append (λ op. is_write_of u op ≡ false) a b h k,
)

-- The torrent is still gone; the process may have aborted.
abbrev pub Gone : ℕ → Pump → Process Pump → Type 0
Gone u p (alive q) = (find q.registry u ≡ none) × Later u p.ops q.ops
Gone u p aborted = Unit

pub Gone-bind :
    (u : ℕ) (p : Pump) (m : Process Pump) (f : Pump → Process Pump)
    → Gone u p m
    → ((q : Pump) → find q.registry u ≡ none → Gone u q (f q))
    → Gone u p (m >>= f)
Gone-bind u p (alive q) f (n, l) k = Gone-trans (f q) (k q n)
  where
    Gone-trans : (m : Process Pump) → Gone u q m → Gone u p m
    Gone-trans (alive t) (s, r) = (s, Later-trans u p.ops q.ops t.ops l r)
    Gone-trans aborted r = tt
Gone-bind u p aborted f h k = tt

-- Registry and queue stay.
pub kept :
    (u : ℕ) (p q : Pump)
    → q.registry ≡ p.registry
    → q.ops ≡ p.ops
    → find p.registry u ≡ none
    → Gone u p (alive q)
kept u p q r o n = (ap (λ x. find x u) r ∙ n, subst (Later u p.ops) (sym o) (Later-refl u p.ops))

pub publish-Gone :
    (u : ℕ) (t : Option ℕ) (k : EventKind) (p : Pump)
    → find p.registry u ≡ none
    → Gone u p (alive (publish t k p))
unfolding publish
publish-Gone u t k p n = (n, Later-refl u p.ops)

pub release-Gone : (u : ℕ) (p : Pump) → find p.registry u ≡ none → Gone u p (release p)
unfolding release dec
release-Gone u p n = ground (arith, n, Later-refl u p.ops)

post_save-Gone :
    (se : Session) (u token flags : ℕ) (p : Pump)
    → find p.registry u ≡ none
    → Gone u p (post_save se token flags p)
unfolding post_save release dec
post_save-Gone se u token flags p n = ground (arith, n, Later-refl u p.ops)

request_save-Gone :
    (se : Session) (u uuid flags : ℕ) (p : Pump)
    → find p.registry u ≡ none
    → Gone u p (request_save se uuid flags p)
unfolding request_save
request_save-Gone se u uuid flags p n = elim (Option-cases (find p.registry uuid)) [
  | inl k ↦ ground (arith, n, k, Later-refl u p.ops)
  | inr (x, k) ↦ ground (arith, n, k, Later-refl u p.ops, post_save-Gone se u x.token flags p n)
]

-- A request followed by a publication.
requests-Gone :
    (se : Session) (u uuid flags : ℕ) (t : Option ℕ) (k : EventKind) (p : Pump)
    → find p.registry u ≡ none
    → Gone u p (request_save se uuid flags p >>= λ q. alive (publish t k q))
unfolding publish
requests-Gone se u uuid flags t k p n =
    Gone-bind u p (request_save se uuid flags p) (λ q. alive (publish t k q))
      (request_save-Gone se u uuid flags p n) (λ q m. publish-Gone u t k q m)

remove_uuid-find :
    (r : Registry) (uuid u : ℕ) → find r u ≡ none → find (remove_uuid r uuid).0 u ≡ none
unfolding remove_uuid find
remove_uuid-find r uuid u n = elim (Option-cases (get uuid r.by_uuid)) [
  | inl k ↦ ground (arith, n, k)
  | inr (x, k) ↦ ground (arith, n, k, get-remove uuid u r.by_uuid)
]

remove_by_token-find :
    (r : Registry) (token u : ℕ) → find r u ≡ none → find (remove_by_token r token).0 u ≡ none
unfolding remove_by_token
remove_by_token-find r token u n = elim (Option-cases (get token r.by_token)) [
  | inl k ↦ ground (arith, n, k)
  | inr (uuid, k) ↦ ground (arith, k, remove_uuid-find r uuid u n)
]

pub on_torrent_removed-Gone :
    (u token : ℕ) (p : Pump)
    → find p.registry u ≡ none
    → Gone u p (alive (on_torrent_removed token p))
unfolding on_torrent_removed publish push
on_torrent_removed-Gone u token p n = elim (Option-cases (remove_by_token p.registry token).1) [
  | inl k ↦ ground (arith, k, remove_by_token-find p.registry token u n, Later-refl u p.ops)
  | inr (x, k) ↦ ground (
    arith,
    k,
    remove_by_token-find p.registry token u n,
    Later-one u p.ops (delete_resume x.uuid) refl,
  )
]

same_number : (v u : ℕ) → (v == u) ≡ true → v ≡ u
same_number v u e = ground (arith, e)

other_torrent :
    (u v : ℕ) (r : Registry) (x : TorrentEntry)
    → find r u ≡ none
    → find r v ≡ some x
    → (v == u) ≡ false
other_torrent u v r x n k = elim (Bool-cases (v == u)) [
  | inl e ↦ absurd (cc (n, k, ap (find r) (same_number v u e)))
  | inr e ↦ e
]

serialized-Gone :
    (u v : ℕ) (b : Serialized) (p : Pump)
    → find p.registry u ≡ none
    → (v == u) ≡ false
    → Gone u p (elim b [
      | Serialized.bytes data_ ↦ alive (push (write_resume v data_ none) p)
      | Serialized.error e ↦ release p >>= λ q.
          alive (publish (some v) (EventKind.resume_data_failed (ResumeFailure.not_serialized e)) q)
    ])
unfolding push publish
serialized-Gone u v (Serialized.bytes data_) p n d =
    (n, Later-one u p.ops (write_resume v data_ none) d)
serialized-Gone u v (Serialized.error e) p n d =
    Gone-bind u p (release p)
      (λ q.
        alive (publish (some v) (EventKind.resume_data_failed (ResumeFailure.not_serialized e)) q))
      (release-Gone u p n)
      (λ q m.
        publish-Gone u (some v) (EventKind.resume_data_failed (ResumeFailure.not_serialized e)) q m)

-- A save is written only for a registered torrent, so not for this one.
pub on_save_resume_data-Gone :
    (u : ℕ) (t : Option ℕ) (b : Serialized) (p : Pump)
    → find p.registry u ≡ none
    → Gone u p (on_save_resume_data t b p)
unfolding on_save_resume_data push publish
on_save_resume_data-Gone u none b p n = release-Gone u p n
on_save_resume_data-Gone u (some v) b p n = elim (Option-cases (find p.registry v)) [
  | inl k ↦ ground (arith, k, release-Gone u p n)
  | inr (x, k) ↦
      rw (k, on_save_resume_data) (serialized-Gone u v b p n (other_torrent u v p.registry x n k))
]

pub on_metadata_received-Gone :
    (se : Session) (u : ℕ) (h : Option AlertHandle) (p : Pump)
    → find p.registry u ≡ none
    → Gone u p (on_metadata_received se h p)
unfolding on_metadata_received
on_metadata_received-Gone se u none p n = kept u p p refl refl n
on_metadata_received-Gone se u (some h) p n = elim (Option-cases (get_id p.registry h.id)) [
  | inl k ↦ rw (k, on_metadata_received) (kept u p p refl refl n)
  | inr (x, k) ↦ rw (k, on_metadata_received) (requests-Gone se u x.uuid _ _ _ p n)
]

pub on_torrent_finished-Gone :
    (se : Session) (u : ℕ) (t : Option ℕ) (p : Pump)
    → find p.registry u ≡ none
    → Gone u p (on_torrent_finished se t p)
unfolding on_torrent_finished
on_torrent_finished-Gone se u none p n = kept u p p refl refl n
on_torrent_finished-Gone se u (some uuid) p n = requests-Gone se u uuid _ _ _ p n

pub on_storage_moved-Gone :
    (se : Session) (u : ℕ) (t : Option ℕ) (k : EventKind) (p : Pump)
    → find p.registry u ≡ none
    → Gone u p (on_storage_moved se t k p)
unfolding on_storage_moved
on_storage_moved-Gone se u none k p n = publish-Gone u none k p n
on_storage_moved-Gone se u (some uuid) k p n = requests-Gone se u uuid _ _ _ p n

pub report_delete-Gone :
    (u : ℕ) (h : InfoHash) (k : EventKind) (p : Pump)
    → find p.registry u ≡ none
    → Gone u p (report_delete h k p)
unfolding report_delete take_pending_delete publish
report_delete-Gone u h k p n = ground (arith, n, Later-refl u p.ops)
