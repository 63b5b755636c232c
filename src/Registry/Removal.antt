-- ===== src/Registry/Removal.antt =====
-- What the removals of registry.rs take away, and that they leave the rest.
use rsbtd.Base.{ℕ, ◌≡◌, none, some, arith, ◌==◌, if◌then◌else◌, inl, inr, Option-cases}
use rsbtd.Base.Map.{get, remove, get-remove}
use rsbtd.Registry.{
  Registry, TorrentEntry, resolve, get_id, find, find_by_token, unlink, remove_uuid, remove_by_id,
  remove_by_token,
}
use rsbtd.Registry.Invariant.{Inv, get-unlink}
use rsbtd.Registry.Index.{get_id_iff, find_by_token_iff}

-- `r'` is `r` without `e`: each lookup answers as before, except that `e` is gone.
pub record Without (r : Registry) (e : TorrentEntry) (r' : Registry) : Type 0 where
  pub by_uuid : (u : ℕ) → find r' u ≡ (if e.uuid == u then none else find r u)
  pub by_id : (i : ℕ) → get_id r' i ≡ (if e.id == i then none else get_id r i)
  pub by_token : (t : ℕ) → find_by_token r' t ≡ (if e.token == t then none else find_by_token r t)

module _ (r : Registry) (e : TorrentEntry) (v : Inv r) (h : find r e.uuid ≡ some e) where
  -- The registry behind the removal, with the entry's uuid put in.
  remove_uuid-some : remove_uuid r e.uuid ≡ (
    record {
      by_uuid = remove e.uuid r.by_uuid;
      by_id = unlink e.id e.uuid r.by_id;
      by_token = unlink e.token e.uuid r.by_token;
    },
    some e,
  )
  unfolding remove_uuid find
  remove_uuid-some = rw (h, remove_uuid)

  index-id : (i : ℕ) → get_id (remove_uuid r e.uuid).0 i ≡ (if e.id == i then none else get_id r i)
  unfolding get_id resolve find
  index-id i = elim (Option-cases (get i r.by_id)) [
    | inl n ↦ rw remove_uuid-some (ground (arith, get-unlink e.id i e.uuid r.by_id, n))
    | inr (u, g) ↦
        let (x, p, q) = v.id_live i u g in
        rw remove_uuid-some (
          ground (
            arith,
            get-unlink e.id i e.uuid r.by_id,
            get-remove e.uuid u r.by_uuid,
            v.has_id e.uuid e h,
          ))
  ]

  index-token :
      (t : ℕ)
      → find_by_token (remove_uuid r e.uuid).0 t
        ≡ (if e.token == t then none else find_by_token r t)
  unfolding find_by_token resolve find
  index-token t = elim (Option-cases (get t r.by_token)) [
    | inl n ↦ rw remove_uuid-some (ground (arith, get-unlink e.token t e.uuid r.by_token, n))
    | inr (u, g) ↦
        let (x, p, q) = v.token_live t u g in
        rw remove_uuid-some (
          ground (
            arith,
            get-unlink e.token t e.uuid r.by_token,
            get-remove e.uuid u r.by_uuid,
            v.has_token e.uuid e h,
          ))
  ]

  remove_uuid-Without : Without r e (remove_uuid r e.uuid).0
  unfolding find
  remove_uuid-Without = record {
    by_uuid = λ u. rw remove_uuid-some (get-remove e.uuid u r.by_uuid);
    by_id = index-id;
    by_token = index-token;
  }

-- Removing by id returns the entry that the id finds and takes it out of all three lookups; every
-- other entry is found as before.
pub remove_by_id-Without :
    (r : Registry) (e : TorrentEntry) (id : ℕ)
    → Inv r
    → get_id r id ≡ some e
    → ((remove_by_id r id).1 ≡ some e) × Without r e (remove_by_id r id).0
unfolding remove_by_id find
remove_by_id-Without r e id v h =
    let (f, q) = (get_id_iff r e v id).0 h in
    let i : get id r.by_id ≡ some e.uuid = ground (arith, v.has_id e.uuid e f) in
    rw (i, remove_by_id) (ground (arith, remove_uuid-some r e v f), remove_uuid-Without r e v f)

-- Removing a registered torrent by its client-data token returns its entry, and every lookup, by uuid,
-- id or token, then answers as before, except that this entry is gone.
pub remove_by_token-Without :
    (r : Registry) (e : TorrentEntry) (token : ℕ)
    → Inv r
    → find_by_token r token ≡ some e
    → ((remove_by_token r token).1 ≡ some e) × Without r e (remove_by_token r token).0
unfolding remove_by_token find
remove_by_token-Without r e token v h =
    let (f, q) = (find_by_token_iff r e v token).0 h in
    let i : get token r.by_token ≡ some e.uuid = ground (arith, v.has_token e.uuid e f) in
    rw (i, remove_by_token) (ground (arith, remove_uuid-some r e v f), remove_uuid-Without r e v f)
