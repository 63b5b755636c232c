-- ===== src/Registry/Index.antt =====
-- What the lookups of registry.rs answer, and what `upsert` registers.
use rsbtd.Base.{ℕ, ◌≡◌, refl, ◌↔◌, ◌⊎◌, none, some, arith, ==_refl, inl, inr, Option-cases}
use rsbtd.Base.Map.{get, get-insert}
use rsbtd.Registry.{Registry, TorrentEntry, resolve, get_id, find, find_by_token, register, upsert}
use rsbtd.Registry.Invariant.{Inv}

module _ (r : Registry) (e : TorrentEntry) (v : Inv r) where
  -- The id index is exact: `get` answers an entry if and only if that entry is registered under
  -- its own uuid and has that id.
  pub get_id_iff : (id : ℕ) → (get_id r id ≡ some e) ↔ ((find r e.uuid ≡ some e) × (e.id ≡ id))
  unfolding get_id find resolve
  get_id_iff id = (to, from)
    where
      to : get_id r id ≡ some e → (find r e.uuid ≡ some e) × (e.id ≡ id)
      to h = elim (Option-cases (get id r.by_id)) [
        | inl n ↦ ground (arith, n)
        | inr (u, g) ↦ let (x, p, q) = v.id_live id u g in ground (arith, v.keyed u e)
      ]

      from : (find r e.uuid ≡ some e) × (e.id ≡ id) → get_id r id ≡ some e
      from (f, q) = ground (arith, v.has_id e.uuid e)

  -- The token index is exact: `find_by_token` answers an entry if and only if that entry is registered
  -- under its own uuid and has that token.
  pub find_by_token_iff :
      (token : ℕ)
      → (find_by_token r token ≡ some e) ↔ ((find r e.uuid ≡ some e) × (e.token ≡ token))
  unfolding find_by_token find resolve
  find_by_token_iff token = (to, from)
    where
      to : find_by_token r token ≡ some e → (find r e.uuid ≡ some e) × (e.token ≡ token)
      to h = elim (Option-cases (get token r.by_token)) [
        | inl n ↦ ground (arith, n)
        | inr (u, g) ↦ let (x, p, q) = v.token_live token u g in ground (arith, v.keyed u e)
      ]

      from : (find r e.uuid ≡ some e) × (e.token ≡ token) → find_by_token r token ≡ some e
      from (f, q) = ground (arith, v.has_token e.uuid e)

-- The two branches of `upsert`.
pub upsert-old :
    (r : Registry) (id token uuid now : ℕ) (e : TorrentEntry)
    → get_id r id ≡ some e
    → upsert r id token uuid now ≡ (r, e)
unfolding upsert
upsert-old r id token uuid now e h = rw (h, upsert)

pub upsert-new :
    (r : Registry) (id token uuid now : ℕ)
    → get_id r id ≡ none
    → let e : TorrentEntry = record { id = id; token = token; uuid = uuid; added_at = now } in
      upsert r id token uuid now ≡ (register r e, e)
unfolding upsert
upsert-new r id token uuid now h = rw (h, upsert)

module _ (r : Registry) (e : TorrentEntry) where
  get_id-register : get_id (register r e) e.id ≡ some e
  unfolding get_id resolve register
  get_id-register = ground (
    arith,
    get-insert e.id e.id e.uuid r.by_id,
    get-insert e.uuid e.uuid e r.by_uuid,
    ==_refl e.id,
    ==_refl e.uuid,
  )

  find_by_token-register : find_by_token (register r e) e.token ≡ some e
  unfolding find_by_token resolve register
  find_by_token-register = ground (
    arith,
    get-insert e.token e.token e.uuid r.by_token,
    get-insert e.uuid e.uuid e r.by_uuid,
    ==_refl e.token,
    ==_refl e.uuid,
  )

  find-register : find (register r e) e.uuid ≡ some e
  unfolding find register
  find-register = ground (arith, get-insert e.uuid e.uuid e r.by_uuid, ==_refl e.uuid)

-- A second `upsert` of an id, with any token, uuid and time, changes nothing and returns the entry
-- of the first: the pump and the caller that added the torrent may register it in either order.
pub upsert_again :
    (r : Registry) (id token uuid now token' uuid' now' : ℕ)
    → let first = upsert r id token uuid now in upsert first.0 id token' uuid' now' ≡ first
upsert_again r id token uuid now token' uuid' now' = elim (Option-cases (get_id r id)) [
  | inr (e, h) ↦ rw (upsert-old r id token uuid now e h) (upsert-old r id token' uuid' now' e h)
  | inl h ↦
      rw (upsert-new r id token uuid now h)
        (upsert-old _ id token' uuid' now' _ (get_id-register r _))
]

-- The entry that `upsert` returns is found by the id and by its own uuid. Either it was registered
-- before and the registry is as it was, or the id was new, the entry has the given fields, and the
-- token finds it too.
pub upsert_registers :
    (r : Registry) (id token uuid now : ℕ)
    → Inv r
    → let (r', e) = upsert r id token uuid now in
      (get_id r' id ≡ some e)
      × (find r' e.uuid ≡ some e)
      × (((get_id r id ≡ some e) × (r' ≡ r))
          ⊎ ((get_id r id ≡ none)
              × (e ≡ record { id = id; token = token; uuid = uuid; added_at = now })
              × (find_by_token r' token ≡ some e)))
upsert_registers r id token uuid now v = elim (Option-cases (get_id r id)) [
  | inr (e, h) ↦
      rw (upsert-old r id token uuid now e h) (h, ((get_id_iff r e v id).0 h).0, inl (h, refl))
  | inl h ↦
      rw (upsert-new r id token uuid now h)
        (get_id-register r _, find-register r _, inr (h, refl, find_by_token-register r _))
]
