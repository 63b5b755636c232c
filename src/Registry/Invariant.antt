-- ===== src/Registry/Invariant.antt =====
-- What holds of the registry of registry.rs between two calls.
use rsbtd.Base.{
  ℕ, ◌≡◌, none, some, arith, ◌==◌, if◌then◌else◌, inl, inr, ◌&&◌, Bool-cases, Option-cases,
}
use rsbtd.Base.Map.{Map, get, remove, get-insert, get-remove}
use rsbtd.Registry.{
  Registry, TorrentEntry, new, resolve, get_id, find, find_by_token, register, upsert, unlink,
  points_at, remove_uuid, remove_by_id, remove_by_token,
}

-- Every entry stands under its own uuid and is reached by its id and its token, and an index
-- points only at entries that carry the key.
pub record Inv (r : Registry) : Type 0 where
  pub keyed : (u : ℕ) (e : TorrentEntry) → get u r.by_uuid ≡ some e → e.uuid ≡ u
  pub has_id : (u : ℕ) (e : TorrentEntry) → get u r.by_uuid ≡ some e → get e.id r.by_id ≡ some u
  pub has_token :
      (u : ℕ) (e : TorrentEntry) → get u r.by_uuid ≡ some e → get e.token r.by_token ≡ some u
  pub id_live :
      (i u : ℕ)
      → get i r.by_id ≡ some u
      → (e : TorrentEntry) × (get u r.by_uuid ≡ some e) × (e.id ≡ i)
  pub token_live :
      (t u : ℕ)
      → get t r.by_token ≡ some u
      → (e : TorrentEntry) × (get u r.by_uuid ≡ some e) × (e.token ≡ t)

pub new-Inv : Inv new
unfolding new get
new-Inv = record {
  keyed = λ u e h. cc;
  has_id = λ u e h. cc;
  has_token = λ u e h. cc;
  id_live = λ i u h. cc;
  token_live = λ i u h. cc;
}

module _ (r : Registry) (e : TorrentEntry) (v : Inv r) where
  -- An index entry behind `insert` leads to the new entry, or where it led before.
  id_live-register :
      (i u : ℕ)
      → get e.uuid r.by_uuid ≡ none
      → get i (register r e).by_id ≡ some u
      → (x : TorrentEntry) × (get u (register r e).by_uuid ≡ some x) × (x.id ≡ i)
  unfolding register
  id_live-register i u nu h = elim (Bool-cases (e.id == i)) [
    | inl hit ↦ (
      e,
      ground (arith, get-insert e.uuid u e r.by_uuid, get-insert e.id i e.uuid r.by_id),
      ground arith,
    )
    | inr miss ↦
        let (x, p, q) = v.id_live i u (ground (arith, get-insert e.id i e.uuid r.by_id)) in
        (x, ground (arith, get-insert e.uuid u e r.by_uuid), q)
  ]

  token_live-register :
      (t u : ℕ)
      → get e.uuid r.by_uuid ≡ none
      → get t (register r e).by_token ≡ some u
      → (x : TorrentEntry) × (get u (register r e).by_uuid ≡ some x) × (x.token ≡ t)
  unfolding register
  token_live-register t u nu h = elim (Bool-cases (e.token == t)) [
    | inl hit ↦ (
      e,
      ground (arith, get-insert e.uuid u e r.by_uuid, get-insert e.token t e.uuid r.by_token),
      ground arith,
    )
    | inr miss ↦
        let (x, p, q) = v.token_live t u (ground (arith, get-insert e.token t e.uuid r.by_token)) in
        (x, ground (arith, get-insert e.uuid u e r.by_uuid), q)
  ]

  register-Inv :
      get e.uuid r.by_uuid ≡ none
      → get e.id r.by_id ≡ none
      → get e.token r.by_token ≡ none
      → Inv (register r e)
  unfolding register
  register-Inv nu ni nt = record {
    keyed = λ u x h. ground (arith, get-insert e.uuid u e r.by_uuid, v.keyed u x);
    has_id = λ u x h.
        ground (
          arith,
          get-insert e.uuid u e r.by_uuid,
          get-insert e.id x.id e.uuid r.by_id,
          v.has_id u x,
        );
    has_token = λ u x h. ground (
      arith,
      get-insert e.uuid u e r.by_uuid,
      get-insert e.token x.token e.uuid r.by_token,
      v.has_token u x,
    );
    id_live = λ i u. id_live-register i u nu;
    token_live = λ t u. token_live-register t u nu;
  }

-- Under the invariant a lookup that fails had no index entry to follow.
get_id-none : (r : Registry) (i : ℕ) → Inv r → get_id r i ≡ none → get i r.by_id ≡ none
unfolding get_id resolve
get_id-none r i v h = elim (Option-cases (get i r.by_id)) [
  | inl e ↦ e
  | inr (u, e) ↦ let (x, p, q) = v.id_live i u e in ground arith
]

find_by_token-none :
    (r : Registry) (t : ℕ) → Inv r → find_by_token r t ≡ none → get t r.by_token ≡ none
unfolding find_by_token resolve
find_by_token-none r t v h = elim (Option-cases (get t r.by_token)) [
  | inl e ↦ e
  | inr (u, e) ↦ let (x, p, q) = v.token_live t u e in ground arith
]

-- `upsert` keeps the invariant if a torrent whose id is new brings a uuid and a client-data token
-- that no registered torrent has.
pub upsert-Inv :
    (r : Registry) (id token uuid now : ℕ)
    → (get_id r id ≡ none → (find r uuid ≡ none) × (find_by_token r token ≡ none))
    → Inv r
    → Inv (upsert r id token uuid now).0
unfolding upsert find
upsert-Inv r id token uuid now fresh v = elim (Option-cases (get_id r id)) [
  | inr (e, h) ↦ rw (h, upsert) v
  | inl h ↦
      let (nu, nt) = fresh h in
      rw (h, upsert)
        (register-Inv r _ v nu (get_id-none r id v h) (find_by_token-none r token v nt))
]

pub get-unlink :
    (key j uuid : ℕ) (index : Map ℕ)
    → get j (unlink key uuid index)
      ≡ (if key == j && points_at (get key index) uuid then none else get j index)
unfolding unlink
get-unlink key j uuid index = ground (arith, get-remove key j index)

module _ (r : Registry) (uuid : ℕ) (e : TorrentEntry) (v : Inv r)
    (h : get uuid r.by_uuid ≡ some e) where
  abbrev rest : Registry
  rest = record {
    by_uuid = remove uuid r.by_uuid;
    by_id = unlink e.id uuid r.by_id;
    by_token = unlink e.token uuid r.by_token;
  }

  rest-Inv : Inv rest
  rest-Inv = record {
    keyed = λ u x g. ground (arith, get-remove uuid u r.by_uuid, v.keyed u x);
    has_id = λ u x g. ground (
      arith,
      get-remove uuid u r.by_uuid,
      get-unlink e.id x.id uuid r.by_id,
      v.has_id u x,
      v.has_id uuid e h,
    );
    has_token = λ u x g. ground (
      arith,
      get-remove uuid u r.by_uuid,
      get-unlink e.token x.token uuid r.by_token,
      v.has_token u x,
      v.has_token uuid e h,
    );
    id_live = λ i u g.
        let (x, p, q) = v.id_live i u (ground (arith, get-unlink e.id i uuid r.by_id)) in
        (
          x,
          ground (
            arith,
            get-remove uuid u r.by_uuid,
            get-unlink e.id i uuid r.by_id,
            v.has_id uuid e h,
          ),
          q,
        );
    token_live = λ t u g.
        let (x, p, q) = v.token_live t u (ground (arith, get-unlink e.token t uuid r.by_token)) in
        (
          x,
          ground (
            arith,
            get-remove uuid u r.by_uuid,
            get-unlink e.token t uuid r.by_token,
            v.has_token uuid e h,
          ),
          q,
        );
  }

pub remove_uuid-Inv : (r : Registry) (uuid : ℕ) → Inv r → Inv (remove_uuid r uuid).0
unfolding remove_uuid
remove_uuid-Inv r uuid v = elim (Option-cases (get uuid r.by_uuid)) [
  | inl h ↦ rw (h, remove_uuid) v
  | inr (e, h) ↦ rw (h, remove_uuid) (rest-Inv r uuid e v h)
]

pub remove_by_id-Inv : (r : Registry) (id : ℕ) → Inv r → Inv (remove_by_id r id).0
unfolding remove_by_id
remove_by_id-Inv r id v = elim (Option-cases (get id r.by_id)) [
  | inl h ↦ rw (h, remove_by_id) v
  | inr (u, h) ↦ rw (h, remove_by_id) (remove_uuid-Inv r u v)
]

pub remove_by_token-Inv : (r : Registry) (token : ℕ) → Inv r → Inv (remove_by_token r token).0
unfolding remove_by_token
remove_by_token-Inv r token v = elim (Option-cases (get token r.by_token)) [
  | inl h ↦ rw (h, remove_by_token) v
  | inr (u, h) ↦ rw (h, remove_by_token) (remove_uuid-Inv r u v)
]
