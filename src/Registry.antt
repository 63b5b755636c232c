-- ===== src/Registry.antt =====
-- rsbtd/src/engine/registry.rs: the torrents that the engine knows, by uuid, with two indexes.
-- A uuid, an id and a token are numbers. Each method is one critical section of the `RwLock`;
-- `remove_by_token` and `remove_by_id` are two, which this model runs back to back.
-- `SystemTime::now()` is the argument `now`.
pub mod Invariant
pub mod Index
pub mod Removal
mod Tests
use rsbtd.Base.{ℕ, Bool, ◌==◌, if◌then◌else◌, List, Option, none, some, length}
use rsbtd.Base.Map.{Map, get, insert, remove, values}

pub record TorrentEntry : Type 0 where
  pub id : ℕ
  pub token : ℕ
  pub uuid : ℕ
  pub added_at : ℕ

pub record Registry : Type 0 where
  pub by_uuid : Map TorrentEntry
  pub by_id : Map ℕ
  pub by_token : Map ℕ

unfoldable pub new : Registry
new = record { by_uuid = List.[]; by_id = List.[]; by_token = List.[] }

-- The entry that an index points at: `get` and `find_by_token` share this chain.
unfoldable pub resolve : Registry → Option ℕ → Option TorrentEntry
resolve r none = none
resolve r (some uuid) = get uuid r.by_uuid

unfoldable pub get_id : Registry → ℕ → Option TorrentEntry
get_id r id = resolve r (get id r.by_id)

unfoldable pub find : Registry → ℕ → Option TorrentEntry
find r uuid = get uuid r.by_uuid

unfoldable pub find_by_token : Registry → ℕ → Option TorrentEntry
find_by_token r token = resolve r (get token r.by_token)

unfoldable pub list : Registry → List TorrentEntry
list r = values r.by_uuid

unfoldable pub len : Registry → ℕ
len r = length r.by_uuid

unfoldable pub is_empty : Registry → Bool
is_empty r = len r == 0

-- The tail of `upsert`, once no entry stands behind the id.
unfoldable pub register : Registry → TorrentEntry → Registry
register r entry = record {
  by_uuid = insert entry.uuid entry r.by_uuid;
  by_id = insert entry.id entry.uuid r.by_id;
  by_token = insert entry.token entry.uuid r.by_token;
}

unfoldable pub upsert : Registry → ℕ → ℕ → ℕ → ℕ → Registry × TorrentEntry
upsert r id token uuid now = elim (get_id r id) [
  | some entry ↦ (r, entry)
  | none ↦
      let entry : TorrentEntry = record { id = id; token = token; uuid = uuid; added_at = now } in
      (register r entry, entry)
]

-- `inner.by_id.get(&key) == Some(&uuid)`.
abbrev pub points_at : Option ℕ → ℕ → Bool
points_at none uuid = Bool.false
points_at (some u) uuid = u == uuid

-- An index entry is dropped only if it still points at the removed torrent.
unfoldable pub unlink : ℕ → ℕ → Map ℕ → Map ℕ
unlink key uuid index = if points_at (get key index) uuid then remove key index else index

unfoldable pub remove_uuid : Registry → ℕ → Registry × Option TorrentEntry
remove_uuid r uuid = elim (get uuid r.by_uuid) [
  | none ↦ (r, none)
  | some entry ↦ (
    record {
      by_uuid = remove uuid r.by_uuid;
      by_id = unlink entry.id uuid r.by_id;
      by_token = unlink entry.token uuid r.by_token;
    },
    some entry,
  )
]

unfoldable pub remove_by_token : Registry → ℕ → Registry × Option TorrentEntry
remove_by_token r token = elim (get token r.by_token) [
  | none ↦ (r, none)
  | some uuid ↦ remove_uuid r uuid
]

unfoldable pub remove_by_id : Registry → ℕ → Registry × Option TorrentEntry
remove_by_id r id = elim (get id r.by_id) [ none ↦ (r, none) | some uuid ↦ remove_uuid r uuid ]
