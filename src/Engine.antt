-- ===== src/Engine.antt =====
-- The engine's operations of rsbtd/src/engine/mod.rs, which the API calls.
-- `Option Session` is the session while the engine runs; a handle is found by the entry's token.
pub mod Queries
pub mod Matching
pub mod Saving
pub mod Removing
pub mod Settings
pub mod Rollback
pub mod Adding
pub mod Durable
pub mod Restoring
pub mod Recovered
mod Tests
use rsbtd.Base.{ℕ, Bool, Option, none, some, if◌then◌else◌}
use rsbtd.Alerts.{Session}
use rsbtd.Errors.{Result, ok, err, ◌>>=◌, not_found, shutting_down}
use rsbtd.Registry.{TorrentEntry}

unfoldable pub session : Option Session → Result Session
session none = err shutting_down
session (some s) = ok s

-- `find_torrent_by_token(entry.token).ok_or(NotFound)` on the running session.
unfoldable pub live_handle : Option Session → TorrentEntry → Result Session
live_handle running entry = do
  s ← session running
  if s.has_token entry.token then ok s else err not_found

unfoldable pub with_handle {ℓ} :
    {A : Type ℓ} → Option Session → TorrentEntry → (Session → A) → Result A
with_handle running entry f = do s ← live_handle running entry; ok (f s)
