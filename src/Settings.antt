-- ===== src/Settings.antt =====
-- rbtorrent/src/settings: the settings pack, its keys and the typed setters and getters over it.
-- A pack is libtorrent's: for each kind a partial map from keys to values; a key of another kind than the
-- call's is never used, since each setter and getter has its own key. A setter that can refuse does so
-- before it stages anything, so it returns the new pack or the error. `value as i32` of an enum is the
-- number that its header gives.
pub mod Int
pub mod Texts
pub mod Pack
pub mod Enums
pub mod Ipv6
pub mod Tokens
pub mod Bandwidth
pub mod Connections
pub mod Dht
pub mod Net
pub mod Storage
pub mod Tracker
pub mod Table
