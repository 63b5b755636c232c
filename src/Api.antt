-- ===== src/Api.antt =====
-- rsbtd/src/api/settings: the typed settings of the GraphQL interface, written to a delta of libtorrent's
-- settings and read from the effective pack.
pub mod Input
pub mod Agent
pub mod Proxy
pub mod I2p
pub mod Hosts
pub mod Encryption
pub mod Transports
pub mod Modes
pub mod Lists
pub mod Scalar
pub mod Catalog
pub mod Groups
pub mod Whole
pub mod Refusals
mod Tests
pub mod RoundTrip
