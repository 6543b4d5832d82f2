-- ===== src/Storage.antt =====
-- internal/storage: the SQLite store of tokens and permissions.
pub mod Types
pub mod Db
pub mod Tokens
pub mod Permissions
pub mod Reads
pub mod Leaves
pub mod Valid
pub mod Listing
pub mod Connection
pub mod Crypto
