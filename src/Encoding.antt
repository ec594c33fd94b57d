-- ===== src/Encoding.antt =====
-- The encodings of the protocol: base58btc, CIDs, canonical bytes and library addresses.
pub mod Base58
pub mod Cid
pub mod Canonical
pub mod LibraryAddress
