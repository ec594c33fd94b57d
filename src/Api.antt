-- ===== src/Api.antt =====
-- src/api: what guards the HTTP interface.
pub mod AccessTokens
