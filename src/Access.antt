-- ===== src/Access.antt =====
-- Who may come in: the one-time tokens and sessions of src/store-d1.ts and the operator credentials of
-- src/operator-auth.ts. Instants are counted in milliseconds; the columns hold ISO 8601 texts of one
-- shape, which compare as the instants do.
pub mod Tokens
pub mod Once
pub mod Operators
pub mod Scopes
pub mod Resolve
mod Tests
