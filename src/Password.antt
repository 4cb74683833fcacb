-- ===== src/Password.antt =====
-- runtime/password: parameter sets and their benchmark, the stored form of a hash, and the policy.
pub mod Params
pub mod Encoding
pub mod Policy
pub mod Examples
