-- ===== src/Forwarded.antt =====
-- runtime/forwarded: the policy on proxies and the resolution of a request (Policy), and why a client
-- cannot choose the address that it is given (Spoofing, Trusted).
pub mod Policy
pub mod Spoofing
pub mod Trusted
pub mod Examples
