-- ===== src/Session.antt =====
-- runtime/session: the session policy and the verdict on a stored session (Lifetime), the
-- reauthentication windows (Freshness), tokens and their digests (Token), the derived CSRF token
-- (Csrf) and the cookie policy (Cookie).
pub mod Lifetime
pub mod Freshness
pub mod Token
pub mod Csrf
pub mod Cookie
pub mod Examples
