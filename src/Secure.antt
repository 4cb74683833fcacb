-- ===== src/Secure.antt =====
-- runtime/secure: the response headers that protect a browser.
pub mod Source
pub mod Directive
pub mod Span
pub mod Builder
pub mod Options
pub mod Policy
pub mod Response
pub mod Examples
