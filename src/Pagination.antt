-- ===== src/Pagination.antt =====
-- runtime/pagination: signing keys and key rings (Key), the length-prefixed byte strings that are
-- signed and hashed (Frame, Binding), the cursor codec (Cursor), the request parameters of cursor
-- pagination (Request) and of numbered reports (Report).
pub mod Key
pub mod Frame
pub mod Binding
pub mod Cursor
pub mod Decimal
pub mod Request
pub mod Report
pub mod Examples
