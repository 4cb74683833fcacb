-- ===== src/Authz.antt =====
-- runtime/authz: the shape of names (Names), permission sets and roles (Permission, Sets), and the
-- closed catalog of an application (Catalog, Closed, Grants).
pub mod Names
pub mod Permission
pub mod Sets
pub mod Catalog
pub mod Closed
pub mod Grants
pub mod Examples
