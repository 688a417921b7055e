-- ===== src/Catalog.antt =====
-- The catalog: how a row's coordinates become one storage key (src/catalog).
pub mod KeyEncoding
