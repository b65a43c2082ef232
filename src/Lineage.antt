-- ===== src/Lineage.antt =====
-- backend/app/lineage: the lineage graph.
pub mod Focus
pub mod Store
pub mod Atlas
