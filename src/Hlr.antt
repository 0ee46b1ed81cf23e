-- ===== src/Hlr.antt =====
-- The host library rewriter of src/tools/HLR.
mod Tests
pub mod Statistics
