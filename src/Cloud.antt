-- ===== src/Cloud.antt =====
-- The upload to the cloud, components/cloud_uploader/.
pub mod TsMux
pub mod Uploader
mod Tests
