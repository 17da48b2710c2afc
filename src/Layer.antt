-- ===== src/Layer.antt =====
-- The entry points of the directory layer.
pub mod SwapchainApi
pub mod SurfaceApi
pub mod SurfaceTests
pub mod Tests
pub mod PrivateData
pub mod Creation
pub mod ProcAddr
pub mod CreationTests
