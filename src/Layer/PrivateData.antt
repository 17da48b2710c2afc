-- ===== src/Layer/PrivateData.antt =====
-- layer/private_data.cpp: what the layer keeps for an instance and for a device.
pub mod Dispatch
pub mod Visible
pub mod Registry
pub mod Surfaces
pub mod Swapchains
pub mod Entrypoints
