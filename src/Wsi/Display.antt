-- ===== src/Wsi/Display.antt =====
-- wsi/display: the platform that drives a display through the kernel's DRM.
pub mod DrmDisplay
pub mod Swapchain
pub mod SurfaceProperties
