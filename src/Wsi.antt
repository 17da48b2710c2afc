-- ===== src/Wsi.antt =====
-- The classes of the directory wsi.
pub mod FrameBoundary
pub mod Synchronization
pub mod Swapchain
pub mod CompatiblePresentModes
pub mod ExternalMemory
pub mod Headless
pub mod System
pub mod Tests
pub mod LifecycleTests
pub mod Factory
pub mod Display
pub mod SurfaceProperties
pub mod TimeDomains
pub mod Wayland
pub mod PlatformTests
pub mod DisplayTests
pub mod WaylandTests
pub mod DisplaySwapchainTests
