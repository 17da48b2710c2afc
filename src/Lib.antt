-- ===== src/Lib.antt =====
-- Verification library of the Vulkan window system integration layer: the layer that makes swapchains
-- for platforms whose driver has none.
--
-- The program. An application calls the entry points in layer/swapchain_api.cpp. For a swapchain that
-- the layer owns they call a `swapchain_base` (wsi/swapchain_base.cpp), whose virtual functions a
-- platform implements (wsi/headless, wsi/display, wsi/wayland). The application acquires an image,
-- renders, and presents it: the request goes into a ring buffer (util/ring_buffer.hpp) and a timed
-- semaphore (util/timed_semaphore.cpp) wakes the page flip thread, which waits for the image's payload
-- (wsi/synchronization.cpp), presents the image and gives it back through a second semaphore, which
-- counts the free images. Frame boundary events go along with the submissions (wsi/frame_boundary.cpp).
-- Before that the loader has created an instance and a device through layer/layer.cpp, which asks
-- wsi/wsi_factory.cpp for the platforms and their extensions and keeps, in layer/private_data.cpp, a
-- dispatch table, the surfaces and the swapchains of each. The memory of images on the platforms with
-- a compositor comes from util/wsialloc.
--
-- The files.
--   Prelude               numbers, Booleans, lists and machine words, and the names of the libraries.
--   Vulkan                result codes and presentation modes; Extensions has the names of extensions.
--   Util/RingBuffer       util/ring_buffer.hpp; `Holds` says which queue a ring holds, Run runs calls.
--   Util/TimedSemaphore   util/timed_semaphore.cpp: `init`, `post`, and `wait` as `wait_enter` up to the
--                         sleep and `wait_wake` after it; Waiters interleaves threads.
--   Util/Helpers          `find_extension` of util/helpers.hpp.
--   Util/ExtensionList    util/extension_list.cpp.
--   Util/UnorderedMap     util/unordered_map.hpp, and util/unordered_set.hpp as a map to a unit.
--   Util/DrmUtils         util/drm/drm_utils.cpp and format_table.c; RoundTrip is about the conversions,
--                         Numbering gives the names numbers for the tests.
--   Util/Wsialloc         util/wsialloc/wsialloc_helpers.c; Layout is about an allocated buffer.
--   Wsi/FrameBoundary     wsi/frame_boundary.cpp.
--   Wsi/Synchronization   the fences and the submission of wsi/synchronization.cpp.
--   Wsi/Swapchain         wsi/swapchain_base.hpp and swapchain_base.cpp. The record `Swapchain` has the
--                         fields of the class; Images is the image array, Wait the waits for free images
--                         and the virtual functions (`Backend`), Acquire `acquire_next_image`, Present
--                         the page flip thread and `notify_presentation_engine`, QueuePresent
--                         `queue_present`, Query the listing and releasing functions, Lifecycle `init`
--                         and `teardown`. Scan and Signals are about Acquire.
--   Wsi/Headless          wsi/headless/swapchain.cpp, as a `Backend`.
--   Wsi/SurfaceProperties  wsi/surface_properties.hpp and surface_properties.cpp; Headless has the modes of
--                         wsi/headless/surface_properties.cpp, Capabilities the capabilities, the modes and
--                         the compatible modes of every platform, HeadlessFormats the formats of a headless
--                         surface.
--   Wsi/TimeDomains       wsi/time_domains.cpp, the domains of the platforms and the query in
--                         layer/present_timing.cpp.
--   Wsi/Wayland           wsi/wayland/swapchain.cpp and surface.cpp: the buffers of the images and the waits.
--                         Formats is wsi/wayland/surface_properties.cpp, and FormatsKept about its map;
--                         Creation makes an image, Present presents it, and PresentOutcome is about it.
--   Wsi/Display/DrmDisplay  wsi/display/drm_display.cpp; Choice is about a display that was made.
--   Wsi/Display/SurfaceProperties  the entry points of wsi/display/surface_properties.cpp, and those of the
--                         other platforms that make surfaces, which Modes is about; Formats has the
--                         formats of a surface on a display.
--   Wsi/Display/Swapchain  wsi/display/swapchain.cpp and util/format_modifiers.cpp: the formats of images;
--                         Creation makes an image, which Negotiation is about. Framebuffers has the memory, the
--                         framebuffer and the release of an image, with the handles of drm_display.hpp,
--                         and Released what a lifetime leaves; Present is `present_image`, PageFlip is
--                         about its wait and Shown about the image on the screen.
--   Wsi/System            the application's thread and the page flip thread of one headless swapchain,
--                         as a step relation; Invariant is what the steps keep, Promises what the
--                         threads may rely on, Start that `init` leads to a first state.
--   Wsi/CompatiblePresentModes  wsi/compatible_present_modes.hpp.
--   Wsi/ExternalMemory    wsi/external_memory.cpp.
--   Wsi/Factory           wsi/wsi_factory.cpp, util/platform_set.hpp and the lists of required extensions
--                         in wsi/*/surface_properties.cpp; Platforms and Required are about them.
--   Layer/PrivateData     layer/private_data.cpp and .hpp: Dispatch the dispatch tables, Entrypoints the
--                         layer's lists of functions, Registry the maps of instances and devices, with
--                         the data that were created and destroyed, Surfaces and Swapchains the objects
--                         of an instance and of a device. Visible is about the dispatch tables.
--   Layer/Creation        the creation and destruction of instances and devices in layer/layer.cpp, in
--                         Instance and Device, each with what a call leaves in its Outcome.
--   Layer/ProcAddr        the lookup of functions in layer/layer.cpp.
--   Layer/SurfaceApi      layer/surface_api.cpp, without the structure of the experimental build.
--   Layer/SwapchainApi    layer/swapchain_api.cpp; Present and Bind are its two longer entry points.
--
-- Conventions. Handles are numbers and 0 is the null handle. The answers of the driver, of the host's
-- allocator and of the operating system are arguments. Counters are words of 32 or 64 bits that wrap.
-- A call that sleeps takes what other threads do meanwhile as the argument `env`. Loops over lists are
-- recursive on the list, loops over a number on that number, so nothing runs out of fuel; the loop of
-- the page flip thread is a sequence of steps, and its loop while the driver answers a timeout runs
-- over the list of answers. Indices past an array, which the code excludes by assertions, read a null
-- value and write nothing.
--
-- In the step relation the swapchain has no ancestor and no descendant that is an object of its own:
-- whether a descendant has started presenting is an argument of a present. The application presents
-- and releases images that it has acquired. A wait that sleeps is two steps: the sleep, and the wake-up
-- by the signal of a post, by the deadline, or by neither, which POSIX allows and after which the code
-- takes a count that need not be there. The ghost field `spurious` counts these last wake-ups, and the
-- theorems about the counts are about states where it is 0. The ghost field `lost` counts acquisitions
-- that took a count and ended without an image and without destroying one: a deferred image that
-- could not be allocated and stays so.
--
-- The names of functions and extensions are numbers, since the code only tells them apart. The table
-- of an instance and of a device is populated from the lists of Entrypoints, without those of the
-- experimental build.
--
-- The numbers of the Vulkan and DRM formats come from headers outside the repository and are an
-- argument (`Codes`), of which the conversions need that no two names have one number (`IsDistinct`).
-- What the other threads do while the wait for the pending images sleeps is a law where it is said to
-- end (`Shows`). What `select` does to its set of descriptors is a law (`IsSelect`). The wait for a page flip runs on a
-- number of rounds, and `none` is a wait that has not ended by then: the theorems say for which answers
-- of the kernel it ends. The list of the formats of a display is as long as what the code writes, and
-- the array of the code is not.
--
-- Not modelled: the registry of a Wayland surface, image compression control beyond its flags, the heaps
-- behind wsialloc and the negotiation with the loader. They forward to the driver and to system
-- libraries for the most part. Logging and most containers are not modelled, and mutexes only as the
-- atomicity of a step.
mod Prelude
pub mod Vulkan
pub mod Util
pub mod Wsi
pub mod Layer
