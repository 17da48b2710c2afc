-- ===== src/Wsi/Synchronization.antt =====
-- wsi/synchronization.hpp and synchronization.cpp: fences with a payload, and queue submissions.
-- The driver's answers are arguments.
use rk_vulkan_wsi_layer.Prelude.{
  ℕ, ◌≤◌, ◌≡◌, Bool, true, false, not, ◌&&◌, List, [], ◌∷◌, Option, none, some, arith, length, ltb,
  replicate, length-replicate, if◌then◌else◌,
}
use rk_vulkan_wsi_layer.Vulkan.{VkResult, success, error_out_of_host_memory, is_success}

pub record FenceSync : Type 0 where
  pub fence : ℕ
  pub has_payload : Bool
  pub payload_finished : Bool

-- `fence_sync::create`: the answer of `vkCreateFence` and the handle that it wrote.
unfoldable pub create : VkResult → ℕ → Option FenceSync
create res fence =
    if is_success res
    then some (record { fence = fence; has_payload = false; payload_finished = false })
    else none

-- The answer of `vkWaitForFences` is used only where the payload is not known to have finished.
unfoldable pub wait_payload : VkResult → FenceSync → VkResult × FenceSync
wait_payload answer f =
    if f.has_payload && not f.payload_finished
    then (answer, if is_success answer then record f { payload_finished = true } else f)
    else (success, f)

-- The answers of `vkResetFences` and of the submission.
unfoldable pub set_payload : VkResult → VkResult → FenceSync → VkResult × FenceSync
set_payload reset submit f =
    if is_success reset
    then (
      submit,
      if is_success submit
          then record f { has_payload = true; payload_finished = false }
          else record f { has_payload = false },
    )
    else (reset, f)

unfoldable pub swap_payload : Bool → FenceSync → Bool × FenceSync
swap_payload new_payload f =
    (f.has_payload, record f { has_payload = new_payload; payload_finished = false })

-- `sync_fd_fence_sync::export_sync_fd`: the answer of `vkGetFenceFdKHR` and the descriptor.
unfoldable pub export_sync_fd : VkResult → ℕ → FenceSync → Option ℕ × FenceSync
unfolding swap_payload
export_sync_fd answer fd f =
    if is_success answer then (some fd, (swap_payload false f).1) else (none, f)

pub data StageFlag : Type 0 where
  bottom_of_pipe : StageFlag

-- The stage flags that a submission waiting on `n` semaphores passes: one on the stack, or an array
-- whose allocation may fail.
unfoldable pub stage_flags : Bool → ℕ → Option (List StageFlag)
stage_flags allocated n =
    if ltb 1 n
    then (if allocated then some (replicate n bottom_of_pipe) else none)
    else some (bottom_of_pipe ∷ [])

unfoldable pub sync_queue_submit : Bool → ℕ → (List StageFlag → VkResult) → VkResult
unfolding stage_flags
sync_queue_submit allocated n submit = elim (stage_flags allocated n) [
  | none ↦ error_out_of_host_memory
  | some flags ↦ submit flags
]

-- What a fence promises: nothing was submitted, something is pending, or it has finished.
pub data Payload : Type 0 where
  nothing pending finished : Payload

abbrev payload_of : Bool → Bool → Payload
payload_of false _ = nothing
payload_of true false = pending
payload_of true true = finished

abbrev pub payload : FenceSync → Payload
payload f = payload_of f.has_payload f.payload_finished

abbrev pub wait_spec : VkResult → Payload → VkResult × Payload
wait_spec answer nothing = (success, nothing)
wait_spec answer pending = (answer, if is_success answer then finished else pending)
wait_spec answer finished = (success, finished)

abbrev pub set_spec : VkResult → VkResult → Payload → VkResult × Payload
set_spec reset submit p =
    if is_success reset
    then (submit, if is_success submit then pending else nothing)
    else (reset, p)

-- A wait for a fence's payload answers as its specification: the driver is asked only while a
-- payload is pending, and a pending payload finishes by a successful wait alone.
pub wait_payload_refines :
    (answer : VkResult) (f : FenceSync)
    → ((wait_payload answer f).0, payload (wait_payload answer f).1) ≡ wait_spec answer (payload f)
unfolding wait_payload
wait_payload_refines answer f = ground arith

-- Setting a fence's payload answers as its specification: a failed reset leaves the payload, and
-- after a reset the payload is pending or, if the submission fails, there is none.
pub set_payload_refines :
    (reset submit : VkResult) (f : FenceSync)
    → ((set_payload reset submit f).0, payload (set_payload reset submit f).1)
      ≡ set_spec reset submit (payload f)
unfolding set_payload
set_payload_refines reset submit f = ground arith

-- An array of stage flags reaches the driver only with a flag for each semaphore waited on.
pub stage_flags_cover :
    (allocated : Bool) (n : ℕ) (flags : List StageFlag)
    → stage_flags allocated n ≡ some flags
    → n ≤ length flags
unfolding stage_flags
stage_flags_cover allocated n flags e = ground (arith, length-replicate n bottom_of_pipe)
