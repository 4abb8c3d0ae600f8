-- ===== src/Delivery/Proxy.antt =====
-- crates/sni_router/src/delivery/proxy.rs: the proxy stage.
pub mod Idle
use sni_router.Common.{
  ℕ, ◌+◌, Bool, true, false, List, [], ◌∷◌, Option, none, some, Result, ok, err, leb, if◌then◌else◌,
}
use sni_router.Delivery.Resolver.{Failure}
use sni_router.Delivery.Metered.{Activity, last}
use sni_router.Delivery.Splice.Admission.{Admission, try_acquire, release}

pub data ProxyEnd : Type 0 where
  finished idle forced : ProxyEnd
  error : Failure → ProxyEnd

abbrev copied : Result Failure (Unit {0}) → ProxyEnd
copied (ok done) = finished
copied (err e) = error e

-- Which of its three futures the stage ends with: the first of them that is ready when it is polled.
unfoldable pub proxy : Bool → Bool → Result Failure (Unit {0}) → ProxyEnd
proxy force_cancelled idle_expired result =
    if force_cancelled then forced else if idle_expired then idle else copied result

-- The two ways to copy, with the admission while the copy runs.
pub data CopyPath : Type 0 where
  splice portable : Admission → CopyPath

-- `copy` on Linux, up to its choice: whether pipes are usable here, the permits, and whether the pipes of
-- this connection can be made.
unfoldable pub copy : Bool → Admission → Bool → CopyPath
unfolding try_acquire release
copy available admission prepared =
    let (taken, permitted) = try_acquire admission in
    if available
    then if permitted
      then if prepared then splice taken else portable (release taken)
      else portable admission
    else portable admission

-- The loop of `idle_expired`, at the times that it wakes up: whether it returns at one of them. An instant
-- that cannot be represented is never reached.
unfoldable pub idle_loop : (ℕ → Bool) → ℕ → List (ℕ × Activity) → Bool
unfolding last
idle_loop representable idle_timeout [] = false
idle_loop representable idle_timeout ((now, activity) ∷ wakes) =
    let deadline = last activity + idle_timeout in
    let later = idle_loop representable idle_timeout wakes in
    if representable deadline then if leb deadline now then true else later else false

unfoldable pub idle_expired : (ℕ → Bool) → Option ℕ → List (ℕ × Activity) → Bool
unfolding idle_loop
idle_expired representable none wakes = false
idle_expired representable (some idle_timeout) wakes = idle_loop representable idle_timeout wakes
