-- ===== src/Delivery/Splice/Admission/Budget.antt =====
-- crates/sni_router/src/delivery/splice.rs: the file descriptors of all the pipes.
use sni_router.Common.{ℕ, ◌+◌, ◌≤◌, ◌≡◌, true, false, List, [], ◌∷◌, ◌++◌, Result, length}
use sni_router.Delivery.Resolver.{Failure}
use sni_router.Delivery.Splice.Pipes
use sni_router.Delivery.Splice.Pipes.{prepare}
use sni_router.Delivery.Splice.Admission
use sni_router.Delivery.Splice.Admission.{Admission, try_acquire, release}

-- The semaphore of the process, and for each connection that holds a permit its open file descriptors of pipes.
pub record World : Type 0 where
  pub admission : Admission
  pub holders : List (List ℕ)

-- A connection asks for a permit; it makes its pipes; or its file descriptors are closed and it gives the permit
-- back: at its end, or when its pipes cannot be made.
pub data Step (w : World) : World → Type 0 where
  admit :
      (try_acquire w.admission).1 ≡ true
      → Step w record { admission = (try_acquire w.admission).0; holders = [] ∷ w.holders }
  refuse :
      (try_acquire w.admission).1 ≡ false
      → Step w record { admission = (try_acquire w.admission).0; holders = w.holders }
  prepares :
      (before after : List (List ℕ)) (buffer_size : ℕ) (first : Result Failure (ℕ × ℕ))
      (first_size : ℕ) (second : Result Failure (ℕ × ℕ)) (second_size : ℕ)
      → w.holders ≡ before ++ [] ∷ after
      → Step w record {
        admission = w.admission;
        holders = before ++ (prepare buffer_size first first_size second second_size []).0 ∷ after;
      }
  give_back :
      (before : List (List ℕ)) (fds : List ℕ) (after : List (List ℕ))
      → w.holders ≡ before ++ fds ∷ after
      → Step w record { admission = release w.admission; holders = before ++ after }

pub data Run (w : World) : World → Type 0 where
  halt : Run w w
  extend : {v u : World} → Run w v → Step v u → Run w u

-- The number of file descriptors that are open for pipes.
unfoldable pub count_fds : List (List ℕ) → ℕ
count_fds [] = 0
count_fds (fds ∷ holders) = length fds + count_fds holders

abbrev AreFour : List (List ℕ) → Type 0
AreFour [] = Unit
AreFour (fds ∷ holders) = (length fds ≤ 4) × AreFour holders

-- Every permit is free or held, and a holder has at most the ends of two pipes open.
record IsBudgeted (total : ℕ) (w : World) : Type 0 where
  permits : w.admission.permits + length w.holders ≡ total
  four : AreFour w.holders
