-- ===== src/Delivery/Splice/Pipes.antt =====
-- crates/sni_router/src/delivery/splice.rs: the pipes of a connection, with the file descriptors that are open
-- for it. What `pipe2` answers and the size that the kernel tells of a pipe, which is 0 when it tells none,
-- are inputs.
use sni_router.Common.{ℕ, List, [], ◌∷◌, Result, ok, err, ltb, ◌==◌, if◌then◌else◌, ◌>>=◌}
use sni_router.Delivery.Resolver.{Failure}

pub record Pipe : Type 0 where
  pub read : ℕ
  pub write : ℕ
  pub capacity : ℕ

-- A process opens the two ends of a pipe, or none.
unfoldable pub raw_pipe : Result Failure (ℕ × ℕ) → List ℕ → List ℕ × Result Failure (ℕ × ℕ)
raw_pipe (err e) open_fds = (open_fds, err e)
raw_pipe (ok (read, write)) open_fds = (read ∷ write ∷ open_fds, ok (read, write))

abbrev pipe_of : ℕ → ℕ → ℕ × ℕ → Pipe
pipe_of buffer_size kernel_size (read, write) = record {
  read = read;
  write = write;
  capacity = if ltb 0 kernel_size then kernel_size else buffer_size;
}

unfoldable pub new : ℕ → Result Failure (ℕ × ℕ) → ℕ → List ℕ → List ℕ × Result Failure Pipe
unfolding raw_pipe
new buffer_size pipe2 kernel_size open_fds =
    let (opened, ends) = raw_pipe pipe2 open_fds in
    (opened, (do fds ← ends; ok (pipe_of buffer_size kernel_size fds)))

-- `close` of a file descriptor that is dropped.
unfoldable pub close : ℕ → List ℕ → List ℕ
close fd [] = []
close fd (f ∷ fds) = let rest = close fd fds in if f == fd then fds else f ∷ rest

-- `Drop` of a pipe.
unfoldable pub drop_pipe : Pipe → List ℕ → List ℕ
unfolding close
drop_pipe pipe open_fds = close pipe.write (close pipe.read open_fds)

-- The pipe towards the client; when it cannot be made, the other is dropped.
unfoldable pub prepare_second :
    ℕ → Pipe → List ℕ × Result Failure Pipe → List ℕ × Result Failure (Pipe × Pipe)
unfolding drop_pipe
prepare_second buffer_size to_upstream (open_fds, ok to_client) =
    (open_fds, ok (to_upstream, to_client))
prepare_second buffer_size to_upstream (open_fds, err e) = (drop_pipe to_upstream open_fds, err e)

-- What `pipe2` answers to each of the two calls, and the sizes.
unfoldable pub prepare :
    ℕ
    → Result Failure (ℕ × ℕ)
    → ℕ
    → Result Failure (ℕ × ℕ)
    → ℕ
    → List ℕ
    → List ℕ × Result Failure (Pipe × Pipe)
unfolding new prepare_second
prepare buffer_size first first_size second second_size open_fds =
    let (opened, made) = new buffer_size first first_size open_fds in
    elim made [
      | err e ↦ (opened, err e)
      | ok to_upstream ↦
          prepare_second buffer_size to_upstream (new buffer_size second second_size opened)
    ]
