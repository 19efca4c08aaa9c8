-- ===== src/NetCcl.antt =====
-- NetCCL as a whole, from the training process to the workers: the daemon of
-- server/frontend/src/c/daemon.cpp and the backend of server/backend, over the queue pair and the operation
-- buffer that they share (server/backend/main.cpp, server/frontend/src/c/api.cpp).
pub mod Run
pub mod Sound
pub mod Promises
mod Tests
use clean_slate_inc.Prelude.{ℕ, List}
use clean_slate_inc.Backend.{Backend}
use clean_slate_inc.Daemon.{Daemon}
use clean_slate_inc.Worker.Defs.{Worker}

-- The daemon with its two queue pairs and the operation buffer, the workers and the data buffer.
pub record NetCcl (A B L F : Type 0) : Type 0 where
  pub daemon : Daemon A
  pub workers : List (Worker B L F)
  pub mem : ℕ → ℕ

module _ {A B L F : Type 0} where
  -- What the backend has mapped of it.
  abbrev pub backend_of : NetCcl A B L F → Backend A B L F
  backend_of s = record { shm_qp = s.daemon.shm_qp; workers = s.workers; mem = s.mem }

  abbrev pub put_backend : NetCcl A B L F → Backend A B L F → NetCcl A B L F
  put_backend s b = record {
    daemon = record s.daemon { shm_qp = b.shm_qp };
    workers = b.workers;
    mem = b.mem;
  }
