-- ===== src/Factory.antt =====
-- torrent/system/ipc/factory.h and factory.cc: the segments and descriptors of the two routers. The
-- parent and the child work on copies of one factory, on the two sides of a `fork`. A segment is a
-- number that names it; the system calls' success is a parameter.
pub mod Ends
pub mod Initialize
pub mod Granted
pub mod Ready
mod Tests
use shm_ipc.Base.{ℕ, Bool, true, false, not, Option, none, some, List, [], ◌∷◌, if◌then◌else◌}
use shm_ipc.Base.Outcome.{Outcome, returns, throws, internal_error}

-- A segment is `none` once it has been moved to a router; `closed` has the descriptors that were
-- handed to `close`.
pub record RouterFactory : Type 0 where
  pub control_fds : ℕ × ℕ
  pub keepalive_fds : ℕ × ℕ
  pub wakeup_fds : ℕ × ℕ
  pub segment_1 : Option ℕ
  pub segment_2 : Option ℕ
  pub closed : List ℕ

-- `Router::create_args`.
pub record CreateArgs : Type 0 where
  pub is_parent : Bool
  pub control_fd : ℕ
  pub keepalive_fd : ℕ
  pub wakeup_fds : ℕ × ℕ
  pub read_segment : Option ℕ
  pub write_segment : Option ℕ

-- `marked` is whether `fd_set_close_on_exec` succeeds on a descriptor.
unfoldable pub create_parent_router :
    (ℕ → Bool) → RouterFactory → RouterFactory × Outcome CreateArgs
create_parent_router marked f =
    let f' : RouterFactory = record f { closed = f.keepalive_fds.1 ∷ f.control_fds.1 ∷ f.closed } in
    if not (marked f.control_fds.0)
    then (
      f',
      throws
          (internal_error "RouterFactory::create_parent_router(): fd_set_close_on_exec() failed: "),
    )
    else if not (marked f.keepalive_fds.0)
    then (
      f',
      throws
          (internal_error "RouterFactory::create_parent_router(): fd_set_close_on_exec() failed: "),
    )
    else (
      record f' { segment_1 = none; segment_2 = none },
      returns (record {
        is_parent = true;
        control_fd = f.control_fds.0;
        keepalive_fd = f.keepalive_fds.0;
        wakeup_fds = f.wakeup_fds;
        read_segment = f.segment_1;
        write_segment = f.segment_2;
      }),
    )

unfoldable pub create_child_router : (ℕ → Bool) → RouterFactory → RouterFactory × Outcome CreateArgs
create_child_router marked f =
    let f' : RouterFactory = record f { closed = f.keepalive_fds.0 ∷ f.control_fds.0 ∷ f.closed } in
    if not (marked f.control_fds.1)
    then (
      f',
      throws
          (internal_error "RouterFactory::create_child_router(): fd_set_close_on_exec() failed: "),
    )
    else if not (marked f.keepalive_fds.1)
    then (
      f',
      throws
          (internal_error "RouterFactory::create_child_router(): fd_set_close_on_exec() failed: "),
    )
    else (
      record f' { segment_1 = none; segment_2 = none },
      returns (record {
        is_parent = false;
        control_fd = f.control_fds.1;
        keepalive_fd = f.keepalive_fds.1;
        wakeup_fds = f.wakeup_fds;
        read_segment = f.segment_2;
        write_segment = f.segment_1;
      }),
    )
