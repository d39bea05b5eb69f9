-- ===== src/Factory/Initialize.antt =====
-- `RouterFactory::initialize` of torrent/system/ipc/factory.cc: two segments with a channel in each,
-- and three pairs of descriptors, without the code under `#ifdef __linux__`; and
-- `WakeupFd::create_fd_pair` of wakeup_fd.cc without USE_EVENT_FD.
use shm_ipc.Base.{ℕ, Bool, Option, none, some, List, [], if◌then◌else◌, ◌==◌, String}
use shm_ipc.Base.Outcome.{Outcome, returns, throws}
use shm_ipc.Channel
use shm_ipc.Channel.{Channel}
use shm_ipc.Segment.{Process, Mmap, empty_segment, create}
use shm_ipc.Fd.{Os, Sys, ◌>>=◌, ◌>>◌, pure, throw_sys}
use shm_ipc.Fd.Options.{fd_set_send_timeout, fd_set_receive_timeout, fd_set_nonblock}
use shm_ipc.Fd.Open.{fd_open_socket_pair}
use shm_ipc.Factory.{RouterFactory}

abbrev pub or_throw : String → Bool → Sys (Unit {0})
or_throw msg succeeded = if succeeded then pure tt else throw_sys msg

unfoldable pub setup_socket : ℕ → Sys (Unit {0})
setup_socket fd = do
  fd_set_send_timeout fd 2000000
      >>= or_throw "ControlFd::send_fatal_error(): fd_set_send_timeout() failed: "
  fd_set_receive_timeout fd 2000000
      >>= or_throw "ControlFd::initialize(): fd_set_receive_timeout() failed: "

abbrev pub setup_both : ℕ × ℕ → Sys (ℕ × ℕ)
setup_both (fd_0, fd_1) = do setup_socket fd_0; setup_socket fd_1; pure (fd_0, fd_1)

unfoldable pub create_socket_pair : Sys (ℕ × ℕ)
create_socket_pair = fd_open_socket_pair >>= setup_both

abbrev pub nonblock_both : ℕ × ℕ → Sys (ℕ × ℕ)
nonblock_both (fd1, fd2) = do
  fd_set_nonblock fd1 >>= or_throw "WakeupFd::create_fd_pair() fd_set_nonblock(fd1) failed: "
  fd_set_nonblock fd2 >>= or_throw "WakeupFd::create_fd_pair() fd_set_nonblock(fd2) failed: "
  pure (fd1, fd2)

unfoldable pub create_fd_pair : Sys (ℕ × ℕ)
create_fd_pair = fd_open_socket_pair >>= nonblock_both

-- The three pairs of descriptors, in a factory that has its segments.
abbrev pub open_pairs : Option ℕ → Option ℕ → Sys RouterFactory
open_pairs segment_1 segment_2 = do
  control_fds ← create_socket_pair
  keepalive_fds ← create_socket_pair
  wakeup_fds ← create_fd_pair
  pure (record {
    control_fds = control_fds;
    keepalive_fds = keepalive_fds;
    wakeup_fds = wakeup_fds;
    segment_1 = segment_1;
    segment_2 = segment_2;
    closed = [];
  })

-- What the factory works on: the mappings of the process, the memory at an address as a channel,
-- and the descriptors.
pub record Host : Type 0 where
  pub mappings : List (ℕ × ℕ)
  pub channels : ℕ → Channel
  pub os : Os

abbrev pub put {ℓ} : {A : Type ℓ} → (ℕ → A) → ℕ → A → ℕ → A
put f k v j = if j == k then v else f j

abbrev pub segment_made : Host → Process × Outcome (Unit {0}) → Host × Outcome (Option ℕ)
segment_made h (p, throws e) = (record h { mappings = p.mappings }, throws e)
segment_made h (p, returns _) = (record h { mappings = p.mappings }, returns p.segment.addr)

-- A new segment, from the answer of `mmap`: its address.
abbrev pub create_segment : Mmap → ℕ → Host → Host × Outcome (Option ℕ)
create_segment answer size h =
    segment_made h (create answer (record { segment = empty_segment; mappings = h.mappings }) size)

-- The channel at the address of a segment.
abbrev pub initialize_channel : Option ℕ → ℕ → Host → Host × Outcome (Unit {0})
initialize_channel none size h = (h, returns tt)
initialize_channel (some a) size h =
    let (ch, result) = Channel.initialize (h.channels a) a size in
    (record h { channels = put h.channels a ch }, result)

abbrev pub then_host {ℓ ℓ'} :
    {A : Type ℓ} {B : Type ℓ'} → Host × Outcome A → (A → Host → Host × Outcome B) → Host × Outcome B
then_host (h, throws e) k = (h, throws e)
then_host (h, returns a) k = k a h

unfoldable pub initialize : Mmap → Mmap → ℕ → Host → Host × Outcome RouterFactory
initialize answer_1 answer_2 segment_size h =
    then_host (create_segment answer_1 segment_size h) (λ segment_1 h1.
      then_host (create_segment answer_2 segment_size h1) (λ segment_2 h2.
        then_host (initialize_channel segment_1 segment_size h2) (λ _ h3.
          then_host (initialize_channel segment_2 segment_size h3) (λ _ h4.
            let (os, result) = open_pairs segment_1 segment_2 h4.os in
            (record h4 { os = os }, result)))))
