-- ===== src/Fd/Open.antt =====
-- How torrent/net/fd.cc opens and closes descriptors.
use shm_ipc.Base.{ℕ, Bool, true, not, ◌&&◌, ◌||◌, ltb, if◌then◌else◌, Option, none, some, String}
use shm_ipc.Fd.{
  einval, Family, af_inet, af_inet6, af_local, SocketType, sock_stream, sock_dgram, Protocol,
  ipproto_default, ipproto_tcp, ipproto_udp, open_file, pipe, socketpair, kqueue, Sys, ◌>>=◌, ◌>>◌,
  pure, throw_sys, set_errno, call_open, call_open_two, fd__close, fd__socket, fd__accept,
}
use shm_ipc.Fd.Options.{fd_set_nonblock, fd_set_reuse_address, fd_set_v6only}

-- `fd_flags` by its bits. fd_flag_v4 and fd_flag_v4only are one bit, 0x80; `spare` are the other
-- bits of fd_flag_all, and `excess` the ones beyond.
pub record FdFlags : Type 0 where
  pub stream : Bool
  pub datagram : Bool
  pub nonblock : Bool
  pub reuse_address : Bool
  pub v4 : Bool
  pub v6only : Bool
  pub v6 : Bool
  pub spare : Bool
  pub excess : Bool

unfoldable pub fd_valid_flags : FdFlags → Bool
fd_valid_flags f =
    (f.stream || f.datagram)
    && (not (f.stream && f.datagram)
        && (not (f.v4 && f.v6only) && (not (f.v4 && f.v6) && not f.excess)))

-- The type and the protocol, which the code names `domain` and `protocol`.
abbrev pub socket_type : FdFlags → Option (SocketType × Protocol)
socket_type f =
    if f.stream
    then some (sock_stream, ipproto_tcp)
    else if f.datagram
    then some (sock_dgram, ipproto_udp)
    else none

-- Where a step of the configuration fails, the descriptor is closed, and the result is -1.
abbrev pub configured : ℕ → Bool → Sys Bool → Sys (Option ℕ) → Sys (Option ℕ)
configured fd wanted set next = do
  done ← if wanted then set else pure true
  if done then next else fd__close fd >> pure none

abbrev pub configure : FdFlags → ℕ → Sys (Option ℕ)
configure flags fd = configured fd flags.v6only (fd_set_v6only fd true) (
    configured fd flags.nonblock (fd_set_nonblock fd)
      (configured fd flags.reuse_address (fd_set_reuse_address fd true) (pure (some fd))))

-- The second try, where the first has left -1.
abbrev pub or_inet : FdFlags → SocketType → Protocol → Option ℕ → Sys (Option ℕ)
or_inet flags type protocol (some fd) = pure (some fd)
or_inet flags type protocol none =
    if not (flags.v6 || flags.v6only) then fd__socket af_inet type protocol else pure none

abbrev pub configure_opened : FdFlags → Option ℕ → Sys (Option ℕ)
configure_opened flags none = pure none
configure_opened flags (some fd) = configure flags fd

abbrev pub open_socket : FdFlags → Option (SocketType × Protocol) → Sys (Option ℕ)
open_socket flags none = do set_errno einval; pure none
open_socket flags (some (type, protocol)) =
    (if not flags.v4 then fd__socket af_inet6 type protocol else pure none)
    >>= or_inet flags type protocol
    >>= configure_opened flags

unfoldable pub fd_open : FdFlags → Sys (Option ℕ)
fd_open flags =
    if not (fd_valid_flags flags)
    then throw_sys "torrent::fd_open failed: invalid fd_flags"
    else open_socket flags (socket_type flags)

unfoldable pub fd_open_family : FdFlags → Family → Sys (Option ℕ)
fd_open_family flags af_inet = fd_open (record flags { v4 = true })
fd_open_family flags af_inet6 = fd_open (record flags { v6 = true })
fd_open_family flags family = do set_errno einval; pure none

abbrev pub configure_local : FdFlags → Option ℕ → Sys (Option ℕ)
configure_local flags none = pure none
configure_local flags (some fd) =
    configured fd flags.nonblock (fd_set_nonblock fd)
      (configured fd flags.reuse_address (fd_set_reuse_address fd true) (pure (some fd)))

unfoldable pub fd_open_local : FdFlags → Sys (Option ℕ)
fd_open_local flags =
    if flags.datagram || (flags.v4 || (flags.v6only || (flags.v6 || (flags.spare || flags.excess))))
    then throw_sys "torrent::fd_open_local() invalid fd_flags"
    else if not flags.stream
    then throw_sys "torrent::fd_open_local() only stream sockets supported"
    else fd__socket af_local sock_stream ipproto_default >>= configure_local flags

-- `flags` are those of open(2); O_CLOEXEC comes with every call.
unfoldable pub fd_open_file : String → ℕ → ℕ → Sys (Option ℕ)
fd_open_file path flags mode = call_open (open_file path flags mode)

abbrev pub or_throw {ℓ} : {A : Type ℓ} → String → Option A → Sys A
or_throw msg none = throw_sys msg
or_throw msg (some a) = pure a

unfoldable pub fd_open_pipe : Sys (ℕ × ℕ)
fd_open_pipe = call_open_two pipe >>= or_throw "torrent::fd_open_pipe failed: "

unfoldable pub fd_open_socket_pair : Sys (ℕ × ℕ)
fd_open_socket_pair =
    call_open_two (socketpair af_local sock_stream)
    >>= or_throw "torrent::fd_open_socket_pair failed: "

unfoldable pub fd_open_epoll : ℕ → Sys ℕ
fd_open_epoll size = throw_sys "torrent::fd_open_epoll called but epoll support is not compiled in"

unfoldable pub fd_open_kqueue : Sys ℕ
fd_open_kqueue = call_open kqueue >>= or_throw "torrent::fd_open_kqueue failed: "

unfoldable pub fd_open_inotify : Sys ℕ
fd_open_inotify = throw_sys "torrent::fd_open_inotify called but inotify support is not compiled in"

abbrev pub closed_or_throw : Option ℕ → Sys (Unit {0})
closed_or_throw none = throw_sys "torrent::fd_close: "
closed_or_throw (some r) = pure tt

unfoldable pub fd_close : ℕ → Sys (Unit {0})
fd_close fd =
    if ltb fd 3
    then throw_sys "torrent::fd_close: tried to close stdin/out/err"
    else fd__close fd >>= closed_or_throw

-- What it leaves in `fd` is its result; where it throws, `fd` stays.
unfoldable pub fd_close_and_clear : Option ℕ → Sys (Option ℕ)
fd_close_and_clear none = pure none
fd_close_and_clear (some fd) = fd_close fd >> pure none

unfoldable pub fd_accept : ℕ → Sys (Option ℕ)
fd_accept fd = fd__accept fd
