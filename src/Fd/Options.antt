-- ===== src/Fd/Options.antt =====
-- The options and flags of a descriptor in torrent/net/fd.cc. An `int` that is set is the number of
-- its 32 bits, and a time-out is not negative. A function that fills in a value returns it.
use shm_ipc.Base.{ℕ, ◌/◌, ◌%◌, Bool, true, false, ◌||◌, if◌then◌else◌, Option, none, some, List, []}
use shm_ipc.Fd.{
  Errno, einval, enoprotoopt, Family, af_inet, af_inet6, Level, sol_socket, level_ip, level_ipv6,
  level_tcp, OptionName, so_dontroute, so_reuseaddr, so_sndbuf, so_rcvbuf, so_error, so_type,
  so_sndtimeo, so_rcvtimeo, ip_tos, ip_bound_if, ip_recvif, tcp_nodelay, ipv6_tclass, ipv6_v6only,
  ipv6_bound_if, ipv6_recvpktinfo, f_getfl, f_setfl, f_getfd, f_setfd, listen, setsockopt_time,
  getsockopt, if_nametoindex, Sys, ◌>>=◌, ◌>>◌, pure, throw_sys, set_errno, last_errno, call,
  fd__fcntl_int, fd__setsockopt_int, is_ok, succeeds, o_nonblock, fd_cloexec, has_bit, set_bit,
  clear_bit,
}

abbrev pub of_bool : Bool → ℕ
of_bool b = if b then 1 else 0

unfoldable pub fd_listen : ℕ → ℕ → Sys Bool
fd_listen fd backlog = succeeds (call (listen fd backlog))

abbrev pub nonblock_in : Option ℕ → Sys (Option Bool)
nonblock_in none = pure none
nonblock_in (some flags) = pure (some (has_bit o_nonblock flags))

unfoldable pub fd_get_nonblock : ℕ → Sys (Option Bool)
fd_get_nonblock fd = fd__fcntl_int fd f_getfl 0 >>= nonblock_in

unfoldable pub fd_get_socket_error : ℕ → Sys (Option ℕ)
fd_get_socket_error fd = call (getsockopt fd sol_socket so_error)

unfoldable pub fd_get_type : ℕ → Sys (Option ℕ)
fd_get_type fd = call (getsockopt fd sol_socket so_type)

abbrev pub store_close_on_exec : ℕ → Bool → Option ℕ → Sys Bool
store_close_on_exec fd state none = pure false
store_close_on_exec fd state (some flags) = succeeds (
    fd__fcntl_int fd f_setfd
      (if state then set_bit fd_cloexec flags else clear_bit fd_cloexec flags))

unfoldable pub fd_set_close_on_exec : ℕ → Bool → Sys Bool
fd_set_close_on_exec fd state = fd__fcntl_int fd f_getfd 0 >>= store_close_on_exec fd state

unfoldable pub fd_set_dont_route : ℕ → Bool → Sys Bool
fd_set_dont_route fd state =
    succeeds (fd__setsockopt_int fd sol_socket so_dontroute (of_bool state))

abbrev pub store_nonblock : ℕ → Option ℕ → Sys Bool
store_nonblock fd none = pure false
store_nonblock fd (some flags) = succeeds (fd__fcntl_int fd f_setfl (set_bit o_nonblock flags))

unfoldable pub fd_set_nonblock : ℕ → Sys Bool
fd_set_nonblock fd = fd__fcntl_int fd f_getfl 0 >>= store_nonblock fd

unfoldable pub fd_set_reuse_address : ℕ → Bool → Sys Bool
fd_set_reuse_address fd state =
    succeeds (fd__setsockopt_int fd sol_socket so_reuseaddr (of_bool state))

unfoldable pub fd_set_priority : ℕ → Family → ℕ → Sys Bool
fd_set_priority fd af_inet priority = succeeds (fd__setsockopt_int fd level_ip ip_tos priority)
fd_set_priority fd af_inet6 priority =
    succeeds (fd__setsockopt_int fd level_ipv6 ipv6_tclass priority)
fd_set_priority fd family priority = do set_errno einval; pure false

unfoldable pub fd_set_tcp_nodelay : ℕ → Sys Bool
fd_set_tcp_nodelay fd = succeeds (fd__setsockopt_int fd level_tcp tcp_nodelay 1)

unfoldable pub fd_set_v6only : ℕ → Bool → Sys Bool
fd_set_v6only fd state = succeeds (fd__setsockopt_int fd level_ipv6 ipv6_v6only (of_bool state))

unfoldable pub fd_set_send_buffer_size : ℕ → ℕ → Sys Bool
fd_set_send_buffer_size fd size = succeeds (fd__setsockopt_int fd sol_socket so_sndbuf size)

unfoldable pub fd_set_receive_buffer_size : ℕ → ℕ → Sys Bool
fd_set_receive_buffer_size fd size = succeeds (fd__setsockopt_int fd sol_socket so_rcvbuf size)

unfoldable pub fd_set_send_timeout : ℕ → ℕ → Sys Bool
fd_set_send_timeout fd timeout =
    succeeds
      (call (setsockopt_time fd sol_socket so_sndtimeo (timeout / 1000000) (timeout % 1000000)))

unfoldable pub fd_set_receive_timeout : ℕ → ℕ → Sys Bool
fd_set_receive_timeout fd timeout =
    succeeds
      (call (setsockopt_time fd sol_socket so_rcvtimeo (timeout / 1000000) (timeout % 1000000)))

-- The second option of fd_bind_to_device may be unknown to the system.
abbrev pub is_tolerated : Errno → Bool
is_tolerated enoprotoopt = true
is_tolerated einval = true
is_tolerated e = false

abbrev pub enforce : ℕ → Level → OptionName → Sys Bool
enforce fd level name = do
  r ← fd__setsockopt_int fd level name 1
  e ← last_errno
  pure (is_ok r || is_tolerated e)

abbrev pub bind_options : ℕ → ℕ → Level → OptionName → OptionName → Sys Bool
bind_options fd index level bound received = do
  r ← fd__setsockopt_int fd level bound index
  if is_ok r then enforce fd level received else pure false

abbrev pub bind_index : ℕ → Family → ℕ → Sys Bool
bind_index fd af_inet index = bind_options fd index level_ip ip_bound_if ip_recvif
bind_index fd af_inet6 index = bind_options fd index level_ipv6 ipv6_bound_if ipv6_recvpktinfo
bind_index fd family index =
    throw_sys "fd_bind_to_device() invalid family specified for macOS binding"

-- if_nametoindex answers 0 where it fails.
abbrev pub bind_found : ℕ → Family → Option ℕ → Sys Bool
bind_found fd family none = pure false
bind_found fd family (some index) = bind_index fd family index

unfoldable pub fd_bind_to_device : ℕ → Option (List ℕ) → Family → Sys Bool
fd_bind_to_device fd none family = pure false
fd_bind_to_device fd (some []) family = pure false
fd_bind_to_device fd (some device) family = call (if_nametoindex device) >>= bind_found fd family
