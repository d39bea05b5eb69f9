-- ===== src/Fd/Endpoint.antt =====
-- The addresses at the ends of a socket in torrent/net/fd.cc. A c_sa_unique_ptr that is null is
-- `none`; sizeof(sockaddr_un) is 106.
use shm_ipc.Base.{ℕ, Bool, true, false, ltb, if◌then◌else◌, Option, none, some}
use shm_ipc.Base.Outcome.{Outcome}
use shm_ipc.Net.Address.{Sockaddr, unspec, inet, inet6, unix, sa_is_v4mapped, sa_length}
use shm_ipc.Net.Make.{sa_copy, sa_to_v4mapped, sa_from_v4mapped}
use shm_ipc.Fd.{
  Errno, einval, einprogress, eoverflow, Family, af_inet, af_inet6, accept, bind, connect,
  getpeername, getsockname, Sys, ◌>>=◌, ◌>>◌, pure, set_errno, last_errno, call, call_name,
  note_opened, succeeds,
}

-- A function of socket_address.cc, which may throw.
abbrev pub lift {ℓ} : {A : Type ℓ} → Outcome A → Sys A
lift o os = (os, o)

unfoldable pub fd_bind_with_length : ℕ → Sockaddr → ℕ → Sys Bool
fd_bind_with_length fd sa length = succeeds (call (bind fd sa length))

unfoldable pub fd_bind : ℕ → Sockaddr → Sys Bool
fd_bind fd sa = lift (sa_length sa) >>= fd_bind_with_length fd sa

abbrev pub is_in_progress : Errno → Bool
is_in_progress einprogress = true
is_in_progress e = false

abbrev pub connecting : Option ℕ → Sys Bool
connecting (some r) = pure true
connecting none = do e ← last_errno; pure (is_in_progress e)

unfoldable pub fd_connect : ℕ → Sockaddr → Sys Bool
fd_connect fd sa = lift (sa_length sa) >>= (λ n. call (connect fd sa n) >>= connecting)

abbrev pub refuse : Sys Bool
refuse = do set_errno einval; pure false

unfoldable pub fd_connect_with_family : ℕ → Sockaddr → Family → Sys Bool
fd_connect_with_family fd (unspec _) family = refuse
fd_connect_with_family fd (inet sa) af_inet6 =
    lift (sa_to_v4mapped (some (inet sa))) >>= fd_connect fd
fd_connect_with_family fd (inet sa) family = fd_connect fd (inet sa)
fd_connect_with_family fd (inet6 sa) af_inet =
    if sa_is_v4mapped (some (inet6 sa))
    then lift (sa_from_v4mapped (some (inet6 sa))) >>= fd_connect fd
    else refuse
fd_connect_with_family fd (inet6 sa) family = fd_connect fd (inet6 sa)
fd_connect_with_family fd sa family = refuse

-- `new sockaddr_un` for a local address, and `sa_copy` for the others.
abbrev pub copy_name : Sockaddr → Sys (Option Sockaddr)
copy_name (unix path) = pure (some (unix path))
copy_name sa = do c ← lift (sa_copy (some sa)); pure (some c)

abbrev pub name_of : Option (Sockaddr × ℕ) → Sys (Option Sockaddr)
name_of none = pure none
name_of (some (sa, n)) = if ltb 106 n then set_errno eoverflow >> pure none else copy_name sa

unfoldable pub fd_get_peer_name : ℕ → Sys (Option Sockaddr)
fd_get_peer_name fd = call_name (getpeername fd) >>= name_of

unfoldable pub fd_get_socket_name : ℕ → Sys (Option Sockaddr)
fd_get_socket_name fd = call_name (getsockname fd) >>= name_of

-- The answer to `accept` is the address, with the new descriptor in place of its length.
abbrev pub accepted : Option (Sockaddr × ℕ) → Sys (Option ℕ × Option Sockaddr)
accepted none = pure (none, none)
accepted (some (sa, fd)) = do
  note_opened fd
  sap ← lift (sa_copy (some sa))
  pure (some fd, some sap)

unfoldable pub fd_sap_accept : ℕ → Sys (Option ℕ × Option Sockaddr)
fd_sap_accept fd = call_name (accept fd) >>= accepted
