-- ===== src/Fd/Tests.antt =====
-- Runs of torrent/net/fd.cc.
use shm_ipc.Base.{ℕ, ◌+◌, ◌-◌, ◌*◌, ◌≡◌, refl, true, false, none, some, List, [], ◌∷◌, ◌++◌, ap}
use shm_ipc.Base.Outcome.{returns, throws, internal_error}
use shm_ipc.Net.Address.{Sockaddr, inet, unix}
use shm_ipc.Net.Make.{sin_make}
use shm_ipc.Fd.{
  Answer, ok, fails, einval, af_inet, af_inet6, Call, socket, fcntl, f_getfl, f_setfl, f_getfd, Os,
  setsockopt, setsockopt_bytes, sol_socket, so_rtable, so_bindtodevice,
}
use shm_ipc.Fd.Options.{fd_get_nonblock, fd_set_nonblock}
use shm_ipc.Fd.Open.{FdFlags, fd_open, fd_open_family}
use shm_ipc.Fd.Endpoint.{fd_connect_with_family, fd_sap_accept}
use shm_ipc.Fd.Leaks.{left_open, fd_open-left}
use shm_ipc.Fd.Staying.{all_within}
use shm_ipc.Fd.Families.{fd_open_family-within, fd_connect_with_family-within}
use shm_ipc.Fd.Flags.{fd_get_nonblock-set}
use shm_ipc.Fd.Platforms.{Parse, linux, open_bsd, fd_bind_to_device_on}
use shm_ipc.Fd.Accepting.{fd_sap_accept-connection}

-- The flags that the last call stored.
abbrev last_flags : ℕ → List Call → ℕ
last_flags v [] = v
last_flags v (fcntl fd f_setfl w ∷ cs) = last_flags w cs
last_flags v (c ∷ cs) = last_flags v cs

-- Sockets are descriptor 7, options cannot be set, and descriptors have flags 2 at first.
abbrev answer : List Call → Call → Answer ℕ
answer cs (socket domain type protocol) = ok 7
answer cs (setsockopt fd level name value) = fails einval
answer cs (fcntl fd f_getfl arg) = ok (last_flags 2 cs)
answer cs (fcntl fd f_getfd arg) = ok 2
answer cs c = ok 0

abbrev local_peer : Sockaddr
local_peer = unix (47 ∷ [])

abbrev system : Os
system = record {
  answer = answer;
  answer_two = λ _ _. fails einval;
  answer_name = λ _ _. ok (local_peer, 9);
  calls = [];
  opened = 4 ∷ [];
  errno = einval;
}

abbrev flags : FdFlags
flags = record {
  stream = true;
  datagram = false;
  nonblock = true;
  reuse_address = true;
  v4 = false;
  v6only = false;
  v6 = false;
  spare = false;
  excess = false;
}

fd_open-left_example : (fd_open flags system).0.opened ≡ left_open (fd_open flags system).1 (4 ∷ [])
fd_open-left_example = fd_open-left flags system

fd_open_family-within_run : all_within af_inet (fd_open_family flags af_inet system).0.calls ≡ true
fd_open_family-within_run = fd_open_family-within af_inet flags system refl

fd_connect_with_family-within_example :
    all_within af_inet6 (fd_connect_with_family 7 (inet sin_make) af_inet6 system).0.calls ≡ true
fd_connect_with_family-within_example =
    fd_connect_with_family-within 7 (inet sin_make) af_inet6 system refl refl

last_flags-append :
    (v fd w : ℕ) (cs : List Call) → last_flags v (cs ++ (fcntl fd f_setfl w ∷ [])) ≡ w
last_flags-append v fd w [] = refl
last_flags-append v fd w (fcntl g f_setfl x ∷ cs) = last_flags-append x fd w cs
last_flags-append v fd w (c ∷ cs) = last_flags-append v fd w cs

fd_get_nonblock-set_run : (fd_get_nonblock 7 (fd_set_nonblock 7 system).0).1 ≡ returns (some true)
fd_get_nonblock-set_run =
    fd_get_nonblock-set 7 2 0 system refl (λ _ _. refl) (λ cs w. ap ok (last_flags-append 2 7 w cs))

fd_sap_accept-connection_example :
    ((fd_sap_accept 3 system).0.opened ≡ 9 ∷ 4 ∷ [])
    × ((fd_sap_accept 3 system).1
        ≡ throws (internal_error "torrent::sa_copy() sockaddr is not a valid family"))
fd_sap_accept-connection_example = fd_sap_accept-connection 3 9 local_peer system refl

-- Two digits, or an error.
abbrev digits : Parse
digits (a ∷ b ∷ rest) = some ((a - 48) * 10 + (b - 48), rest)
digits cs = none

on_platforms :
    ((fd_bind_to_device_on open_bsd digits 7 (some (49 ∷ 50 ∷ [])) af_inet system).0.calls
      ≡ setsockopt 7 sol_socket so_rtable 12 ∷ [])
    × ((fd_bind_to_device_on open_bsd digits 7 (some (49 ∷ 50 ∷ 51 ∷ [])) af_inet system).1
        ≡ returns false)
    × ((fd_bind_to_device_on linux digits 7 (some (108 ∷ 111 ∷ [])) af_inet6 system).0.calls
        ≡ setsockopt_bytes 7 sol_socket so_bindtodevice (108 ∷ 111 ∷ []) ∷ [])
unfolding fd_bind_to_device_on
on_platforms = (refl, refl, refl)
