-- ===== src/Fd/Families.antt =====
-- Which families of sockets and addresses the functions of torrent/net/fd.cc use.
use shm_ipc.Base.{
  ℕ, ◌≡◌, refl, Bool, true, false, not, ◌||◌, if◌then◌else◌, Option, none, some, arith,
}
use shm_ipc.Base.Outcome.{Outcome, returns, throws}
use shm_ipc.Net.Address.{
  SockaddrIn, SockaddrIn6, sa_is_v4mapped, Sockaddr, unspec, inet, inet6, unix, other, sa_length,
}
use shm_ipc.Net.Make.{sin6_to_v4mapped_in, sa_to_v4mapped, sa_from_v4mapped}
use shm_ipc.Fd.{
  Family, af_unspec, af_inet, af_inet6, af_local, af_other, SocketType, Protocol, socket, connect,
  Os, Sys, ◌>>=◌, pure, call, call_open,
}
use shm_ipc.Fd.Open.{
  FdFlags, fd_valid_flags, socket_type, or_inet, configure_opened, open_socket, fd_open,
  fd_open_family,
}
use shm_ipc.Fd.Endpoint.{lift, connecting, fd_connect, fd_connect_with_family, refuse}
use shm_ipc.Fd.Staying.{
  Stays, all_within, call-Stays, call_open-Stays, configure-Stays, family_of, if-Stays, same_family,
  then-Stays,
}

perhaps-Stays :
    (f : Family) (b : Bool) (m : Sys (Option ℕ))
    → (b ≡ true → Stays f m)
    → Stays f (if b then m else pure none)
perhaps-Stays f true m s os h = s refl os h
perhaps-Stays f false m s os h = h

or_inet-Stays :
    (f : Family) (flags : FdFlags) (type : SocketType) (protocol : Protocol) (r : Option ℕ)
    → ((flags.v6 || flags.v6only) ≡ false → same_family af_inet f ≡ true)
    → Stays f (or_inet flags type protocol r)
or_inet-Stays f flags type protocol (some fd) may os h = h
or_inet-Stays f flags type protocol none may os h =
    perhaps-Stays f (not (flags.v6 || flags.v6only)) (call_open (socket af_inet type protocol))
      (λ q. call_open-Stays f (socket af_inet type protocol) (may (ground (arith, q)))) os h

open_socket-Stays :
    (f : Family) (flags : FdFlags) (t : Option (SocketType × Protocol))
    → (flags.v4 ≡ false → same_family af_inet6 f ≡ true)
    → ((flags.v6 || flags.v6only) ≡ false → same_family af_inet f ≡ true)
    → Stays f (open_socket flags t)
open_socket-Stays f flags none may6 may4 os h = h
open_socket-Stays f flags (some (type, protocol)) may6 may4 os h =
    let first : Sys (Option ℕ) =
      if not flags.v4 then call_open (socket af_inet6 type protocol) else pure none in
    let within_first : Stays f first =
      perhaps-Stays f (not flags.v4) (call_open (socket af_inet6 type protocol))
        (λ q. call_open-Stays f (socket af_inet6 type protocol) (may6 (ground (arith, q)))) in
    let within_both : Stays f (first >>= or_inet flags type protocol) =
      then-Stays f first (or_inet flags type protocol) within_first
        (λ r. or_inet-Stays f flags type protocol r may4) in
    then-Stays f (first >>= or_inet flags type protocol) (configure_opened flags) within_both
      (configure-Stays f flags) os h

fd_open-Stays :
    (f : Family) (flags : FdFlags)
    → (flags.v4 ≡ false → same_family af_inet6 f ≡ true)
    → ((flags.v6 || flags.v6only) ≡ false → same_family af_inet f ≡ true)
    → Stays f (fd_open flags)
unfolding fd_open
fd_open-Stays f flags may6 may4 =
    if-Stays f (not (fd_valid_flags flags)) _ _ (λ _ h. h)
      (open_socket-Stays f flags (socket_type flags) may6 may4)

-- Whatever the flags are and the system answers, fd_open_family opens no socket of a family other
-- than the one that it is given.
pub fd_open_family-within :
    (f : Family) (flags : FdFlags) (os : Os)
    → all_within f os.calls ≡ true
    → all_within f (fd_open_family flags f os).0.calls ≡ true
unfolding fd_open_family
fd_open_family-within af_inet flags =
    fd_open-Stays af_inet (record flags { v4 = true }) (λ q. ground (arith, q)) (λ _. refl)
fd_open_family-within af_inet6 flags =
    fd_open-Stays af_inet6 (record flags { v6 = true }) (λ _. refl) (λ q. ground (arith, q))
fd_open_family-within af_unspec flags = λ _ h. h
fd_open_family-within af_local flags = λ _ h. h
fd_open_family-within (af_other n) flags = λ _ h. h

lift-Stays :
    (f : Family) {A B : Type 0} (o : Outcome A) (k : A → Sys B)
    → ((a : A) → o ≡ returns a → Stays f (k a))
    → Stays f (lift o >>= k)
lift-Stays f (throws e) k s os h = h
lift-Stays f (returns a) k s os h = s a refl os h

connecting-Stays : (f : Family) (r : Option ℕ) → Stays f (connecting r)
connecting-Stays f (some r) os h = h
connecting-Stays f none os h = h

fd_connect-Stays :
    (f : Family) (fd : ℕ) (sa : Sockaddr)
    → same_family (family_of sa) f ≡ true
    → Stays f (fd_connect fd sa)
unfolding fd_connect
fd_connect-Stays f fd sa i = lift-Stays f (sa_length sa) _ (λ n _.
    then-Stays f (call (connect fd sa n)) connecting (call-Stays f (connect fd sa n) i)
      (connecting-Stays f))

from_v4mapped-inet :
    (sa : SockaddrIn6) (a : Sockaddr)
    → sa_from_v4mapped (some (inet6 sa)) ≡ returns a
    → same_family (family_of a) af_inet ≡ true
unfolding sa_from_v4mapped
from_v4mapped-inet sa a e = ground (arith, e)

mapped-Stays :
    (fd : ℕ) (sa : SockaddrIn) → Stays af_inet6 (fd_connect_with_family fd (inet sa) af_inet6)
unfolding fd_connect_with_family sa_to_v4mapped
mapped-Stays fd sa = fd_connect-Stays af_inet6 fd (inet6 (sin6_to_v4mapped_in sa)) refl

unmapped-Stays :
    (fd : ℕ) (sa : SockaddrIn6) → Stays af_inet (fd_connect_with_family fd (inet6 sa) af_inet)
unfolding fd_connect_with_family
unmapped-Stays fd sa =
    if-Stays af_inet (sa_is_v4mapped (some (inet6 sa))) _ refuse
      (lift-Stays af_inet (sa_from_v4mapped (some (inet6 sa))) (fd_connect fd)
        (λ a e. fd_connect-Stays af_inet fd a (from_v4mapped-inet sa a e)))
      (λ _ h. h)

abbrev is_ip : Family → Bool
is_ip f = same_family f af_inet || same_family f af_inet6

-- For IPv4 and IPv6, and any address, fd_connect_with_family connects to an address of the family
-- that it is given, or to none.
pub fd_connect_with_family-within :
    (fd : ℕ) (sa : Sockaddr) (f : Family) (os : Os)
    → is_ip f ≡ true
    → all_within f os.calls ≡ true
    → all_within f (fd_connect_with_family fd sa f os).0.calls ≡ true
unfolding fd_connect_with_family
fd_connect_with_family-within fd (unspec _) f os ip h = h
fd_connect_with_family-within fd (unix _) f os ip h = h
fd_connect_with_family-within fd (other _) f os ip h = h
fd_connect_with_family-within fd (inet sa) af_inet os ip h =
    fd_connect-Stays af_inet fd (inet sa) refl os h
fd_connect_with_family-within fd (inet sa) af_inet6 os ip h = mapped-Stays fd sa os h
fd_connect_with_family-within fd (inet6 sa) af_inet os ip h = unmapped-Stays fd sa os h
fd_connect_with_family-within fd (inet6 sa) af_inet6 os ip h =
    fd_connect-Stays af_inet6 fd (inet6 sa) refl os h
fd_connect_with_family-within fd sa f os ip h = absurd (ground (arith, ip))
