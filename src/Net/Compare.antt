-- ===== src/Net/Compare.antt =====
-- The comparisons of torrent/net/socket_address.cc.
use shm_ipc.Base.{Bool, true, false, ◌&&◌, ◌==◌, ltb, not, if◌then◌else◌, some}
use shm_ipc.Base.Outcome.{Outcome, returns}
use Prim.Native.Nat.{Ordering}
use shm_ipc.Net.ByteOrder.{ntohl, ntohs, equal, memcmp}
use shm_ipc.Net.Address.{
  SockaddrIn, SockaddrIn6, Sockaddr, unspec, inet, inet6, unix, other, sa_is_inet_inet6,
}
use shm_ipc.Net.Make.{invalid}

unfoldable pub sin_equal_addr : SockaddrIn → SockaddrIn → Bool
sin_equal_addr lhs rhs = lhs.s_addr == rhs.s_addr

unfoldable pub sin6_equal_addr : SockaddrIn6 → SockaddrIn6 → Bool
sin6_equal_addr lhs rhs = equal lhs.sin6_addr rhs.sin6_addr

unfoldable pub sin_equal : SockaddrIn → SockaddrIn → Bool
sin_equal lhs rhs = (lhs.sin_port == rhs.sin_port) && (lhs.s_addr == rhs.s_addr)

unfoldable pub sin6_equal : SockaddrIn6 → SockaddrIn6 → Bool
sin6_equal lhs rhs = (lhs.sin6_port == rhs.sin6_port) && equal lhs.sin6_addr rhs.sin6_addr

-- The families that the two comparisons accept.
abbrev pub is_comparable : Sockaddr → Bool
is_comparable (unspec _) = true
is_comparable (inet _) = true
is_comparable (inet6 _) = true
is_comparable (unix _) = false
is_comparable (other _) = false

abbrev pub same_family_equal :
    (SockaddrIn → SockaddrIn → Bool)
    → (SockaddrIn6 → SockaddrIn6 → Bool)
    → Sockaddr
    → Sockaddr
    → Bool
same_family_equal in_equal in6_equal (inet l) (inet r) = in_equal l r
same_family_equal in_equal in6_equal (inet6 l) (inet6 r) = in6_equal l r
same_family_equal in_equal in6_equal (unspec _) (unspec _) = true
same_family_equal in_equal in6_equal _ _ = false

unfoldable pub sa_equal : Sockaddr → Sockaddr → Outcome Bool
sa_equal lhs rhs =
    if not (is_comparable rhs)
    then invalid "torrent::sa_equal() rhs sockaddr is not a valid family"
    else if not (is_comparable lhs)
    then invalid "torrent::sa_equal() lhs sockaddr is not a valid family"
    else returns (same_family_equal sin_equal sin6_equal lhs rhs)

unfoldable pub sa_equal_addr : Sockaddr → Sockaddr → Outcome Bool
sa_equal_addr lhs rhs =
    if not (is_comparable rhs)
    then invalid "torrent::sa_equal_addr() rhs sockaddr is not a valid family"
    else if not (is_comparable lhs)
    then invalid "torrent::sa_equal_addr() lhs sockaddr is not a valid family"
    else returns (same_family_equal sin_equal_addr sin6_equal_addr lhs rhs)

unfoldable pub sin_less : SockaddrIn → SockaddrIn → Bool
sin_less l r =
    if not (l.s_addr == r.s_addr)
    then ltb (ntohl l.s_addr) (ntohl r.s_addr)
    else ltb (ntohs l.sin_port) (ntohs r.sin_port)

unfoldable pub sin6_less : SockaddrIn6 → SockaddrIn6 → Bool
sin6_less l r = elim (memcmp l.sin6_addr r.sin6_addr) [
  | Ordering.lt ↦ true
  | Ordering.gt ↦ false
  | Ordering.eq ↦ ltb (ntohs l.sin6_port) (ntohs r.sin6_port)
]

abbrev pub sin_less_addr : SockaddrIn → SockaddrIn → Bool
sin_less_addr l r = ltb (ntohl l.s_addr) (ntohl r.s_addr)

abbrev pub sin6_less_addr : SockaddrIn6 → SockaddrIn6 → Bool
sin6_less_addr l r = elim (memcmp l.sin6_addr r.sin6_addr) [ Ordering.lt ↦ true | _ ↦ false ]

-- IPv4 addresses stand in front of IPv6 addresses.
abbrev pub family_less :
    (SockaddrIn → SockaddrIn → Bool)
    → (SockaddrIn6 → SockaddrIn6 → Bool)
    → Sockaddr
    → Sockaddr
    → Bool
family_less in_less in6_less (inet l) (inet r) = in_less l r
family_less in_less in6_less (inet6 l) (inet6 r) = in6_less l r
family_less in_less in6_less (inet _) _ = true
family_less in_less in6_less _ _ = false

unfoldable pub sa_less : Sockaddr → Sockaddr → Outcome Bool
sa_less lhs rhs =
    if not (sa_is_inet_inet6 (some lhs))
    then invalid "torrent::sa_less() lhs sockaddr is not inet or inet6"
    else if not (sa_is_inet_inet6 (some rhs))
    then invalid "torrent::sa_less() rhs sockaddr is not inet or inet6"
    else returns (family_less sin_less sin6_less lhs rhs)

unfoldable pub sa_less_addr : Sockaddr → Sockaddr → Outcome Bool
sa_less_addr lhs rhs =
    if not (sa_is_inet_inet6 (some lhs))
    then invalid "torrent::sa_less_addr() lhs sockaddr is not inet or inet6"
    else if not (sa_is_inet_inet6 (some rhs))
    then invalid "torrent::sa_less_addr() rhs sockaddr is not inet or inet6"
    else returns (family_less sin_less_addr sin6_less_addr lhs rhs)
