-- ===== src/Net/Pointers.antt =====
-- torrent/net/socket_address.h: the functions on unique pointers, a null pointer being `none`. The
-- overloads for a pointer to const are the same functions. What dereferences a null pointer throws
-- `undefined` here.
use shm_ipc.Base.{ℕ, Bool, true, false, ◌==◌, if◌then◌else◌, Option, none, some, String}
use shm_ipc.Base.Outcome.{Outcome, returns, throws, undefined}
use shm_ipc.Net.Address.{
  sa_is_unspec, sa_is_inet, sa_is_inet6, sa_is_inet_inet6, sa_is_any, sin_is_any, sin6_is_any,
  sa_is_broadcast, sin_is_broadcast, sa_is_loopback, sin_is_loopback, sin6_is_loopback,
  sa_is_v4mapped, sin6_is_v4mapped, sa_is_port_any, sa_length, sa_port, sa_set_port, SockaddrIn,
  SockaddrIn6, Sockaddr, unspec, inet, inet6, unix, other,
}
use shm_ipc.Net.Make.{
  sa_copy, sa_copy_addr, sa_copy_in, sa_copy_in6, sin_copy, sin6_copy, sa_from_v4mapped,
  sa_to_v4mapped, sin_from_v4mapped_in6, sin6_to_v4mapped_in, sa_inet_union_from_sa, invalid,
}
use shm_ipc.Net.Compare.{
  is_comparable, sa_equal, sin_equal, sin6_equal, sa_equal_addr, sin_equal_addr, sin6_equal_addr,
}
use shm_ipc.Net.Text.{Texts, sa_addr_str, sa_pretty_str, sin_pretty_str, sin6_pretty_str}

abbrev pub null_address {ℓ} : {A : Type ℓ} → Outcome A
null_address = throws (undefined "null pointer")

-- A function that does not look whether its pointer is null.
abbrev pub deref {ℓ κ} : {A : Type ℓ} {B : Type κ} → Option A → (A → Outcome B) → Outcome B
deref none f = null_address
deref (some a) f = f a

-- An int from 0 on, or -1.
abbrev pub same_fd : Option ℕ → Option ℕ → Bool
same_fd none none = true
same_fd (some a) (some b) = a == b
same_fd _ _ = false

unfoldable pub sap_is_unspec : Option Sockaddr → Bool
sap_is_unspec sap = sa_is_unspec sap

unfoldable pub sap_is_inet : Option Sockaddr → Bool
sap_is_inet sap = sa_is_inet sap

unfoldable pub sap_is_inet6 : Option Sockaddr → Bool
sap_is_inet6 sap = sa_is_inet6 sap

unfoldable pub sap_is_inet_inet6 : Option Sockaddr → Bool
sap_is_inet_inet6 sap = sa_is_inet_inet6 sap

unfoldable pub sap_is_any : Option Sockaddr → Outcome Bool
sap_is_any sap = deref sap (λ sa. returns (sa_is_any sa))

unfoldable pub sinp_is_any : Option SockaddrIn → Outcome Bool
sinp_is_any sinp = deref sinp (λ sa. returns (sin_is_any sa))

unfoldable pub sinp6_is_any : Option SockaddrIn6 → Outcome Bool
sinp6_is_any sin6p = deref sin6p (λ sa. returns (sin6_is_any sa))

unfoldable pub sap_is_broadcast : Option Sockaddr → Outcome Bool
sap_is_broadcast sap = deref sap (λ sa. returns (sa_is_broadcast sa))

unfoldable pub sinp_is_broadcast : Option SockaddrIn → Outcome Bool
sinp_is_broadcast sap = deref sap (λ sa. returns (sin_is_broadcast sa))

unfoldable pub sap_is_loopback : Option Sockaddr → Outcome Bool
sap_is_loopback sap = deref sap (λ sa. returns (sa_is_loopback sa))

unfoldable pub sinp_is_loopback : Option SockaddrIn → Outcome Bool
sinp_is_loopback sinp = deref sinp (λ sa. returns (sin_is_loopback sa))

unfoldable pub sinp6_is_loopback : Option SockaddrIn6 → Outcome Bool
sinp6_is_loopback sin6p = deref sin6p (λ sa. returns (sin6_is_loopback sa))

unfoldable pub sap_is_v4mapped : Option Sockaddr → Bool
sap_is_v4mapped sap = sa_is_v4mapped sap

unfoldable pub sinp6_is_v4mapped : Option SockaddrIn6 → Outcome Bool
sinp6_is_v4mapped sin6p = deref sin6p (λ sa. returns (sin6_is_v4mapped sa))

unfoldable pub sap_is_port_any : Option Sockaddr → Bool
sap_is_port_any sap = sa_is_port_any sap

unfoldable pub sap_length : Option Sockaddr → Outcome ℕ
sap_length sap = deref sap sa_length

unfoldable pub sap_copy : Option Sockaddr → Outcome Sockaddr
sap_copy sap = sa_copy sap

unfoldable pub sap_copy_addr : Option Sockaddr → ℕ → Outcome Sockaddr
sap_copy_addr sap port = sa_copy_addr sap port

unfoldable pub sap_copy_in : Option SockaddrIn → Outcome Sockaddr
sap_copy_in sinp = deref sinp (λ sa. returns (sa_copy_in sa))

unfoldable pub sap_copy_in6 : Option SockaddrIn6 → Outcome Sockaddr
sap_copy_in6 sin6p = deref sin6p (λ sa. returns (sa_copy_in6 sa))

unfoldable pub sinp_copy : Option SockaddrIn → Outcome SockaddrIn
sinp_copy sinp = deref sinp (λ sa. returns (sin_copy sa))

unfoldable pub sin6p_copy : Option SockaddrIn6 → Outcome SockaddrIn6
sin6p_copy sin6p = deref sin6p (λ sa. returns (sin6_copy sa))

unfoldable pub sap_from_v4mapped : Option Sockaddr → Outcome Sockaddr
sap_from_v4mapped sap = sa_from_v4mapped sap

unfoldable pub sap_to_v4mapped : Option Sockaddr → Outcome Sockaddr
sap_to_v4mapped sap = sa_to_v4mapped sap

unfoldable pub sinp_from_v4mapped_in6 : Option SockaddrIn6 → Outcome SockaddrIn
sinp_from_v4mapped_in6 sin6p = deref sin6p sin_from_v4mapped_in6

unfoldable pub sin6p_to_v4mapped_in : Option SockaddrIn → Outcome SockaddrIn6
sin6p_to_v4mapped_in sinp = deref sinp (λ sa. returns (sin6_to_v4mapped_in sa))

unfoldable pub sap_port : Option Sockaddr → ℕ
sap_port sap = sa_port sap

unfoldable pub sap_set_port : Option Sockaddr → ℕ → Option Sockaddr × Outcome (Unit {0})
sap_set_port none port = (none, null_address)
sap_set_port (some sa) port = let (sa', result) = sa_set_port sa port in (some sa', result)

unfoldable pub sap_equal : Option Sockaddr → Option Sockaddr → Outcome Bool
sap_equal lhs none = null_address
sap_equal none (some rhs) =
    if is_comparable rhs
    then null_address
    else invalid "torrent::sa_equal() rhs sockaddr is not a valid family"
sap_equal (some lhs) (some rhs) = sa_equal lhs rhs

unfoldable pub sinp_equal : Option SockaddrIn → Option SockaddrIn → Outcome Bool
sinp_equal lhs rhs = deref lhs (λ l. deref rhs (λ r. returns (sin_equal l r)))

unfoldable pub sin6p_equal : Option SockaddrIn6 → Option SockaddrIn6 → Outcome Bool
sin6p_equal lhs rhs = deref lhs (λ l. deref rhs (λ r. returns (sin6_equal l r)))

unfoldable pub sap_equal_addr : Option Sockaddr → Option Sockaddr → Outcome Bool
sap_equal_addr lhs none = null_address
sap_equal_addr none (some rhs) =
    if is_comparable rhs
    then null_address
    else invalid "torrent::sa_equal_addr() rhs sockaddr is not a valid family"
sap_equal_addr (some lhs) (some rhs) = sa_equal_addr lhs rhs

unfoldable pub sinp_equal_addr : Option SockaddrIn → Option SockaddrIn → Outcome Bool
sinp_equal_addr lhs rhs = deref lhs (λ l. deref rhs (λ r. returns (sin_equal_addr l r)))

unfoldable pub sin6p_equal_addr : Option SockaddrIn6 → Option SockaddrIn6 → Outcome Bool
sin6p_equal_addr lhs rhs = deref lhs (λ l. deref rhs (λ r. returns (sin6_equal_addr l r)))

unfoldable pub sap_addr_str : Texts → Option Sockaddr → Outcome String
sap_addr_str t sap = sa_addr_str t sap

unfoldable pub sap_pretty_str : Texts → Option Sockaddr → Outcome String
sap_pretty_str t sap = sa_pretty_str t sap

unfoldable pub sinp_pretty_str : Texts → Option SockaddrIn → Outcome String
sinp_pretty_str t sinp = deref sinp (sin_pretty_str t)

unfoldable pub sin6p_pretty_str : Texts → Option SockaddrIn6 → Outcome String
sin6p_pretty_str t sin6p = deref sin6p (sin6_pretty_str t)

unfoldable pub sa_inet_union_from_sap : Option Sockaddr → Outcome Sockaddr
sa_inet_union_from_sap sap = deref sap sa_inet_union_from_sa

unfoldable pub sa_from_in : Option SockaddrIn → Option Sockaddr
sa_from_in none = none
sa_from_in (some sa) = some (inet sa)

unfoldable pub sa_from_in6 : Option SockaddrIn6 → Option Sockaddr
sa_from_in6 none = none
sa_from_in6 (some sa) = some (inet6 sa)

unfoldable pub fd_sap_equal : Option ℕ × Option Sockaddr → Option ℕ × Option Sockaddr → Outcome Bool
unfolding sap_equal
fd_sap_equal (fd, sap) (fd', sap') = if same_fd fd fd' then sap_equal sap sap' else returns false

-- The types that an address is allocated as.
pub data Struct : Type 0 where
  sockaddr sockaddr_in sockaddr_in6 sockaddr_un : Struct

-- `sa_free` of socket_address.cc: the type as which the object is deleted, if there is one.
unfoldable pub sa_free : Option Sockaddr → Outcome (Option Struct)
sa_free none = returns none
sa_free (some (unspec _)) = returns (some sockaddr)
sa_free (some (inet _)) = returns (some sockaddr_in)
sa_free (some (inet6 _)) = returns (some sockaddr_in6)
sa_free (some (unix _)) = returns (some sockaddr_un)
sa_free (some (other _)) = invalid "torrent::sa_free() invalid family type"
