-- ===== src/Net/Address.antt =====
-- The types of torrent/net/socket_address.cc, and the functions that classify an address or read
-- and set its port.
use shm_ipc.Base.{
  ℕ, ◌+◌, ◌-◌, ◌*◌, ◌/◌, ◌%◌, ◌^◌, Bool, true, false, ◌&&◌, ◌||◌, ◌==◌, if◌then◌else◌, Option, none,
  some, List, [], ◌∷◌, ◌++◌, zero, suc, take, length, ◌≡◌, ◌<◌,
}
use shm_ipc.Base.Outcome.{Outcome, returns, throws, internal_error}
use shm_ipc.Memory.{bytes32}
use shm_ipc.Net.ByteOrder.{htonl, ntohl, htons, ntohs, equal}

-- `sin_port` and `sin_addr.s_addr` are in network order.
pub record SockaddrIn : Type 0 where
  pub sin_port : ℕ
  pub s_addr : ℕ
  pub sin_zero : List ℕ

pub record SockaddrIn6 : Type 0 where
  pub sin6_port : ℕ
  pub sin6_flowinfo : ℕ
  pub sin6_addr : List ℕ
  pub sin6_scope_id : ℕ

-- A `sockaddr` by its family; a null pointer is `none` of an `Option`, where the code tests it.
pub data Sockaddr : Type 0 where
  unspec : List ℕ → Sockaddr
  inet : SockaddrIn → Sockaddr
  inet6 : SockaddrIn6 → Sockaddr
  unix : List ℕ → Sockaddr
  other : ℕ → Sockaddr

abbrev pub byte : List ℕ → ℕ → ℕ
byte [] i = 0
byte (b ∷ bs) zero = b
byte (b ∷ bs) (suc i) = byte bs i

abbrev pub zeros : ℕ → List ℕ
zeros zero = []
zeros (suc n) = 0 ∷ zeros n

unfoldable pub sin6_addr32_index : SockaddrIn6 → ℕ → ℕ
sin6_addr32_index sa index =
    (byte sa.sin6_addr (index * 4) * 2 ^ 24
      + byte sa.sin6_addr (index * 4 + 1) * 2 ^ 16
      + byte sa.sin6_addr (index * 4 + 2) * 2 ^ 8
      + byte sa.sin6_addr (index * 4 + 3))
    % 2 ^ 32

unfoldable pub sin6_make_addr32 : ℕ → ℕ → ℕ → ℕ → List ℕ
sin6_make_addr32 addr0 addr1 addr2 addr3 =
    bytes32 (htonl addr0)
    ++ (bytes32 (htonl addr1) ++ (bytes32 (htonl addr2) ++ bytes32 (htonl addr3)))

-- `IN6_IS_ADDR_V4MAPPED`: the first twelve bytes.
abbrev pub v4mapped_prefix : List ℕ
v4mapped_prefix = zeros 10 ++ (255 ∷ 255 ∷ [])

unfoldable pub sin6_is_v4mapped : SockaddrIn6 → Bool
sin6_is_v4mapped sa = equal (take 12 sa.sin6_addr) v4mapped_prefix

unfoldable pub sa_is_v4mapped : Option Sockaddr → Bool
sa_is_v4mapped (some (inet6 sa)) = sin6_is_v4mapped sa
sa_is_v4mapped (some (unspec _)) = false
sa_is_v4mapped (some (inet _)) = false
sa_is_v4mapped (some (unix _)) = false
sa_is_v4mapped (some (other _)) = false
sa_is_v4mapped none = false

unfoldable pub sa_is_unspec : Option Sockaddr → Bool
sa_is_unspec (some (unspec _)) = true
sa_is_unspec _ = false

unfoldable pub sa_is_inet : Option Sockaddr → Bool
sa_is_inet (some (inet _)) = true
sa_is_inet _ = false

unfoldable pub sa_is_inet6 : Option Sockaddr → Bool
sa_is_inet6 (some (inet6 _)) = true
sa_is_inet6 _ = false

unfoldable pub sa_is_inet_inet6 : Option Sockaddr → Bool
sa_is_inet_inet6 (some (inet _)) = true
sa_is_inet_inet6 (some (inet6 _)) = true
sa_is_inet_inet6 _ = false

unfoldable pub sin_is_any : SockaddrIn → Bool
sin_is_any sa = sa.s_addr == htonl 0

unfoldable pub sin6_is_any : SockaddrIn6 → Bool
sin6_is_any sa = equal sa.sin6_addr (zeros 16)

unfoldable pub sa_is_any : Sockaddr → Bool
sa_is_any (inet sa) = sin_is_any sa
sa_is_any (inet6 sa) =
    if sin6_is_v4mapped sa then sin6_addr32_index sa 3 == htonl 0 else sin6_is_any sa
sa_is_any _ = true

unfoldable pub sin_is_broadcast : SockaddrIn → Bool
sin_is_broadcast sa = sa.s_addr == htonl (2 ^ 32 - 1)

unfoldable pub sa_is_broadcast : Sockaddr → Bool
sa_is_broadcast (inet sa) = sin_is_broadcast sa
sa_is_broadcast (inet6 sa) =
    if sin6_is_v4mapped sa then sin6_addr32_index sa 3 == htonl (2 ^ 32 - 1) else false
sa_is_broadcast _ = false

unfoldable pub sin_is_loopback : SockaddrIn → Bool
sin_is_loopback sa = ntohl sa.s_addr / 2 ^ 24 == 127

-- `IN6_IS_ADDR_LOOPBACK`: ::1.
unfoldable pub sin6_is_loopback : SockaddrIn6 → Bool
sin6_is_loopback sa = equal sa.sin6_addr (zeros 15 ++ (1 ∷ []))

unfoldable pub sa_is_loopback : Sockaddr → Bool
sa_is_loopback (inet sa) = sin_is_loopback sa
sa_is_loopback (inet6 sa) =
    if sin6_is_v4mapped sa then byte sa.sin6_addr 12 == 127 else sin6_is_loopback sa
sa_is_loopback _ = false

-- The mask keeps the upper half: 169.254.
unfoldable pub sin_is_link_local : SockaddrIn → Bool
sin_is_link_local sa = ntohl sa.s_addr / 2 ^ 16 == 169 * 2 ^ 8 + 254

-- `IN6_IS_ADDR_LINKLOCAL`: fe80::/10; `IN6_IS_ADDR_MC_LINKLOCAL`: ff and a scope of 2.
unfoldable pub sin6_is_link_local : SockaddrIn6 → Bool
sin6_is_link_local sa =
    ((byte sa.sin6_addr 0 == 254) && (byte sa.sin6_addr 1 / 2 ^ 6 == 2))
    || ((byte sa.sin6_addr 0 == 255) && (byte sa.sin6_addr 1 % 2 ^ 4 == 2))

unfoldable pub sa_is_link_local : Sockaddr → Bool
sa_is_link_local (inet sa) = sin_is_link_local sa
sa_is_link_local (inet6 sa) =
    if sin6_is_v4mapped sa
    then (byte sa.sin6_addr 12 == 169) && (byte sa.sin6_addr 13 == 254)
    else sin6_is_link_local sa
sa_is_link_local _ = false

unfoldable pub sa_port : Option Sockaddr → ℕ
sa_port (some (inet sa)) = ntohs sa.sin_port
sa_port (some (inet6 sa)) = ntohs sa.sin6_port
sa_port _ = 0

unfoldable pub sa_is_port_any : Option Sockaddr → Bool
sa_is_port_any sa = sa_port sa == 0

unfoldable pub sa_set_port : Sockaddr → ℕ → Sockaddr × Outcome (Unit {0})
sa_set_port (inet sa) port = (inet (record sa { sin_port = htons port }), returns tt)
sa_set_port (inet6 sa) port = (inet6 (record sa { sin6_port = htons port }), returns tt)
sa_set_port sa port = (sa, throws (internal_error "torrent::sa_set_port() invalid family type"))

-- `sizeof` of the three structures.
unfoldable pub sa_length : Sockaddr → Outcome ℕ
sa_length (unspec _) = returns 16
sa_length (inet _) = returns 16
sa_length (inet6 _) = returns 28
sa_length _ = throws (internal_error "torrent::sa_length() sockaddr is not a valid family")

-- What the fields of an address hold: 16-bit ports, 32-bit numbers, 16 bytes.
pub record IsIn (sa : SockaddrIn) : Type 0 where
  pub port_small : sa.sin_port < 2 ^ 16
  pub addr_small : sa.s_addr < 2 ^ 32

abbrev pub AllBytes : List ℕ → Type 0
AllBytes [] = Unit
AllBytes (b ∷ bs) = (b < 256) × AllBytes bs

pub record IsIn6 (sa : SockaddrIn6) : Type 0 where
  pub port_small : sa.sin6_port < 2 ^ 16
  pub addr_length : length sa.sin6_addr ≡ 16
  pub addr_bytes : AllBytes sa.sin6_addr
