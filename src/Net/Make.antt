-- ===== src/Net/Make.antt =====
-- The functions of torrent/net/socket_address.cc that make, copy and convert addresses.
use shm_ipc.Base.{ℕ, if◌then◌else◌, Option, none, some, List, [], ◌∷◌, String}
use shm_ipc.Base.Outcome.{Outcome, returns, throws, internal_error}
use shm_ipc.Net.ByteOrder.{htonl, ntohl, htons}
use shm_ipc.Net.Address.{
  SockaddrIn, SockaddrIn6, Sockaddr, unspec, inet, inet6, unix, zeros, sin6_addr32_index,
  sin6_make_addr32, sin6_is_v4mapped,
}

abbrev pub invalid {ℓ} : {A : Type ℓ} → String → Outcome A
invalid msg = throws (internal_error msg)

unfoldable pub sin_make : SockaddrIn
sin_make = record { sin_port = 0; s_addr = 0; sin_zero = zeros 8 }

unfoldable pub sin_make_any : SockaddrIn
sin_make_any = record sin_make { s_addr = htonl 0 }

unfoldable pub sin_make_h : ℕ → ℕ → SockaddrIn
sin_make_h addr port = record sin_make { s_addr = htonl addr; sin_port = htons port }

unfoldable pub sin_make_n : ℕ → ℕ → SockaddrIn
sin_make_n addr port = record sin_make { s_addr = addr; sin_port = port }

unfoldable pub sin6_make : SockaddrIn6
sin6_make = record { sin6_port = 0; sin6_flowinfo = 0; sin6_addr = zeros 16; sin6_scope_id = 0 }

unfoldable pub sin6_make_any : SockaddrIn6
sin6_make_any = record sin6_make { sin6_addr = zeros 16 }

unfoldable pub sa_make_unspec : Sockaddr
sa_make_unspec = unspec (zeros 14)

unfoldable pub sa_make_inet : Sockaddr
sa_make_inet = inet sin_make

unfoldable pub sa_make_inet_any : Sockaddr
sa_make_inet_any = inet sin_make_any

unfoldable pub sa_make_inet_h : ℕ → ℕ → Sockaddr
sa_make_inet_h addr port = inet (sin_make_h addr port)

unfoldable pub sa_make_inet_n : ℕ → ℕ → Sockaddr
sa_make_inet_n addr port = inet (sin_make_n addr port)

unfoldable pub sa_make_inet6 : Sockaddr
sa_make_inet6 = inet6 sin6_make

unfoldable pub sa_make_inet6_any : Sockaddr
sa_make_inet6_any = inet6 sin6_make_any

unfoldable pub sa_make_unix : List ℕ → Outcome Sockaddr
sa_make_unix [] = returns (unix (zeros 104))
sa_make_unix (c ∷ path) = invalid "torrent::sa_make_unix() function not implemented"

unfoldable pub sin_from_v4mapped_in6 : SockaddrIn6 → Outcome SockaddrIn
sin_from_v4mapped_in6 sin6 =
    if sin6_is_v4mapped sin6
    then returns
        (record sin_make { s_addr = htonl (sin6_addr32_index sin6 3); sin_port = sin6.sin6_port })
    else invalid "torrent::sin6_is_v4mapped() sockaddr_in6 is not v4mapped"

unfoldable pub sin6_to_v4mapped_in : SockaddrIn → SockaddrIn6
sin6_to_v4mapped_in sin = record sin6_make {
  sin6_addr = sin6_make_addr32 0 0 65535 (ntohl sin.s_addr);
  sin6_port = sin.sin_port;
}

abbrev pub as_inet : Outcome SockaddrIn → Outcome Sockaddr
as_inet (returns sa) = returns (inet sa)
as_inet (throws e) = throws e

unfoldable pub sa_from_v4mapped_in6 : SockaddrIn6 → Outcome Sockaddr
sa_from_v4mapped_in6 sin6 = as_inet (sin_from_v4mapped_in6 sin6)

unfoldable pub sa_to_v4mapped_in : SockaddrIn → Sockaddr
sa_to_v4mapped_in sin = inet6 (sin6_to_v4mapped_in sin)

unfoldable pub sa_from_v4mapped : Option Sockaddr → Outcome Sockaddr
sa_from_v4mapped (some (inet6 sa)) = as_inet (sin_from_v4mapped_in6 sa)
sa_from_v4mapped _ = invalid "torrent::sa_from_v4mapped() sockaddr is not inet6"

unfoldable pub sa_to_v4mapped : Option Sockaddr → Outcome Sockaddr
sa_to_v4mapped (some (inet sa)) = returns (inet6 (sin6_to_v4mapped_in sa))
sa_to_v4mapped _ = invalid "torrent::sa_to_v4mapped() sockaddr is not inet"

unfoldable pub sin_from_sa : Option Sockaddr → Outcome SockaddrIn
sin_from_sa (some (inet sa)) = returns sa
sin_from_sa _ = invalid "torrent::sin_from_sa() sockaddr is nullptr or not inet"

unfoldable pub sin6_from_sa : Option Sockaddr → Outcome SockaddrIn6
sin6_from_sa (some (inet6 sa)) = returns sa
sin6_from_sa _ = invalid "torrent::sin6_from_sa() sockaddr is nullptr or not inet6"

-- A copy is a new object with the same fields.
unfoldable pub sa_copy_in : SockaddrIn → Sockaddr
sa_copy_in sa = inet sa

unfoldable pub sa_copy_in6 : SockaddrIn6 → Sockaddr
sa_copy_in6 sa = inet6 sa

unfoldable pub sa_copy : Option Sockaddr → Outcome Sockaddr
sa_copy none = invalid "torrent::sa_copy() sockaddr is a nullptr"
sa_copy (some (inet sa)) = returns (sa_copy_in sa)
sa_copy (some (inet6 sa)) = returns (sa_copy_in6 sa)
sa_copy (some (unspec _)) = returns sa_make_unspec
sa_copy (some _) = invalid "torrent::sa_copy() sockaddr is not a valid family"

unfoldable pub sa_copy_addr_in : SockaddrIn → ℕ → Sockaddr
sa_copy_addr_in sa port = inet (record sin_make { s_addr = sa.s_addr; sin_port = htons port })

unfoldable pub sa_copy_addr_in6 : SockaddrIn6 → ℕ → Sockaddr
sa_copy_addr_in6 sa port =
    inet6 (record sin6_make { sin6_addr = sa.sin6_addr; sin6_port = htons port })

unfoldable pub sa_copy_addr : Option Sockaddr → ℕ → Outcome Sockaddr
sa_copy_addr none port = invalid "torrent::sa_copy_addr() sockaddr is a nullptr"
sa_copy_addr (some (inet sa)) port = returns (sa_copy_addr_in sa port)
sa_copy_addr (some (inet6 sa)) port = returns (sa_copy_addr_in6 sa port)
sa_copy_addr (some (unspec _)) port = returns sa_make_unspec
sa_copy_addr (some _) port = invalid "torrent::sa_copy_addr() sockaddr is not a valid family"

abbrev pub copy_in6_unmapped : SockaddrIn6 → Outcome Sockaddr
copy_in6_unmapped sa =
    if sin6_is_v4mapped sa then sa_from_v4mapped_in6 sa else returns (sa_copy_in6 sa)

unfoldable pub sa_copy_unmapped : Option Sockaddr → Outcome Sockaddr
sa_copy_unmapped none = invalid "torrent::sa_copy_unmapped() sockaddr is a nullptr"
sa_copy_unmapped (some (inet sa)) = returns (sa_copy_in sa)
sa_copy_unmapped (some (inet6 sa)) = copy_in6_unmapped sa
sa_copy_unmapped (some (unspec _)) = returns sa_make_unspec
sa_copy_unmapped (some _) = invalid "torrent::sa_copy_unmapped() sockaddr is not a valid family"

unfoldable pub sa_convert : Option Sockaddr → Outcome Sockaddr
sa_convert none = returns sa_make_unspec
sa_convert (some (inet sa)) = returns (sa_copy_in sa)
sa_convert (some (inet6 sa)) = copy_in6_unmapped sa
sa_convert (some (unspec _)) = returns sa_make_unspec
sa_convert (some _) = invalid "torrent::sa_convert() sockaddr is not a valid family"

unfoldable pub sa_inet_union_from_sa : Sockaddr → Outcome Sockaddr
sa_inet_union_from_sa (inet sa) = returns (inet sa)
sa_inet_union_from_sa (inet6 sa) = returns (inet6 sa)
sa_inet_union_from_sa _ = invalid "torrent::sa_inet_union_from_sa() sockaddr is not inet or inet6"

unfoldable pub sin_copy : SockaddrIn → SockaddrIn
sin_copy sa = sa

unfoldable pub sin6_copy : SockaddrIn6 → SockaddrIn6
sin6_copy sa = sa

unfoldable pub sin_from_c_sa : Option Sockaddr → Outcome SockaddrIn
sin_from_c_sa (some (inet sa)) = returns sa
sin_from_c_sa _ = invalid "torrent::sin_from_c_sa() sockaddr is nullptr or not inet"

unfoldable pub sin6_from_c_sa : Option Sockaddr → Outcome SockaddrIn6
sin6_from_c_sa (some (inet6 sa)) = returns sa
sin6_from_c_sa _ = invalid "torrent::sin6_from_c_sa() sockaddr is nullptr or not inet6"

unfoldable pub sa_clear_inet6 : SockaddrIn6
sa_clear_inet6 = sin6_make
