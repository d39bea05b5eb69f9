-- ===== src/Net/Numeric.antt =====
-- What `sa_lookup_numeric` of torrent/net/socket_address.cc promises in its comment.
use shm_ipc.Base.{Bool, true, false, Option, none, some, ◌≡◌, arith}
use Prim.Native.String.{String}
use shm_ipc.Base.Outcome.{returns}
use shm_ipc.Net.Address.{Sockaddr, inet, inet6}
use shm_ipc.Net.Make.{sa_copy_in, sa_copy_in6}
use shm_ipc.Net.Lookup.{
  Family, af_unspec, af_inet, af_inet6, af_other, Answer, found, no_name, addr_family, failed,
  GetAddrInfo, sa_lookup_numeric, try_lookup_numeric,
}

-- Whether an address is of the family that was asked for.
abbrev pub is_of : Family → Sockaddr → Bool
is_of af_unspec (inet _) = true
is_of af_unspec (inet6 _) = true
is_of af_inet (inet _) = true
is_of af_inet6 (inet6 _) = true
is_of _ _ = false

-- The answer of a look-up that returns: the address and true, for a numeric address of the family;
-- no address and false, for one of the other family; and no address and true otherwise.
abbrev pub promised : Family → Answer → Option Sockaddr × Bool
promised family (found sa) = elim (is_of family sa) [
  | true ↦ (some sa, true)
  | false ↦ (none, false)
]
promised family (no_name _) = (none, true)
promised family (addr_family _) = (none, true)
promised family (failed _) = (none, true)

-- If `sa_lookup_numeric` returns, it answers as its comment promises: the address and true if the
-- text is a numeric address of the family, no address and false if it is one of the other family,
-- and no address and true if it is not numeric.
pub sa_lookup_numeric-promised :
    (getaddrinfo : GetAddrInfo) (address_str : String) (family : Family)
    (out : Option Sockaddr × Bool)
    → sa_lookup_numeric getaddrinfo address_str family ≡ returns out
    → out ≡ promised family (getaddrinfo address_str af_unspec true)
unfolding sa_lookup_numeric try_lookup_numeric sa_copy_in sa_copy_in6
sa_lookup_numeric-promised getaddrinfo address_str af_unspec out e = ground arith
sa_lookup_numeric-promised getaddrinfo address_str af_inet out e = ground arith
sa_lookup_numeric-promised getaddrinfo address_str af_inet6 out e = ground arith
sa_lookup_numeric-promised getaddrinfo address_str af_other out e = ground arith
