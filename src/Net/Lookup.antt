-- ===== src/Net/Lookup.antt =====
-- The look-ups of torrent/net/socket_address.cc. `getaddrinfo` is a parameter of the model.
use shm_ipc.Base.{Bool, true, false, Option, none, some}
use Prim.Native.String.{String, ◌++◌}
use shm_ipc.Base.Outcome.{Outcome, returns, throws}
use shm_ipc.Net.Address.{SockaddrIn, SockaddrIn6, Sockaddr, unspec, inet, inet6, unix, other}
use shm_ipc.Net.Make.{invalid, sa_make_unspec, sa_copy, sa_copy_in, sa_copy_in6}

pub data Family : Type 0 where
  af_unspec : Family
  af_inet : Family
  af_inet6 : Family
  af_other : Family

-- What `getaddrinfo` answers: the first address, or a code with the text that `gai_strerror` has for
-- it; the first two codes are EAI_NONAME and EAI_ADDRFAMILY.
pub data Answer : Type 0 where
  found : Sockaddr → Answer
  no_name : String → Answer
  addr_family : String → Answer
  failed : String → Answer

-- By the host's name, the hinted family, and whether the name has to be numeric.
abbrev pub GetAddrInfo : Type 0
GetAddrInfo = String → Family → Bool → Answer

abbrev pub Pair : Type 0
Pair = Option SockaddrIn × Option SockaddrIn6

abbrev pub looked_up : String → Answer → Outcome Sockaddr
looked_up address_str (found sa) = sa_copy (some sa)
looked_up address_str (no_name text) =
    invalid ("Could not get address info: " ++ (address_str ++ (": " ++ text)))
looked_up address_str (addr_family text) =
    invalid ("Could not get address info: " ++ (address_str ++ (": " ++ text)))
looked_up address_str (failed text) =
    invalid ("Could not get address info: " ++ (address_str ++ (": " ++ text)))

-- `is_empty` is `address_str.empty()`.
unfoldable pub sa_lookup_address : GetAddrInfo → Bool → String → Family → Outcome Sockaddr
sa_lookup_address getaddrinfo true address_str family = returns sa_make_unspec
sa_lookup_address getaddrinfo false address_str family =
    looked_up address_str (getaddrinfo address_str family false)

abbrev pub numeric_answer : Answer → Outcome Pair
numeric_answer (no_name _) = returns (none, none)
numeric_answer (addr_family _) = returns (none, none)
numeric_answer (failed text) = invalid ("getaddrinfo failed: " ++ text)
numeric_answer (found (inet sa)) = returns (some sa, none)
numeric_answer (found (inet6 sa)) = returns (none, some sa)
numeric_answer (found (unspec _)) = invalid "getaddrinfo returned unsupported family"
numeric_answer (found (unix _)) = invalid "getaddrinfo returned unsupported family"
numeric_answer (found (other _)) = invalid "getaddrinfo returned unsupported family"

unfoldable pub try_lookup_numeric : GetAddrInfo → String → Family → Outcome Pair
try_lookup_numeric getaddrinfo hostname family = numeric_answer (getaddrinfo hostname family true)

-- The `switch` of `sa_lookup_numeric`.
abbrev pub by_family : Family → Pair → Outcome (Option Sockaddr × Bool)
by_family af_unspec (some sin, _) = returns (some (sa_copy_in sin), true)
by_family af_unspec (none, some sin6) = returns (some (sa_copy_in6 sin6), true)
by_family af_unspec (none, none) = returns (none, true)
by_family af_inet (some sin, _) = returns (some (sa_copy_in sin), true)
by_family af_inet (none, some sin6) = returns (none, false)
by_family af_inet (none, none) = returns (none, true)
by_family af_inet6 (_, some sin6) = returns (some (sa_copy_in6 sin6), true)
by_family af_inet6 (some sin, none) = returns (none, false)
by_family af_inet6 (none, none) = returns (none, true)
by_family af_other _ = invalid "torrent::sa_lookup_numeric() invalid family"

abbrev pub then_by_family : Family → Outcome Pair → Outcome (Option Sockaddr × Bool)
then_by_family family (throws e) = throws e
then_by_family family (returns pair) = by_family family pair

unfoldable pub sa_lookup_numeric : GetAddrInfo → String → Family → Outcome (Option Sockaddr × Bool)
sa_lookup_numeric getaddrinfo address_str family =
    then_by_family family (try_lookup_numeric getaddrinfo address_str af_unspec)
