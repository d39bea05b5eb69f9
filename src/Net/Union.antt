-- ===== src/Net/Union.antt =====
-- `sa_copy_to_inet_union` of torrent/net/socket_address.cc, and the union `sa_inet_union` of
-- torrent/net/types.h as the bytes that its members share.
mod Tests
use shm_ipc.Base.{
  take-first, drop-first, ℕ, suc, zero, ◌+◌, ◌*◌, ◌/◌, ◌%◌, ◌^◌, ◌<◌, ◌≡◌, refl, ◌∙◌, ap, Option,
  none, some, List, [], ◌∷◌, ◌++◌, append_assoc, length, take, drop, arith,
}
use shm_ipc.Base.Outcome.{Outcome, returns, throws, internal_error}
use shm_ipc.Memory.{bytes32}
use shm_ipc.Net.Address.{
  SockaddrIn, SockaddrIn6, Sockaddr, unspec, inet, inet6, unix, other, byte, IsIn, IsIn6,
}

-- The family of a union, which no other address is copied to.
pub data UnionFamily : Type 0 where
  af_unspec af_inet af_inet6 : UnionFamily

-- `behind` are the 26 bytes behind the family, on a little-endian host. A length in front of the
-- family, which some systems have, is left out.
pub record InetUnion : Type 0 where
  pub family : UnionFamily
  pub behind : List ℕ

abbrev pub bytes16 : ℕ → List ℕ
bytes16 v = (v % 256) ∷ (v / 256 % 256) ∷ []

-- The members of the structures, behind the family.
unfoldable pub in_bytes : SockaddrIn → List ℕ
in_bytes sa = bytes16 sa.sin_port ++ (bytes32 sa.s_addr ++ sa.sin_zero)

unfoldable pub in6_bytes : SockaddrIn6 → List ℕ
in6_bytes sa =
    bytes16 sa.sin6_port ++ (bytes32 sa.sin6_flowinfo ++ (sa.sin6_addr ++ bytes32 sa.sin6_scope_id))

-- A copy to a member leaves the bytes behind it, and one of AF_UNSPEC all but the family.
unfoldable pub sa_copy_to_inet_union : Sockaddr → InetUnion → InetUnion × Outcome (Unit {0})
sa_copy_to_inet_union (unspec bytes) u = (record u { family = af_unspec }, returns tt)
sa_copy_to_inet_union (inet sa) u = (
  record { family = af_inet; behind = in_bytes sa ++ drop (length (in_bytes sa)) u.behind },
  returns tt,
)
sa_copy_to_inet_union (inet6 sa) u = (
  record { family = af_inet6; behind = in6_bytes sa ++ drop (length (in6_bytes sa)) u.behind },
  returns tt,
)
sa_copy_to_inet_union sa u = (
  u,
  throws (internal_error "torrent::sa_copy_to_inet_union() sockaddr is not unspec, inet or inet6"),
)

abbrev pub load16_at : List ℕ → ℕ → ℕ
load16_at bs i = byte bs i + byte bs (i + 1) * 2 ^ 8

abbrev pub load32_at : List ℕ → ℕ → ℕ
load32_at bs i =
    byte bs i + byte bs (i + 1) * 2 ^ 8 + byte bs (i + 2) * 2 ^ 16 + byte bs (i + 3) * 2 ^ 24

-- The members `inet` and `inet6`, as they are read.
unfoldable pub as_inet : InetUnion → SockaddrIn
as_inet u = record {
  sin_port = load16_at u.behind 0;
  s_addr = load32_at u.behind 2;
  sin_zero = take 8 (drop 6 u.behind);
}

unfoldable pub as_inet6 : InetUnion → SockaddrIn6
as_inet6 u = record {
  sin6_port = load16_at u.behind 0;
  sin6_flowinfo = load32_at u.behind 2;
  sin6_addr = take 16 (drop 6 u.behind);
  sin6_scope_id = load32_at (drop 22 u.behind) 0;
}

load16-bytes16 : (v : ℕ) → v < 2 ^ 16 → v % 256 + v / 256 % 256 * 2 ^ 8 ≡ v
load16-bytes16 v small = omega arith

load32-bytes32 :
    (v : ℕ)
    → v < 2 ^ 32
    → v % 256 + v / 256 % 256 * 2 ^ 8 + v / 65536 % 256 * 2 ^ 16 + v / 16777216 % 256 * 2 ^ 24 ≡ v
load32-bytes32 v small = omega arith

-- An IPv4 address is read back from the union that it is copied to, and still so when an address of
-- no family has been copied over it.
pub as_inet-copy :
    (sa : SockaddrIn) (bytes : List ℕ) (u : InetUnion)
    → IsIn sa
    → length sa.sin_zero ≡ 8
    → let v = (sa_copy_to_inet_union (inet sa) u).0 in
      (v.family ≡ af_inet)
      × (as_inet v ≡ sa)
      × (as_inet (sa_copy_to_inet_union (unspec bytes) v).0 ≡ sa)
unfolding sa_copy_to_inet_union as_inet in_bytes
as_inet-copy sa bytes u i eight = (refl, same over, same over)
  where
    over : List ℕ
    over = drop (length (in_bytes sa)) u.behind

    same :
        (rest : List ℕ) → as_inet (record { family = af_inet; behind = in_bytes sa ++ rest }) ≡ sa
    same rest = λ k. record {
      sin_port = load16-bytes16 sa.sin_port i.port_small k;
      s_addr = load32-bytes32 sa.s_addr i.addr_small k;
      sin_zero = take-first 8 sa.sin_zero rest eight k;
    }

-- An IPv6 address whose fields fit their widths is read back, with the family, from the union that
-- it is copied to, and still so when an address of no family has been copied over it.
pub as_inet6-copy :
    (sa : SockaddrIn6) (bytes : List ℕ) (u : InetUnion)
    → IsIn6 sa
    → sa.sin6_flowinfo < 2 ^ 32
    → sa.sin6_scope_id < 2 ^ 32
    → let v = (sa_copy_to_inet_union (inet6 sa) u).0 in
      (v.family ≡ af_inet6)
      × (as_inet6 v ≡ sa)
      × (as_inet6 (sa_copy_to_inet_union (unspec bytes) v).0 ≡ sa)
unfolding sa_copy_to_inet_union as_inet6 in6_bytes
as_inet6-copy sa bytes u i flow scope = (refl, same over, same over)
  where
    over : List ℕ
    over = drop (length (in6_bytes sa)) u.behind

    apart :
        (rest : List ℕ)
        → (sa.sin6_addr ++ bytes32 sa.sin6_scope_id) ++ rest
          ≡ sa.sin6_addr ++ (bytes32 sa.sin6_scope_id ++ rest)
    apart rest = append_assoc sa.sin6_addr (bytes32 sa.sin6_scope_id) rest

    addr_back : (rest : List ℕ) → take 16 (drop 6 (in6_bytes sa ++ rest)) ≡ sa.sin6_addr
    addr_back rest = ap (take 16) (apart rest) ∙ take-first 16 sa.sin6_addr _ i.addr_length

    scope_back : (rest : List ℕ) → load32_at (drop 22 (in6_bytes sa ++ rest)) 0 ≡ sa.sin6_scope_id
    scope_back rest =
        ap (λ bs. load32_at bs 0)
          (ap (drop 16) (apart rest) ∙ drop-first 16 sa.sin6_addr _ i.addr_length)
        ∙ load32-bytes32 sa.sin6_scope_id scope

    same :
        (rest : List ℕ)
        → as_inet6 (record { family = af_inet6; behind = in6_bytes sa ++ rest }) ≡ sa
    same rest = λ k. record {
      sin6_port = load16-bytes16 sa.sin6_port i.port_small k;
      sin6_flowinfo = load32-bytes32 sa.sin6_flowinfo flow k;
      sin6_addr = addr_back rest k;
      sin6_scope_id = scope_back rest k;
    }
