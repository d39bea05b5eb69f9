-- ===== src/Net/Union/Tests.antt =====
-- Runs of Net/Union.
use shm_ipc.Base.{◌≡◌, refl, [], ◌∷◌, ◌++◌, arith}
use shm_ipc.Net.Address.{zeros, SockaddrIn6, unspec, inet6, IsIn6}
use shm_ipc.Net.Union.{
  InetUnion, af_unspec, af_inet6, in6_bytes, sa_copy_to_inet_union, as_inet6, as_inet6-copy,
}

-- fe80::1 with port 80 and a scope.
abbrev link : SockaddrIn6
link = record {
  sin6_port = 20480;
  sin6_flowinfo = 0;
  sin6_addr = 254 ∷ 128 ∷ (zeros 13 ++ (1 ∷ []));
  sin6_scope_id = 70000;
}

link-IsIn6 : IsIn6 link
link-IsIn6 = ground arith

abbrev empty_union : InetUnion
empty_union = record { family = af_unspec; behind = zeros 26 }

as_inet6-copy_example :
    let v = (sa_copy_to_inet_union (inet6 link) empty_union).0 in
    (v.family ≡ af_inet6)
    × (as_inet6 v ≡ link)
    × (as_inet6 (sa_copy_to_inet_union (unspec []) v).0 ≡ link)
as_inet6-copy_example = as_inet6-copy link [] empty_union link-IsIn6 (omega arith) (omega arith)

-- The whole union is written.
in6_bytes-link :
    in6_bytes link ≡ (0 ∷ 80 ∷ 0 ∷ 0 ∷ 0 ∷ 0 ∷ 254 ∷ 128 ∷ zeros 13) ++ (1 ∷ 112 ∷ 17 ∷ 1 ∷ 0 ∷ [])
unfolding in6_bytes
in6_bytes-link = refl
