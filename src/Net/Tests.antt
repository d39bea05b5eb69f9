-- ===== src/Net/Tests.antt =====
-- Runs of socket_address.cc.
use shm_ipc.Base.{◌≡◌, refl, true, false, Bool, not, ◌&&◌, none, some, [], ◌∷◌, ◌++◌, arith}
use shm_ipc.Base.Outcome.{returns}
use shm_ipc.Net.ByteOrder.{htonl, equal}
use shm_ipc.Net.Address.{
  SockaddrIn, SockaddrIn6, inet, inet6, zeros, IsIn, IsIn6, sin6_is_v4mapped, sa_is_any,
  sa_is_broadcast, sa_is_loopback, sa_is_link_local, sa_port, sa_is_inet_inet6, sin6_addr32_index,
}
use shm_ipc.Net.Make.{
  sin_from_v4mapped_in6, sin6_to_v4mapped_in, sa_to_v4mapped_in, sa_convert, sin_make, sa_copy_in,
}
use shm_ipc.Net.Compare.{sa_less, sa_equal, sin_less}
use shm_ipc.Net.Lookup.{af_inet6, found, GetAddrInfo, sa_lookup_numeric, try_lookup_numeric}
use shm_ipc.Net.Mapped.{sin_from-to_v4mapped, sin6_to-from_v4mapped, v4mapped-classes}
use shm_ipc.Net.Order.{v4, v6, sa_less-Trichotomy, sa_less_trans}
use shm_ipc.Net.Numeric.{promised, sa_lookup_numeric-promised}

-- 127.0.0.1 with port 80, 127.0.0.2 and ::ffff:127.0.0.1.
abbrev home : SockaddrIn
home = record { sin_port = 20480; s_addr = 16777343; sin_zero = zeros 8 }

abbrev home_2 : SockaddrIn
home_2 = record home { s_addr = 33554559 }

abbrev home_6 : SockaddrIn6
home_6 = record {
  sin6_port = 20480;
  sin6_flowinfo = 0;
  sin6_addr = zeros 10 ++ (255 ∷ 255 ∷ 127 ∷ 0 ∷ 0 ∷ 1 ∷ []);
  sin6_scope_id = 0;
}

home-IsIn : IsIn home
home-IsIn = omega arith

home_2-IsIn : IsIn home_2
home_2-IsIn = omega arith

home_6-IsIn6 : IsIn6 home_6
home_6-IsIn6 = ground arith

sin_from-to_v4mapped_example : sin_from_v4mapped_in6 (sin6_to_v4mapped_in home) ≡ returns home
sin_from-to_v4mapped_example = sin_from-to_v4mapped home home-IsIn

home_6-from : sin_from_v4mapped_in6 home_6 ≡ returns home
unfolding sin_from_v4mapped_in6 sin6_is_v4mapped equal sin_make htonl sin6_addr32_index
home_6-from = refl

sin6_to-from_v4mapped_run : sin6_to_v4mapped_in home ≡ home_6
sin6_to-from_v4mapped_run = sin6_to-from_v4mapped home_6 home home_6-IsIn6 refl refl home_6-from

v4mapped-classes_run :
    (sa_is_any (sa_to_v4mapped_in home) ≡ sa_is_any (inet home))
    × (sa_is_broadcast (sa_to_v4mapped_in home) ≡ sa_is_broadcast (inet home))
    × (sa_is_loopback (sa_to_v4mapped_in home) ≡ sa_is_loopback (inet home))
    × (sa_is_link_local (sa_to_v4mapped_in home) ≡ sa_is_link_local (inet home))
    × (sa_port (some (sa_to_v4mapped_in home)) ≡ sa_port (some (inet home)))
v4mapped-classes_run = v4mapped-classes home home-IsIn

home-converted : sa_convert (some (inet home)) ≡ returns (inet home)
unfolding sa_convert sa_copy_in
home-converted = refl

sa_less-Trichotomy_example :
    (less : Bool) × (greater : Bool) × (equals : Bool) × (sa_less (inet home) (inet6 home_6)
      ≡ returns less)
    × (sa_less (inet6 home_6) (inet home) ≡ returns greater)
    × (sa_equal (inet home) (inet6 home_6) ≡ returns equals)
    × ((less && greater) ≡ false)
    × (equals ≡ (not less && not greater))
sa_less-Trichotomy_example = sa_less-Trichotomy (v4 home-IsIn) (v6 home_6-IsIn6)

one-two : sa_less (inet home) (inet home_2) ≡ returns true
unfolding sa_less sa_is_inet_inet6 sin_less htonl
one-two = refl

two-mapped : sa_less (inet home_2) (inet6 home_6) ≡ returns true
unfolding sa_less sa_is_inet_inet6
two-mapped = refl

sa_less_trans_run : sa_less (inet home) (inet6 home_6) ≡ returns true
sa_less_trans_run =
    sa_less_trans (v4 home-IsIn) (v4 home_2-IsIn) (v6 home_6-IsIn6) one-two two-mapped

abbrev always_home : GetAddrInfo
always_home name family numeric = found (inet home)

looks-home : sa_lookup_numeric always_home "127.0.0.1" af_inet6 ≡ returns (none, false)
unfolding sa_lookup_numeric try_lookup_numeric
looks-home = refl

sa_lookup_numeric-promised_example : (none, false) ≡ promised af_inet6 (found (inet home))
sa_lookup_numeric-promised_example =
    sa_lookup_numeric-promised always_home "127.0.0.1" af_inet6 (none, false) looks-home
