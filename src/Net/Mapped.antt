-- ===== src/Net/Mapped.antt =====
-- IPv4 addresses and their IPv6 form, ::ffff:a.b.c.d, in torrent/net/socket_address.cc.
use shm_ipc.Base.{
  ℕ, zero, suc, ◌+◌, ◌-◌, ◌*◌, ◌/◌, ◌%◌, ◌^◌, ◌<◌, ◌≡◌, refl, sym, ap, ◌∙◌, true, false, ◌&&◌, ◌==◌,
  Option, none, some, List, [], ◌∷◌, ◌++◌, take, drop, length, length-drop, take-append-drop, arith,
  Bool-cases, inl, inr,
}
use shm_ipc.Base.Outcome.{returns}
use shm_ipc.Memory.{bytes32}
use shm_ipc.Net.ByteOrder.{htonl, ntohl, ntohs, htonl-htonl, htonl_small, equal}
use shm_ipc.Net.Address.{
  SockaddrIn, SockaddrIn6, Sockaddr, unspec, inet, inet6, unix, other, zeros, byte,
  sin6_addr32_index, sin6_make_addr32, v4mapped_prefix, sin6_is_v4mapped, sa_is_v4mapped, sa_is_any,
  sin_is_any, sa_is_broadcast, sin_is_broadcast, sa_is_loopback, sin_is_loopback, sa_is_link_local,
  sin_is_link_local, sa_port, IsIn, IsIn6, AllBytes,
}
use shm_ipc.Net.Make.{
  sin_make, sin6_make, sin_from_v4mapped_in6, sin6_to_v4mapped_in, sa_to_v4mapped_in,
  sa_from_v4mapped_in6, sa_convert, sa_copy_in, sa_copy_in6, sa_make_unspec,
}

pub equal-true : (l r : List ℕ) → equal l r ≡ true → l ≡ r
unfolding equal
equal-true [] [] e = refl
equal-true [] (b ∷ r) e = cc
equal-true (a ∷ l) [] e = cc
equal-true (a ∷ l) (b ∷ r) e = ground (arith, equal-true l r)

make_addr32_lem : (x : ℕ) → sin6_make_addr32 0 0 65535 x ≡ v4mapped_prefix ++ bytes32 (htonl x)
unfolding sin6_make_addr32 htonl
make_addr32_lem x = refl

-- The sixteen bytes of a mapped address.
mapped_addr :
    (a : ℕ) → a < 2 ^ 32 → sin6_make_addr32 0 0 65535 (ntohl a) ≡ v4mapped_prefix ++ bytes32 a
mapped_addr a h =
    make_addr32_lem (ntohl a) ∙ ap (λ y. v4mapped_prefix ++ bytes32 y) (htonl-htonl a h)

to_v4mapped_addr :
    (sa : SockaddrIn)
    → IsIn sa
    → (sin6_to_v4mapped_in sa).sin6_addr ≡ v4mapped_prefix ++ bytes32 sa.s_addr
unfolding sin6_to_v4mapped_in
to_v4mapped_addr sa w = mapped_addr sa.s_addr w.addr_small

to_v4mapped-v4mapped :
    (sa : SockaddrIn) → IsIn sa → sin6_is_v4mapped (sin6_to_v4mapped_in sa) ≡ true
unfolding sin6_is_v4mapped equal
to_v4mapped-v4mapped sa w = rw (to_v4mapped_addr sa w) refl

index_3 :
    (sa : SockaddrIn) → IsIn sa → sin6_addr32_index (sin6_to_v4mapped_in sa) 3 ≡ htonl sa.s_addr
unfolding sin6_addr32_index htonl
index_3 sa w = rw (to_v4mapped_addr sa w) (omega (arith, w.addr_small))

pub sin6_to_v4mapped_in-port : (sa : SockaddrIn) → (sin6_to_v4mapped_in sa).sin6_port ≡ sa.sin_port
unfolding sin6_to_v4mapped_in
sin6_to_v4mapped_in-port sa = refl

-- An IPv4 address comes back from its IPv6 form with its address and its port; the padding is
-- cleared.
pub sin_from-to_v4mapped :
    (sa : SockaddrIn)
    → IsIn sa
    → sin_from_v4mapped_in6 (sin6_to_v4mapped_in sa)
      ≡ returns (record { sin_port = sa.sin_port; s_addr = sa.s_addr; sin_zero = zeros 8 })
unfolding sin_from_v4mapped_in6 sin_make
sin_from-to_v4mapped sa w =
    rw
      (
        to_v4mapped-v4mapped sa w,
        index_3 sa w,
        htonl-htonl sa.s_addr w.addr_small,
        sin6_to_v4mapped_in-port sa,
      )
      refl

any_bytes : (a : ℕ) → a < 2 ^ 32 → (htonl a == htonl 0) ≡ (a == htonl 0)
unfolding htonl
any_bytes a h = ground arith

broadcast_bytes : (a : ℕ) → a < 2 ^ 32 → (htonl a == htonl (2 ^ 32 - 1)) ≡ (a == htonl (2 ^ 32 - 1))
unfolding htonl
broadcast_bytes a h = ground arith

loopback_byte : (a : ℕ) → a < 2 ^ 32 → (a % 256 == 127) ≡ (ntohl a / 2 ^ 24 == 127)
unfolding htonl
loopback_byte a h = ground arith

link_local_bytes :
    (a : ℕ)
    → a < 2 ^ 32
    → ((a % 256 == 169) && (a / 2 ^ 8 % 256 == 254)) ≡ (ntohl a / 2 ^ 16 == 169 * 2 ^ 8 + 254)
unfolding htonl
link_local_bytes a h = ground arith

-- The classes of an IPv4 address are those of its IPv6 form: any, broadcast, loopback and link
-- local agree, and so does the port.
pub v4mapped-classes :
    (sa : SockaddrIn)
    → IsIn sa
    → (sa_is_any (sa_to_v4mapped_in sa) ≡ sa_is_any (inet sa))
      × (sa_is_broadcast (sa_to_v4mapped_in sa) ≡ sa_is_broadcast (inet sa))
      × (sa_is_loopback (sa_to_v4mapped_in sa) ≡ sa_is_loopback (inet sa))
      × (sa_is_link_local (sa_to_v4mapped_in sa) ≡ sa_is_link_local (inet sa))
      × (sa_port (some (sa_to_v4mapped_in sa)) ≡ sa_port (some (inet sa)))
unfolding sa_is_any sa_is_broadcast sa_is_loopback sa_is_link_local sa_port sa_to_v4mapped_in
    sin_is_any sin_is_broadcast sin_is_loopback sin_is_link_local
v4mapped-classes sa w =
    rw (to_v4mapped-v4mapped sa w, index_3 sa w, to_v4mapped_addr sa w)
      (
        any_bytes sa.s_addr w.addr_small,
        broadcast_bytes sa.s_addr w.addr_small,
        loopback_byte sa.s_addr w.addr_small,
        link_local_bytes sa.s_addr w.addr_small,
        ap ntohs (sin6_to_v4mapped_in-port sa),
      )

-- What `sa_convert` returns is never an IPv4 address in its IPv6 form.
pub sa_convert-unmapped :
    (sa : Option Sockaddr) (r : Sockaddr)
    → sa_convert sa ≡ returns r
    → sa_is_v4mapped (some r) ≡ false
unfolding sa_convert sa_is_v4mapped sa_make_unspec sa_copy_in sa_copy_in6 sa_from_v4mapped_in6
    sin_from_v4mapped_in6
sa_convert-unmapped none r e = ground arith
sa_convert-unmapped (some (inet sa)) r e = ground arith
sa_convert-unmapped (some (unspec d)) r e = ground arith
sa_convert-unmapped (some (unix d)) r e = cc
sa_convert-unmapped (some (other d)) r e = cc
sa_convert-unmapped (some (inet6 sa)) r e = ground arith

-- Converting an IPv4 address, or its IPv6 form, gives that IPv4 address; the padding is cleared
-- in the second case.
pub sa_convert-v4mapped :
    (sa : SockaddrIn)
    → IsIn sa
    → (sa_convert (some (inet sa)) ≡ returns (inet sa))
      × (sa_convert (some (sa_to_v4mapped_in sa))
          ≡ returns (inet (record sa { sin_zero = zeros 8 })))
unfolding sa_convert sa_copy_in sa_to_v4mapped_in sa_from_v4mapped_in6
sa_convert-v4mapped sa w = (refl, rw (to_v4mapped-v4mapped sa w, sin_from-to_v4mapped sa w) refl)

four_bytes :
    (bs : List ℕ)
    → length bs ≡ 4
    → AllBytes bs
    → bytes32
        (htonl ((byte bs 0 * 2 ^ 24 + byte bs 1 * 2 ^ 16 + byte bs 2 * 2 ^ 8 + byte bs 3) % 2 ^ 32))
      ≡ bs
unfolding htonl
four_bytes (a ∷ b ∷ c ∷ d ∷ []) e (ha, (hb, (hc, (hd, _)))) = ground arith
four_bytes [] e h = absurd (omega arith)
four_bytes (a ∷ []) e h = absurd (omega arith)
four_bytes (a ∷ b ∷ []) e h = absurd (omega arith)
four_bytes (a ∷ b ∷ c ∷ []) e h = absurd (omega arith)
four_bytes (a ∷ b ∷ c ∷ d ∷ x ∷ bs) e h = absurd (omega arith)

AllBytes-drop : (n : ℕ) (bs : List ℕ) → AllBytes bs → AllBytes (drop n bs)
AllBytes-drop zero bs h = h
AllBytes-drop (suc n) [] h = h
AllBytes-drop (suc n) (b ∷ bs) h = AllBytes-drop n bs h.1

byte-drop : (n i : ℕ) (bs : List ℕ) → byte (drop n bs) i ≡ byte bs (n + i)
byte-drop zero i bs = ap (byte bs) (omega arith)
byte-drop (suc n) i [] = refl
byte-drop (suc n) i (b ∷ bs) =
    let e : suc n + i ≡ suc (n + i) = omega arith in rw e (byte-drop n i bs)

-- The last four bytes of an address, from the number that they spell.
index_bytes :
    (sa : SockaddrIn6) → IsIn6 sa → bytes32 (htonl (sin6_addr32_index sa 3)) ≡ drop 12 sa.sin6_addr
unfolding sin6_addr32_index
index_bytes sa w =
    rw
      (
        sym (byte-drop 12 0 sa.sin6_addr),
        sym (byte-drop 12 1 sa.sin6_addr),
        sym (byte-drop 12 2 sa.sin6_addr),
        sym (byte-drop 12 3 sa.sin6_addr),
      )
      (four_bytes (drop 12 sa.sin6_addr) (omega (arith, length-drop 12 sa.sin6_addr, w.addr_length))
        (AllBytes-drop 12 sa.sin6_addr w.addr_bytes))

-- An address that is in the IPv6 form of an IPv4 address comes back from it, if it has no flow
-- information and no scope, which the conversion drops.
pub sin6_to-from_v4mapped :
    (sa : SockaddrIn6) (sin : SockaddrIn)
    → IsIn6 sa
    → sa.sin6_flowinfo ≡ 0
    → sa.sin6_scope_id ≡ 0
    → sin_from_v4mapped_in6 sa ≡ returns sin
    → sin6_to_v4mapped_in sin ≡ sa
unfolding sin_from_v4mapped_in6 sin6_to_v4mapped_in sin6_make sin_make sin6_is_v4mapped
sin6_to-from_v4mapped sa sin w flow scope e = elim (Bool-cases (sin6_is_v4mapped sa)) [
  | inl yes_mapped ↦
      let first : take 12 sa.sin6_addr ≡ v4mapped_prefix = equal-true _ _ yes_mapped in
      let x = htonl (sin6_addr32_index sa 3) in
      let port : sin.sin_port ≡ sa.sin6_port = ground arith in
      let addr : sin.s_addr ≡ x = ground arith in
      let bytes : sin6_make_addr32 0 0 65535 (ntohl sin.s_addr) ≡ sa.sin6_addr = rw addr (
        mapped_addr x (htonl_small _)
        ∙ (ap (λ l. v4mapped_prefix ++ l) (index_bytes sa w)
            ∙ (ap (λ l. l ++ drop 12 sa.sin6_addr) (sym first)
                ∙ take-append-drop 12 sa.sin6_addr))) in
      ground (arith, port, bytes, flow, scope)
  | inr not_mapped ↦ ground arith
]
