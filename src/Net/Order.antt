-- ===== src/Net/Order.antt =====
-- `sa_less` and `sa_equal` of torrent/net/socket_address.cc as an order and its equality.
use shm_ipc.Base.{
  ℕ, ◌^◌, ◌<◌, ◌≡◌, refl, sym, ap, ◌∙◌, Bool, true, false, not, ◌&&◌, List, [], ◌∷◌, length, arith,
}
use Prim.Native.Nat.{Ordering}
use shm_ipc.Base.Outcome.{returns}
use shm_ipc.Net.ByteOrder.{htonl, htons, htonl-htonl, htons-htons, equal, memcmp}
use shm_ipc.Net.Address.{
  SockaddrIn, SockaddrIn6, Sockaddr, inet, inet6, sa_is_inet_inet6, IsIn, IsIn6,
}
use shm_ipc.Net.Compare.{sa_less, sa_equal, sin_less, sin6_less, sin_equal, sin6_equal}

abbrev flip : Ordering → Ordering
flip Ordering.lt = Ordering.gt
flip Ordering.eq = Ordering.eq
flip Ordering.gt = Ordering.lt

abbrev is_eq : Ordering → Bool
is_eq Ordering.lt = false
is_eq Ordering.eq = true
is_eq Ordering.gt = false

memcmp-flip : (l r : List ℕ) → length l ≡ length r → memcmp r l ≡ flip (memcmp l r)
unfolding memcmp
memcmp-flip [] [] e = refl
memcmp-flip [] (b ∷ r) e = absurd (omega arith)
memcmp-flip (a ∷ l) [] e = absurd (omega arith)
memcmp-flip (a ∷ l) (b ∷ r) e = ground (arith, memcmp-flip l r (omega arith))

equal-memcmp : (l r : List ℕ) → length l ≡ length r → equal l r ≡ is_eq (memcmp l r)
unfolding memcmp equal
equal-memcmp [] [] e = refl
equal-memcmp [] (b ∷ r) e = absurd (omega arith)
equal-memcmp (a ∷ l) [] e = absurd (omega arith)
equal-memcmp (a ∷ l) (b ∷ r) e = ground (arith, equal-memcmp l r (omega arith))

memcmp_trans :
    (l m r : List ℕ)
    → length l ≡ length m
    → memcmp l m ≡ Ordering.lt
    → memcmp m r ≡ Ordering.lt
    → memcmp l r ≡ Ordering.lt
unfolding memcmp
memcmp_trans [] m r n e f = cc
memcmp_trans (a ∷ l) [] r n e f = cc
memcmp_trans (a ∷ l) (b ∷ m) [] n e f = cc
memcmp_trans (a ∷ l) (b ∷ m) (c ∷ r) n e f = ground (arith, memcmp_trans l m r (omega arith))

htonl-injective : (a b : ℕ) → a < 2 ^ 32 → b < 2 ^ 32 → htonl a ≡ htonl b → a ≡ b
htonl-injective a b ha hb e = sym (htonl-htonl a ha) ∙ (ap htonl e ∙ htonl-htonl b hb)

htons-injective : (a b : ℕ) → a < 2 ^ 16 → b < 2 ^ 16 → htons a ≡ htons b → a ≡ b
htons-injective a b ha hb e = sym (htons-htons a ha) ∙ (ap htons e ∙ htons-htons b hb)

-- Not both of less and greater, and equal where neither.
abbrev pub Trichotomy : Bool → Bool → Bool → Type 0
Trichotomy less equals greater = ((less && greater) ≡ false) × (equals ≡ (not less && not greater))

sin-Trichotomy :
    (l r : SockaddrIn) → IsIn l → IsIn r → Trichotomy (sin_less l r) (sin_equal l r) (sin_less r l)
unfolding sin_less sin_equal
sin-Trichotomy l r wl wr = (
  ground (
    arith,
    htonl-injective l.s_addr r.s_addr wl.addr_small wr.addr_small,
    htons-injective l.sin_port r.sin_port wl.port_small wr.port_small,
  ),
  ground (
    arith,
    htonl-injective l.s_addr r.s_addr wl.addr_small wr.addr_small,
    htons-injective l.sin_port r.sin_port wl.port_small wr.port_small,
  ),
)

inj : {x y : Bool} → returns x ≡ returns y → x ≡ y
inj e = cc

sin6-Trichotomy :
    (l r : SockaddrIn6)
    → IsIn6 l
    → IsIn6 r
    → Trichotomy (sin6_less l r) (sin6_equal l r) (sin6_less r l)
unfolding sin6_less sin6_equal
sin6-Trichotomy l r wl wr =
    let same = wl.addr_length ∙ sym wr.addr_length in
    (
      ground (
        arith,
        memcmp-flip l.sin6_addr r.sin6_addr same,
        equal-memcmp l.sin6_addr r.sin6_addr same,
        htons-injective l.sin6_port r.sin6_port wl.port_small wr.port_small,
      ),
      ground (
        arith,
        memcmp-flip l.sin6_addr r.sin6_addr same,
        equal-memcmp l.sin6_addr r.sin6_addr same,
        htons-injective l.sin6_port r.sin6_port wl.port_small wr.port_small,
      ),
    )

-- A well-formed IPv4 or IPv6 address.
pub data IsInet : Sockaddr → Type 0 where
  v4 : {sa : SockaddrIn} → IsIn sa → IsInet (inet sa)
  v6 : {sa : SockaddrIn6} → IsIn6 sa → IsInet (inet6 sa)

-- On well-formed IPv4 and IPv6 addresses `sa_less` and `sa_equal` never throw, two addresses are
-- never less in both directions, and they are equal exactly when neither is less.
pub sa_less-Trichotomy :
    {a b : Sockaddr}
    → IsInet a
    → IsInet b
    → (less : Bool) × (greater : Bool) × (equals : Bool) × (sa_less a b ≡ returns less)
      × (sa_less b a ≡ returns greater)
      × (sa_equal a b ≡ returns equals)
      × ((less && greater) ≡ false)
      × (equals ≡ (not less && not greater))
unfolding sa_less sa_equal sa_is_inet_inet6
sa_less-Trichotomy (v4 {sa = l} wl) (v4 {sa = r} wr) =
    let t = sin-Trichotomy l r wl wr in
    (sin_less l r, sin_less r l, sin_equal l r, refl, refl, refl, t.0, t.1)
sa_less-Trichotomy (v4 {sa = l} wl) (v6 {sa = r} wr) =
    (true, false, false, refl, refl, refl, refl, refl)
sa_less-Trichotomy (v6 {sa = l} wl) (v4 {sa = r} wr) =
    (false, true, false, refl, refl, refl, refl, refl)
sa_less-Trichotomy (v6 {sa = l} wl) (v6 {sa = r} wr) =
    let t = sin6-Trichotomy l r wl wr in
    (sin6_less l r, sin6_less r l, sin6_equal l r, refl, refl, refl, t.0, t.1)

-- Of two equal arrays one can stand for the other.
memcmp-eq : (l r : List ℕ) → length l ≡ length r → memcmp l r ≡ Ordering.eq → l ≡ r
unfolding memcmp
memcmp-eq [] [] n e = refl
memcmp-eq [] (b ∷ r) n e = absurd (omega arith)
memcmp-eq (a ∷ l) [] n e = absurd (omega arith)
memcmp-eq (a ∷ l) (b ∷ r) n e = ground (arith, memcmp-eq l r (omega arith))

sin_less_trans :
    (a b c : SockaddrIn)
    → IsIn a
    → IsIn b
    → IsIn c
    → sin_less a b ≡ true
    → sin_less b c ≡ true
    → sin_less a c ≡ true
unfolding sin_less
sin_less_trans a b c wa wb wc e f = ground (
  arith,
  htonl-injective a.s_addr c.s_addr wa.addr_small wc.addr_small,
  htonl-injective a.s_addr b.s_addr wa.addr_small wb.addr_small,
  htonl-injective b.s_addr c.s_addr wb.addr_small wc.addr_small,
)

sin6_less_trans :
    (a b c : SockaddrIn6)
    → IsIn6 a
    → IsIn6 b
    → IsIn6 c
    → sin6_less a b ≡ true
    → sin6_less b c ≡ true
    → sin6_less a c ≡ true
unfolding sin6_less
sin6_less_trans a b c wa wb wc e f = ground (
  arith,
  memcmp_trans a.sin6_addr b.sin6_addr c.sin6_addr (wa.addr_length ∙ sym wb.addr_length),
  memcmp-eq a.sin6_addr b.sin6_addr (wa.addr_length ∙ sym wb.addr_length),
  memcmp-eq b.sin6_addr c.sin6_addr (wb.addr_length ∙ sym wc.addr_length),
)

-- `sa_less` is transitive on well-formed IPv4 and IPv6 addresses.
pub sa_less_trans :
    {a b c : Sockaddr}
    → IsInet a
    → IsInet b
    → IsInet c
    → sa_less a b ≡ returns true
    → sa_less b c ≡ returns true
    → sa_less a c ≡ returns true
unfolding sa_less sa_is_inet_inet6
sa_less_trans (v4 {sa = a} wa) (v4 {sa = b} wb) (v4 {sa = c} wc) e f =
    ap returns (sin_less_trans a b c wa wb wc (inj e) (inj f))
sa_less_trans (v4 {sa = a} wa) (v4 {sa = b} wb) (v6 {sa = c} wc) e f = refl
sa_less_trans (v4 {sa = a} wa) (v6 {sa = b} wb) (v4 {sa = c} wc) e f = cc
sa_less_trans (v4 {sa = a} wa) (v6 {sa = b} wb) (v6 {sa = c} wc) e f = refl
sa_less_trans (v6 {sa = a} wa) (v4 {sa = b} wb) wc e f = cc
sa_less_trans (v6 {sa = a} wa) (v6 {sa = b} wb) (v4 {sa = c} wc) e f = cc
sa_less_trans (v6 {sa = a} wa) (v6 {sa = b} wb) (v6 {sa = c} wc) e f =
    ap returns (sin6_less_trans a b c wa wb wc (inj e) (inj f))
