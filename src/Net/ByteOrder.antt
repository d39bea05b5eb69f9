-- ===== src/Net/ByteOrder.antt =====
-- `htonl`, `ntohl`, `htons` and `ntohs` on a little-endian host, and comparisons of byte arrays, as
-- torrent/net/socket_address.cc uses them.
use shm_ipc.Base.{
  ℕ, ◌+◌, ◌*◌, ◌/◌, ◌%◌, ◌^◌, ◌<◌, ◌≡◌, Bool, true, false, ◌&&◌, ◌==◌, List, [], ◌∷◌, arith,
}
use Prim.Native.Nat.{compare, Ordering}

-- Both directions swap the bytes.
unfoldable pub htonl : ℕ → ℕ
htonl x =
    x % 2 ^ 8 * 2 ^ 24
    + x / 2 ^ 8 % 2 ^ 8 * 2 ^ 16
    + x / 2 ^ 16 % 2 ^ 8 * 2 ^ 8
    + x / 2 ^ 24 % 2 ^ 8

abbrev pub ntohl : ℕ → ℕ
ntohl = htonl

unfoldable pub htons : ℕ → ℕ
htons x = x % 2 ^ 8 * 2 ^ 8 + x / 2 ^ 8 % 2 ^ 8

abbrev pub ntohs : ℕ → ℕ
ntohs = htons

pub htonl-htonl : (x : ℕ) → x < 2 ^ 32 → htonl (htonl x) ≡ x
unfolding htonl
htonl-htonl x h = omega arith

pub htonl_small : (x : ℕ) → htonl x < 2 ^ 32
unfolding htonl
htonl_small x = omega arith

pub htons-htons : (x : ℕ) → x < 2 ^ 16 → htons (htons x) ≡ x
unfolding htons
htons-htons x h = omega arith

-- `std::equal` on arrays of one length.
unfoldable pub equal : List ℕ → List ℕ → Bool
equal [] [] = true
equal [] (b ∷ r) = false
equal (a ∷ l) [] = false
equal (a ∷ l) (b ∷ r) = (a == b) && equal l r

-- The sign of `memcmp` on arrays of one length.
unfoldable pub memcmp : List ℕ → List ℕ → Ordering
memcmp [] r = Ordering.eq
memcmp (a ∷ l) [] = Ordering.eq
memcmp (a ∷ l) (b ∷ r) = elim (compare a b) [
  | Ordering.lt ↦ Ordering.lt
  | Ordering.gt ↦ Ordering.gt
  | Ordering.eq ↦ memcmp l r
]
