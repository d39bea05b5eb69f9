-- ===== src/Memory.antt =====
-- A shared memory block as bytes by offset (`m_addr` of torrent/system/ipc/channel.h), with the
-- `memcpy` and the 32-bit header fields that channel.cc uses. The byte order is little-endian.
use shm_ipc.Base.{
  ℕ, zero, suc, ◌+◌, ◌*◌, ◌/◌, ◌%◌, ◌≤◌, ◌<◌, ◌≡◌, refl, ap₂, List, [], ◌∷◌, arith, ◌==◌,
  if◌then◌else◌, length, u32_mod, ◌∙◌, ◌^◌,
}

abbrev pub Mem : Type 0
Mem = ℕ → ℕ

unfoldable pub write_bytes : Mem → ℕ → List ℕ → Mem
write_bytes m o [] q = m q
write_bytes m o (b ∷ bs) q = if q == o then b else write_bytes m (o + 1) bs q

unfoldable pub read_bytes : Mem → ℕ → ℕ → List ℕ
read_bytes m o zero = []
read_bytes m o (suc n) = m o ∷ read_bytes m (o + 1) n

unfoldable pub load32 : Mem → ℕ → ℕ
load32 m o = m o + 2 ^ 8 * m (o + 1) + 2 ^ 16 * m (o + 2) + 2 ^ 24 * m (o + 3)

abbrev pub bytes32 : ℕ → List ℕ
bytes32 v = (v % 256) ∷ (v / 2 ^ 8 % 256) ∷ (v / 2 ^ 16 % 256) ∷ (v / 2 ^ 24 % 256) ∷ []

unfoldable pub store32 : Mem → ℕ → ℕ → Mem
unfolding write_bytes
store32 m o v = write_bytes m o (bytes32 v)

-- Two memories hold the same bytes from `a` up to `b`.
abbrev pub Agrees : Mem → Mem → ℕ → ℕ → Type 0
Agrees m m' a b = (q : ℕ) → a ≤ q → q < b → m' q ≡ m q

pub write_bytes-below : (m : Mem) (o : ℕ) (bs : List ℕ) (q : ℕ) → q < o → write_bytes m o bs q ≡ m q
unfolding write_bytes
write_bytes-below m o [] q h = refl
write_bytes-below m o (b ∷ bs) q h = ground (arith, write_bytes-below m (o + 1) bs q)

pub write_bytes-above :
    (m : Mem) (o : ℕ) (bs : List ℕ) (q : ℕ) → o + length bs ≤ q → write_bytes m o bs q ≡ m q
unfolding write_bytes
write_bytes-above m o [] q h = refl
write_bytes-above m o (b ∷ bs) q h = ground (arith, write_bytes-above m (o + 1) bs q)

pub read_bytes-Agrees :
    (m m' : Mem) (o n : ℕ) → Agrees m m' o (o + n) → read_bytes m' o n ≡ read_bytes m o n
unfolding read_bytes
read_bytes-Agrees m m' o zero h = refl
read_bytes-Agrees m m' o (suc n) h =
    ap₂ ◌∷◌ (h o (omega arith) (omega arith))
      (read_bytes-Agrees m m' (o + 1) n (λ q a b. h q (omega arith) (omega arith)))

pub load32-Agrees : (m m' : Mem) (o : ℕ) → Agrees m m' o (o + 4) → load32 m' o ≡ load32 m o
unfolding load32
load32-Agrees m m' o h = ground (
  arith,
  h o (omega arith) (omega arith),
  h (o + 1) (omega arith) (omega arith),
  h (o + 2) (omega arith) (omega arith),
  h (o + 3) (omega arith) (omega arith),
)

pub read_bytes-write_bytes :
    (m : Mem) (o : ℕ) (bs : List ℕ) → read_bytes (write_bytes m o bs) o (length bs) ≡ bs
unfolding read_bytes write_bytes
read_bytes-write_bytes m o [] = refl
read_bytes-write_bytes m o (b ∷ bs) = ap₂ ◌∷◌ (ground arith) (
    read_bytes-Agrees (write_bytes m (o + 1) bs) (write_bytes m o (b ∷ bs)) (o + 1) (length bs)
      (λ q h k. ground arith)
    ∙ read_bytes-write_bytes m (o + 1) bs)

pub load32-store32 : (m : Mem) (o v : ℕ) → v < u32_mod → load32 (store32 m o v) o ≡ v
unfolding load32 store32 write_bytes
load32-store32 m o v h = ground arith
