-- ===== src/Segment.antt =====
-- torrent/system/ipc/segment.h and segment.cc: one anonymous shared mapping. What `mmap` and
-- `munmap` answer is a parameter; `mappings` is what the process has mapped, as their documentation
-- says. An exception's text is without its variable part.
pub mod Life
mod Tests
use shm_ipc.Base.{
  ℕ, ◌+◌, ◌%◌, Bool, true, false, not, ◌&&◌, ◌||◌, ◌==◌, if◌then◌else◌, Option, none, some, List,
  [], ◌∷◌, String,
}
use shm_ipc.Base.Outcome.{Outcome, returns, throws, internal_error, invalid_argument}

abbrev pub page_size : ℕ
page_size = 4096

-- `m_size` and `m_addr`.
pub record Segment : Type 0 where
  pub size : ℕ
  pub addr : Option ℕ

abbrev pub empty_segment : Segment
empty_segment = record { size = 0; addr = none }

pub record Process : Type 0 where
  pub segment : Segment
  pub mappings : List (ℕ × ℕ)

-- What `mmap` answers: an address, or MAP_FAILED.
pub data Mmap : Type 0 where
  mapped : ℕ → Mmap
  map_failed : Mmap

abbrev pub unmap : ℕ → ℕ → List (ℕ × ℕ) → List (ℕ × ℕ)
unmap a n [] = []
unmap a n ((b, m) ∷ rest) = if (a == b) && (n == m) then rest else (b, m) ∷ unmap a n rest

unfoldable pub create : Mmap → Process → ℕ → Process × Outcome (Unit {0})
create answer p size = elim p.segment.addr [
  | some _ ↦ (p, throws (internal_error "Segment::create() segment already created"))
  | none ↦
      if not (p.segment.size == 0)
      then (p, throws (internal_error "Segment::create() segment size already set"))
      else if (size == 0) || not (size % page_size == 0)
      then (
        p,
        throws (
            invalid_argument "Segment::create() size must be non-zero and a multiple of page size"),
      )
      else elim answer [
        | map_failed ↦ (p, throws (internal_error "Segment::create(): mmap failed : "))
        | mapped a ↦ (
          record {
            segment = record { size = size; addr = some a };
            mappings = (a, size) ∷ p.mappings;
          },
          returns tt,
        )
      ]
]

-- `unmapped` is whether `munmap` succeeds.
unfoldable pub destroy : Bool → Process → Process × Outcome (Unit {0})
destroy unmapped p = elim p.segment.addr [
  | none ↦ (p, returns tt)
  | some a ↦
      if unmapped
      then (
        record { segment = empty_segment; mappings = unmap a p.segment.size p.mappings },
        returns tt,
      )
      else (p, throws (internal_error "Segment::destroy(): munmap failed: "))
]

-- `~Segment`.
unfoldable pub destruct : Process → Process
destruct p = record p { segment = empty_segment }
