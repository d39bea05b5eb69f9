-- ===== src/Segment/Life.antt =====
-- The life of a `Segment` of torrent/system/ipc/segment.cc.
use shm_ipc.Base.{ℕ, ◌%◌, ◌<◌, ◌≡◌, ◌≢◌, true, ◌∷◌, arith}
use shm_ipc.Base.Outcome.{returns}
use shm_ipc.Segment.{Process, empty_segment, Mmap, mapped, create, destroy, destruct, page_size}

-- `create` that does not return changes nothing.
pub create-throws :
    (answer : Mmap) (p : Process) (size : ℕ)
    → (create answer p size).1 ≢ returns tt
    → (create answer p size).0 ≡ p
unfolding create
create-throws answer p size e = ground arith

-- A new segment that is destroyed again leaves nothing behind: both calls return, the segment is
-- empty and the process has the mappings that it had.
pub destroy-create :
    (a size : ℕ) (p : Process)
    → p.segment ≡ empty_segment
    → 0 < size
    → size % page_size ≡ 0
    → let (made, created) = create (mapped a) p size in
      let (gone, destroyed) = destroy true made in
      (created ≡ returns tt) × (destroyed ≡ returns tt) × (gone ≡ p)
unfolding create destroy
destroy-create a size p e pos pages = ground arith

-- But a segment that is destructed and not destroyed leaves its mapping behind, and no segment
-- with its address.
pub destruct-create :
    (a size : ℕ) (p : Process)
    → p.segment ≡ empty_segment
    → 0 < size
    → size % page_size ≡ 0
    → destruct (create (mapped a) p size).0
      ≡ record { segment = empty_segment; mappings = (a, size) ∷ p.mappings }
unfolding create destruct
destruct-create a size p e pos pages = ground arith

-- A segment is created once: a second `create` throws and changes nothing, whatever its size and
-- whatever `mmap` would answer.
pub create-create :
    (a size : ℕ) (answer : Mmap) (again : ℕ) (p : Process)
    → p.segment ≡ empty_segment
    → 0 < size
    → size % page_size ≡ 0
    → let made = (create (mapped a) p size).0 in
      ((create answer made again).0 ≡ made) × ((create answer made again).1 ≢ returns tt)
unfolding create
create-create a size answer again p e pos pages = ground arith
