-- ===== src/Segment/Tests.antt =====
-- Runs of segment.cc.
use shm_ipc.Base.{◌≡◌, ◌≢◌, refl, true, [], arith}
use shm_ipc.Base.Outcome.{returns}
use shm_ipc.Segment.{Process, empty_segment, mapped, create, destroy}
use shm_ipc.Segment.Life.{destroy-create}

abbrev fresh : Process
fresh = record { segment = empty_segment; mappings = [] }

half_page : (create (mapped 4096) fresh 2048).1 ≢ returns tt
unfolding create
half_page e = cc

destroy-create_run :
    let (made, created) = create (mapped 65536) fresh 8192 in
    let (gone, destroyed) = destroy true made in
    (created ≡ returns tt) × (destroyed ≡ returns tt) × (gone ≡ fresh)
destroy-create_run = destroy-create 65536 8192 fresh refl (omega arith) (omega arith)
