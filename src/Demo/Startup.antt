-- ===== src/Demo/Startup.antt =====
-- From `RouterFactory::initialize` in main.cc to the channels of both processes.
use shm_ipc.Base.{ℕ, ◌%◌, ◌≤◌, ◌≡◌, ◌≢◌, refl, true, some, arith}
use shm_ipc.Base.Outcome.{returns}
use shm_ipc.Channel.{Channel}
use shm_ipc.Factory.{RouterFactory, CreateArgs, create_parent_router, create_child_router}
use shm_ipc.Factory.Initialize.{Host}
use shm_ipc.Factory.Ready.{Fresh, initialize-Fresh}
use shm_ipc.Factory.Granted.{Grants}
use shm_ipc.Segment.{mapped}
use shm_ipc.Router.{Router}
use shm_ipc.Router.Reading.{process_reads}
use shm_ipc.Demo.{ChildHandler, child_invoke, open_channels, open_child}
use shm_ipc.Demo.Announce.{Opened, AllOpen, with_tests}
use shm_ipc.Demo.Handshake.{fresh, both_open, child_open, channel_ids, open_channels-Opened}
use shm_ipc.Demo.Arrival.{Holds-nil-Open}
use shm_ipc.Demo.Main.{start, attach}

-- What the parent and the child have got in front of their loops, over the memory `shared`.
abbrev pub Started : Router → Channel → Channel → ChildHandler → Type 0
Started parent reads shared h =
    let writes = reads in
    let c = child_open reads shared writes in
    (open_channels (returns tt) parent ≡ some (both_open reads shared, returns (2, 3)))
    × (open_child (fresh (both_open reads shared).write_channel writes) ≡ (c, returns tt))
    × Opened c channel_ids (process_reads 3 (child_invoke h) c)
    × AllOpen (with_tests c channel_ids) channel_ids

Fresh-Started :
    (reads shared : Channel) (h : ChildHandler) (size : ℕ)
    → Fresh shared size
    → 4096 ≤ size
    → Started (fresh reads shared) reads shared h
Fresh-Started reads shared h size f big =
    let fills = f.fills in
    let at_start = f.at_start in
    let o = Holds-nil-Open f.valid f.empty (omega (arith, fills, at_start, big)) in
    let all =
      open_channels-Opened reads shared reads h 3 o (omega (arith, fills, at_start, big))
        (omega arith) in
    (all.0, all.1, all.2, all.3)

-- With two different addresses of pages, and a system that grants the calls: the factory of main.cc is
-- made; both routers come out of it, the parent writing where the child reads; and over the memory
-- that they share, with a wakeup that goes through, the parent opens its two channels, under the ids 2
-- and 3, and the child reads of both and opens them too.
pub start-Started :
    (a1 a2 : ℕ) (h : Host) (handler : ChildHandler)
    → a1 % 4096 ≡ 0
    → a2 % 4096 ≡ 0
    → a1 ≢ a2
    → Grants h.os
    → (h' : Host) × (f : RouterFactory) × (start (mapped a1) (mapped a2) h ≡ (h', returns f))
      × (p : CreateArgs) × ((create_parent_router (λ _. true) f).1 ≡ returns p)
      × (c : CreateArgs) × ((create_child_router (λ _. true) f).1 ≡ returns c)
      × (pr : Router) × (attach h'.channels p ≡ some pr)
      × (cr : Router) × (attach h'.channels c ≡ some cr)
      × (cr.read_channel ≡ pr.write_channel)
      × Started pr pr.read_channel pr.write_channel handler
unfolding start attach create_parent_router create_child_router
start-Started a1 a2 h handler p1 p2 other g =
    let (h', f, made, s1, s2, fresh1, fresh2, m, n) =
      initialize-Fresh a1 a2 4096 h p1 p2 other refl (omega arith) (omega arith) g in
    (
      h',
      f,
      made,
      _,
      refl,
      _,
      refl,
      fresh (h'.channels a1) (h'.channels a2),
      rw (s1, s2) refl,
      fresh (h'.channels a2) (h'.channels a1),
      rw (s1, s2) refl,
      refl,
      Fresh-Started (h'.channels a1) (h'.channels a2) handler 4096 fresh2 (omega arith),
    )
