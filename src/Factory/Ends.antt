-- ===== src/Factory/Ends.antt =====
-- The two routers of one factory of torrent/system/ipc/factory.cc.
use shm_ipc.Base.{ℕ, ◌≡◌, Bool, ◌∷◌, arith}
use shm_ipc.Base.Outcome.{returns}
use shm_ipc.Factory.{RouterFactory, CreateArgs, create_parent_router, create_child_router}

-- The parent reads the segment that the child writes and writes the one that the child reads; they
-- hold opposite ends of the control pair and of the keep-alive pair, and each closes the ends that
-- the other holds.
pub routers-cross :
    (marked : ℕ → Bool) (f : RouterFactory) (p c : CreateArgs)
    → (create_parent_router marked f).1 ≡ returns p
    → (create_child_router marked f).1 ≡ returns c
    → (p.read_segment ≡ c.write_segment)
      × (p.write_segment ≡ c.read_segment)
      × (f.control_fds ≡ (p.control_fd, c.control_fd))
      × (f.keepalive_fds ≡ (p.keepalive_fd, c.keepalive_fd))
      × ((create_parent_router marked f).0.closed ≡ c.keepalive_fd ∷ c.control_fd ∷ f.closed)
      × ((create_child_router marked f).0.closed ≡ p.keepalive_fd ∷ p.control_fd ∷ f.closed)
unfolding create_parent_router create_child_router
routers-cross marked f p c e g = ground arith
