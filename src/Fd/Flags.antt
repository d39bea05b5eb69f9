-- ===== src/Fd/Flags.antt =====
-- The flags of a descriptor as torrent/net/fd.cc changes them.
use shm_ipc.Base.{ℕ, ◌≡◌, refl, Bool, true, false, if◌then◌else◌, some, List, [], ◌∷◌, ◌++◌, arith}
use shm_ipc.Base.Outcome.{returns}
use shm_ipc.Fd.{
  ok, Call, fcntl, f_getfl, f_setfl, f_getfd, f_setfd, Os, call, o_nonblock, fd_cloexec, has_bit,
  set_bit, clear_bit,
}
use shm_ipc.Fd.Options.{fd_get_nonblock, fd_set_nonblock, fd_set_close_on_exec}

-- That one bit is set or cleared, and the others stay.
pub record Changes (b : ℕ) (state : Bool) (v w : ℕ) : Type 0 where
  pub bit : has_bit b w ≡ state
  pub others : clear_bit b w ≡ clear_bit b v

nonblock-Changes : (v : ℕ) → Changes o_nonblock true v (set_bit o_nonblock v)
nonblock-Changes v = record { bit = ground arith; others = ground arith }

cloexec-Changes :
    (state : Bool) (v : ℕ)
    → Changes fd_cloexec state v (if state then set_bit fd_cloexec v else clear_bit fd_cloexec v)
cloexec-Changes true v = record { bit = ground arith; others = ground arith }
cloexec-Changes false v = record { bit = ground arith; others = ground arith }

abbrev pub behind : Os → Call → Os
behind os c = record os { calls = os.calls ++ (c ∷ []) }

call_lem :
    (os : Os) (c : Call) {n : ℕ}
    → os.answer os.calls c ≡ ok n
    → call c os ≡ (behind os c, returns (some n))
call_lem os c e = rw e refl

-- Where the system answers the flags `v` and takes new ones, fd_set_nonblock returns true, and has
-- stored flags with O_NONBLOCK and else the same.
pub fd_set_nonblock-stored :
    (fd v r : ℕ) (os : Os)
    → os.answer os.calls (fcntl fd f_getfl 0) ≡ ok v
    → ((cs : List Call) (w : ℕ) → os.answer cs (fcntl fd f_setfl w) ≡ ok r)
    → (w : ℕ) × (fd_set_nonblock fd os
        ≡ (behind (behind os (fcntl fd f_getfl 0)) (fcntl fd f_setfl w), returns true))
      × Changes o_nonblock true v w
unfolding fd_set_nonblock
fd_set_nonblock-stored fd v r os reads writes =
    let w = set_bit o_nonblock v in
    let os1 = behind os (fcntl fd f_getfl 0) in
    let c = fcntl fd f_setfl w in
    (
      w,
      rw (call_lem os (fcntl fd f_getfl 0) reads) (rw (call_lem os1 c (writes os1.calls w)) refl),
      nonblock-Changes v,
    )

-- The same of FD_CLOEXEC, which fd_set_close_on_exec sets or clears.
pub fd_set_close_on_exec-stored :
    (fd v r : ℕ) (state : Bool) (os : Os)
    → os.answer os.calls (fcntl fd f_getfd 0) ≡ ok v
    → ((cs : List Call) (w : ℕ) → os.answer cs (fcntl fd f_setfd w) ≡ ok r)
    → (w : ℕ) × (fd_set_close_on_exec fd state os
        ≡ (behind (behind os (fcntl fd f_getfd 0)) (fcntl fd f_setfd w), returns true))
      × Changes fd_cloexec state v w
unfolding fd_set_close_on_exec
fd_set_close_on_exec-stored fd v r state os reads writes =
    let w = if state then set_bit fd_cloexec v else clear_bit fd_cloexec v in
    let os1 = behind os (fcntl fd f_getfd 0) in
    let c = fcntl fd f_setfd w in
    (
      w,
      rw (call_lem os (fcntl fd f_getfd 0) reads) (rw (call_lem os1 c (writes os1.calls w)) refl),
      cloexec-Changes state v,
    )

-- Where the system takes flags, and then answers them, fd_get_nonblock finds what fd_set_nonblock
-- has set.
pub fd_get_nonblock-set :
    (fd v r : ℕ) (os : Os)
    → os.answer os.calls (fcntl fd f_getfl 0) ≡ ok v
    → ((cs : List Call) (w : ℕ) → os.answer cs (fcntl fd f_setfl w) ≡ ok r)
    → ((cs : List Call) (w : ℕ)
        → os.answer (cs ++ (fcntl fd f_setfl w ∷ [])) (fcntl fd f_getfl 0) ≡ ok w)
    → (fd_get_nonblock fd (fd_set_nonblock fd os).0).1 ≡ returns (some true)
unfolding fd_get_nonblock
fd_get_nonblock-set fd v r os reads writes keeps =
    let (w, same, changes) = fd_set_nonblock-stored fd v r os reads writes in
    let os1 = behind os (fcntl fd f_getfl 0) in
    let os2 = behind os1 (fcntl fd f_setfl w) in
    rw same (rw (call_lem os2 (fcntl fd f_getfl 0) (keeps os1.calls w), changes.bit) refl)
