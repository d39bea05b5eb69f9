-- ===== src/Fd/Leaks.antt =====
-- Which descriptors the functions of torrent/net/fd.cc that open one leave open.
use shm_ipc.Base.{
  ℕ, ◌≡◌, refl, ◌∙◌, ap, Bool, true, false, not, ◌||◌, ==_true, Bool-cases, inl, inr, if◌then◌else◌,
  Option, none, some, List, ◌∷◌,
}
use shm_ipc.Base.Outcome.{Outcome, returns, throws}
use shm_ipc.Fd.{
  Answer, ok, fails, af_local, ipproto_default, sock_stream, af_inet, af_inet6, SocketType,
  Protocol, Call, Os, Sys, ◌>>=◌, ◌>>◌, fcntl, f_getfl, f_setfl, set_bit, o_nonblock, socket,
  call_open, pure, answered, call, note_one, fd__close, close, is_ok, succeeds,
}
use shm_ipc.Fd.Options.{fd_set_nonblock, store_nonblock, fd_set_reuse_address, fd_set_v6only}
use shm_ipc.Fd.Open.{
  FdFlags, fd_valid_flags, socket_type, configured, configure, or_inet, configure_opened,
  open_socket, fd_open, configure_local, fd_open_local,
}

-- The descriptors that are open behind a call that returns one, or throws.
abbrev pub left_open : Outcome (Option ℕ) → List ℕ → List ℕ
left_open (returns (some fd)) before = fd ∷ before
left_open (returns none) before = before
left_open (throws e) before = before

-- What sets something, and opens and closes nothing.
abbrev Sets : Sys Bool → Type 0
Sets m = (os : Os) → (os' : Os) × (b : Bool) × (m os ≡ (os', returns b)) × (os'.opened ≡ os.opened)

pub answered-cases :
    (os : Os) (c : Call) (a : Answer ℕ)
    → (os' : Os) × (r : Option ℕ) × (answered os c a ≡ (os', returns r)) × (os'.opened ≡ os.opened)
answered-cases os c (ok n) = (_, some n, refl, refl)
answered-cases os c (fails e) = (_, none, refl, refl)

succeeds-Sets : (c : Call) → Sets (succeeds (call c))
succeeds-Sets c os =
    let (os', r, same, kept) = answered-cases os c (os.answer os.calls c) in
    (os', is_ok r, rw same refl, kept)

v6only-Sets : (fd : ℕ) → Sets (fd_set_v6only fd true)
unfolding fd_set_v6only
v6only-Sets fd = succeeds-Sets _

reuse-Sets : (fd : ℕ) → Sets (fd_set_reuse_address fd true)
unfolding fd_set_reuse_address
reuse-Sets fd = succeeds-Sets _

store-Sets : (fd : ℕ) (r : Option ℕ) → Sets (store_nonblock fd r)
store-Sets fd none os = (os, false, refl, refl)
store-Sets fd (some flags) os = succeeds-Sets (fcntl fd f_setfl (set_bit o_nonblock flags)) os

nonblock-Sets : (fd : ℕ) → Sets (fd_set_nonblock fd)
unfolding fd_set_nonblock
nonblock-Sets fd os =
    let (os1, r, same1, kept1) =
      answered-cases os (fcntl fd f_getfl 0) (os.answer os.calls (fcntl fd f_getfl 0)) in
    let (os2, b, same2, kept2) = store-Sets fd r os1 in
    (os2, b, rw (same1, same2) refl, kept2 ∙ kept1)

-- What goes on with a descriptor: it is left open exactly if it is the result.
abbrev Settles : ℕ → Sys (Option ℕ) → Type 0
Settles fd m =
    (os : Os) (before : List ℕ)
    → os.opened ≡ fd ∷ before
    → (m os).0.opened ≡ left_open (m os).1 before

pure-Settles : (fd : ℕ) → Settles fd (pure (some fd))
pure-Settles fd os before e = e

close-Settles : (fd : ℕ) → Settles fd (fd__close fd >> pure none)
unfolding fd__close
close-Settles fd os before e =
    let (os', r, same, kept) = answered-cases os (close fd) (os.answer os.calls (close fd)) in
    rw (same, kept, e, ==_true fd fd refl) refl

configured-Settles :
    (fd : ℕ) (wanted : Bool) (set : Sys Bool) (next : Sys (Option ℕ))
    → Sets set
    → Settles fd next
    → Settles fd (configured fd wanted set next)
configured-Settles fd false set next s n os before e = n os before e
configured-Settles fd true set next s n os before e =
    let (os', b, same, kept) = s os in
    elim (Bool-cases b) [
      | inl done ↦ rw (same, done) (n os' before (kept ∙ e))
      | inr failed ↦ rw (same, failed) (close-Settles fd os' before (kept ∙ e))
    ]

pub configure-Settles : (flags : FdFlags) (fd : ℕ) → Settles fd (configure flags fd)
configure-Settles flags fd = configured-Settles fd flags.v6only _ _ (v6only-Sets fd) (
    configured-Settles fd flags.nonblock _ _ (nonblock-Sets fd)
      (configured-Settles fd flags.reuse_address _ _ (reuse-Sets fd) (pure-Settles fd)))

configure_local-Settles : (flags : FdFlags) (fd : ℕ) → Settles fd (configure_local flags (some fd))
configure_local-Settles flags fd =
    configured-Settles fd flags.nonblock _ _ (nonblock-Sets fd)
      (configured-Settles fd flags.reuse_address _ _ (reuse-Sets fd) (pure-Settles fd))

-- A call that may open a descriptor returns, and has opened what it returns.
abbrev Opens : Sys (Option ℕ) → Type 0
Opens m =
    (os : Os)
    → (os' : Os) × (r : Option ℕ) × (m os ≡ (os', returns r))
      × (os'.opened ≡ left_open (returns r) os.opened)

note_one-Opens :
    (os os' : Os) (r : Option ℕ)
    → os'.opened ≡ os.opened
    → (os'' : Os) × (r' : Option ℕ) × (note_one r os' ≡ (os'', returns r'))
      × (os''.opened ≡ left_open (returns r') os.opened)
note_one-Opens os os' none kept = (os', none, refl, kept)
note_one-Opens os os' (some n) kept = (_, some n, refl, ap (λ l. n ∷ l) kept)

pub call_open-Opens : (c : Call) → Opens (call_open c)
call_open-Opens c os =
    let (os1, r, same, kept) = answered-cases os c (os.answer os.calls c) in
    let (os2, r2, same2, kept2) = note_one-Opens os os1 r kept in
    (os2, r2, rw (same, same2) refl, kept2)

perhaps-Opens : (b : Bool) {m : Sys (Option ℕ)} → Opens m → Opens (if b then m else pure none)
perhaps-Opens true o os = o os
perhaps-Opens false o os = (os, none, refl, refl)

or_inet-Opens :
    (flags : FdFlags) (type : SocketType) (protocol : Protocol) (os os1 : Os) (r : Option ℕ)
    → os1.opened ≡ left_open (returns r) os.opened
    → (os2 : Os) × (r2 : Option ℕ) × (or_inet flags type protocol r os1 ≡ (os2, returns r2))
      × (os2.opened ≡ left_open (returns r2) os.opened)
or_inet-Opens flags type protocol os os1 (some fd) e = (os1, some fd, refl, e)
or_inet-Opens flags type protocol os os1 none e =
    let (os2, r2, same, kept) =
      perhaps-Opens (not (flags.v6 || flags.v6only))
        (call_open-Opens (socket af_inet type protocol)) os1 in
    (os2, r2, same, kept ∙ ap (left_open (returns r2)) e)

-- So the socket that is left when both tries are over is the one that is open.
tries-Opens :
    (flags : FdFlags) (type : SocketType) (protocol : Protocol)
    → Opens (
        (if not flags.v4 then call_open (socket af_inet6 type protocol) else pure none)
        >>= or_inet flags type protocol)
tries-Opens flags type protocol os =
    let (os1, r1, same1, kept1) =
      perhaps-Opens (not flags.v4) (call_open-Opens (socket af_inet6 type protocol)) os in
    let (os2, r2, same2, kept2) = or_inet-Opens flags type protocol os os1 r1 kept1 in
    (os2, r2, rw (same1, same2) refl, kept2)

configure_opened-left :
    (flags : FdFlags) (os : Os) (r : Option ℕ) (before : List ℕ)
    → os.opened ≡ left_open (returns r) before
    → (configure_opened flags r os).0.opened ≡ left_open (configure_opened flags r os).1 before
configure_opened-left flags os none before e = e
configure_opened-left flags os (some fd) before e = configure-Settles flags fd os before e

open_socket-left :
    (flags : FdFlags) (t : Option (SocketType × Protocol)) (os : Os)
    → (open_socket flags t os).0.opened ≡ left_open (open_socket flags t os).1 os.opened
open_socket-left flags none os = refl
open_socket-left flags (some (type, protocol)) os =
    let (os1, r, same, kept) = tries-Opens flags type protocol os in
    rw same (configure_opened-left flags os1 r os.opened kept)

-- Whatever the flags are and the system answers, fd_open leaves no descriptor open but the one that
-- it returns: none where it returns -1 or throws.
pub fd_open-left :
    (flags : FdFlags) (os : Os)
    → (fd_open flags os).0.opened ≡ left_open (fd_open flags os).1 os.opened
unfolding fd_open
fd_open-left flags os = elim (Bool-cases (fd_valid_flags flags)) [
  | inl valid ↦ rw valid (open_socket-left flags (socket_type flags) os)
  | inr invalid ↦ rw invalid refl
]

configure_local-left :
    (flags : FdFlags) (os : Os) (r : Option ℕ) (before : List ℕ)
    → os.opened ≡ left_open (returns r) before
    → (configure_local flags r os).0.opened ≡ left_open (configure_local flags r os).1 before
configure_local-left flags os none before e = e
configure_local-left flags os (some fd) before e = configure_local-Settles flags fd os before e

abbrev excluded : FdFlags → Bool
excluded flags =
    flags.datagram || (flags.v4 || (flags.v6only || (flags.v6 || (flags.spare || flags.excess))))

-- And so fd_open_local.
pub fd_open_local-left :
    (flags : FdFlags) (os : Os)
    → (fd_open_local flags os).0.opened ≡ left_open (fd_open_local flags os).1 os.opened
unfolding fd_open_local
fd_open_local-left flags os =
    let (os1, r, same, kept) = call_open-Opens (socket af_local sock_stream ipproto_default) os in
    elim (Bool-cases (excluded flags)) [
      | inl bad ↦ rw bad refl
      | inr good ↦ elim (Bool-cases flags.stream) [
        | inr missing ↦ rw (good, missing) refl
        | inl there ↦ rw (good, there, same) (configure_local-left flags os1 r os.opened kept)
      ]
    ]
