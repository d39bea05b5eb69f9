-- ===== src/Factory/Granted.antt =====
-- The steps of `RouterFactory::initialize` in a system that grants all that they ask for.
use shm_ipc.Base.{
  ℕ, ◌+◌, ◌%◌, ◌≤◌, ◌≡◌, refl, ap, ◌∙◌, Bool, true, Option, some, List, [], ◌∷◌, ◌++◌, length,
  arith, String,
}
use shm_ipc.Base.Outcome.{returns}
use shm_ipc.Segment.{mapped, create, empty_segment}
use shm_ipc.Fd.{
  ok, Call, Os, Sys, ◌>>=◌, pure, call, succeeds, socketpair, af_local, sock_stream, fcntl, f_getfl,
  f_setfl, set_bit, o_nonblock,
}
use shm_ipc.Fd.Options.{fd_set_send_timeout, fd_set_receive_timeout, fd_set_nonblock}
use shm_ipc.Fd.Open.{fd_open_socket_pair}
use shm_ipc.Factory.{RouterFactory}
use shm_ipc.Factory.Initialize.{
  or_throw, setup_socket, create_socket_pair, create_fd_pair, open_pairs, Host, segment_made,
  create_segment,
}

-- Every call succeeds.
pub record Grants (os : Os) : Type 0 where
  pub int : (cs : List Call) (c : Call) → (n : ℕ) × (os.answer cs c ≡ ok n)
  pub two : (cs : List Call) (c : Call) → (p : ℕ × ℕ) × (os.answer_two cs c ≡ ok p)

-- A step that returns there, and opens `n` descriptors.
abbrev Works : {A : Type 0} → Sys A → ℕ → Type 0
Works {A} m n =
    (os : Os)
    → Grants os
    → (os' : Os) × (a : A) × (m os ≡ (os', returns a))
      × Grants os'
      × (length os'.opened ≡ n + length os.opened)

pure-Works : {A : Type 0} (a : A) → Works (pure a) 0
pure-Works a os g = (os, a, refl, g, omega arith)

then-Works :
    {A B : Type 0} {m : Sys A} {k : A → Sys B} (n l : ℕ)
    → Works m n
    → ((a : A) → Works (k a) l)
    → Works (m >>= k) (n + l)
then-Works n l w v os g =
    let (os1, a, same1, g1, n1) = w os g in
    let (os2, b, same2, g2, n2) = v a os1 g1 in
    (os2, b, rw (same1, same2) refl, g2, omega (arith, n1, n2))

-- A call that reports success by true.
abbrev Succeeds : Sys Bool → Type 0
Succeeds m =
    (os : Os)
    → Grants os
    → (os' : Os) × (m os ≡ (os', returns true)) × Grants os' × (os'.opened ≡ os.opened)

succeeds-Succeeds : (c : Call) → Succeeds (succeeds (call c))
succeeds-Succeeds c os g =
    let (n, e) = g.int os.calls c in
    (
      record os { calls = os.calls ++ (c ∷ []) },
      rw e refl,
      record { int = g.int; two = g.two },
      refl,
    )

or_throw-Works : (msg : String) {m : Sys Bool} → Succeeds m → Works (m >>= or_throw msg) 0
or_throw-Works msg s os g =
    let (os', same, g', kept) = s os g in (os', tt, rw same refl, g', ap length kept ∙ omega arith)

send_timeout-Succeeds : (fd t : ℕ) → Succeeds (fd_set_send_timeout fd t)
unfolding fd_set_send_timeout
send_timeout-Succeeds fd t = succeeds-Succeeds _

receive_timeout-Succeeds : (fd t : ℕ) → Succeeds (fd_set_receive_timeout fd t)
unfolding fd_set_receive_timeout
receive_timeout-Succeeds fd t = succeeds-Succeeds _

nonblock-Succeeds : (fd : ℕ) → Succeeds (fd_set_nonblock fd)
unfolding fd_set_nonblock
nonblock-Succeeds fd os g =
    let c = fcntl fd f_getfl 0 in
    let (n, e) = g.int os.calls c in
    let os1 : Os = record os { calls = os.calls ++ (c ∷ []) } in
    let (os2, same, g2, kept) =
      succeeds-Succeeds (fcntl fd f_setfl (set_bit o_nonblock n)) os1
        (record { int = g.int; two = g.two }) in
    (os2, rw e same, g2, kept)

socket_pair-Works : Works fd_open_socket_pair 2
unfolding fd_open_socket_pair
socket_pair-Works os g =
    let (p, e) = g.two os.calls (socketpair af_local sock_stream) in
    (
      record os {
        calls = os.calls ++ (socketpair af_local sock_stream ∷ []);
        opened = p.1 ∷ p.0 ∷ os.opened;
      },
      p,
      rw e refl,
      record { int = g.int; two = g.two },
      omega arith,
    )

setup_socket-Works : (fd : ℕ) → Works (setup_socket fd) 0
unfolding setup_socket
setup_socket-Works fd =
    then-Works 0 0 (or_throw-Works _ (send_timeout-Succeeds fd 2000000))
      (λ _. or_throw-Works _ (receive_timeout-Succeeds fd 2000000))

create_socket_pair-Works : Works create_socket_pair 2
unfolding create_socket_pair
create_socket_pair-Works = then-Works 2 0 socket_pair-Works (λ p.
    then-Works 0 0 (setup_socket-Works p.0)
      (λ _. then-Works 0 0 (setup_socket-Works p.1) (λ _. pure-Works p)))

create_fd_pair-Works : Works create_fd_pair 2
unfolding create_fd_pair
create_fd_pair-Works = then-Works 2 0 socket_pair-Works (λ p.
    then-Works 0 0 (or_throw-Works _ (nonblock-Succeeds p.0))
      (λ _. then-Works 0 0 (or_throw-Works _ (nonblock-Succeeds p.1)) (λ _. pure-Works p)))

pub open_pairs-Works :
    (s1 s2 : Option ℕ) (os : Os)
    → Grants os
    → (os' : Os) × (f : RouterFactory) × (open_pairs s1 s2 os ≡ (os', returns f))
      × (length os'.opened ≡ 6 + length os.opened)
      × (f.segment_1 ≡ s1)
      × (f.segment_2 ≡ s2)
open_pairs-Works s1 s2 os g =
    let (os1, c, e1, g1, n1) = create_socket_pair-Works os g in
    let (os2, k, e2, g2, n2) = create_socket_pair-Works os1 g1 in
    let (os3, w, e3, g3, n3) = create_fd_pair-Works os2 g2 in
    let f : RouterFactory = record {
      control_fds = c;
      keepalive_fds = k;
      wakeup_fds = w;
      segment_1 = s1;
      segment_2 = s2;
      closed = [];
    } in
    (os3, f, rw (e1, e2, e3) refl, omega (arith, n1, n2, n3), refl, refl)

create-mapped :
    (a size : ℕ) (mappings : List (ℕ × ℕ))
    → size % 4096 ≡ 0
    → 4096 ≤ size
    → create (mapped a) (record { segment = empty_segment; mappings = mappings }) size ≡ (
      record { segment = record { size = size; addr = some a }; mappings = (a, size) ∷ mappings },
      returns tt,
    )
unfolding create
create-mapped a size mappings al big = ground (arith, al, big)

pub create_segment-mapped :
    (a size : ℕ) (h : Host)
    → size % 4096 ≡ 0
    → 4096 ≤ size
    → create_segment (mapped a) size h
      ≡ (record h { mappings = (a, size) ∷ h.mappings }, returns (some a))
create_segment-mapped a size h al big = ap (segment_made h) (create-mapped a size h.mappings al big)
