-- ===== src/Fd.antt =====
-- torrent/net/fd.h and fd.cc: descriptors, as the system calls see them. The model is of the build
-- for macOS: kqueue, and no accept4, pipe2, kqueue1, SOCK_CLOEXEC, epoll or inotify. The system is a
-- parameter: how it answers a call, by the calls before. A descriptor that is -1 is `none`. The log
-- macros are empty. Fd/Platforms has the branches for other builds.
pub mod Options
pub mod Open
pub mod Endpoint
pub mod Leaks
pub mod Staying
pub mod Families
pub mod Flags
pub mod Accepting
pub mod Platforms
mod Tests
use shm_ipc.Base.{
  ℕ, suc, ◌+◌, ◌-◌, ◌/◌, ◌%◌, Bool, true, false, ◌==◌, if◌then◌else◌, Option, none, some, List, [],
  ◌∷◌, ◌++◌, String,
}
use shm_ipc.Base.Outcome.{Outcome, returns, throws, internal_error}
use shm_ipc.Net.Address.{Sockaddr}

pub data Errno : Type 0 where
  einval einprogress enoprotoopt eoverflow : Errno
  other_errno : ℕ → Errno

pub data Family : Type 0 where
  af_unspec af_inet af_inet6 af_local : Family
  af_other : ℕ → Family

pub data SocketType : Type 0 where
  sock_stream sock_dgram : SocketType

pub data Protocol : Type 0 where
  ipproto_default ipproto_tcp ipproto_udp : Protocol

pub data Level : Type 0 where
  sol_socket level_ip level_ipv6 level_tcp : Level

pub data OptionName : Type 0 where
  so_dontroute so_reuseaddr so_sndbuf so_rcvbuf so_error so_type so_sndtimeo so_rcvtimeo :
      OptionName
  ip_tos ip_bound_if ip_recvif tcp_nodelay : OptionName
  ipv6_tclass ipv6_v6only ipv6_bound_if ipv6_recvpktinfo : OptionName
  so_bindtodevice so_rtable : OptionName

pub data Command : Type 0 where
  f_getfl f_setfl f_getfd f_setfd : Command

-- `setsockopt` of a `timeval` has its two numbers. The calls with a 1 behind them are given the flag
-- for close-on-exec, and `eventfd` is given 0 and EFD_NONBLOCK.
pub data Call : Type 0 where
  socket : Family → SocketType → Protocol → Call
  open_file : String → ℕ → ℕ → Call
  pipe : Call
  socketpair : Family → SocketType → Call
  kqueue kqueue1 inotify_init inotify_init1 eventfd : Call
  epoll_create : ℕ → Call
  epoll_create1 : Call
  close : ℕ → Call
  accept : ℕ → Call
  bind : ℕ → Sockaddr → ℕ → Call
  connect : ℕ → Sockaddr → ℕ → Call
  listen : ℕ → ℕ → Call
  fcntl : ℕ → Command → ℕ → Call
  setsockopt : ℕ → Level → OptionName → ℕ → Call
  setsockopt_bytes : ℕ → Level → OptionName → List ℕ → Call
  setsockopt_time : ℕ → Level → OptionName → ℕ → ℕ → Call
  getsockopt : ℕ → Level → OptionName → Call
  getpeername : ℕ → Call
  getsockname : ℕ → Call
  if_nametoindex : List ℕ → Call

-- What a call leaves: its result, or -1 and errno.
pub data Answer {ℓ} (A : Type ℓ) : Type ℓ where
  ok : A → Answer A
  fails : Errno → Answer A

-- The system: its answers to calls with an int for a result, to those that open two descriptors, and
-- to those that fill in an address and its length. `opened` are the descriptors that its calls have
-- opened and not closed, the last first, and `calls` all calls, in order.
pub record Os : Type 0 where
  pub answer : List Call → Call → Answer ℕ
  pub answer_two : List Call → Call → Answer (ℕ × ℕ)
  pub answer_name : List Call → Call → Answer (Sockaddr × ℕ)
  pub calls : List Call
  pub opened : List ℕ
  pub errno : Errno

-- A function of fd.cc: it makes calls, and returns or throws.
abbrev pub Sys {ℓ} : Type ℓ → Type ℓ
Sys A = Os → Os × Outcome A

abbrev pub bind_result {ℓ ℓ'} :
    {A : Type ℓ} {B : Type ℓ'} → Os × Outcome A → (A → Sys B) → Os × Outcome B
bind_result (os, throws e) k = (os, throws e)
bind_result (os, returns a) k = k a os

infixl 5 ◌>>=◌ ◌>>◌
abbrev pub ◌>>=◌ {ℓ ℓ'} : {A : Type ℓ} {B : Type ℓ'} → Sys A → (A → Sys B) → Sys B
◌>>=◌ m k os = bind_result (m os) k

abbrev pub ◌>>◌ {ℓ ℓ'} : {A : Type ℓ} {B : Type ℓ'} → Sys A → Sys B → Sys B
◌>>◌ m k os = bind_result (m os) (λ _. k)

abbrev pub pure {ℓ} : {A : Type ℓ} → A → Sys A
pure a os = (os, returns a)

abbrev pub throw_sys {ℓ} : {A : Type ℓ} → String → Sys A
throw_sys msg os = (os, throws (internal_error msg))

abbrev pub set_errno : Errno → Sys (Unit {0})
set_errno e os = (record os { errno = e }, returns tt)

abbrev pub last_errno : Sys Errno
last_errno os = (os, returns os.errno)

abbrev pub answered {ℓ} : {A : Type ℓ} → Os → Call → Answer A → Os × Outcome (Option A)
answered os c (ok a) = (record os { calls = os.calls ++ (c ∷ []) }, returns (some a))
answered os c (fails e) = (record os { calls = os.calls ++ (c ∷ []); errno = e }, returns none)

-- A call; `none` is -1.
abbrev pub call : Call → Sys (Option ℕ)
call c os = answered os c (os.answer os.calls c)

abbrev pub call_name : Call → Sys (Option (Sockaddr × ℕ))
call_name c os = answered os c (os.answer_name os.calls c)

abbrev pub note_opened : ℕ → Sys (Unit {0})
note_opened n os = (record os { opened = n ∷ os.opened }, returns tt)

abbrev pub note_one : Option ℕ → Sys (Option ℕ)
note_one none = pure none
note_one (some n) = do note_opened n; pure (some n)

-- A call that opens a descriptor.
abbrev pub call_open : Call → Sys (Option ℕ)
call_open c = call c >>= note_one

abbrev pub note_two : Option (ℕ × ℕ) → Sys (Option (ℕ × ℕ))
note_two none = pure none
note_two (some (a, b)) = do note_opened a; note_opened b; pure (some (a, b))

abbrev pub call_open_two : Call → Sys (Option (ℕ × ℕ))
call_open_two c = (λ os. answered os c (os.answer_two os.calls c)) >>= note_two

abbrev pub remove_first : ℕ → List ℕ → List ℕ
remove_first n [] = []
remove_first n (x ∷ xs) = if x == n then xs else x ∷ remove_first n xs

-- `fd__close`: the descriptor is gone whatever `close` answers.
unfoldable pub fd__close : ℕ → Sys (Option ℕ)
fd__close fd =
    call (close fd) >>= (λ r os. (record os { opened = remove_first fd os.opened }, returns r))

-- `fd__socket` and the other functions of that kind, which tests may replace.
abbrev pub fd__socket : Family → SocketType → Protocol → Sys (Option ℕ)
fd__socket domain type protocol = call_open (socket domain type protocol)

abbrev pub fd__accept : ℕ → Sys (Option ℕ)
fd__accept fd = call_open (accept fd)

abbrev pub fd__fcntl_int : ℕ → Command → ℕ → Sys (Option ℕ)
fd__fcntl_int fd cmd arg = call (fcntl fd cmd arg)

abbrev pub fd__setsockopt_int : ℕ → Level → OptionName → ℕ → Sys (Option ℕ)
fd__setsockopt_int fd level name value = call (setsockopt fd level name value)

abbrev pub is_ok {ℓ} : {A : Type ℓ} → Option A → Bool
is_ok none = false
is_ok (some a) = true

-- Most functions: whether the call has succeeded.
abbrev pub succeeds : Sys (Option ℕ) → Sys Bool
succeeds m = do r ← m; pure (is_ok r)

-- O_NONBLOCK and FD_CLOEXEC are single bits: tests on, and changes of, the bit of value `b`.
abbrev pub o_nonblock : ℕ
o_nonblock = 4

abbrev pub fd_cloexec : ℕ
fd_cloexec = 1

abbrev pub has_bit : ℕ → ℕ → Bool
has_bit b v = v / b % 2 == 1

abbrev pub set_bit : ℕ → ℕ → ℕ
set_bit b v = if has_bit b v then v else v + b

abbrev pub clear_bit : ℕ → ℕ → ℕ
clear_bit b v = if has_bit b v then v - b else v
