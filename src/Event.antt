-- ===== src/Event.antt =====
-- torrent/system/event.h and event.cc: an event and its descriptor, and the names of errors. The
-- numbers of the errors, which are those of errno.h, and the text of an int are parameters. The
-- fields of an event are those of `Event` in Poll.
mod Names
mod Tests
use Prim.Native.String.{String, ◌++◌}
use shm_ipc.Base.{
  ℕ, zero, suc, Bool, true, false, ◌==◌, if◌then◌else◌, Option, none, some, List, [], ◌∷◌,
}
use shm_ipc.Base.Outcome.{Outcome, returns, throws, internal_error, assertion}
use shm_ipc.Poll.{Event}
use shm_ipc.Poll.Waiting.{ℤ, pos, negsuc}

-- The labels of the first `switch`, but for 0; each stands for its own name.
abbrev pub errno_names : List String
errno_names =
    "E2BIG" ∷ "EACCES" ∷ "EADDRINUSE" ∷ "EADDRNOTAVAIL" ∷ "EAFNOSUPPORT" ∷ "EAGAIN" ∷ "EALREADY"
    ∷ "EBADF" ∷ "EBADMSG" ∷ "EBUSY" ∷ "ECANCELED" ∷ "ECHILD" ∷ "ECONNABORTED" ∷ "ECONNREFUSED"
    ∷ "ECONNRESET" ∷ "EDEADLK" ∷ "EDESTADDRREQ" ∷ "EDOM" ∷ "EDQUOT" ∷ "EEXIST" ∷ "EFAULT" ∷ "EFBIG"
    ∷ "EHOSTUNREACH" ∷ "EIDRM" ∷ "EILSEQ" ∷ "EINPROGRESS" ∷ "EINTR" ∷ "EINVAL" ∷ "EIO" ∷ "EISCONN"
    ∷ "EISDIR" ∷ "ELOOP" ∷ "EMFILE" ∷ "EMLINK" ∷ "EMSGSIZE" ∷ "EMULTIHOP" ∷ "ENAMETOOLONG"
    ∷ "ENETDOWN" ∷ "ENETRESET" ∷ "ENETUNREACH" ∷ "ENFILE" ∷ "ENOBUFS" ∷ "ENODATA" ∷ "ENODEV"
    ∷ "ENOENT" ∷ "ENOEXEC" ∷ "ENOLCK" ∷ "ENOLINK" ∷ "ENOMEM" ∷ "ENOMSG" ∷ "ENOPROTOOPT" ∷ "ENOSPC"
    ∷ "ENOSR" ∷ "ENOSTR" ∷ "ENOSYS" ∷ "ENOTCONN" ∷ "ENOTDIR" ∷ "ENOTEMPTY" ∷ "ENOTSOCK" ∷ "ENOTTY"
    ∷ "ENXIO" ∷ "EOPNOTSUPP" ∷ "EOVERFLOW" ∷ "EPERM" ∷ "EPIPE" ∷ "EPROTO" ∷ "EPROTONOSUPPORT"
    ∷ "EPROTOTYPE" ∷ "ERANGE" ∷ "EROFS" ∷ "ESPIPE" ∷ "ESRCH" ∷ "ESTALE" ∷ "ETIME" ∷ "ETIMEDOUT"
    ∷ "ETXTBSY" ∷ "EXDEV" ∷ []

-- Those of the second one, which may have a number of the first.
abbrev pub duplicate_names : List String
duplicate_names = "ENOTSUP" ∷ "EWOULDBLOCK" ∷ []

unfoldable pub find_name : (String → ℕ) → ℕ → List String → Option String
find_name number status [] = none
find_name number status (n ∷ ns) =
    let rest = find_name number status ns in if number n == status then some n else rest

abbrev pub or_else {ℓ} : {A : Type ℓ} → Option A → A → A
or_else none b = b
or_else (some a) b = a

-- The buffer of 16 characters is large enough for any int.
unfoldable pub errno_enum : (String → ℕ) → (ℤ → String) → ℤ → String
errno_enum number decimal (negsuc n) = "E" ++ decimal (negsuc n)
errno_enum number decimal (pos zero) = "0"
errno_enum number decimal (pos (suc n)) =
    or_else (find_name number (suc n) errno_names)
      (or_else (find_name number (suc n) duplicate_names) ("E" ++ decimal (pos (suc n))))

unfoldable pub file_descriptor : Event → Option ℕ
file_descriptor e = e.fd

unfoldable pub is_open : Event → Bool
unfolding file_descriptor
is_open e = elim (file_descriptor e) [ none ↦ false | some n ↦ true ]

unfoldable pub is_polling : Event → Bool
is_polling e = elim e.poll_event [ none ↦ false | some ref ↦ true ]

unfoldable pub set_file_descriptor : Event → Option ℕ → Event
set_file_descriptor e fd = record e { fd = fd }

unfoldable pub reset_file_descriptor : Event → Event
reset_file_descriptor e = record e { fd = none }

-- The destructor.
unfoldable pub destroy : Event → Outcome (Unit {0})
unfolding is_polling
destroy e =
    if is_polling e
    then throws (assertion "Event::~Event() called with m_poll_event != nullptr.")
    else returns tt

-- `type_name`, where a class does not override it.
unfoldable pub type_name : Outcome String
type_name = throws (internal_error "Event::type_name() must be overridden in derived class.")

abbrev pub fd_number : Option ℕ → ℤ
fd_number none = negsuc 0
fd_number (some n) = pos n

-- `name` is what the class's `type_name` gives.
unfoldable pub print_name_fd_str : (ℤ → String) → Outcome String → Event → Outcome String
unfolding file_descriptor
print_name_fd_str decimal (throws e) event = throws e
print_name_fd_str decimal (returns name) event =
    returns ("name:" ++ (name ++ (" fd:" ++ decimal (fd_number (file_descriptor event)))))
