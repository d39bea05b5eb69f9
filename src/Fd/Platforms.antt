-- ===== src/Fd/Platforms.antt =====
-- The functions of torrent/net/fd.cc that are not the same on all platforms, with the branches for the
-- others beside that for macOS. `parse` is std::from_chars into an int: none for an error, or the int,
-- as its 32 bits, and the text behind it.
pub mod Kept
use shm_ipc.Base.{ℕ, Bool, true, false, Option, none, some, List, [], ◌∷◌, take}
use shm_ipc.Fd.{
  Family, Sys, ◌>>=◌, pure, throw_sys, call, call_open, is_ok, fd__setsockopt_int, sol_socket,
  so_bindtodevice, so_rtable, setsockopt_bytes, epoll_create, epoll_create1, kqueue, kqueue1,
  inotify_init, inotify_init1,
}
use shm_ipc.Fd.Options.{fd_bind_to_device}
use shm_ipc.Fd.Open.{or_throw}

pub data Platform : Type 0 where
  linux apple open_bsd another : Platform

abbrev pub Parse : Type 0
Parse = List ℕ → Option (ℕ × List ℕ)

-- SO_BINDTODEVICE is given the name, of at most IFNAMSIZ bytes.
abbrev pub bind_linux : ℕ → List ℕ → Sys Bool
bind_linux fd device = do
  r ← call (setsockopt_bytes fd sol_socket so_bindtodevice (take 16 device))
  pure (is_ok r)

abbrev pub set_rtable : ℕ → Option (ℕ × List ℕ) → Sys Bool
set_rtable fd (some (rtable_id, [])) = do
  r ← fd__setsockopt_int fd sol_socket so_rtable rtable_id
  pure (is_ok r)
set_rtable fd parsed = pure false

abbrev pub bind_named : Platform → Parse → ℕ → List ℕ → Family → Sys Bool
bind_named linux parse fd device family = bind_linux fd device
bind_named apple parse fd device family = fd_bind_to_device fd (some device) family
bind_named open_bsd parse fd device family = set_rtable fd (parse device)
bind_named another parse fd device family = pure false

unfoldable pub fd_bind_to_device_on : Platform → Parse → ℕ → Option (List ℕ) → Family → Sys Bool
fd_bind_to_device_on platform parse fd none family = pure false
fd_bind_to_device_on platform parse fd (some []) family = pure false
fd_bind_to_device_on platform parse fd (some (c ∷ cs)) family =
    bind_named platform parse fd (c ∷ cs) family

-- Whether a call is compiled in, and the one of its two forms that takes a flag.
pub data Build : Type 0 where
  left_out plain flagged : Build

unfoldable pub fd_open_epoll_in : Build → ℕ → Sys ℕ
fd_open_epoll_in left_out size =
    throw_sys "torrent::fd_open_epoll called but epoll support is not compiled in"
fd_open_epoll_in plain size =
    call_open (epoll_create size) >>= or_throw "torrent::fd_open_epoll failed: "
fd_open_epoll_in flagged size =
    call_open epoll_create1 >>= or_throw "torrent::fd_open_epoll failed: "

unfoldable pub fd_open_kqueue_in : Build → Sys ℕ
fd_open_kqueue_in left_out =
    throw_sys "torrent::fd_open_kqueue called but kqueue support is not compiled in"
fd_open_kqueue_in plain = call_open kqueue >>= or_throw "torrent::fd_open_kqueue failed: "
fd_open_kqueue_in flagged = call_open kqueue1 >>= or_throw "torrent::fd_open_kqueue failed: "

unfoldable pub fd_open_inotify_in : Build → Sys ℕ
fd_open_inotify_in left_out =
    throw_sys "torrent::fd_open_inotify called but inotify support is not compiled in"
fd_open_inotify_in plain = call_open inotify_init >>= or_throw "torrent::fd_open_inotify failed: "
fd_open_inotify_in flagged =
    call_open inotify_init1 >>= or_throw "torrent::fd_open_inotify failed: "
