-- ===== src/Fd/Accepting.antt =====
-- What `fd_sap_accept` of torrent/net/fd.cc leaves open.
use shm_ipc.Base.{ℕ, ◌≡◌, refl, some, ◌∷◌}
use shm_ipc.Base.Outcome.{internal_error, returns, throws}
use shm_ipc.Net.Address.{Sockaddr, unspec, inet, inet6, unix, other}
use shm_ipc.Net.Make.{sa_copy, sa_copy_in, sa_copy_in6, sa_make_unspec}
use shm_ipc.Fd.{ok, accept, Os}
use shm_ipc.Fd.Endpoint.{fd_sap_accept}

-- A connection from an IPv4 or IPv6 address is returned with the address. One from a local address
-- is thrown away with an exception, and its descriptor stays open.
pub fd_sap_accept-connection :
    (fd n : ℕ) (sa : Sockaddr) (os : Os)
    → os.answer_name os.calls (accept fd) ≡ ok (sa, n)
    → ((fd_sap_accept fd os).0.opened ≡ n ∷ os.opened)
      × ((fd_sap_accept fd os).1 ≡ elim sa [
        | inet a ↦ returns (some n, some (inet a))
        | inet6 a ↦ returns (some n, some (inet6 a))
        | unspec p ↦ returns (some n, some sa_make_unspec)
        | unix path ↦ throws (internal_error "torrent::sa_copy() sockaddr is not a valid family")
        | other f ↦ throws (internal_error "torrent::sa_copy() sockaddr is not a valid family")
      ])
unfolding fd_sap_accept sa_copy sa_copy_in sa_copy_in6
fd_sap_accept-connection fd n (inet a) os e = rw e (refl, refl)
fd_sap_accept-connection fd n (inet6 a) os e = rw e (refl, refl)
fd_sap_accept-connection fd n (unspec p) os e = rw e (refl, refl)
fd_sap_accept-connection fd n (unix path) os e = rw e (refl, refl)
fd_sap_accept-connection fd n (other f) os e = rw e (refl, refl)
