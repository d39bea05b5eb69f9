-- ===== src/Fd/Staying.antt =====
-- Actions of torrent/net/fd.cc whose calls keep to one family of sockets and addresses.
use shm_ipc.Base.{
  ℕ, ◌≡◌, refl, Bool, true, false, ◌&&◌, if◌then◌else◌, Option, none, some, List, [], ◌∷◌, ◌++◌,
  arith,
}
use shm_ipc.Base.Outcome.{Outcome, returns, throws}
use shm_ipc.Net.Address.{Sockaddr, unspec, inet, inet6, unix, other}
use shm_ipc.Fd.{
  Answer, ok, fails, Family, af_unspec, af_inet, af_inet6, af_local, af_other, Call, socket, close,
  connect, fcntl, Os, Sys, ◌>>=◌, ◌>>◌, bind_result, pure, answered, call, note_one, call_open,
  fd__close, succeeds,
}
use shm_ipc.Fd.Options.{fd_set_nonblock, store_nonblock, fd_set_reuse_address, fd_set_v6only}
use shm_ipc.Fd.Open.{FdFlags, configured, configure_opened}

abbrev pub same_family : Family → Family → Bool
same_family af_inet af_inet = true
same_family af_inet6 af_inet6 = true
same_family af_unspec af_unspec = true
same_family af_local af_local = true
same_family f g = false

abbrev pub family_of : Sockaddr → Family
family_of (unspec _) = af_unspec
family_of (inet _) = af_inet
family_of (inet6 _) = af_inet6
family_of (unix _) = af_local
family_of (other n) = af_other n

-- Whether a call opens a socket of the family, or connects to an address of it, if it does either.
abbrev pub is_within : Family → Call → Bool
is_within f (socket domain type protocol) = same_family domain f
is_within f (connect fd sa n) = same_family (family_of sa) f
is_within f c = true

abbrev pub all_within : Family → List Call → Bool
all_within f [] = true
all_within f (c ∷ cs) = is_within f c && all_within f cs

all_within-append :
    (f : Family) (cs : List Call) (c : Call)
    → all_within f cs ≡ true
    → is_within f c ≡ true
    → all_within f (cs ++ (c ∷ [])) ≡ true
all_within-append f [] c e h = ground (arith, h)
all_within-append f (d ∷ cs) c e h = ground (arith, e, all_within-append f cs c)

-- What keeps to the family.
abbrev pub Stays : Family → {A : Type 0} → Sys A → Type 0
Stays f m = (os : Os) → all_within f os.calls ≡ true → all_within f (m os).0.calls ≡ true

bind_result-Stays :
    (f : Family) {A B : Type 0} (out : Os × Outcome A) (k : A → Sys B)
    → all_within f out.0.calls ≡ true
    → ((a : A) → Stays f (k a))
    → all_within f (bind_result out k).0.calls ≡ true
bind_result-Stays f (os, throws e) k h s = h
bind_result-Stays f (os, returns a) k h s = s a os h

pub then-Stays :
    (f : Family) {A B : Type 0} (m : Sys A) (k : A → Sys B)
    → Stays f m
    → ((a : A) → Stays f (k a))
    → Stays f (m >>= k)
then-Stays f m k s t os h = bind_result-Stays f (m os) k (s os h) t

answered-Stays :
    (f : Family) (os : Os) (c : Call) (a : Answer ℕ)
    → is_within f c ≡ true
    → all_within f os.calls ≡ true
    → all_within f (answered os c a).0.calls ≡ true
answered-Stays f os c (ok n) i h = all_within-append f os.calls c h i
answered-Stays f os c (fails e) i h = all_within-append f os.calls c h i

pub call-Stays : (f : Family) (c : Call) → is_within f c ≡ true → Stays f (call c)
call-Stays f c i os h = answered-Stays f os c (os.answer os.calls c) i h

succeeds-Stays : (f : Family) (c : Call) → is_within f c ≡ true → Stays f (succeeds (call c))
succeeds-Stays f c i = then-Stays f (call c) _ (call-Stays f c i) (λ _ _ h. h)

note_one-Stays : (f : Family) (r : Option ℕ) → Stays f (note_one r)
note_one-Stays f none os h = h
note_one-Stays f (some n) os h = h

pub call_open-Stays : (f : Family) (c : Call) → is_within f c ≡ true → Stays f (call_open c)
call_open-Stays f c i = then-Stays f (call c) note_one (call-Stays f c i) (note_one-Stays f)

close-Stays : (f : Family) (fd : ℕ) → Stays f (fd__close fd)
unfolding fd__close
close-Stays f fd = then-Stays f (call (close fd)) _ (call-Stays f (close fd) refl) (λ _ _ h. h)

store-Stays : (f : Family) (fd : ℕ) (r : Option ℕ) → Stays f (store_nonblock fd r)
store-Stays f fd none os h = h
store-Stays f fd (some flags) os h = succeeds-Stays f (fcntl fd _ _) refl os h

nonblock-Stays : (f : Family) (fd : ℕ) → Stays f (fd_set_nonblock fd)
unfolding fd_set_nonblock
nonblock-Stays f fd = then-Stays f (call _) _ (call-Stays f _ refl) (store-Stays f fd)

pub if-Stays :
    (f : Family) {A : Type 0} (b : Bool) (m k : Sys A)
    → Stays f m
    → Stays f k
    → Stays f (if b then m else k)
if-Stays f true m k s t = s
if-Stays f false m k s t = t

configured-Stays :
    (f : Family) (fd : ℕ) (wanted : Bool) (set : Sys Bool) (next : Sys (Option ℕ))
    → Stays f set
    → Stays f next
    → Stays f (configured fd wanted set next)
configured-Stays f fd wanted set next s n =
    then-Stays f (if wanted then set else pure true) _
      (if-Stays f wanted set (pure true) s (λ _ h. h))
      (λ done.
        if-Stays f done next (fd__close fd >> pure none) n
          (then-Stays f (fd__close fd) _ (close-Stays f fd) (λ _ _ h. h)))

v6only-Stays : (f : Family) (fd : ℕ) → Stays f (fd_set_v6only fd true)
unfolding fd_set_v6only
v6only-Stays f fd = succeeds-Stays f _ refl

reuse-Stays : (f : Family) (fd : ℕ) → Stays f (fd_set_reuse_address fd true)
unfolding fd_set_reuse_address
reuse-Stays f fd = succeeds-Stays f _ refl

pub configure-Stays :
    (f : Family) (flags : FdFlags) (r : Option ℕ) → Stays f (configure_opened flags r)
configure-Stays f flags none os h = h
configure-Stays f flags (some fd) os h =
    configured-Stays f fd flags.v6only _ _ (v6only-Stays f fd)
      (configured-Stays f fd flags.nonblock _ _ (nonblock-Stays f fd)
        (configured-Stays f fd flags.reuse_address _ _ (reuse-Stays f fd) (λ _ h. h)))
      os h
