-- ===== src/Fd/Platforms/Kept.antt =====
-- Which descriptors the functions of Fd/Platforms leave open.
use shm_ipc.Base.{
  ℕ, ◌≡◌, refl, ◌∙◌, Bool, if◌then◌else◌, true, false, Option, none, some, List, [], ◌∷◌, String,
}
use shm_ipc.Base.Outcome.{Outcome, returns, throws}
use shm_ipc.Fd.{
  Family, af_unspec, af_inet, af_inet6, af_local, af_other, Level, OptionName, Call, Os, Sys, ◌>>=◌,
  bind_result, call, call_open, is_ok,
}
use shm_ipc.Fd.Options.{fd_bind_to_device, bind_options, enforce, bind_index, bind_found}
use shm_ipc.Fd.Open.{or_throw}
use shm_ipc.Fd.Leaks.{answered-cases, call_open-Opens, left_open}
use shm_ipc.Fd.Platforms.{
  Platform, linux, apple, open_bsd, another, Parse, set_rtable, fd_bind_to_device_on, Build,
  left_out, plain, flagged, fd_open_epoll_in, fd_open_kqueue_in, fd_open_inotify_in,
}

-- What opens and closes nothing, also where it throws.
abbrev Keeps {ℓ} : {A : Type ℓ} → Sys A → Type 0
Keeps m = (os : Os) → (m os).0.opened ≡ os.opened

call-Keeps : (c : Call) → Keeps (call c)
call-Keeps c os =
    let (os', r, same, kept) = answered-cases os c (os.answer os.calls c) in rw same kept

bound-Keeps :
    {A B : Type 0} (out : Os × Outcome A) (k : A → Sys B)
    → ((a : A) → Keeps (k a))
    → (bind_result out k).0.opened ≡ out.0.opened
bound-Keeps (os, throws e) k s = refl
bound-Keeps (os, returns a) k s = s a os

then-Keeps :
    {A B : Type 0} (m : Sys A) (k : A → Sys B) → Keeps m → ((a : A) → Keeps (k a)) → Keeps (m >>= k)
then-Keeps m k s t os = bound-Keeps (m os) k t ∙ s os

choice-Keeps :
    {A : Type 0} (b : Bool) (m n : Sys A) → Keeps m → Keeps n → Keeps (if b then m else n)
choice-Keeps true m n s t = s
choice-Keeps false m n s t = t

enforce-Keeps : (fd : ℕ) (level : Level) (name : OptionName) → Keeps (enforce fd level name)
enforce-Keeps fd level name = then-Keeps (call _) _ (call-Keeps _) (λ _ _. refl)

bind_options-Keeps :
    (fd index : ℕ) (level : Level) (bound received : OptionName)
    → Keeps (bind_options fd index level bound received)
bind_options-Keeps fd index level bound received =
    then-Keeps (call _) _ (call-Keeps _)
      (λ r. choice-Keeps (is_ok r) _ _ (enforce-Keeps fd level received) (λ _. refl))

bind_index-Keeps : (fd : ℕ) (family : Family) (index : ℕ) → Keeps (bind_index fd family index)
bind_index-Keeps fd af_inet index os = bind_options-Keeps fd index _ _ _ os
bind_index-Keeps fd af_inet6 index os = bind_options-Keeps fd index _ _ _ os
bind_index-Keeps fd af_unspec index os = refl
bind_index-Keeps fd af_local index os = refl
bind_index-Keeps fd (af_other n) index os = refl

bind_found-Keeps : (fd : ℕ) (family : Family) (r : Option ℕ) → Keeps (bind_found fd family r)
bind_found-Keeps fd family none os = refl
bind_found-Keeps fd family (some index) os = bind_index-Keeps fd family index os

set_rtable-Keeps : (fd : ℕ) (parsed : Option (ℕ × List ℕ)) → Keeps (set_rtable fd parsed)
set_rtable-Keeps fd none os = refl
set_rtable-Keeps fd (some (n, [])) os = then-Keeps (call _) _ (call-Keeps _) (λ _ _. refl) os
set_rtable-Keeps fd (some (n, x ∷ xs)) os = refl

-- Whatever the platform is, the name of the device and what the system answers, fd_bind_to_device opens
-- and closes no descriptor, also where it throws.
pub fd_bind_to_device_on-kept :
    (platform : Platform) (parse : Parse) (fd : ℕ) (device : Option (List ℕ)) (family : Family)
    (os : Os)
    → (fd_bind_to_device_on platform parse fd device family os).0.opened ≡ os.opened
unfolding fd_bind_to_device_on fd_bind_to_device
fd_bind_to_device_on-kept platform parse fd none family os = refl
fd_bind_to_device_on-kept platform parse fd (some []) family os = refl
fd_bind_to_device_on-kept linux parse fd (some (c ∷ cs)) family os =
    then-Keeps (call _) _ (call-Keeps _) (λ _ _. refl) os
fd_bind_to_device_on-kept apple parse fd (some (c ∷ cs)) family os =
    then-Keeps (call _) _ (call-Keeps _) (bind_found-Keeps fd family) os
fd_bind_to_device_on-kept open_bsd parse fd (some (c ∷ cs)) family os =
    set_rtable-Keeps fd (parse (c ∷ cs)) os
fd_bind_to_device_on-kept another parse fd (some (c ∷ cs)) family os = refl

-- The descriptors that are open behind a function that returns one, or throws.
abbrev pub with_result : Outcome ℕ → List ℕ → List ℕ
with_result (returns fd) before = fd ∷ before
with_result (throws e) before = before

or_throw-left :
    (msg : String) (os : Os) (r : Option ℕ) (before : List ℕ)
    → os.opened ≡ left_open (returns r) before
    → (or_throw msg r os).0.opened ≡ with_result (or_throw msg r os).1 before
or_throw-left msg os none before e = e
or_throw-left msg os (some fd) before e = e

opens-left :
    (c : Call) (msg : String) (os : Os)
    → let out = (call_open c >>= or_throw msg) os in out.0.opened ≡ with_result out.1 os.opened
opens-left c msg os =
    let (os', r, same, kept) = call_open-Opens c os in
    rw same (or_throw-left msg os' r os.opened kept)

-- In every build, fd_open_epoll, fd_open_kqueue and fd_open_inotify leave open just the descriptor that
-- they return, and none where they throw.
pub open_in-left :
    (build : Build) (size : ℕ) (os : Os)
    → let epoll = fd_open_epoll_in build size os in
      let queue = fd_open_kqueue_in build os in
      let notify = fd_open_inotify_in build os in
      (epoll.0.opened ≡ with_result epoll.1 os.opened)
      × (queue.0.opened ≡ with_result queue.1 os.opened)
      × (notify.0.opened ≡ with_result notify.1 os.opened)
unfolding fd_open_epoll_in fd_open_kqueue_in fd_open_inotify_in
open_in-left left_out size os = (refl, refl, refl)
open_in-left plain size os = (opens-left _ _ os, opens-left _ _ os, opens-left _ _ os)
open_in-left flagged size os = (opens-left _ _ os, opens-left _ _ os, opens-left _ _ os)
