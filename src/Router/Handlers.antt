-- ===== src/Router/Handlers.antt =====
-- The laws of the handler map of router.h that `Router` relies on.
use shm_ipc.Base.{ℕ, ◌≡◌, refl, none, some, [], ◌∷◌, arith, if◌then◌else◌, ◌==◌}
use shm_ipc.Router.{RouterHandler, HandlerMap, find, assign, erase}

pub find-assign :
    (id j : ℕ) (h : RouterHandler) (m : HandlerMap)
    → find j (assign id h m) ≡ (if id == j then some h else find j m)
unfolding find assign
find-assign id j h [] = refl
find-assign id j h ((k, g) ∷ m) = ground (arith, find-assign id j h m)

pub find-erase :
    (id j : ℕ) (m : HandlerMap) → find j (erase id m) ≡ (if id == j then none else find j m)
unfolding find erase
find-erase id j [] = ground arith
find-erase id j ((k, g) ∷ m) = ground (arith, find-erase id j m)
