-- ===== src/Poll/Holding.antt =====
-- `Poll::process` of torrent/system/poll_kqueue.cc and m_closed_events, which keeps the PollEvents alive
-- that its handlers close.
use shm_ipc.Base.{ℕ, ◌+◌, ◌≡◌, refl, ap, ◌∙◌, sym, Bool, inl, some, List, [], ◌∷◌, ◌++◌}
use shm_ipc.Base.Outcome.{Outcome, returns, throws}
use shm_ipc.Poll.{Change, Poll, then_do}
use shm_ipc.Poll.Process.{
  Kevent, Kind, Handlers, process_one, process_loop, process, start_processing, end_processing,
}
use shm_ipc.Poll.Uses.{Use, using, run_use-IsSound}
use shm_ipc.Poll.Links.{IsLinked, Held}
use shm_ipc.Poll.Dispatch.{AreSound, AreReported, process_loop-IsSound}

then_do-then_do :
    {A B C : Type 0} (out : Poll × Outcome A) (f : A → Poll → Poll × Outcome B)
    (g : B → Poll → Poll × Outcome C)
    → then_do (then_do out f) g ≡ then_do out (λ a p. then_do (f a p) g)
then_do-then_do (p, throws e) f g = refl
then_do-then_do (p, returns a) f g = refl

-- The loop over two lists of events is that over the first one, and that over the second one behind it.
process_loop-append :
    (handlers : Handlers) (p : Poll) (count : ℕ) (xs ys : List Kevent)
    → process_loop handlers p count (xs ++ ys)
      ≡ then_do (process_loop handlers p count xs) (λ n p1. process_loop handlers p1 n ys)
unfolding process_loop
process_loop-append handlers p count [] ys = refl
process_loop-append handlers p count (k ∷ xs) ys =
    (λ i.
      then_do (process_one handlers p k)
        (λ n p1. process_loop-append handlers p1 (count + n) xs ys i))
    ∙ sym (then_do-then_do (process_one handlers p k) _ _)

first-AreReported : (xs ys : List Kevent) → AreReported (xs ++ ys) → AreReported xs
first-AreReported [] ys r = tt
first-AreReported (x ∷ xs) ys (this, later) = (this, first-AreReported xs ys later)

using-AreSound :
    (kevent : List Change → Bool) (program : Kind → ℕ → Poll → Use)
    → AreSound (using kevent program)
using-AreSound kevent program k e p l = run_use-IsSound kevent (program k e p) p l

-- The PollEvents that an event holds when `process` begins stay alive, by their event or in
-- m_closed_events, until each of the reported events has been looked at: whatever operations of the
-- poll the handlers call, on whatever events and in whatever order, also where an operation throws,
-- and whatever the kernel answers to its changes. For any first part of the reported events, `process`
-- comes to a poll behind it that holds them, and then goes on with the rest.
pub process_loop-Held :
    (kevent : List Change → Bool) (program : Kind → ℕ → Poll → Use) (p : Poll)
    (done rest : List Kevent) (ref e : ℕ)
    → AreReported (done ++ rest)
    → IsLinked p
    → (p.events e).poll_event ≡ some ref
    → let handlers = using kevent program in
      let reached = process_loop handlers (start_processing p) 0 done in
      (process handlers p (done ++ rest)
        ≡ then_do
            (then_do reached (λ count p1. process_loop handlers p1 count rest))
            end_processing)
      × Held reached.0 ref
unfolding process
process_loop-Held kevent program p done rest ref e reported l has_ref =
    let handlers = using kevent program in
    let s =
      process_loop-IsSound handlers (start_processing p) 0 done (using-AreSound kevent program)
        (first-AreReported done rest reported)
        (record { named = l.named; back = l.back; fresh = l.fresh }) in
    (
      ap (λ out. then_do out end_processing)
          (process_loop-append handlers (start_processing p) 0 done rest),
      s.held refl ref (inl (e, has_ref)),
    )
