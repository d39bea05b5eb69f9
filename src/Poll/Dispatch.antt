-- ===== src/Poll/Dispatch.antt =====
-- Whom `Poll::process` of torrent/system/poll_kqueue.cc calls, and with what.
use shm_ipc.Base.{
  ℕ, ◌+◌, ◌≡◌, inl, inr, refl, ==_true, Bool, true, false, Bool-cases, Option-cases, Option, none,
  some, List, [], ◌∷◌, if◌then◌else◌, arith,
}
use shm_ipc.Base.Outcome.{Outcome, returns, throws}
use shm_ipc.Poll.{Mask, Filter, Change, Poll, then_do, has, is_empty, remove_and_close}
use shm_ipc.Poll.Told.{Open}
use shm_ipc.Poll.Closing.{closed_poll, remove_and_close-steps}
use shm_ipc.Poll.Process.{
  Reported, ready, evfilt_user, Kevent, Kind, event_error, Handlers, kind_of, process_error,
  process_ready, process_one, process_loop, process, start_processing,
}
use shm_ipc.Poll.Links.{IsLinked, is_defined, IsSound, unchanged-IsSound, then_do-IsSound}
use shm_ipc.Poll.Sound.{remove_and_close-IsSound}

-- What is asked of the handlers: that they use the poll by its operations.
abbrev pub AreSound : Handlers → Type 0
AreSound handlers = (k : Kind) (e : ℕ) (p : Poll) → IsLinked p → IsSound p (handlers k e p)

-- The kernel gives the PollEvent back, but for the user event.
abbrev pub IsReported : Kevent → Type 0
IsReported k = k.udata ≡ none → (k.error ≡ false) × (k.reported ≡ evfilt_user)

process_error-IsSound :
    (handlers : Handlers) (p : Poll) (ref : ℕ)
    → AreSound handlers
    → IsLinked p
    → IsSound p (process_error handlers p ref)
unfolding process_error
process_error-IsSound handlers p ref sound l = elim (Option-cases (p.poll_events ref).event) [
  | inl gone ↦ rw (gone, process_error) (unchanged-IsSound p (returns 1) l refl)
  | inr (e, has_event) ↦ elim (Bool-cases (p.poll_events ref).mask.error) [
    | inr unasked ↦ rw (has_event, unasked, process_error) (unchanged-IsSound p _ l refl)
    | inl asked ↦
        let s = sound event_error e p l in
        rw (has_event, asked, process_error)
          (then_do-IsSound (handlers event_error e p) _ s (λ _ _.
            elim (Bool-cases (is_empty ((handlers event_error e p).0.poll_events ref).mask)) [
              | inl cleared ↦ rw cleared (unchanged-IsSound _ (returns 1) s.linked refl)
              | inr left ↦ rw left (unchanged-IsSound _ _ s.linked refl)
            ]))
  ]
]

flag-not_empty : (f : Filter) (m : Mask) → has f m ≡ true → is_empty m ≡ false
flag-not_empty f m h = ground (arith, h)

process_ready-IsSound :
    (handlers : Handlers) (p : Poll) (ref : ℕ) (f : Filter)
    → AreSound handlers
    → IsLinked p
    → IsSound p (process_ready handlers p ref f)
unfolding process_ready
process_ready-IsSound handlers p ref f sound l =
    elim (Bool-cases (has f (p.poll_events ref).mask)) [
      | inr spurious ↦ rw spurious (unchanged-IsSound p (returns 0) l refl)
      | inl wanted ↦ elim (Option-cases (p.poll_events ref).event) [
        | inl gone ↦ absurd (l.named ref (flag-not_empty f (p.poll_events ref).mask wanted) gone)
        | inr (e, has_event) ↦
            let s = sound (kind_of f) e p l in
            rw (wanted, has_event, process_ready)
              (then_do-IsSound (handlers (kind_of f) e p) _ s
                (λ _ _. unchanged-IsSound _ (returns 1) s.linked refl))
      ]
    ]

fields-IsSound :
    (handlers : Handlers) (p : Poll) (r : Reported) (err : Bool) (u : Option ℕ)
    → AreSound handlers
    → IsReported (record { reported = r; error = err; udata = u })
    → IsLinked p
    → IsSound p (process_one handlers p (record { reported = r; error = err; udata = u }))
unfolding process_one
fields-IsSound handlers p r true none sound reported l = absurd (ground (arith, (reported refl).0))
fields-IsSound handlers p r true (some ref) sound reported l =
    process_error-IsSound handlers p ref sound l
fields-IsSound handlers p evfilt_user false u sound reported l =
    unchanged-IsSound p (returns 0) l refl
fields-IsSound handlers p (ready f) false none sound reported l =
    absurd (ground (arith, (reported refl).1))
fields-IsSound handlers p (ready f) false (some ref) sound reported l =
    process_ready-IsSound handlers p ref f sound l

process_one-IsSound :
    (handlers : Handlers) (p : Poll) (k : Kevent)
    → AreSound handlers
    → IsReported k
    → IsLinked p
    → IsSound p (process_one handlers p k)
process_one-IsSound handlers p k = fields-IsSound handlers p k.reported k.error k.udata

abbrev pub AreReported : List Kevent → Type 0
AreReported [] = Unit
AreReported (k ∷ ks) = IsReported k × AreReported ks

pub process_loop-IsSound :
    (handlers : Handlers) (p : Poll) (count : ℕ) (ks : List Kevent)
    → AreSound handlers
    → AreReported ks
    → IsLinked p
    → IsSound p (process_loop handlers p count ks)
unfolding process_loop
process_loop-IsSound handlers p count [] sound reported l =
    unchanged-IsSound p (returns count) l refl
process_loop-IsSound handlers p count (k ∷ ks) sound (this, rest) l =
    let s = process_one-IsSound handlers p k sound this l in
    then_do-IsSound (process_one handlers p k) (λ n p1. process_loop handlers p1 (count + n) ks) s
      (λ n _.
        process_loop-IsSound handlers (process_one handlers p k).0 (count + n) ks sound rest
          s.linked)

finish-IsLinked :
    (out : Poll × Outcome ℕ)
    → IsLinked out.0
    → is_defined out.1 ≡ true
    → let end =
        then_do out
          (λ count p1. (record p1 { processing = false; closed_events = [] }, returns count)) in
      IsLinked end.0
      × (is_defined end.1 ≡ true)
      × ((n : ℕ) → end.1 ≡ returns n → (end.0.processing ≡ false) × (end.0.closed_events ≡ []))
finish-IsLinked (p, throws e) l d = (l, d, λ n q. absurd (ground (arith, q)))
finish-IsLinked (p, returns n) l d =
    (record { named = l.named; back = l.back; fresh = l.fresh }, refl, λ _ _. (refl, refl))

-- With handlers that use the poll by its operations, and events that the kernel reports, `process`
-- keeps the links between events and PollEvents, whether it returns or throws, and never follows a
-- null pointer; when it returns, the phase is over and no closed PollEvent is kept.
pub process-IsLinked :
    (handlers : Handlers) (p : Poll) (ks : List Kevent)
    → AreSound handlers
    → AreReported ks
    → IsLinked p
    → let out = process handlers p ks in
      IsLinked out.0
      × (is_defined out.1 ≡ true)
      × ((n : ℕ) → out.1 ≡ returns n → (out.0.processing ≡ false) × (out.0.closed_events ≡ []))
unfolding process
process-IsLinked handlers p ks sound reported l =
    let s =
      process_loop-IsSound handlers (start_processing p) 0 ks sound reported
        (record { named = l.named; back = l.back; fresh = l.fresh }) in
    finish-IsLinked (process_loop handlers (start_processing p) 0 ks) s.linked s.defined

gone-empty :
    (p : Poll) (ref : ℕ)
    → IsLinked p
    → (p.poll_events ref).event ≡ none
    → is_empty (p.poll_events ref).mask ≡ true
gone-empty p ref l gone = elim (Bool-cases (is_empty (p.poll_events ref).mask)) [
  | inl empty ↦ empty
  | inr flagged ↦ absurd (l.named ref flagged gone)
]

empty-has : (f : Filter) (m : Mask) → is_empty m ≡ true → has f m ≡ false
empty-has f m h = ground (arith, h)

fields-gone :
    (handlers : Handlers) (p : Poll) (r : Reported) (err : Bool) (ref : ℕ)
    → IsLinked p
    → (p.poll_events ref).event ≡ none
    → process_one handlers p (record { reported = r; error = err; udata = some ref })
      ≡ (p, returns (if err then 1 else 0))
unfolding process_one process_error process_ready
fields-gone handlers p r true ref l gone = rw (gone, process_error) refl
fields-gone handlers p evfilt_user false ref l gone = refl
fields-gone handlers p (ready f) false ref l gone =
    rw (empty-has f (p.poll_events ref).mask (gone-empty p ref l gone)) refl

-- Where the kernel takes all changes, an event that was reported for a PollEvent and stands behind a
-- `remove_and_close` of its event is skipped, whatever it reports: no handler is called and the poll
-- stays as it is.
pub process_one-closed :
    (kevent : List Change → Bool) (handlers : Handlers) (p : Poll) (e n ref : ℕ) (r : Reported)
    (err : Bool)
    → ((cs : List Change) → kevent cs ≡ true)
    → IsLinked p
    → Open p e n ref
    → let p' = (remove_and_close kevent p e).0 in
      process_one handlers p' (record { reported = r; error = err; udata = some ref })
      ≡ (p', returns (if err then 1 else 0))
process_one-closed kevent handlers p e n ref r err ok l o =
    let (p3, same, _, _, _) = remove_and_close-steps kevent ok o in
    let gone : ((closed_poll p3 e n ref).poll_events ref).event ≡ none =
      rw (==_true ref ref refl) refl in
    fields-gone handlers (remove_and_close kevent p e).0 r err ref
      (remove_and_close-IsSound kevent p e l).linked (rw same gone)
