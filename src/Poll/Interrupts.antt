-- ===== src/Poll/Interrupts.antt =====
-- The polling thread and the ones that interrupt it, step by step, and the time that `do_poll` of
-- torrent/system/poll_kqueue.cc waits.
use shm_ipc.Base.{
  ℕ, zero, suc, ◌+◌, ◌*◌, ◌/◌, ◌%◌, ◌^◌, ◌≤◌, ◌<◌, ◌≡◌, refl, ap, Bool, true, false, ◌&&◌, ◌-◌,
  if◌then◌else◌, min, ltb, ltb-true, ltb-false, arith,
}
use shm_ipc.Poll.Waiting.{
  PollingState, idle_state, begin_polling, end_polling, do_interrupt, ℤ, pos, negsuc, neg, narrow,
  zero_timespec, timespec, time_to_wait,
}

-- `inside` while the polling thread is in `kevent`; `asked` are the calls of do_interrupt in this
-- round, and `pokes` the times that they have poked the user event.
pub record Round : Type 0 where
  pub state : PollingState
  pub inside : Bool
  pub asked : ℕ
  pub pokes : ℕ

abbrev pub outside : Round
outside = record { state = idle_state; inside = false; asked = 0; pokes = 0 }

abbrev pub interrupted_by : Round → PollingState × Bool → Round
interrupted_by r (s, poked) = record r {
  state = s;
  asked = r.asked + 1;
  pokes = r.pokes + (if poked then 1 else 0);
}

pub data Step : Round → Round → Type 0 where
  enter :
      (r : Round)
      → r.inside ≡ false
      → Step r (record { state = begin_polling r.state; inside = true; asked = 0; pokes = 0 })
  interrupt : (r : Round) → Step r (interrupted_by r (do_interrupt r.state))
  leave :
      (r : Round)
      → r.inside ≡ true
      → Step r (record { state = end_polling r.state; inside = false; asked = 0; pokes = 0 })

pub data Reach : Round → Type 0 where
  start : Reach outside
  next : {r s : Round} → Reach r → Step r s → Reach s

record Kept (r : Round) : Type 0 where
  polling : r.state.polling ≡ r.inside
  flag : r.state.interrupted ≡ (r.inside && ltb 0 r.asked)
  poked : r.pokes ≡ (if r.inside then min 1 r.asked else 0)

step-Kept : {r s : Round} → Step r s → Kept r → Kept s
unfolding begin_polling do_interrupt end_polling
step-Kept (enter r out) k = record {
  polling = refl;
  flag = ground (arith, k.flag, out);
  poked = refl;
}
step-Kept (interrupt r) k = record {
  polling = ground (arith, k.polling, k.flag, k.poked);
  flag = ground (arith, k.polling, k.flag, k.poked);
  poked = ground (arith, k.polling, k.flag, k.poked);
}
step-Kept (leave r out) k = record { polling = refl; flag = refl; poked = refl }

Reach-Kept : {r : Round} → Reach r → Kept r
Reach-Kept start = record { polling = refl; flag = refl; poked = refl }
Reach-Kept (next h s) = step-Kept s (Reach-Kept h)

-- However calls of do_interrupt fall between the steps of the polling thread: in a round of `poll`
-- the user event has been poked once if do_interrupt has been called in it, and else never.
pub Reach-pokes : {r : Round} → Reach r → r.inside ≡ true → r.pokes ≡ min 1 r.asked
Reach-pokes h inside = let k = Reach-Kept h in ground (arith, k.poked, inside)

-- Outside `poll`, do_interrupt changes nothing and pokes nothing, and the next `poll` waits as long
-- as if it had not been called.
pub Reach-lost :
    {r : Round} (callbacks : Bool) (timeout : ℤ)
    → Reach r
    → r.inside ≡ false
    → (do_interrupt r.state ≡ (r.state, false))
      × (time_to_wait (do_interrupt r.state).0 callbacks timeout
          ≡ (if callbacks then zero_timespec else timespec timeout))
unfolding do_interrupt time_to_wait
Reach-lost {r} callbacks timeout h out =
    let k = Reach-Kept h in
    let same : do_interrupt r.state ≡ (r.state, false) = ground (arith, k.polling, k.flag, out) in
    (same, ground (arith, same, k.flag, out))

neg_lem : (n : ℕ) → 1 ≤ n → neg n ≡ negsuc (n - 1)
neg_lem zero h = absurd (omega (arith, h))
neg_lem (suc n) h = ap negsuc (omega arith)

seconds : (n : ℕ) → 1000000 ≤ n → (timespec (negsuc (n - 1))).sec ≡ negsuc (n / 1000000 - 1)
unfolding timespec
seconds n h =
    let back : n - 1 + 1 ≡ n = omega (arith, h) in
    rw back (neg_lem (n / 1000000) (omega (arith, h)))

-- What `kevent` is given for a time-out that fits an int: whole seconds, and below a second whole
-- microseconds, that make up the time-out. From 2^31 to 2^32 microseconds the int is negative, and
-- so are the seconds.
pub timespec-narrow :
    (t : ℕ)
    → (t < 2 ^ 31
        → (sec nsec : ℕ) × (timespec (narrow t) ≡ record { sec = pos sec; nsec = pos nsec })
          × (nsec < 1000000000)
          × (sec * 1000000000 + nsec ≡ t * 1000))
      × (2 ^ 31 ≤ t → t + 1000000 ≤ 2 ^ 32 → (sec : ℕ) × ((timespec (narrow t)).sec ≡ negsuc sec))
unfolding timespec narrow
timespec-narrow t = (
  λ small.
      let low : t % 2 ^ 32 ≡ t = omega (arith, small) in
      (
        t / 1000000,
        (t % 1000000) * 1000,
        rw (low, ltb-true t (2 ^ 31) small) refl,
        omega arith,
        omega arith,
      ),
  λ large fits.
      let low : t % 2 ^ 32 ≡ t = omega (arith, fits) in
      let n = 2 ^ 32 - t in
      let below = neg_lem n (omega (arith, fits)) in
      (
        n / 1000000 - 1,
        rw (low, ltb-false t (2 ^ 31) large, below) (seconds n (omega (arith, fits))),
      ),
)
