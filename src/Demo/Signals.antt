-- ===== src/Demo/Signals.antt =====
-- main.cc: what signals do to a process. A table says what stands for each signal; the system's own
-- action for a signal is `by_default`.
mod Tests
use shm_ipc.Base.{ℕ, ◌+◌, ◌==◌, ◌≤◌, ◌≡◌, ◌≢◌, refl, Bool, true, false, if◌then◌else◌, arith}
use shm_ipc.Poll.Waiting.{PollingState, do_interrupt}
use shm_ipc.Shutdown.{Globals, do_signal_shutdown}

pub data Signal : Type 0 where
  sigsegv sigabrt sigfpe sigill sigterm sigint sigpipe : Signal

pub data Disposition : Type 0 where
  by_default ignored panics shuts_down : Disposition

abbrev pub Table : Type 0
Table = Signal → Disposition

abbrev number : Signal → ℕ
number sigsegv = 0
number sigabrt = 1
number sigfpe = 2
number sigill = 3
number sigterm = 4
number sigint = 5
number sigpipe = 6

-- The library's `signal`.
abbrev pub signal : Signal → Disposition → Table → Table
signal s d t = λ s'. if number s' == number s then d else t s'

unfoldable pub main_signals : Table → Table
main_signals t = signal sigpipe ignored (
    signal sigint panics (
      signal sigterm panics (
        signal sigill panics
          (signal sigfpe panics (signal sigabrt panics (signal sigsegv panics t))))))

unfoldable pub register_signal_shutdown : Table → Table
register_signal_shutdown t = signal sigint shuts_down (signal sigterm shuts_down t)

-- The first two lines of do_panic.
unfoldable pub panic_signals : Signal → Table → Table
panic_signals signum t = signal sigabrt by_default (signal signum by_default t)

-- do_signal_shutdown with the poll that it interrupts: whether the user event is poked stands last.
unfoldable pub signal_shutdown : Globals → PollingState → Globals × PollingState × Bool
signal_shutdown g s = let (s', poked) = do_interrupt s in (do_signal_shutdown g, s', poked)

-- A process from `main` on, with the number of calls of do_panic; they may interrupt each other.
pub data Reach : ℕ → Table → Type 0 where
  begin : (t : Table) → Reach 0 (main_signals t)
  registers : {n : ℕ} {t : Table} → Reach n t → Reach n (register_signal_shutdown t)
  panic :
      {n : ℕ} {t : Table} (s : Signal)
      → Reach n t
      → t s ≡ panics
      → Reach (n + 1) (panic_signals s t)

abbrev weight : Disposition → ℕ
weight panics = 1
weight d = 0

-- The signals that do_panic stands for.
abbrev left_over : Table → ℕ
left_over t =
    weight (t sigsegv)
    + weight (t sigabrt)
    + weight (t sigfpe)
    + weight (t sigill)
    + weight (t sigterm)
    + weight (t sigint)

panics-weight : {d : Disposition} → d ≡ panics → weight d ≡ 1
panics-weight e = rw e refl

ignored-weight : {d : Disposition} → d ≡ ignored → weight d ≡ 0
ignored-weight e = rw e refl

-- The state behind any number of calls.
record Bounded (n : ℕ) (t : Table) : Type 0 where
  in_all : n + left_over t ≤ 6
  no_pipe : t sigpipe ≡ ignored
  aborts : 1 ≤ n → t sigabrt ≡ by_default

panic-left :
    (n : ℕ) (s : Signal) (t : Table)
    → t s ≡ panics
    → t sigpipe ≡ ignored
    → n + left_over t ≤ 6
    → n + 1 + left_over (panic_signals s t) ≤ 6
unfolding panic_signals
panic-left n sigsegv t e i h = let w = panics-weight e in omega (arith, w, h)
panic-left n sigabrt t e i h = let w = panics-weight e in omega (arith, w, h)
panic-left n sigfpe t e i h = let w = panics-weight e in omega (arith, w, h)
panic-left n sigill t e i h = let w = panics-weight e in omega (arith, w, h)
panic-left n sigterm t e i h = let w = panics-weight e in omega (arith, w, h)
panic-left n sigint t e i h = let w = panics-weight e in omega (arith, w, h)
panic-left n sigpipe t e i h =
    let w = panics-weight e in let z = ignored-weight i in omega (arith, w, z, h)

panic-aborts : (s : Signal) (t : Table) → panic_signals s t sigabrt ≡ by_default
unfolding panic_signals
panic-aborts s t = refl

panic-pipe :
    (s : Signal) (t : Table)
    → t sigpipe ≡ ignored
    → t s ≡ panics
    → panic_signals s t sigpipe ≡ ignored
unfolding panic_signals
panic-pipe sigpipe t i e =
    let w = panics-weight e in let z = ignored-weight i in absurd (omega (arith, w, z))
panic-pipe sigsegv t i e = i
panic-pipe sigabrt t i e = i
panic-pipe sigfpe t i e = i
panic-pipe sigill t i e = i
panic-pipe sigterm t i e = i
panic-pipe sigint t i e = i

Reach-Bounded : {n : ℕ} {t : Table} → Reach n t → Bounded n t
unfolding main_signals register_signal_shutdown
Reach-Bounded (begin t) = record {
  in_all = omega arith;
  no_pipe = refl;
  aborts = λ h. absurd (omega (arith, h));
}
Reach-Bounded (registers r) =
    let b = Reach-Bounded r in
    let h = b.in_all in record { in_all = omega (arith, h); no_pipe = b.no_pipe; aborts = b.aborts }
Reach-Bounded (panic {n} {t} s r e) =
    let b = Reach-Bounded r in
    record {
      in_all = panic-left n s t e b.no_pipe b.in_all;
      no_pipe = panic-pipe s t b.no_pipe e;
      aborts = λ _. panic-aborts s t;
    }

-- Whatever signals come, also during do_panic, and whenever the process registers for its shutdown:
-- do_panic begins at most six times, SIGPIPE stays ignored, and from the first time on SIGABRT is left
-- to the system, so that the `abort` at its end is not caught.
pub Reach-panics :
    {n : ℕ} {t : Table}
    → Reach n t
    → (n ≤ 6) × (t sigpipe ≡ ignored) × (1 ≤ n → t sigabrt ≡ by_default)
Reach-panics r =
    let b = Reach-Bounded r in let h = b.in_all in (omega (arith, h), b.no_pipe, b.aborts)

-- Where a process has registered for its shutdown, SIGTERM and SIGINT shut it down, and the other
-- signals are as they were.
pub register-shuts_down :
    (t : Table)
    → let t' = register_signal_shutdown t in
      (t' sigterm ≡ shuts_down)
      × (t' sigint ≡ shuts_down)
      × ((s : Signal) → s ≢ sigterm → s ≢ sigint → t' s ≡ t s)
unfolding register_signal_shutdown
register-shuts_down t = (refl, refl, others)
  where
    others : (s : Signal) → s ≢ sigterm → s ≢ sigint → register_signal_shutdown t s ≡ t s
    others sigterm a b = absurd (a refl)
    others sigint a b = absurd (b refl)
    others sigsegv a b = refl
    others sigabrt a b = refl
    others sigfpe a b = refl
    others sigill a b = refl
    others sigpipe a b = refl
