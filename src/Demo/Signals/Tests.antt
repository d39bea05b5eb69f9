-- ===== src/Demo/Signals/Tests.antt =====
-- Runs of Demo/Signals.
use shm_ipc.Base.{◌≤◌, ◌≡◌, refl}
use shm_ipc.Demo.Signals.{
  sigsegv, sigabrt, sigfpe, sigpipe, by_default, ignored, panics, Table, main_signals,
  register_signal_shutdown, panic_signals, Reach, begin, registers, panic, Reach-panics,
}

abbrev at_first : Table
at_first s = by_default

abbrev registered : Table
registered = register_signal_shutdown (main_signals at_first)

-- A floating point error, and a fault in the handler.
abbrev twice : Table
twice = panic_signals sigsegv (panic_signals sigfpe registered)

first : registered sigfpe ≡ panics
unfolding register_signal_shutdown main_signals
first = refl

second : panic_signals sigfpe registered sigsegv ≡ panics
unfolding panic_signals register_signal_shutdown main_signals
second = refl

twice-Reach : Reach 2 twice
twice-Reach = panic sigsegv (panic sigfpe (registers (begin at_first)) first) second

Reach-panics_example : (2 ≤ 6) × (twice sigpipe ≡ ignored) × (1 ≤ 2 → twice sigabrt ≡ by_default)
Reach-panics_example = Reach-panics twice-Reach

-- An `abort` before the loop is caught.
caught : main_signals at_first sigabrt ≡ panics
unfolding main_signals
caught = refl
