-- ===== src/Demo/Emptied.antt =====
-- The table of the poll where `parent_process` and `child_process` have ended: what the destructor of
-- torrent/system/poll_kqueue.cc asserts.
mod Tests
use shm_ipc.Base.{
  ℕ, ◌≡◌, ◌≢◌, inl, inr, refl, sym, ◌∙◌, ap, subst, append-nil, Bool, true, false, List, [], ◌∷◌,
}
use shm_ipc.Base.Outcome.{Outcome, returns}
use shm_ipc.Poll.{Change, Poll, IsEmptyTable, destructor}
use shm_ipc.Poll.Told.{Open, listens, told}
use shm_ipc.Poll.Keeping.{IsSteady, taken, AllKeep, process-keeps, do_poll-keeps}
use shm_ipc.Router.Fds.{Fds, open_fds, close_fds}
use shm_ipc.Router.Ours.{At, IsOurs, close_fds-IsEmptyTable}
use shm_ipc.Router.Opening.{IsReady, open_fds-IsOurs}
use shm_ipc.Demo.Loop.{Process, Env, parent_process, child_process}
use shm_ipc.Demo.Turning.{Invariant, KeepsPoll, AllKeepPoll}
use shm_ipc.Demo.Ending.{AtExit, Opened, process-AtExit}

At-phase :
    (e : ℕ) (p : Poll) (now : Bool) (closed : List ℕ)
    → At p e
    → At (record p { processing = now; closed_events = closed }) e
At-phase e p now closed (inl h) = inl h
At-phase e p now closed (inr (n, ref, o)) = inr (
  n,
  ref,
  record {
    has_fd = o.has_fd;
    has_poll_event = o.has_poll_event;
    in_table = o.in_table;
    knows = o.knows;
    listening = o.listening;
  },
)

At-taken : (e : ℕ) (p : Poll) → At p e → At (taken p) e
At-taken e p (inl h) = inl h
At-taken e p (inr (n, ref, o)) = inr (
  n,
  ref,
  record {
    has_fd = o.has_fd;
    has_poll_event = o.has_poll_event;
    in_table = o.in_table;
    knows = o.knows;
    listening = λ f. ap (λ cs. listens false cs n f) (append-nil (told p)) ∙ o.listening f;
  },
)

IsOurs-IsSteady : (c w : ℕ) → IsSteady (IsOurs c w)
IsOurs-IsSteady c w = record {
  phase = λ p now closed o. record {
    first = At-phase c p now closed o.first;
    second = At-phase w p now closed o.second;
    only = o.only;
  };
  handed =
      λ p o. record { first = At-taken c p o.first; second = At-taken w p o.second; only = o.only };
}

-- The router has these two descriptors, and the poll is theirs.
pub record Ours (c w : ℕ) (fds : Fds) (p : Poll) : Type 0 where
  pub control : fds.control_fd ≡ c
  pub wakeup : fds.wakeup_fd ≡ w
  pub ours : IsOurs c w p

-- The handlers of each turn keep the poll theirs.
abbrev pub AllKeepOurs : ℕ → ℕ → List Env → Type 0
AllKeepOurs c w [] = Unit {0}
AllKeepOurs c w (env ∷ envs) = AllKeep (IsOurs c w) env.handlers × AllKeepOurs c w envs

Ours-KeepsPoll :
    (c w : ℕ) (env : Env) → AllKeep (IsOurs c w) env.handlers → KeepsPoll (Ours c w) env
Ours-KeepsPoll c w env keeps = record {
  polled = λ fds p t o. record {
    control = o.control;
    wakeup = o.wakeup;
    ours =
        do_poll-keeps (IsOurs c w) (IsOurs-IsSteady c w) env.handlers keeps env.kevent env.polling p
          t o.ours;
  };
  again = λ fds p o. record {
    control = o.control;
    wakeup = o.wakeup;
    ours = process-keeps (IsOurs c w) (IsOurs-IsSteady c w) env.handlers keeps p [] o.ours;
  };
}

Ours-AllKeepPoll : (c w : ℕ) (envs : List Env) → AllKeepOurs c w envs → AllKeepPoll (Ours c w) envs
Ours-AllKeepPoll c w [] k = tt
Ours-AllKeepPoll c w (env ∷ envs) k = (Ours-KeepsPoll c w env k.0, Ours-AllKeepPoll c w envs k.1)

-- The poll can be destroyed.
abbrev pub Destructs : Poll → Type 0
Destructs p = (d : Dec (IsEmptyTable p)) → destructor p d ≡ returns tt

empty-Destructs : (p : Poll) → IsEmptyTable p → Destructs p
unfolding destructor
empty-Destructs p empty (yes e) = refl
empty-Destructs p empty (no more) = absurd (more empty)

-- With a poll whose table is empty and two descriptors, where the kernel takes all changes and the
-- descriptors can be closed, and with handlers that leave the table to the two descriptors: as long
-- as parent_process or child_process is in its loop, the entries of the table are those of its two
-- descriptors, as far as they are open; and where the function ends, also by an exception, the
-- assertion of the destructor of the poll holds.
pub process-Destructs :
    (kevent : List Change → Bool)
    → ((cs : List Change) → kevent cs ≡ true)
    → (envs : List Env) (p : Process) → IsReady p.poll p.fds
    → AllKeepOurs p.fds.control_fd p.fds.wakeup_fd envs
    → (interrupt : Outcome (Unit {0}))
    → let I = Ours p.fds.control_fd p.fds.wakeup_fd in
      AtExit I Destructs (parent_process kevent (returns tt) interrupt envs p)
      × AtExit I Destructs (child_process kevent (returns tt) envs p)
process-Destructs kevent ok envs p ready keep =
    let c = p.fds.control_fd in
    let w = p.fds.wakeup_fd in
    let (q, same, o) = open_fds-IsOurs kevent ok p.poll p.fds ready in
    process-AtExit (Ours c w) Destructs kevent (returns tt)
      (λ fds x i.
        let (x', closed, empty) =
          close_fds-IsEmptyTable kevent ok x fds (rw (i.control, i.wakeup) ready.other_event)
            (rw (i.control, i.wakeup) i.ours) in
        rw closed (empty-Destructs x' empty))
      envs p (Ours-AllKeepPoll c w envs keep) (empty-Destructs p.poll ready.empty)
      (subst (Opened (Ours c w) Destructs p.fds) (sym same)
        (record { control = refl; wakeup = refl; ours = o }))
