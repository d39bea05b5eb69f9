-- ===== src/Poll/Uses.antt =====
-- Handlers of events in torrent/system/poll_kqueue.cc as programs: what they do to the poll is a sequence
-- of calls of its public functions, each of which may depend on what the calls before it have left.
use shm_ipc.Base.{ℕ, Bool, ◌≡◌, refl, ◌∙◌, Option, List, String, inl, inr, arith}
use shm_ipc.Base.Outcome.{Outcome, returns, throws, internal_error}
use shm_ipc.Poll.{
  Filter, Change, Poll, then_do, open_event, insert_filter, remove_filter, insert_error,
  remove_error, close, remove_and_close,
}
use shm_ipc.Poll.Process.{Kind, Handlers}
use shm_ipc.Poll.Links.{IsLinked, IsSound, unchanged-IsSound, then_do-IsSound}
use shm_ipc.Poll.Sound.{
  open_event-IsSound, insert_filter-IsSound, remove_filter-IsSound, insert_error-IsSound,
  remove_error-IsSound, close-IsSound, remove_and_close-IsSound,
}
use shm_ipc.Router.Fds.{set_fd}

-- The public functions of Poll on an event, and Event::set_file_descriptor.
pub data Operation : Type 0 where
  opens inserts_error removes_error closes removes_and_closes : Operation
  inserts removes : Filter → Operation
  sets_fd : Option ℕ → Operation

-- A handler returns, throws, or calls an operation and goes on by what the poll is then.
pub data Use : Type 0 where
  finished : Use
  fails : String → Use
  uses : Operation → ℕ → (Poll → Use) → Use

abbrev pub operate : (List Change → Bool) → Operation → ℕ → Poll → Poll × Outcome (Unit {0})
operate kevent opens e p = open_event p e
operate kevent inserts_error e p = insert_error p e
operate kevent removes_error e p = remove_error p e
operate kevent closes e p = close kevent p e
operate kevent removes_and_closes e p = remove_and_close kevent p e
operate kevent (inserts f) e p = insert_filter kevent f p e
operate kevent (removes f) e p = remove_filter kevent f p e
operate kevent (sets_fd fd) e p = (set_fd p e fd, returns tt)

-- An exception of an operation is passed on.
abbrev pub run_use : (List Change → Bool) → Use → Poll → Poll × Outcome (Unit {0})
run_use kevent finished p = (p, returns tt)
run_use kevent (fails msg) p = (p, throws (internal_error msg))
run_use kevent (uses op e k) p = then_do (operate kevent op e p) (λ _ p1. run_use kevent (k p1) p1)

-- The handlers that such programs are.
abbrev pub using : (List Change → Bool) → (Kind → ℕ → Poll → Use) → Handlers
using kevent program k e p = run_use kevent (program k e p) p

pub poll_event-set :
    (p : Poll) (e : ℕ) (fd : Option ℕ) (x : ℕ)
    → ((set_fd p e fd).events x).poll_event ≡ (p.events x).poll_event
poll_event-set p e fd x = ground arith

pub set_fd-IsSound :
    (p : Poll) (e : ℕ) (fd : Option ℕ) → IsLinked p → IsSound {0} p (set_fd p e fd, returns tt)
set_fd-IsSound p e fd l = record {
  linked = record {
    named = l.named;
    back = λ ref x h. poll_event-set p e fd x ∙ l.back ref x h;
    fresh = l.fresh;
  };
  defined = refl;
  same_phase = refl;
  held = λ _ ref h. elim h [
    | inl (x, has) ↦ inl (x, poll_event-set p e fd x ∙ has)
    | inr closed ↦ inr closed
  ];
}

operate-IsSound :
    (kevent : List Change → Bool) (op : Operation) (e : ℕ) (p : Poll)
    → IsLinked p
    → IsSound p (operate kevent op e p)
operate-IsSound kevent opens e p l = open_event-IsSound p e l
operate-IsSound kevent inserts_error e p l = insert_error-IsSound p e l
operate-IsSound kevent removes_error e p l = remove_error-IsSound p e l
operate-IsSound kevent closes e p l = close-IsSound kevent p e l
operate-IsSound kevent removes_and_closes e p l = remove_and_close-IsSound kevent p e l
operate-IsSound kevent (inserts f) e p l = insert_filter-IsSound kevent f p e l
operate-IsSound kevent (removes f) e p l = remove_filter-IsSound kevent f p e l
operate-IsSound kevent (sets_fd fd) e p l = set_fd-IsSound p e fd l

pub run_use-IsSound :
    (kevent : List Change → Bool) (u : Use) (p : Poll) → IsLinked p → IsSound p (run_use kevent u p)
run_use-IsSound kevent finished p l = unchanged-IsSound p (returns tt) l refl
run_use-IsSound kevent (fails msg) p l = unchanged-IsSound p (throws (internal_error msg)) l refl
run_use-IsSound kevent (uses op e k) p l =
    let s = operate-IsSound kevent op e p l in
    then_do-IsSound (operate kevent op e p) (λ _ p1. run_use kevent (k p1) p1) s
      (λ _ _. run_use-IsSound kevent (k (operate kevent op e p).0) _ s.linked)
