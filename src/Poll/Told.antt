-- ===== src/Poll/Told.antt =====
-- What the kernel has been told about a descriptor, in torrent/system/poll_kqueue.cc, and what an operation on one event leaves alone of the others.
use shm_ipc.Base.{
  ℕ, ◌≡◌, ◌≢◌, ==_false, ap, refl, sym, ◌∙◌, Bool, true, false, ◌&&◌, ◌==◌, if◌then◌else◌, some,
  List, [], ◌∷◌, ◌++◌,
}
use shm_ipc.Poll.{Event, PollEvent, Filter, evfilt_read, evfilt_write, Change, Poll, update, has}

abbrev pub same_filter : Filter → Filter → Bool
same_filter evfilt_read evfilt_read = true
same_filter evfilt_read evfilt_write = false
same_filter evfilt_write evfilt_read = false
same_filter evfilt_write evfilt_write = true

-- Whether the last of some changes for a descriptor and a filter adds it; `before` if there is none.
unfoldable pub listens : Bool → List Change → ℕ → Filter → Bool
listens before [] n f = before
listens before (c ∷ cs) n f =
    listens (if (c.ident == n) && same_filter c.filter f then c.add else before) cs n f

pub listens-append :
    (xs ys : List Change) (b : Bool) (n : ℕ) (f : Filter)
    → listens b (xs ++ ys) n f ≡ listens (listens b xs n f) ys n f
unfolding listens
listens-append [] ys b n f = refl
listens-append (x ∷ xs) ys b n f = listens-append xs ys _ n f

abbrev pub told : Poll → List Change
told p = p.applied ++ p.changes

-- An event that is open, and of which the kernel has been told, or will be by the next flush, what
-- its mask says.
pub record Open (p : Poll) (e n ref : ℕ) : Type 0 where
  pub has_fd : (p.events e).fd ≡ some n
  pub has_poll_event : (p.events e).poll_event ≡ some ref
  pub in_table : p.table n ≡ some ref
  pub knows : (p.poll_events ref).event ≡ some e
  pub listening : (f : Filter) → listens false (told p) n f ≡ has f (p.poll_events ref).mask

pub update-other {ℓ} :
    {A : Type ℓ} (f : ℕ → A) (k : ℕ) (v : A) (j : ℕ) → j ≢ k → update f k v j ≡ f j
update-other f k v j ne = rw (==_false j k ne) refl

-- What an operation on the event `e` with the descriptor `n` and the PollEvent `ref` leaves as it was.
pub record Frame (e n ref : ℕ) (p p' : Poll) : Type 0 where
  pub other_events : (x : ℕ) → x ≢ e → p'.events x ≡ p.events x
  pub other_entries : (m : ℕ) → m ≢ n → p'.table m ≡ p.table m
  pub other_poll_events : (r : ℕ) → r ≢ ref → p'.poll_events r ≡ p.poll_events r
  pub other_told :
      (m : ℕ) (f : Filter) → m ≢ n → listens false (told p') m f ≡ listens false (told p) m f

pub Frame-same : {e n ref : ℕ} (p : Poll) → Frame e n ref p p
Frame-same p = record {
  other_events = λ x ne. refl;
  other_entries = λ m ne. refl;
  other_poll_events = λ r ne. refl;
  other_told = λ m f ne. refl;
}

pub Frame-trans :
    {e n ref : ℕ} {p q r : Poll} → Frame e n ref p q → Frame e n ref q r → Frame e n ref p r
Frame-trans a b = record {
  other_events = λ x ne. b.other_events x ne ∙ a.other_events x ne;
  other_entries = λ m ne. b.other_entries m ne ∙ a.other_entries m ne;
  other_poll_events = λ r ne. b.other_poll_events r ne ∙ a.other_poll_events r ne;
  other_told = λ m f ne. b.other_told m f ne ∙ a.other_told m f ne;
}

-- Another event stays open.
pub Frame-Open :
    {e n ref x m r : ℕ} {p p' : Poll}
    → Frame e n ref p p'
    → x ≢ e
    → m ≢ n
    → r ≢ ref
    → Open p x m r
    → Open p' x m r
Frame-Open {x = x} {m = m} {r = r} s xe mn rr o = record {
  has_fd = ap (λ (v : Event). v.fd) (s.other_events x xe) ∙ o.has_fd;
  has_poll_event = ap (λ (v : Event). v.poll_event) (s.other_events x xe) ∙ o.has_poll_event;
  in_table = s.other_entries m mn ∙ o.in_table;
  knows = ap (λ (v : PollEvent). v.event) (s.other_poll_events r rr) ∙ o.knows;
  listening = λ f.
      s.other_told m f mn
      ∙ o.listening f
      ∙ ap (λ (v : PollEvent). has f v.mask) (sym (s.other_poll_events r rr));
}

-- A change for another descriptor.
pub listens-other :
    (b : Bool) (c : Change) (m : ℕ) (f : Filter) → c.ident ≢ m → listens b (c ∷ []) m f ≡ b
unfolding listens
listens-other b c m f ne = rw (==_false c.ident m ne) refl
