-- ===== src/Net/Text.antt =====
-- The text of addresses in torrent/net/socket_address.cc. `inet_ntop` and `std::to_string` are
-- parameters: what they make of an IPv4 address, of the bytes of an IPv6 address, and of a port.
use shm_ipc.Base.{ℕ, ◌≡◌, refl, ◌==◌, if◌then◌else◌, Bool-cases, inl, inr, Option, none, some, List}
use Prim.Native.String.{String, ◌++◌}
use shm_ipc.Base.Outcome.{Outcome, returns, throws, internal_error}
use shm_ipc.Net.ByteOrder.{ntohs}
use shm_ipc.Net.Address.{SockaddrIn, SockaddrIn6, Sockaddr, unspec, inet, inet6, unix, other}

pub record Texts : Type 0 where
  pub inet_ntop : ℕ → Option String
  pub inet_ntop6 : List ℕ → Option String
  pub to_string : ℕ → String

abbrev pub or_failed : String → Option String → Outcome String
or_failed msg none = throws (internal_error msg)
or_failed msg (some text) = returns text

unfoldable pub sin_addr_str : Texts → SockaddrIn → Outcome String
sin_addr_str t sa = or_failed "torrent::sin_addr_str() inet_ntop failed" (t.inet_ntop sa.s_addr)

unfoldable pub sin6_addr_str : Texts → SockaddrIn6 → Outcome String
sin6_addr_str t sa =
    or_failed "torrent::sin6_addr_str() inet_ntop failed" (t.inet_ntop6 sa.sin6_addr)

unfoldable pub sa_addr_str : Texts → Option Sockaddr → Outcome String
sa_addr_str t none = returns ""
sa_addr_str t (some (inet sa)) = sin_addr_str t sa
sa_addr_str t (some (inet6 sa)) = sin6_addr_str t sa
sa_addr_str t (some (unspec _)) = returns ""
sa_addr_str t (some sa) =
    throws (internal_error "torrent::sa_addr_str() sockaddr is not a valid family")

-- The port stands behind the address, if there is one; `before` and `behind` are the brackets.
abbrev pub with_port : Texts → String → String → ℕ → Outcome String → Outcome String
with_port t before behind port (throws e) = throws e
with_port t before behind port (returns text) =
    let result = before ++ (text ++ behind) in
    if port == 0 then returns result else returns (result ++ (":" ++ t.to_string (ntohs port)))

unfoldable pub sin_pretty_str : Texts → SockaddrIn → Outcome String
sin_pretty_str t sa = with_port t "" "" sa.sin_port (sin_addr_str t sa)

unfoldable pub sin_pretty_or_empty : Texts → Option SockaddrIn → Outcome String
sin_pretty_or_empty t none = returns ""
sin_pretty_or_empty t (some sa) = with_port t "" "" sa.sin_port (sin_addr_str t sa)

unfoldable pub sin6_pretty_str : Texts → SockaddrIn6 → Outcome String
sin6_pretty_str t sa = with_port t "[" "]" sa.sin6_port (sin6_addr_str t sa)

unfoldable pub sin6_pretty_or_empty : Texts → Option SockaddrIn6 → Outcome String
sin6_pretty_or_empty t none = returns ""
sin6_pretty_or_empty t (some sa) = with_port t "[" "]" sa.sin6_port (sin6_addr_str t sa)

unfoldable pub sa_pretty_str : Texts → Option Sockaddr → Outcome String
sa_pretty_str t none = returns "null"
sa_pretty_str t (some (inet sa)) = sin_pretty_str t sa
sa_pretty_str t (some (inet6 sa)) = sin6_pretty_str t sa
sa_pretty_str t (some (unspec _)) = returns "unspec"
sa_pretty_str t (some sa) = returns "invalid"

with_port-returns :
    (t : Texts) (before behind : String) (port : ℕ) (text : String)
    → (result : String) × (with_port t before behind port (returns text) ≡ returns result)
with_port-returns t before behind port text = elim (Bool-cases (port == 0)) [
  | inl no_port ↦ (before ++ (text ++ behind), rw no_port refl)
  | inr has_port ↦
      ((before ++ (text ++ behind)) ++ (":" ++ t.to_string (ntohs port)), rw has_port refl)
]

-- Where inet_ntop has a text for every address, sa_pretty_str returns for every pointer, also for the
-- families for which sa_addr_str throws.
pub sa_pretty_str-returns :
    (t : Texts) (sa : Option Sockaddr)
    → ((a : ℕ) → (text : String) × (t.inet_ntop a ≡ some text))
    → ((a : List ℕ) → (text : String) × (t.inet_ntop6 a ≡ some text))
    → (result : String) × (sa_pretty_str t sa ≡ returns result)
unfolding sa_pretty_str sin_pretty_str sin6_pretty_str sin_addr_str sin6_addr_str
sa_pretty_str-returns t none h4 h6 = ("null", refl)
sa_pretty_str-returns t (some (unspec _)) h4 h6 = ("unspec", refl)
sa_pretty_str-returns t (some (unix _)) h4 h6 = ("invalid", refl)
sa_pretty_str-returns t (some (other _)) h4 h6 = ("invalid", refl)
sa_pretty_str-returns t (some (inet sa)) h4 h6 =
    let (text, e) = h4 sa.s_addr in rw e (with_port-returns t "" "" sa.sin_port text)
sa_pretty_str-returns t (some (inet6 sa)) h4 h6 =
    let (text, e) = h6 sa.sin6_addr in rw e (with_port-returns t "[" "]" sa.sin6_port text)
