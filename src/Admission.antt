-- ===== src/Admission.antt =====
-- Who may call the local server: crates/app-server/src/admission.rs, and the order in which `handle`
-- of crates/app-server/src/api.rs asks.
pub mod Shows
pub mod Admits
mod Tests
use vitna_code.Base.{
  ℕ, ◌+◌, ◌/◌, String, Bool, true, false, ◌&&◌, ◌||◌, not, Option, none, some, List, [], ◌∷◌, ◌++◌,
  map, leb, nat_eq, if◌then◌else◌,
}
use vitna_code.Bytes.{decimal}
use vitna_code.Paths.{Text, chars, same, member, trim_start, trim_end, strip_prefix}

-- An address: four bytes, or eight words of 16 bits.
pub data IpAddr : Type 0 where
  v4 : ℕ → ℕ → ℕ → ℕ → IpAddr
  v6 : ℕ → ℕ → ℕ → ℕ → ℕ → ℕ → ℕ → ℕ → IpAddr

abbrev all_zero : List ℕ → Bool
all_zero [] = true
all_zero (n ∷ more) = nat_eq n 0 && all_zero more

-- `ip.to_canonical().is_loopback()`
abbrev pub peer_is_local : IpAddr → Bool
peer_is_local (v4 a b c d) = nat_eq a 127
peer_is_local (v6 a b c d e f g h) =
    all_zero (a ∷ b ∷ c ∷ d ∷ e ∷ [])
    && ((nat_eq f 0xffff && nat_eq (g / 256) 127) || (nat_eq f 0 && (nat_eq g 0 && nat_eq h 1)))

abbrev pub trim : Text → Text
trim t = trim_end (trim_start t)

abbrev lower_char : ℕ → ℕ
lower_char c = if leb b'A' c && leb c b'Z' then c + 32 else c

abbrev pub to_ascii_lowercase : Text → Text
to_ascii_lowercase t = map lower_char t

abbrev pub eq_ignore_ascii_case : Text → Text → Bool
eq_ignore_ascii_case s t = same (to_ascii_lowercase s) (to_ascii_lowercase t)

abbrev pub ours : ℕ → List Text
ours port =
    (chars "localhost:" ++ decimal port)
    ∷ (chars "127.0.0.1:" ++ decimal port)
    ∷ (chars "[::1]:" ++ decimal port)
    ∷ []

abbrev pub our_host : Option Text → ℕ → Option Text
our_host none port = none
our_host (some given) port =
    let host = to_ascii_lowercase (trim given) in
    if member (ours port) host then some host else none

abbrev pub from_here : Option Text → Text → Bool
from_here none host = false
from_here (some origin) host = eq_ignore_ascii_case (trim origin) (chars "http://" ++ host)

-- A browser that sends no Sec-Fetch-Site is judged on Origin alone.
abbrev pub site_agrees : Option Text → Bool
site_agrees none = true
site_agrees (some site) = eq_ignore_ascii_case (trim site) (chars "same-origin")

abbrev pub same_origin : Option Text → Option Text → Text → Bool
same_origin origin fetch_site host = from_here origin host && site_agrees fetch_site

abbrev pub non_empty : Option Text → Option Text
non_empty none = none
non_empty (some token) = if same (trim token) [] then none else some (trim token)

abbrev pub bearer : Option Text → Option Text
bearer none = none
bearer (some authorization) = non_empty (strip_prefix (chars "Bearer ") (trim authorization))

pub data Method : Type 0 where
  get : Method
  head : Method
  post : Method
  other : Method

-- A request, each header where it has it as text.
pub record Request : Type 0 where
  pub peer : IpAddr
  pub method : Method
  pub path : Text
  pub host : Option Text
  pub authority : Option Text
  pub origin : Option Text
  pub fetch_site : Option Text
  pub authorization : Option Text

-- What answers a request.
pub data Answer : Type 0 where
  not_local : Answer
  wrong_host : Answer
  not_allowed : Answer
  page : Answer
  not_post : Answer
  wrong_origin : Answer
  start_session : Answer
  no_session : Answer
  route : Text → String → Text → Answer

abbrev pub is_post : Method → Bool
is_post get = false
is_post head = false
is_post post = true
is_post other = false

abbrev pub page_answer : Method → Answer
page_answer get = page
page_answer head = page
page_answer post = not_allowed
page_answer other = not_allowed

abbrev or_else : Option Text → Option Text → Option Text
or_else none rest = rest
or_else (some t) rest = some t

abbrev pub host_of : Request → Option Text
host_of r = or_else r.host r.authority

-- The session of a token, where there is one.
abbrev pub held : Text → Text → Option String → Answer
held token name none = no_session
held token name (some id) = route token id name

module _ (sessions : Text → Option String) where
  abbrev pub in_session : Text → Option Text → Answer
  in_session name none = no_session
  in_session name (some token) = held token name (sessions token)

  abbrev pub call : Request → Text → Text → Answer
  call r host name =
      if not (is_post r.method)
      then not_post
      else if not (same_origin r.origin r.fetch_site host)
      then wrong_origin
      else if same name (chars "session")
      then start_session
      else in_session name (bearer r.authorization)

  abbrev pub at_path : Request → Text → Option Text → Answer
  at_path r host none = page_answer r.method
  at_path r host (some name) = call r host name

  abbrev pub at_host : Request → Option Text → Answer
  at_host r none = wrong_host
  at_host r (some host) = at_path r host (strip_prefix (chars "/api/v1/") r.path)

  unfoldable pub handle : ℕ → Request → Answer
  handle port r =
      if not (peer_is_local r.peer) then not_local else at_host r (our_host (host_of r) port)
