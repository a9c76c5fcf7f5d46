-- ===== src/Admission/Shows.antt =====
-- What a request of crates/app-server/src/admission.rs shows, test by test.
use vitna_code.Base.{
  ℕ, ◌/◌, ◌++◌, String, true, false, ◌≡◌, ◌≢◌, ◌⊎◌, ◌↔◌, refl, sym, ap, subst, ◌∙◌, Option, none,
  some, [], ◌∷◌, arith, Bool-cases, Option-cases, inl, inr, nat_eq,
}
use vitna_code.Bytes.{decimal}
use vitna_code.Paths.{Text, chars, same, member, strip_prefix}
use vitna_code.Paths.Safe.{same_refl, same_eq, differ}
use vitna_code.Admission.{
  IpAddr, v4, v6, peer_is_local, trim, to_ascii_lowercase, ours, our_host, from_here, site_agrees,
  bearer, non_empty, Request, is_post, host_of, Method, get, head, post, other,
}

-- 127.0.0.0/8, ::1, or 127.0.0.0/8 in ::ffff:0:0/96.
abbrev pub IsLocal : IpAddr → Type 0
IsLocal (v4 a b c d) = a ≡ 127
IsLocal (v6 a b c d e f g h) =
    (a ≡ 0)
    × (b ≡ 0)
    × (c ≡ 0)
    × (d ≡ 0)
    × (e ≡ 0)
    × (((f ≡ 0xffff) × (g / 256 ≡ 127)) ⊎ ((f ≡ 0) × (g ≡ 0) × (h ≡ 1)))

-- One of the three names of this server.
abbrev pub IsOurs : ℕ → Text → Type 0
IsOurs port host =
    (host ≡ chars "localhost:" ++ decimal port)
    ⊎ ((host ≡ chars "127.0.0.1:" ++ decimal port) ⊎ (host ≡ chars "[::1]:" ++ decimal port))

-- The host that a header names, without regard to case and to white space around it.
abbrev pub Names : Option Text → Text → Type 0
Names none host = ⊥
Names (some given) host = to_ascii_lowercase (trim given) ≡ host

abbrev pub IsFrom : Option Text → Text → Type 0
IsFrom none host = ⊥
IsFrom (some origin) host =
    to_ascii_lowercase (trim origin) ≡ to_ascii_lowercase (chars "http://" ++ host)

-- The browser does not say where the request comes from, or says from this origin.
abbrev pub SiteAgrees : Option Text → Type 0
SiteAgrees none = Unit {0}
SiteAgrees (some site) = to_ascii_lowercase (trim site) ≡ to_ascii_lowercase (chars "same-origin")

abbrev pub Bears : Option Text → Text → Type 0
Bears none token = ⊥
Bears (some authorization) token =
    (rest : Text) × ((trim authorization ≡ chars "Bearer " ++ rest)
      × (trim rest ≡ token)
      × (token ≢ []))

-- What a caller of a handler in a session has shown.
abbrev pub IsAdmitted : (Text → Option String) → ℕ → Request → Text → String → Text → Type 0
IsAdmitted sessions port r token id name =
    (host : Text) × (IsLocal r.peer
      × Names (host_of r) host
      × IsOurs port host
      × (r.path ≡ chars "/api/v1/" ++ name)
      × (r.method ≡ post)
      × IsFrom r.origin host
      × SiteAgrees r.fetch_site
      × (name ≢ chars "session")
      × Bears r.authorization token
      × (sessions token ≡ some id))

same_iff : (s t : Text) → (same s t ≡ true) ↔ (s ≡ t)
same_iff s t = (same_eq s t, λ e. subst (λ x. same s x ≡ true) e (same_refl s))

pub peer_is_local_iff : (peer : IpAddr) → (peer_is_local peer ≡ true) ↔ IsLocal peer
peer_is_local_iff (v4 a b c d) = ground arith
peer_is_local_iff (v6 a b c d e f g h) = ground arith

pub strip_prefix_iff :
    (prefix t rest : Text) → (strip_prefix prefix t ≡ some rest) ↔ (t ≡ prefix ++ rest)
strip_prefix_iff [] t rest = (λ h. cc, λ h. cc)
strip_prefix_iff (c ∷ prefix) [] rest = (λ h. absurd (cc), λ h. absurd (cc))
strip_prefix_iff (c ∷ prefix) (d ∷ t) rest = elim (Bool-cases (nat_eq c d)) [
  | inl y ↦ rw y (
    goes (ground (arith, y)) (strip_prefix_iff prefix t rest).0,
    comes (strip_prefix_iff prefix t rest).1,
  )
  | inr y ↦ rw y (λ h. absurd (cc), λ h. absurd (apart y h))
]
  where
    goes :
        c ≡ d
        → (strip_prefix prefix t ≡ some rest → t ≡ prefix ++ rest)
        → strip_prefix prefix t ≡ some rest
        → d ∷ t ≡ c ∷ (prefix ++ rest)
    goes first to h = let more = to h in cc

    comes :
        (t ≡ prefix ++ rest → strip_prefix prefix t ≡ some rest)
        → d ∷ t ≡ c ∷ (prefix ++ rest)
        → strip_prefix prefix t ≡ some rest
    comes from h = let more : t ≡ prefix ++ rest = cc in from more

    apart : nat_eq c d ≡ false → d ∷ t ≡ c ∷ (prefix ++ rest) → ⊥
    apart y h = let first : d ≡ c = cc in ground (arith, y)

IsOurs-iff : (port : ℕ) (host : Text) → (member (ours port) host ≡ true) ↔ IsOurs port host
IsOurs-iff port host =
    let (a, a') = same_iff (chars "localhost:" ++ decimal port) host in
    let (b, b') = same_iff (chars "127.0.0.1:" ++ decimal port) host in
    let (c, c') = same_iff (chars "[::1]:" ++ decimal port) host in
    elim (Bool-cases (same (chars "localhost:" ++ decimal port) host)) [
      | inl x ↦ rw x (λ h. inl (sym (a x)), λ h. refl)
      | inr x ↦ elim (Bool-cases (same (chars "127.0.0.1:" ++ decimal port) host)) [
        | inl y ↦ rw x (rw y (λ h. inr (inl (sym (b y))), λ h. refl))
        | inr y ↦ elim (Bool-cases (same (chars "[::1]:" ++ decimal port) host)) [
          | inl z ↦ rw x (rw y (rw z (λ h. inr (inr (sym (c z))), λ h. refl)))
          | inr z ↦ rw x (rw y (rw z (λ h. absurd (cc), λ h. absurd (none_of x y z h))))
        ]
      ]
    ]
  where
    not_same : (s t : Text) → same s t ≡ false → t ≡ s → ⊥
    not_same s t x e = differ s t x (sym e)

    none_of :
        same (chars "localhost:" ++ decimal port) host ≡ false
        → same (chars "127.0.0.1:" ++ decimal port) host ≡ false
        → same (chars "[::1]:" ++ decimal port) host ≡ false
        → IsOurs port host
        → ⊥
    none_of x y z (inl e) = not_same _ host x e
    none_of x y z (inr (inl e)) = not_same _ host y e
    none_of x y z (inr (inr e)) = not_same _ host z e

pub our_host_iff :
    (given : Option Text) (port : ℕ) (host : Text)
    → (our_host given port ≡ some host) ↔ (Names given host × IsOurs port host)
our_host_iff none port host = (λ h. absurd (cc), λ h. absurd h.0)
our_host_iff (some given) port host =
    let (to, from) = IsOurs-iff port (to_ascii_lowercase (trim given)) in
    elim (Bool-cases (member (ours port) (to_ascii_lowercase (trim given)))) [
      | inl y ↦ rw y (λ h. (named h, subst (IsOurs port) (named h) (to y)), λ h. ap some h.0)
      | inr y ↦
          rw y
            (λ h. absurd (cc), λ h. absurd (let z = from (subst (IsOurs port) (sym h.0) h.1) in cc))
    ]
  where
    named :
        ◌≡◌ {A = Option Text} (some (to_ascii_lowercase (trim given))) (some host)
        → to_ascii_lowercase (trim given) ≡ host
    named h = cc

pub from_here_iff :
    (origin : Option Text) (host : Text) → (from_here origin host ≡ true) ↔ IsFrom origin host
from_here_iff none host = (λ h. absurd (cc), λ h. absurd h)
from_here_iff (some origin) host = same_iff _ _

pub site_agrees_iff : (site : Option Text) → (site_agrees site ≡ true) ↔ SiteAgrees site
site_agrees_iff none = (λ h. tt, λ h. refl)
site_agrees_iff (some site) = same_iff _ _

non_empty_iff :
    (token : Text) (rest : Text)
    → (non_empty (some rest) ≡ some token) ↔ ((trim rest ≡ token) × (token ≢ []))
non_empty_iff token rest = elim (Bool-cases (same (trim rest) [])) [
  | inl y ↦ rw y (λ h. absurd (cc), λ h. absurd (h.1 (sym h.0 ∙ same_eq (trim rest) [] y)))
  | inr y ↦ rw y (λ h. (held_is h, λ e. differ (trim rest) [] y (held_is h ∙ e)), λ h. ap some h.0)
]
  where
    held_is : ◌≡◌ {A = Option Text} (some (trim rest)) (some token) → trim rest ≡ token
    held_is h = cc

pub bearer_iff :
    (authorization : Option Text) (token : Text)
    → (bearer authorization ≡ some token) ↔ Bears authorization token
bearer_iff none token = (λ h. absurd (cc), λ h. absurd h)
bearer_iff (some authorization) token = (to, from)
  where
    to : bearer (some authorization) ≡ some token → Bears (some authorization) token
    to h = elim (Option-cases (strip_prefix (chars "Bearer ") (trim authorization))) [
      | inl e ↦ absurd (let z = rw e at h in cc)
      | inr (rest, e) ↦
          let borne = (non_empty_iff token rest).0 (rw e at h) in
          (
            rest,
            ((strip_prefix_iff (chars "Bearer ") (trim authorization) rest).0 e, borne.0, borne.1),
          )
    ]

    from : Bears (some authorization) token → bearer (some authorization) ≡ some token
    from (rest, (begins, trimmed, some_token)) =
        rw ((strip_prefix_iff (chars "Bearer ") (trim authorization) rest).1 begins)
          ((non_empty_iff token rest).1 (trimmed, some_token))

pub is_post_iff : (method : Method) → (is_post method ≡ true) ↔ (method ≡ post)
is_post_iff get = (λ h. absurd (cc), λ h. absurd (cc))
is_post_iff head = (λ h. absurd (cc), λ h. absurd (cc))
is_post_iff post = (λ h. refl, λ h. refl)
is_post_iff other = (λ h. absurd (cc), λ h. absurd (cc))
