-- ===== src/Admission/Admits.antt =====
-- Which requests reach a handler of crates/app-server/src/api.rs.
use vitna_code.Base.{
  ℕ, String, Bool, true, false, ◌≡◌, ◌≢◌, ◌↔◌, refl, sym, ap, subst, ◌∙◌, Option, none, some, arith,
  Bool-cases, Option-cases, inl, inr, ◌&&◌,
}
use vitna_code.Paths.{Text, chars, same, strip_prefix}
use vitna_code.Paths.Safe.{same_eq, differ}
use vitna_code.Admission.{
  peer_is_local, our_host, same_origin, from_here, site_agrees, bearer, Request, route, is_post,
  host_of, in_session, call, handle, page_answer, Method, get, head, post, other,
}
use vitna_code.Admission.Shows.{
  IsAdmitted, peer_is_local_iff, strip_prefix_iff, our_host_iff, from_here_iff, site_agrees_iff,
  bearer_iff, is_post_iff,
}

page_answer_no_route :
    (method : Method) (token : Text) (id : String) (name : Text)
    → page_answer method ≢ route token id name
page_answer_no_route get token id name h = absurd (cc)
page_answer_no_route head token id name h = absurd (cc)
page_answer_no_route post token id name h = absurd (cc)
page_answer_no_route other token id name h = absurd (cc)

in_session-route :
    (sessions : Text → Option String) (asked : Text) (bears : Option Text) (token : Text)
    (id : String) (name : Text)
    → in_session sessions asked bears ≡ route token id name
    → (bears ≡ some token) × (sessions token ≡ some id) × (asked ≡ name)
in_session-route sessions asked none token id name h = absurd (cc)
in_session-route sessions asked (some given) token id name h =
    elim (Option-cases (sessions given)) [
      | inl e ↦ absurd (let z = rw e at h in cc)
      | inr (found, e) ↦
          let z = rw e at h in
          let same_token : given ≡ token = cc in
          let same_id : found ≡ id = cc in
          (ap some same_token, sym (ap sessions same_token) ∙ (e ∙ ap some same_id), cc)
    ]

-- The gates that were passed.
abbrev Passed : (Text → Option String) → ℕ → Request → Text → String → Text → Type 0
Passed sessions port r token id name =
    (host : Text) × ((peer_is_local r.peer ≡ true)
      × (our_host (host_of r) port ≡ some host)
      × (strip_prefix (chars "/api/v1/") r.path ≡ some name)
      × (is_post r.method ≡ true)
      × (from_here r.origin host ≡ true)
      × (site_agrees r.fetch_site ≡ true)
      × (same name (chars "session") ≡ false)
      × (bearer r.authorization ≡ some token)
      × (sessions token ≡ some id))

call-route :
    (sessions : Text → Option String) (r : Request) (host asked token : Text) (id : String)
    (name : Text)
    → call sessions r host asked ≡ route token id name
    → (is_post r.method ≡ true)
      × (from_here r.origin host ≡ true)
      × (site_agrees r.fetch_site ≡ true)
      × (same asked (chars "session") ≡ false)
      × (bearer r.authorization ≡ some token)
      × (sessions token ≡ some id)
      × (asked ≡ name)
call-route sessions r host asked token id name h = elim (Bool-cases (is_post r.method)) [
  | inr e ↦ absurd (let z = rw e at h in cc)
  | inl e ↦ elim (Bool-cases (same_origin r.origin r.fetch_site host)) [
    | inr f ↦ absurd (let z = rw f at (rw e at h) in cc)
    | inl f ↦ elim (Bool-cases (same asked (chars "session"))) [
      | inl g ↦ absurd (let z = rw g at (rw f at (rw e at h)) in cc)
      | inr g ↦
          let (bears, holds, named) =
            in_session-route sessions asked (bearer r.authorization) token id name
              (rw g at (rw f at (rw e at h))) in
          let (a, b) = both _ _ f in (e, a, b, g, bears, holds, named)
    ]
  ]
]
  where
    both : (a b : Bool) → (a && b) ≡ true → (a ≡ true) × (b ≡ true)
    both a b h = ground arith

handle-Passed :
    (sessions : Text → Option String) (port : ℕ) (r : Request) (token : Text) (id : String)
    (name : Text)
    → handle sessions port r ≡ route token id name
    → Passed sessions port r token id name
unfolding handle
handle-Passed sessions port r token id name h = elim (Bool-cases (peer_is_local r.peer)) [
  | inr e ↦ absurd (let z = rw e at h in cc)
  | inl e ↦ elim (Option-cases (our_host (host_of r) port)) [
    | inl f ↦ absurd (let z = rw f at (rw e at h) in cc)
    | inr (host, f) ↦ elim (Option-cases (strip_prefix (chars "/api/v1/") r.path)) [
      | inl g ↦ absurd (page_answer_no_route r.method token id name (rw g at (rw f at (rw e at h))))
      | inr (asked, g) ↦
          let (posted, near, site, no_start, bears, holds, named) =
            call-route sessions r host asked token id name (rw g at (rw f at (rw e at h))) in
          (
            host,
            (
              e,
              f,
              g ∙ ap some named,
              posted,
              near,
              site,
              subst (λ n. same n (chars "session") ≡ false) named no_start,
              bears,
              holds,
            ),
          )
    ]
  ]
]

Passed-handle :
    (sessions : Text → Option String) (port : ℕ) (r : Request) (token : Text) (id : String)
    (name : Text)
    → Passed sessions port r token id name
    → handle sessions port r ≡ route token id name
unfolding handle
Passed-handle sessions port r token id name
      (host, (e, f, g, posted, near, site, no_start, bears, holds)) =
    rw e (rw f (rw g (rw posted (rw near (rw site (rw no_start (rw bears (rw holds refl))))))))

-- A request reaches a handler in a session exactly where its peer is this machine, its host is one of
-- this server's three names, it is a POST to the API and not to start a session, from this server's
-- own origin, with no other site where the browser names one, and it carries the token of that
-- session.
pub handle-IsAdmitted :
    (sessions : Text → Option String) (port : ℕ) (r : Request) (token : Text) (id : String)
    (name : Text)
    → (handle sessions port r ≡ route token id name) ↔ IsAdmitted sessions port r token id name
handle-IsAdmitted sessions port r token id name = (to, from)
  where
    to : handle sessions port r ≡ route token id name → IsAdmitted sessions port r token id name
    to h =
        let (host, (e, f, g, posted, near, site, no_start, bears, holds)) =
          handle-Passed sessions port r token id name h in
        let (names, is_ours) = (our_host_iff (host_of r) port host).0 f in
        (
          host,
          (
            (peer_is_local_iff r.peer).0 e,
            names,
            is_ours,
            (strip_prefix_iff (chars "/api/v1/") r.path name).0 g,
            (is_post_iff r.method).0 posted,
            (from_here_iff r.origin host).0 near,
            (site_agrees_iff r.fetch_site).0 site,
            differ name _ no_start,
            (bearer_iff r.authorization token).0 bears,
            holds,
          ),
        )

    other_name : (n m : Text) → n ≢ m → same n m ≡ false
    other_name n m h = elim (Bool-cases (same n m)) [
      | inl y ↦ absurd (h (same_eq n m y))
      | inr y ↦ y
    ]

    from : IsAdmitted sessions port r token id name → handle sessions port r ≡ route token id name
    from (host, (e, names, is_ours, path, posted, near, site, no_start, bears, holds)) =
        Passed-handle sessions port r token id name (
          host,
          (
            (peer_is_local_iff r.peer).1 e,
            (our_host_iff (host_of r) port host).1 (names, is_ours),
            (strip_prefix_iff (chars "/api/v1/") r.path name).1 path,
            (is_post_iff r.method).1 posted,
            (from_here_iff r.origin host).1 near,
            (site_agrees_iff r.fetch_site).1 site,
            other_name name _ no_start,
            (bearer_iff r.authorization token).1 bears,
            holds,
          ),
        )
