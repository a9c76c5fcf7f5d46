-- ===== src/Admission/Tests.antt =====
-- Requests to crates/app-server/src/api.rs that are admitted and refused, and the theorem there.
use vitna_code.Base.{String, true, false, ◌≡◌, ◌↔◌, refl, Option, none, some, if◌then◌else◌}
use vitna_code.Bytes.{decimal}
use vitna_code.Paths.{Text, chars, same, trim_start, trim_end}
use vitna_code.Admission.{
  v4, v6, peer_is_local, our_host, Request, post, wrong_origin, route, handle,
}
use vitna_code.Admission.Shows.{IsAdmitted}
use vitna_code.Admission.Admits.{handle-IsAdmitted}

peers :
    (peer_is_local (v6 0 0 0 0 0 0xffff 0x7f00 1) ≡ true)
    × (peer_is_local (v6 0 0 0 0 0 0xffff 0x0a00 1) ≡ false)
    × (peer_is_local (v4 192 168 1 20) ≡ false)
peers = (refl, refl, refl)

hosts :
    (our_host (some (chars "LocalHost:7788")) 7788 ≡ some (chars "localhost:7788"))
    × (our_host (some (chars "127.0.0.1.nip.io:7788")) 7788 ≡ none)
unfolding decimal trim_start trim_end
hosts = (refl, refl)

abbrev sessions : Text → Option String
sessions token = if same token (chars "abc") then some "s-1" else none

abbrev asking : Text → Request
asking origin = record {
  peer = v4 127 0 0 1;
  method = post;
  path = chars "/api/v1/run";
  host = some (chars "127.0.0.1:7788");
  authority = none;
  origin = some origin;
  fetch_site = none;
  authorization = some (chars "Bearer abc");
}

admitted :
    handle sessions 7788 (asking (chars "http://127.0.0.1:7788"))
    ≡ route (chars "abc") "s-1" (chars "run")
unfolding handle decimal trim_start trim_end
admitted = refl

elsewhere : handle sessions 7788 (asking (chars "http://localhost:7788")) ≡ wrong_origin
unfolding handle decimal trim_start trim_end
elsewhere = refl

handle-IsAdmitted_example :
    (handle sessions 7788 (asking (chars "http://127.0.0.1:7788"))
      ≡ route (chars "abc") "s-1" (chars "run"))
    ↔ IsAdmitted sessions 7788
        (asking (chars "http://127.0.0.1:7788"))
        (chars "abc")
        "s-1"
        (chars "run")
handle-IsAdmitted_example =
    handle-IsAdmitted sessions 7788 (asking (chars "http://127.0.0.1:7788")) (chars "abc") "s-1"
      (chars "run")
