-- ===== src/Session/Host/Joins.antt =====
-- Whom the host lets in.
use jam_n.Prelude.{ℕ, ◌≡◌, ◌≢◌, ◌⊎◌, ◌↔◌, refl, inl, inr, true, false, min, length, Bool-cases}
use jam_n.Proto.Header.{PacketHeader}
use jam_n.Proto.Control.{Hello}
use jam_n.Proto.JoinAuth.{
  Negotiation, accepted, refused, major_mismatch, wrong_passphrase, AllBytes, negotiate_version_lem,
  constant_time_equals, constant_time_equals_iff,
}
use jam_n.Session.Host.{SessionHost, check_token, evaluate_join}

-- What a join message deserves.
abbrev pub Verdict : SessionHost → PacketHeader → Hello → Negotiation → Type 0
Verdict s header hello answer =
    ((header.proto_major ≡ 1)
      × (hello.session_token ≡ s.session_token)
      × (answer ≡ accepted (min 0 header.proto_minor)))
    ⊎ ((header.proto_major ≢ 1) × (answer ≡ refused (major_mismatch 1 header.proto_major)))
    ⊎ ((header.proto_major ≡ 1)
        × (hello.session_token ≢ s.session_token)
        × (answer ≡ refused wrong_passphrase))

token_equal :
    (s : SessionHost) (hello : Hello) (minor : ℕ)
    → constant_time_equals hello.session_token s.session_token ≡ true
    → check_token s hello (accepted minor) ≡ accepted minor
unfolding check_token
token_equal s hello minor h = rw h refl

token_differs :
    (s : SessionHost) (hello : Hello) (minor : ℕ)
    → constant_time_equals hello.session_token s.session_token ≡ false
    → check_token s hello (accepted minor) ≡ refused wrong_passphrase
unfolding check_token
token_differs s hello minor h = rw h refl

-- With tokens of one length: a join is accepted exactly when its major version is the host's and its
-- token is the session's, at the lower minor version; the version is looked at first, and each of the
-- two is refused for its own reason.
pub evaluate_join_lem :
    (s : SessionHost) (header : PacketHeader) (hello : Hello)
    → AllBytes hello.session_token
    → AllBytes s.session_token
    → length hello.session_token ≡ length s.session_token
    → Verdict s header hello (evaluate_join s header hello)
unfolding evaluate_join check_token
evaluate_join_lem s header hello p q len =
    elim (negotiate_version_lem header.proto_major header.proto_minor) [
      | inr (other, e) ↦ inr (inl (other, rw e refl))
      | inl (same, e) ↦
          elim (Bool-cases (constant_time_equals hello.session_token s.session_token)) [
            | inl equal ↦ inl (same, iff.0 equal, rw e (token_equal s hello _ equal))
            | inr differs ↦ inr (
                inr (
                  same,
                  λ t. absurd (cc (iff.1 t, differs)),
                  rw e (token_differs s hello _ differs),
                ))
          ]
    ]
  where
    iff :
        (constant_time_equals hello.session_token s.session_token ≡ true)
        ↔ (hello.session_token ≡ s.session_token)
    iff = constant_time_equals_iff hello.session_token s.session_token p q len
