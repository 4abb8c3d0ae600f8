-- ===== src/Delivery/HelloReader/Beginnings.antt =====
-- crates/sni_router/src/delivery/hello_reader.rs: the beginnings of one stream, and the verdicts on them.
use sni_router.Common.{
  ℕ, ◌≤◌, ◌≡◌, ◌≢◌, refl, ap, sym, ◌∙◌, List, [], ◌∷◌, ◌++◌, Result, ok, err, arith, length, leb,
  leb→le, ◌⊎◌, Bool-cases, inl, inr,
}
use sni_router.Protocol.{
  HelloLimits, ClientHelloInfo, ParseError, incomplete, not_handshake, invalid_record,
  not_client_hello, too_large, malformed, invalid_server_name,
}
use sni_router.Protocol.Record.{parse_client_hello}
use sni_router.Protocol.Record.Prefix.{parse_client_hello-append}

-- Of two beginnings of one text the shorter begins the longer.
prefix_of_longer :
    (a p x q : List ℕ) → a ++ x ≡ p ++ q → length a ≤ length p → (t : List ℕ) × (p ≡ a ++ t)
prefix_of_longer [] p x q e h = (p, refl)
prefix_of_longer (b ∷ a) [] x q e h = absurd (omega arith)
prefix_of_longer (b ∷ a) (c ∷ p) x q e h =
    let (t, d) = prefix_of_longer a p x q (cc) (omega arith) in
    let same : b ≡ c = cc in (t, rw (d, same))

pub definite_or_not :
    (v : Result ParseError ClientHelloInfo) → (v ≡ err incomplete) ⊎ (v ≢ err incomplete)
definite_or_not (ok info) = inr (λ h. cc)
definite_or_not (err incomplete) = inl refl
definite_or_not (err not_handshake) = inr (λ h. cc)
definite_or_not (err invalid_record) = inr (λ h. cc)
definite_or_not (err not_client_hello) = inr (λ h. cc)
definite_or_not (err too_large) = inr (λ h. cc)
definite_or_not (err (malformed s)) = inr (λ h. cc)
definite_or_not (err (invalid_server_name e)) = inr (λ h. cc)

-- Two beginnings of one stream that both have a verdict have the same one.
pub same_verdict :
    (limits : HelloLimits) (a p x q : List ℕ)
    → a ++ x ≡ p ++ q
    → parse_client_hello a limits ≢ err incomplete
    → parse_client_hello p limits ≢ err incomplete
    → parse_client_hello a limits ≡ parse_client_hello p limits
same_verdict limits a p x q e ha hp = elim (Bool-cases (leb (length a) (length p))) [
  | inl shorter ↦
      let (t, d) = prefix_of_longer a p x q e (leb→le _ _ shorter) in
      sym (ap (λ b. parse_client_hello b limits) d ∙ parse_client_hello-append limits a t ha)
  | inr longer ↦
      let le : length p ≤ length a = ground arith in
      let (t, d) = prefix_of_longer p a q x (sym e) le in
      ap (λ b. parse_client_hello b limits) d ∙ parse_client_hello-append limits p t hp
]

-- A beginning that is at least as long as one that has a verdict has a verdict.
pub longer_definite :
    (limits : HelloLimits) (a p x q : List ℕ)
    → a ++ x ≡ p ++ q
    → length p ≤ length a
    → parse_client_hello p limits ≢ err incomplete
    → parse_client_hello a limits ≢ err incomplete
longer_definite limits a p x q e le hp h =
    let (t, d) = prefix_of_longer p a q x (sym e) le in
    hp (
      sym (parse_client_hello-append limits p t hp)
      ∙ ap (λ b. parse_client_hello b limits) (sym d)
      ∙ h)
