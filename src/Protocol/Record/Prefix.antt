-- ===== src/Protocol/Record/Prefix.antt =====
-- A verdict on the bytes that have arrived is the verdict on all bytes.
use sni_router.Common.{
  ℕ, zero, suc, ◌≤◌, ◌≡◌, ◌≢◌, refl, ap, sym, ◌∙◌, List, [], ◌∷◌, ◌++◌, ok, err, arith, length,
  length-append, drop, drop-append_self, append_assoc, inl, inr, Result-cases,
}
use sni_router.Protocol.{HelloLimits, ParseError, incomplete}
use sni_router.Protocol.Record.{Walk, start, round, scan, scan_records, parse_client_hello}
use sni_router.Protocol.Record.Wire.{Fragment, wire, joined, append-wire_snoc}
use sni_router.Protocol.Record.Behind.{Behind, start-Behind}
use sni_router.Protocol.Record.Passes.{
  round-Passed, ends, goes_on, Ends-or_goes_on, scan-done, scan-more, scan-err,
}
use sni_router.Protocol.Record.Sound.{scan_records_sound}
use sni_router.Protocol.Record.Parse.{parse_client_hello-wire}
use sni_router.Protocol.Record.Growing.{round-append_ok, round-append_err}

scan-zero :
    (limits : HelloLimits) (buf : List ℕ) (w : Walk) (e : ParseError)
    → scan zero limits buf w ≡ err e
    → e ≡ incomplete
unfolding scan
scan-zero limits buf w e h = cc

scan-append_err :
    (fuel more_fuel : ℕ) (limits : HelloLimits) (buf : List ℕ) (seen : List Fragment)
    (tail x : List ℕ) (w : Walk) (e : ParseError)
    → fuel ≤ more_fuel
    → buf ≡ wire seen ++ tail
    → Behind seen w
    → e ≢ incomplete
    → scan fuel limits buf w ≡ err e
    → scan more_fuel limits (buf ++ x) w ≡ err e
scan-append_err zero more_fuel limits buf seen tail x w e le eq b real h =
    absurd (real (scan-zero limits buf w e h))
scan-append_err (suc fuel) zero limits buf seen tail x w e le eq b real h = absurd (omega arith)
scan-append_err (suc fuel) (suc more_fuel) limits buf seen tail x w e le eq b real h =
    let front : drop w.offset buf ≡ tail =
      rw eq (drop-append_self w.offset (wire seen) tail b.offset) in
    let front' : drop w.offset (buf ++ x) ≡ tail ++ x =
      rw (eq, append_assoc (wire seen) tail x)
        (drop-append_self w.offset (wire seen) (tail ++ x) b.offset) in
    elim (Result-cases (round limits w tail)) [
      | inr (e', failed) ↦
          let same : e' ≡ e =
            cc (scan-err fuel limits buf w e' (ap (round limits w) front ∙ failed)) in
          scan-err more_fuel limits (buf ++ x) w e (
            ap (round limits w) front'
            ∙ round-append_err limits (joined seen) w tail x e b.header real (failed ∙ ap err same))
      | inl (r, passed) ↦
          let p = round-Passed limits seen w tail r b passed in
          let again =
            ap (round limits w) front'
            ∙ round-append_ok limits (joined seen) w tail x r b.header passed in
          elim (Ends-or_goes_on seen w p.f p.len b) [
            | ends n found len enough result l ↦ cc (
                scan-done fuel limits buf w found
                  (ap (round limits w) front ∙ passed ∙ ap ok (p.result ∙ result)))
            | goes_on w' short result b' ↦
                scan-more more_fuel limits (buf ++ x) w w' (again ∙ ap ok (p.result ∙ result))
                ∙ scan-append_err fuel more_fuel limits buf (seen ++ p.f ∷ []) p.rest x w' e
                    (omega arith)
                    (eq ∙ ap (◌++◌ (wire seen)) p.tail_eq ∙ append-wire_snoc seen p.f p.rest) b'
                    real
                    (sym (
                        scan-more fuel limits buf w w'
                          (ap (round limits w) front ∙ passed ∙ ap ok (p.result ∙ result)))
                      ∙ h)
          ]
    ]

pub scan_records-append_err :
    (limits : HelloLimits) (buf x : List ℕ) (e : ParseError)
    → e ≢ incomplete
    → scan_records buf limits ≡ err e
    → scan_records (buf ++ x) limits ≡ err e
unfolding scan_records
scan_records-append_err limits buf x e real h =
    scan-append_err (suc (length buf)) (suc (length (buf ++ x))) limits buf [] buf x start e
      (omega (arith, length-append buf x)) refl start-Behind real h

-- Once the bytes that have arrived are accepted or refused, more bytes change nothing: a ClientHello
-- gets one verdict, however its bytes are split into reads.
pub parse_client_hello-append :
    (limits : HelloLimits) (buf x : List ℕ)
    → parse_client_hello buf limits ≢ err incomplete
    → parse_client_hello (buf ++ x) limits ≡ parse_client_hello buf limits
unfolding parse_client_hello
parse_client_hello-append limits buf x real = elim (Result-cases (scan_records buf limits)) [
  | inl (layout, scanned) ↦
      let (n, fs, rest, e, framing, _) = scan_records_sound limits buf layout scanned in
      ap (λ b. parse_client_hello (b ++ x) limits) e
      ∙ ap (λ b. parse_client_hello b limits) (append_assoc (wire fs) rest x)
      ∙ parse_client_hello-wire limits n fs (rest ++ x) framing
      ∙ sym (parse_client_hello-wire limits n fs rest framing)
      ∙ ap (λ b. parse_client_hello b limits) (sym e)
  | inr (e, failed) ↦
      rw (failed, scan_records-append_err limits buf x e (λ eq. real (rw (failed, eq))) failed)
]
