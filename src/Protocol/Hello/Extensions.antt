-- ===== src/Protocol/Hello/Extensions.antt =====
-- The extensions, read from those that a client wrote.
use sni_router.Common.{
  ℕ, ◌≤◌, ◌≡◌, ◌≢◌, refl, sym, ◌∙◌, true, false, List, [], ◌∷◌, ◌++◌, Option, none, Result, ok, err,
  ◌>>=◌, ◌>>◌, reject_if, arith, length, length-append, append_assoc, append-nil, ◌==◌, Bool-cases,
  inl, inr,
}
use sni_router.Lookup.Hostname.{Hostname}
use sni_router.Protocol.{ParseError, malformed}
use sni_router.Protocol.Seen
use sni_router.Protocol.Seen.{SeenTypes, as_mut_slice, has_duplicate}
use sni_router.Protocol.Seen.Duplicates.{
  IsWf, count, new-IsWf, push-IsWf, as_mut_slice-new, as_mut_slice-push, has_duplicate_iff,
}
use sni_router.Protocol.Hello.{parse_extensions, extension_server_name}
use sni_router.Protocol.Hello.Written.{
  Extension, put_extension, put_extensions, kinds, names_after, pushed, scan_with,
  read_extensions-put,
}

pushed-IsWf : (seen : SeenTypes) (es : List Extension) → IsWf seen → IsWf (pushed seen es)
pushed-IsWf seen [] h = h
pushed-IsWf seen (e ∷ es) h = pushed-IsWf (Seen.push seen e.kind) es (push-IsWf seen e.kind h)

as_mut_slice-pushed :
    (seen : SeenTypes) (es : List Extension)
    → IsWf seen
    → as_mut_slice (pushed seen es) ≡ as_mut_slice seen ++ kinds es
as_mut_slice-pushed seen [] h = sym (append-nil (as_mut_slice seen))
as_mut_slice-pushed seen (e ∷ es) h =
    as_mut_slice-pushed (Seen.push seen e.kind) es (push-IsWf seen e.kind h)
    ∙ rw (as_mut_slice-push seen e.kind h)
        (append_assoc (as_mut_slice seen) (e.kind ∷ []) (kinds es))

length-put_extensions : (es : List Extension) → length es ≤ length (put_extensions es)
length-put_extensions [] = omega arith
length-put_extensions (e ∷ es) =
    omega (arith, length-put_extensions es, length-append (put_extension e) (put_extensions es))

-- No type stands twice.
abbrev pub AreDistinct : List Extension → Type 0
AreDistinct es = (kind : ℕ) → count kind (kinds es) ≤ 1

parse_extensions-pushed :
    (es : List Extension)
    → parse_extensions (put_extensions es) ≡ (do
      sni ← names_after es none
      reject_if (has_duplicate (pushed Seen.new es)) (malformed "duplicate extension type")
      ok sni)
unfolding parse_extensions
parse_extensions-pushed es =
    rw
      (read_extensions-put (length (put_extensions es)) es (record { seen = Seen.new; sni = none })
        (length-put_extensions es))
      (regroup (names_after es none))
  where
    regroup :
        (r : Result ParseError (Option Hostname))
        → (do
          s ← (do sni ← r; ok (scan_with (pushed Seen.new es) sni))
          reject_if (has_duplicate s.seen) (malformed "duplicate extension type")
          ok s.sni)
          ≡ (do
            sni ← r
            reject_if (has_duplicate (pushed Seen.new es)) (malformed "duplicate extension type")
            ok sni)
    regroup (ok sni) = refl
    regroup (err x) = refl

-- The types seen behind all extensions are their types, in order.
seen_kinds : (es : List Extension) → as_mut_slice (pushed Seen.new es) ≡ kinds es
seen_kinds es = as_mut_slice-pushed Seen.new es new-IsWf ∙ rw as_mut_slice-new

distinct_seen : (es : List Extension) → AreDistinct es → has_duplicate (pushed Seen.new es) ≡ false
distinct_seen es h =
    (has_duplicate_iff (pushed Seen.new es)).1 (λ kind. rw (seen_kinds es) (h kind))

-- Extensions of distinct types parse to the name that they set.
pub parse_extensions-put :
    (es : List Extension)
    → AreDistinct es
    → parse_extensions (put_extensions es) ≡ names_after es none
parse_extensions-put es h =
    parse_extensions-pushed es ∙ rw (distinct_seen es h) (regroup (names_after es none))
  where
    regroup : (r : Result ParseError (Option Hostname)) → (do sni ← r; ok sni) ≡ r
    regroup (ok sni) = refl
    regroup (err x) = refl

-- Extensions of which a type stands twice are never accepted.
pub parse_extensions_duplicate :
    (es : List Extension) (kind : ℕ) (sni : Option Hostname)
    → 2 ≤ count kind (kinds es)
    → parse_extensions (put_extensions es) ≢ ok sni
parse_extensions_duplicate es kind sni twice accepted =
    elim (Bool-cases (has_duplicate (pushed Seen.new es))) [
      | inl found ↦
          refused (names_after es none) (rw found at (sym (parse_extensions-pushed es) ∙ accepted))
      | inr none_found ↦
          let once = (has_duplicate_iff (pushed Seen.new es)).0 none_found kind in
          omega (arith, rw (seen_kinds es) at once)
    ]
  where
    refused :
        (r : Result ParseError (Option Hostname))
        → (do sni' ← r; reject_if true (malformed "duplicate extension type"); ok sni') ≡ ok sni
        → ⊥
    refused (ok x) e = cc
    refused (err x) e = cc

-- Extensions among which one, of type server_name, sets a name: it is the name of all.
abbrev pub NoServerName : List Extension → Type 0
NoServerName [] = Unit
NoServerName (e ∷ es) = (e.kind ≢ extension_server_name) × NoServerName es

pub names_after-NoServerName :
    (es : List Extension) (sni : Option Hostname) → NoServerName es → names_after es sni ≡ ok sni
unfolding names_after
names_after-NoServerName [] sni h = refl
names_after-NoServerName (e ∷ es) sni h =
    let other : (e.kind == extension_server_name) ≡ false = ground (arith, h.0) in
    rw other (names_after-NoServerName es sni h.1)

pub names_after-append :
    (before es : List Extension) (sni : Option Hostname)
    → NoServerName before
    → names_after (before ++ es) sni ≡ names_after es sni
unfolding names_after
names_after-append [] es sni h = refl
names_after-append (e ∷ before) es sni h =
    let other : (e.kind == extension_server_name) ≡ false = ground (arith, h.0) in
    rw other (names_after-append before es sni h.1)
