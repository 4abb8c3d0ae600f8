-- ===== src/Protocol/Hello/Written.antt =====
-- crates/sni_router/src/protocol/hello.rs: extensions written the way a client writes them, and what reading
-- them makes.
use mathlib.Core.Path.{fun_ext}
use sni_router.Common.{
  ℕ, zero, suc, ◌≤◌, ◌≡◌, refl, ap, ◌∙◌, List, [], ◌∷◌, ◌++◌, Option, Result, ok, err, ◌>>=◌, arith,
  length, ◌==◌, if◌then◌else◌, Bool-cases, Result-cases, inl, inr,
}
use sni_router.Lookup.Hostname.{Hostname}
use sni_router.Protocol.{ParseError}
use sni_router.Protocol.Reader.{is_empty}
use sni_router.Protocol.Reader.Fields.{put16, put_vec16, u16-put, vec16-put}
use sni_router.Protocol.Names.{parse_server_name}
use sni_router.Protocol.Seen
use sni_router.Protocol.Seen.{SeenTypes, as_mut_slice, has_duplicate}
use sni_router.Protocol.Hello.{Scan, read_extension, read_extensions, extension_server_name}

pub record Extension : Type 0 where
  pub kind : ℕ
  pub payload : List ℕ

abbrev pub put_extension : Extension → List ℕ
put_extension e = put16 e.kind ++ put_vec16 e.payload

abbrev pub put_extensions : List Extension → List ℕ
put_extensions [] = []
put_extensions (e ∷ es) = put_extension e ++ put_extensions es

abbrev pub kinds : List Extension → List ℕ
kinds [] = []
kinds (e ∷ es) = e.kind ∷ kinds es

-- What one extension makes of the name: a server_name extension sets it.
unfoldable pub name_after : Extension → Option Hostname → Result ParseError (Option Hostname)
name_after e sni = if e.kind == extension_server_name then parse_server_name e.payload else ok sni

unfoldable pub names_after : List Extension → Option Hostname → Result ParseError (Option Hostname)
unfolding name_after
names_after [] sni = ok sni
names_after (e ∷ es) sni = do sni' ← name_after e sni; names_after es sni'

-- The scan behind some extensions.
abbrev pub pushed : SeenTypes → List Extension → SeenTypes
pushed seen [] = seen
pushed seen (e ∷ es) = pushed (Seen.push seen e.kind) es

abbrev pub scan_with : SeenTypes → Option Hostname → Scan
scan_with seen sni = record { seen = seen; sni = sni }

read_extension-put :
    (e : Extension) (rest : List ℕ) (s : Scan)
    → read_extension (put_extension e ++ rest) s ≡ (do
      sni ← name_after e s.sni
      ok (record { seen = Seen.push s.seen e.kind; sni = sni }, rest))
unfolding read_extension name_after
read_extension-put e rest s =
    rw (u16-put e.kind (put_vec16 e.payload ++ rest), vec16-put e.payload rest)
      (elim (Bool-cases (e.kind == extension_server_name)) [ inl k ↦ rw k | inr k ↦ rw k ])

read_extensions_step :
    (fuel : ℕ) (e : Extension) (rest : List ℕ) (s : Scan)
    → read_extensions (suc fuel) (put_extension e ++ rest) s ≡ (do
      sni ← name_after e s.sni
      read_extensions fuel rest (record { seen = Seen.push s.seen e.kind; sni = sni }))
unfolding read_extensions is_empty
read_extensions_step fuel e rest s = elim (Result-cases (name_after e s.sni)) [
  | inl (sni, known) ↦ rw (
    read_extension-put e rest s
        ∙ ap
            (λ (r : Result ParseError (Option Hostname)).
              r >>= λ h. ok (record { seen = Seen.push s.seen e.kind; sni = h }, rest))
            known,
    known,
    read_extensions,
  )
  | inr (x, refused) ↦ rw (
    read_extension-put e rest s
        ∙ ap
            (λ (r : Result ParseError (Option Hostname)).
              r >>= λ h. ok (record { seen = Seen.push s.seen e.kind; sni = h }, rest))
            refused,
    refused,
    read_extensions,
  )
]

pub read_extensions-put :
    (fuel : ℕ) (es : List Extension) (s : Scan)
    → length es ≤ fuel
    → read_extensions fuel (put_extensions es) s
      ≡ (do sni ← names_after es s.sni; ok (record { seen = pushed s.seen es; sni = sni }))
unfolding names_after
read_extensions-put zero [] s h = unfold read_extensions in refl
read_extensions-put (suc fuel) [] s h = unfold read_extensions is_empty in refl
read_extensions-put zero (e ∷ es) s h = absurd (omega arith)
read_extensions-put (suc fuel) (e ∷ es) s h =
    read_extensions_step fuel e (put_extensions es) s
    ∙ ap (λ f. name_after e s.sni >>= f)
        (fun_ext λ sni.
          read_extensions-put fuel es (record { seen = Seen.push s.seen e.kind; sni = sni })
            (omega arith))
    ∙ regroup (name_after e s.sni)
  where
    regroup :
        (r : Result ParseError (Option Hostname))
        → (do
          sni ← r
          sni' ← names_after es sni
          ok (scan_with (pushed (Seen.push s.seen e.kind) es) sni'))
          ≡ (do
            sni' ← (do sni ← r; names_after es sni)
            ok (scan_with (pushed (Seen.push s.seen e.kind) es) sni'))
    regroup (ok sni) = refl
    regroup (err x) = refl
