-- ===== src/Protocol/Names/Entries.antt =====
-- The server_name extension, read from the entries that a client wrote.
use sni_router.Common.{
  ℕ, zero, suc, ◌≤◌, ◌≡◌, ◌≢◌, refl, ap, ◌∙◌, true, false, List, [], ◌∷◌, ◌++◌, Option, none, some,
  Result, ok, err, ◌>>=◌, ◌>>◌, map_err, reject_if, arith, length, length-append, ◌==◌,
  if◌then◌else◌, not, Result-cases, inl, inr,
}
use mathlib.Core.Path.{fun_ext}
use sni_router.Lookup.Text.{to_ascii_lowercase}
use sni_router.Lookup.Names.{invalid_character, validate_dns_name}
use sni_router.Lookup.Hostname
use sni_router.Lookup.Hostname.{Hostname, is_some}
use sni_router.Protocol.{ParseError, malformed, invalid_server_name}
use sni_router.Protocol.Reader.{is_empty}
use sni_router.Protocol.Reader.Fields.{put_vec16, u8-put, vec16-put, vec16-put_all, is_empty-false}
use sni_router.Protocol.Utf8.{is_utf8}
use sni_router.Protocol.Names.{read_entry, read_entries, parse_server_name, name_type_host_name}

pub record Entry : Type 0 where
  pub kind : ℕ
  pub name : List ℕ

abbrev pub put_entry : Entry → List ℕ
put_entry e = e.kind ∷ put_vec16 e.name

abbrev pub put_entries : List Entry → List ℕ
put_entries [] = []
put_entries (e ∷ es) = put_entry e ++ put_entries es

-- The one name that may be set, as a hostname.
pub set_name : List ℕ → Option Hostname → Result ParseError (Option Hostname)
set_name name (some host) = err (malformed "multiple host_name entries")
set_name name none = do
  reject_if (not (is_utf8 name)) (invalid_server_name invalid_character)
  host ← map_err (Hostname.parse name) invalid_server_name
  ok (some host)

-- What one entry makes of the name that is known so far; kinds other than host_name change nothing.
pub enter : Entry → Option Hostname → Result ParseError (Option Hostname)
unfolding set_name
enter e host = do
  reject_if (is_empty e.name) (malformed "empty server name")
  if e.kind == name_type_host_name then set_name e.name host else ok host

-- What the entries come to, in order.
pub host_name_of : List Entry → Option Hostname → Result ParseError (Option Hostname)
unfolding enter
host_name_of [] host = ok host
host_name_of (e ∷ es) host = do host' ← enter e host; host_name_of es host'

read_entry-put :
    (e : Entry) (host : Option Hostname) (rest : List ℕ)
    → read_entry (put_entry e ++ rest) host ≡ (do host' ← enter e host; ok (host', rest))
unfolding read_entry enter
read_entry-put e none rest =
    rw (u8-put e.kind (put_vec16 e.name ++ rest), vec16-put e.name rest) (ground arith)
read_entry-put e (some host) rest =
    rw (u8-put e.kind (put_vec16 e.name ++ rest), vec16-put e.name rest) (ground arith)

read_entries_step :
    (fuel : ℕ) (e : Entry) (rest : List ℕ) (host : Option Hostname)
    → read_entries (suc fuel) (put_entry e ++ rest) host
      ≡ (do host' ← enter e host; read_entries fuel rest host')
unfolding read_entries is_empty
read_entries_step fuel e rest host = elim (Result-cases (enter e host)) [
  | inl (host', entered) ↦ rw (
    read_entry-put e host rest
        ∙ ap (λ (r : Result ParseError (Option Hostname)). r >>= λ h. ok (h, rest)) entered,
    entered,
    read_entries,
  )
  | inr (x, refused) ↦ rw (
    read_entry-put e host rest
        ∙ ap (λ (r : Result ParseError (Option Hostname)). r >>= λ h. ok (h, rest)) refused,
    refused,
    read_entries,
  )
]

read_entries-put :
    (fuel : ℕ) (es : List Entry) (host : Option Hostname)
    → length es ≤ fuel
    → read_entries fuel (put_entries es) host ≡ host_name_of es host
unfolding host_name_of
read_entries-put zero [] host h = unfold read_entries in refl
read_entries-put (suc fuel) [] host h = unfold read_entries is_empty in refl
read_entries-put zero (e ∷ es) host h = absurd (omega arith)
read_entries-put (suc fuel) (e ∷ es) host h =
    read_entries_step fuel e (put_entries es) host
    ∙ ap (λ f. enter e host >>= f) (fun_ext λ host'. read_entries-put fuel es host' (omega arith))

length-put_entries : (es : List Entry) → length es ≤ length (put_entries es)
length-put_entries [] = omega arith
length-put_entries (e ∷ es) =
    omega (arith, length-put_entries es, length-append (put_entry e) (put_entries es))

-- The extension that holds the entries, one or more, parses to what the entries come to.
pub parse_server_name-put :
    (es : List Entry)
    → 1 ≤ length es
    → parse_server_name (put_vec16 (put_entries es)) ≡ host_name_of es none
unfolding parse_server_name is_empty
parse_server_name-put [] h = absurd (omega arith)
parse_server_name-put (e ∷ es) h =
    rw (vec16-put_all (put_entries (e ∷ es)))
      (read_entries-put (length (put_entries (e ∷ es))) (e ∷ es) none (length-put_entries (e ∷ es)))

-- Entries of other kinds, each with a name.
abbrev pub AllOther : List Entry → Type 0
AllOther [] = Unit
AllOther (e ∷ es) = (e.kind ≢ name_type_host_name) × (1 ≤ length e.name) × AllOther es

enter_other :
    (e : Entry) (host : Option Hostname)
    → e.kind ≢ name_type_host_name
    → 1 ≤ length e.name
    → enter e host ≡ ok host
unfolding enter
enter_other e host k h = rw (is_empty-false e.name h) (ground (arith, k))

host_name_of-append :
    (before es : List Entry) (host : Option Hostname)
    → AllOther before
    → host_name_of (before ++ es) host ≡ host_name_of es host
unfolding host_name_of
host_name_of-append [] es host h = refl
host_name_of-append (e ∷ before) es host h =
    rw (enter_other e host h.0 h.1) (host_name_of-append before es host h.2)

host_name_of-AllOther :
    (es : List Entry) (host : Option Hostname) → AllOther es → host_name_of es host ≡ ok host
unfolding host_name_of
host_name_of-AllOther [] host h = refl
host_name_of-AllOther (e ∷ es) host h =
    rw (enter_other e host h.0 h.1) (host_name_of-AllOther es host h.2)

parse-is_empty :
    (name : List ℕ) (host : Hostname) → Hostname.parse name ≡ ok host → is_empty name ≡ false
unfolding Hostname.parse to_ascii_lowercase validate_dns_name is_empty
parse-is_empty [] host h = cc
parse-is_empty (x ∷ name) host h = refl

enter_host_name :
    (name : List ℕ) (host : Hostname)
    → is_utf8 name ≡ true
    → Hostname.parse name ≡ ok host
    → enter (record { kind = 0; name = name }) none ≡ ok (some host)
unfolding enter
enter_host_name name host u h = rw (parse-is_empty name host h, u, h)

-- One host_name among entries of other kinds is the name of the extension.
pub parse_server_name_one :
    (before after : List Entry) (name : List ℕ) (host : Hostname)
    → AllOther before
    → AllOther after
    → is_utf8 name ≡ true
    → Hostname.parse name ≡ ok host
    → parse_server_name
        (put_vec16 (put_entries (before ++ record { kind = 0; name = name } ∷ after)))
      ≡ ok (some host)
parse_server_name_one before after name host b a u h =
    let e : Entry = record { kind = 0; name = name } in
    parse_server_name-put (before ++ e ∷ after) (omega (arith, length-append before (e ∷ after)))
    ∙ host_name_of-append before (e ∷ after) none b
    ∙ (unfold host_name_of in
        rw (enter_host_name name host u h) (host_name_of-AllOther after (some host) a))
