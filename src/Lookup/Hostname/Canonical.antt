-- ===== src/Lookup/Hostname/Canonical.antt =====
-- crates/sni_router/src/lookup/types.rs: the parsed hostname is canonical.
use sni_router.Common.{
  ℕ, ◌≤◌, ◌≡◌, ◌⊎◌, refl, sym, ap, if◌then◌else◌, ◌∙◌, Bool, true, false, List, [], ◌∷◌, ◌++◌, ok,
  length, ltb, ◌==◌, reject_if, arith, >>=-eq-ok, inl, inr, Bool-cases,
}
use sni_router.Lookup.Text.{
  Str, all, split, cons_head, is_ascii_lowercase, is_ascii_digit, to_ascii_lowercase,
  to_ascii_lowercase_idem,
}
use sni_router.Lookup.Text.Split.{IsLower}
use sni_router.Lookup.Names.{
  max_name_len, max_label_len, empty, too_long, empty_label, label_too_long, is_label_byte,
  validate_label, validate_labels, validate_dns_name,
}
use sni_router.Lookup.Ip.{parse_ip}
use sni_router.Lookup.Hostname
use sni_router.Lookup.Hostname.{Hostname, is_some}
use sni_router.Lookup.Ip.Quad.{IsQuad, parse_ip-IsQuad}

-- A small letter, a digit, a hyphen or an underscore.
abbrev IsLabelByte : ℕ → Type 0
IsLabelByte b = ((97 ≤ b) × (b ≤ 122)) ⊎ (((48 ≤ b) × (b ≤ 57)) ⊎ ((b ≡ 45) ⊎ (b ≡ 95)))

abbrev AreLabelBytes : Str → Type 0
AreLabelBytes [] = Unit
AreLabelBytes (b ∷ bs) = IsLabelByte b × AreLabelBytes bs

-- From 1 to 63 such bytes.
abbrev pub AreLabels : List Str → Type 0
AreLabels [] = Unit
AreLabels (label ∷ labels) =
    ((1 ≤ length label) × (length label ≤ 63) × AreLabelBytes label) × AreLabels labels

-- The labels with a dot between each two.
abbrev pub dotted : List Str → Str
dotted [] = []
dotted (label ∷ []) = label
dotted (label ∷ next ∷ labels) = label ++ 46 ∷ dotted (next ∷ labels)

-- What a hostname promises: from 1 to 253 bytes, that are labels with dots between them, and that do not
-- write an address as four numbers.
pub record IsCanonical (host : Hostname) : Type 0 where
  pub least : 1 ≤ length host.text
  pub most : length host.text ≤ 253
  pub labels : List Str
  pub labelled : host.text ≡ dotted labels
  pub valid : AreLabels labels
  pub no_quad : ¬ (IsQuad host.text)

dotted-cons_head : (x : ℕ) (labels : List Str) → dotted (cons_head x labels) ≡ x ∷ dotted labels
unfolding cons_head
dotted-cons_head x [] = refl
dotted-cons_head x (label ∷ []) = refl
dotted-cons_head x (label ∷ next ∷ labels) = refl

dotted-empty_label : (s : Str) → dotted ([] ∷ split 46 s) ≡ 46 ∷ dotted (split 46 s)
unfolding split cons_head
dotted-empty_label [] = refl
dotted-empty_label (x ∷ s) = starts (x == 46) (split 46 s)
  where
    starts :
        (here : Bool) (rest : List Str)
        → dotted ([] ∷ (if here then [] ∷ rest else cons_head x rest))
          ≡ 46 ∷ dotted (if here then [] ∷ rest else cons_head x rest)
    starts true rest = refl
    starts false [] = refl
    starts false (w ∷ ws) = refl

dotted-split : (s : Str) → dotted (split 46 s) ≡ s
unfolding split
dotted-split [] = refl
dotted-split (x ∷ s) = elim (Bool-cases (x == 46)) [
  | inl here ↦ rw here (dotted-empty_label s ∙ ground (arith, dotted-split s))
  | inr other ↦ rw other (dotted-cons_head x (split 46 s) ∙ ap (λ t. x ∷ t) (dotted-split s))
]

all-AreLabelBytes : (label : Str) → all is_label_byte label ≡ true → AreLabelBytes label
unfolding all is_label_byte is_ascii_lowercase is_ascii_digit
all-AreLabelBytes [] h = tt
all-AreLabelBytes (b ∷ label) h = (grind (arith, h), all-AreLabelBytes label (ground (arith, h)))

validate_labels-AreLabels : (labels : List Str) → validate_labels labels ≡ ok tt → AreLabels labels
unfolding validate_labels validate_label
validate_labels-AreLabels [] h = tt
validate_labels-AreLabels (label ∷ labels) h =
    let (u, checked, h') = >>=-eq-ok (validate_label label) _ h in
    let (u1, some_byte, h1) = >>=-eq-ok (reject_if (length label == 0) empty_label) _ checked in
    let (u2, short, h2) =
      >>=-eq-ok (reject_if (ltb max_label_len (length label)) label_too_long) _ h1 in
    (
      (
        ground (arith, some_byte),
        ground (arith, short),
        all-AreLabelBytes label (ground (arith, h2)),
      ),
      validate_labels-AreLabels labels h',
    )

validate_dns_name-text :
    (host : Hostname)
    → validate_dns_name host.text ≡ ok tt
    → ¬ (IsQuad host.text)
    → IsCanonical host
unfolding validate_dns_name
validate_dns_name-text host h no_quad =
    let (u1, some_byte, h1) = >>=-eq-ok (reject_if (length host.text == 0) empty) _ h in
    let (u2, short, h2) =
      >>=-eq-ok (reject_if (ltb max_name_len (length host.text)) too_long) _ h1 in
    record {
      least = ground (arith, some_byte);
      most = ground (arith, short);
      labels = split 46 host.text;
      labelled = sym (dotted-split host.text);
      valid = validate_labels-AreLabels (split 46 host.text) h2;
      no_quad = no_quad;
    }

parse_ip-no-IsQuad : (s : Str) → is_some (parse_ip s) ≡ false → ¬ (IsQuad s)
parse_ip-no-IsQuad s h q = let (octets, read) = parse_ip-IsQuad s q in cc (ap is_some read, h)

-- What `parse` checks of a text.
record IsChecked (host : Hostname) : Type 0 where
  lowered : IsLower host.text
  dns : validate_dns_name host.text ≡ ok tt
  no_ip : is_some (parse_ip host.text) ≡ false

parse-IsChecked :
    (name : Str) (host : Hostname)
    → Hostname.parse name ≡ ok host
    → (host.text ≡ to_ascii_lowercase name) × IsChecked host
unfolding Hostname.parse
parse-IsChecked name host h =
    let (u, valid, h') = >>=-eq-ok (validate_dns_name (to_ascii_lowercase name)) _ h in
    elim (Bool-cases (is_some (parse_ip (to_ascii_lowercase name)))) [
      | inl ip ↦ ground arith
      | inr name_only ↦ (
        ground arith,
        record {
          lowered = ground (arith, to_ascii_lowercase_idem name);
          dns = ground arith;
          no_ip = ground arith;
        },
      )
    ]

-- A name that is accepted becomes its lower-case form, which has from 1 to 253 bytes, is made of labels with a
-- dot between each two, each of 1 to 63 small letters, digits, hyphens and underscores, and does not write an
-- IPv4 address as four numbers.
pub parse-IsCanonical :
    (name : Str) (host : Hostname)
    → Hostname.parse name ≡ ok host
    → (host.text ≡ to_ascii_lowercase name) × IsCanonical host
parse-IsCanonical name host h =
    let (text, c) = parse-IsChecked name host h in
    (text, validate_dns_name-text host c.dns (parse_ip-no-IsQuad host.text c.no_ip))

-- Parsing the text of a parsed hostname yields that hostname.
parse_idem :
    (name : Str) (host : Hostname)
    → Hostname.parse name ≡ ok host
    → Hostname.parse host.text ≡ ok host
unfolding Hostname.parse
parse_idem name host h = let c = (parse-IsChecked name host h).1 in rw (c.lowered, c.dns, c.no_ip)
