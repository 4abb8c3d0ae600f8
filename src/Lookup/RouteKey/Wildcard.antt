-- ===== src/Lookup/RouteKey/Wildcard.antt =====
-- crates/sni_router/src/lookup/types.rs: which wildcard key covers a hostname.
use sni_router.Common.{
  ◌≡◌, ◌↔◌, ap, sym, true, false, ◌∷◌, ◌++◌, some, arith, Option-cases, Bool-cases, inl, inr,
}
use sni_router.Lookup.Text.{Str, contains, split_once}
use sni_router.Lookup.Text.Split.{split_once-some, split_once-append}
use sni_router.Lookup.Hostname
use sni_router.Lookup.Hostname.{Hostname}
use sni_router.Lookup.RouteKey.{RouteKey, wildcard_prefix, wildcard_for}

-- A hostname is one label below the parent of a wildcard key, and the parent is no bare top-level
-- domain.
pub record Covers (key : RouteKey) (host : Hostname) : Type 0 where
  pub label : Str
  pub parent : Str
  pub host_text : host.text ≡ label ++ b'.' ∷ parent
  pub one_label : contains b'.' label ≡ false
  pub two_labels : contains b'.' parent ≡ true
  pub key_is : key ≡ record { text = wildcard_prefix ++ parent; wildcard = true }

pub wildcard_for-Covers :
    (key : RouteKey) (host : Hostname) → wildcard_for host ≡ some key → Covers key host
unfolding wildcard_for Hostname.parent
wildcard_for-Covers key host h = elim (Option-cases (split_once b'.' host.text)) [
  | inl missing ↦ ground arith
  | inr ((label, parent), cut) ↦
      let (whole, one) = split_once-some b'.' host.text label parent cut in
      elim (Bool-cases (contains b'.' parent)) [
        | inr top ↦ ground arith
        | inl two ↦ record {
          label = label;
          parent = parent;
          host_text = whole;
          one_label = one;
          two_labels = two;
          key_is = ground arith;
        }
      ]
]

pub Covers-wildcard_for :
    (key : RouteKey) (host : Hostname) → Covers key host → wildcard_for host ≡ some key
unfolding wildcard_for Hostname.parent
Covers-wildcard_for key host c =
    rw
      (
        c.host_text,
        Hostname.parent,
        split_once-append b'.' c.label c.parent c.one_label,
        c.two_labels,
      )
      (ap some (sym c.key_is))

-- The wildcard candidate of a hostname is the one key whose parent the hostname extends by one label.
pub wildcard_for_iff :
    (key : RouteKey) (host : Hostname) → (wildcard_for host ≡ some key) ↔ Covers key host
wildcard_for_iff key host = (wildcard_for-Covers key host, Covers-wildcard_for key host)
