-- ===== src/Delivery/Resolver/Answers.antt =====
-- crates/sni_router/src/delivery/resolver.rs: the equality of keys, and the rotation of the addresses.
use sni_router.Common.{
  ℕ, ◌%◌, ◌≡◌, ◌↔◌, refl, sym, true, List, ◌++◌, length, take, drop, max, take-append-drop, arith,
  ==_iff,
}
use sni_router.Lookup.Text.{str_eq_iff}
use sni_router.Lookup.Ip.{SocketAddr}
use sni_router.Delivery.Resolver.{Key, key_eq, rotated}

pub key_eq_iff : (a b : Key) → (key_eq a b ≡ true) ↔ (a ≡ b)
unfolding key_eq
key_eq_iff a b = (
  λ h. ground (arith, (str_eq_iff a.name b.name).0, (==_iff a.port b.port).0),
  λ h. ground (arith, (str_eq_iff a.name b.name).1, (==_iff a.port b.port).1),
)

-- The rotation only turns the addresses: some beginning of them moves to the end, shorter than the whole
-- unless there are none.
rotated-turns :
    (rotation : ℕ) (addrs : List SocketAddr)
    → (front : List SocketAddr) × (back : List SocketAddr) × (addrs ≡ front ++ back)
      × ((rotated rotation addrs).0 ≡ back ++ front)
unfolding rotated
rotated-turns rotation addrs =
    let start = rotation % max (length addrs) 1 in
    (take start addrs, drop start addrs, sym (take-append-drop start addrs), refl)
