-- ===== src/Protocol/Reader.antt =====
-- crates/sni_router/src/protocol/reader.rs: a cursor over untrusted bytes. A reader is the bytes that
-- remain; a read gives back what it read and the reader behind it.
pub mod Fields
use sni_router.Common.{
  ℕ, ◌+◌, ◌*◌, ◌≡◌, Bool, true, false, List, [], ◌∷◌, Option, none, some, length, take, drop, ltb,
  if◌then◌else◌,
}
use sni_router.Common.Optional.{◌>>=◌}

abbrev pub Reader : Type 0
Reader = List ℕ

unfoldable pub is_empty : Reader → Bool
is_empty [] = true
is_empty (b ∷ bs) = false

unfoldable pub bytes : Reader → ℕ → Option (List ℕ × Reader)
bytes r len = if ltb (length r) len then none else some (take len r, drop len r)

-- `b[0]`, and `u16::from_be_bytes([b[0], b[1]])`.
abbrev pub byte : List ℕ → ℕ
byte [] = 0
byte (b ∷ _) = b

abbrev pub be16 : List ℕ → ℕ
be16 (high ∷ low ∷ _) = high * 256 + low
be16 _ = 0

unfoldable pub u8 : Reader → Option (ℕ × Reader)
unfolding bytes
u8 r = do (b, rest) ← bytes r 1; some (byte b, rest)

unfoldable pub u16 : Reader → Option (ℕ × Reader)
unfolding bytes
u16 r = do (b, rest) ← bytes r 2; some (be16 b, rest)

unfoldable pub vec8 : Reader → Option (List ℕ × Reader)
unfolding u8
vec8 r = do (len, rest) ← u8 r; bytes rest len

unfoldable pub vec16 : Reader → Option (List ℕ × Reader)
unfolding u16
vec16 r = do (len, rest) ← u16 r; bytes rest len
