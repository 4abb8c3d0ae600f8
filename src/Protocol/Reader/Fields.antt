-- ===== src/Protocol/Reader/Fields.antt =====
-- Reading a field that was written, and how much a read takes.
use sni_router.Common.{
  ℕ, ◌+◌, ◌*◌, ◌/◌, ◌%◌, ◌≤◌, ◌≡◌, refl, ap, sym, ◌∙◌, false, List, [], ◌∷◌, ◌++◌, some, arith,
  length, length-append, length-take, take, drop, take-append_self, drop-append_self,
  take-append-drop, append-nil, ltb, ltb→le, le→ltb,
}
use sni_router.Protocol.Reader.{Reader, is_empty, bytes, u8, u16, vec8, vec16}

-- A number in two bytes, the high one first.
abbrev pub put16 : ℕ → List ℕ
put16 n = n / 256 ∷ n % 256 ∷ []

abbrev pub put_vec8 : List ℕ → List ℕ
put_vec8 xs = length xs ∷ xs

abbrev pub put_vec16 : List ℕ → List ℕ
put_vec16 xs = put16 (length xs) ++ xs

pub bytes-append :
    (n : ℕ) (xs rest : List ℕ) → n ≡ length xs → bytes (xs ++ rest) n ≡ some (xs, rest)
unfolding bytes
bytes-append n xs rest e =
    let enough : ltb (length (xs ++ rest)) n ≡ false =
      le→ltb _ _ (omega (arith, length-append xs rest)) in
    rw (enough, take-append_self n xs rest e, drop-append_self n xs rest e)

pub u16-put : (n : ℕ) (rest : List ℕ) → u16 (put16 n ++ rest) ≡ some (n, rest)
unfolding u16
u16-put n rest =
    let whole : n / 256 * 256 + n % 256 ≡ n = omega arith in
    rw (bytes-append 2 (put16 n) rest refl, whole)

pub u8-put : (n : ℕ) (rest : List ℕ) → u8 (n ∷ rest) ≡ some (n, rest)
unfolding u8
u8-put n rest = rw (bytes-append 1 (n ∷ []) rest refl)

pub vec8-put : (xs rest : List ℕ) → vec8 (put_vec8 xs ++ rest) ≡ some (xs, rest)
unfolding vec8
vec8-put xs rest = rw (u8-put (length xs) (xs ++ rest)) (bytes-append (length xs) xs rest refl)

pub vec16-put : (xs rest : List ℕ) → vec16 (put_vec16 xs ++ rest) ≡ some (xs, rest)
unfolding vec16
vec16-put xs rest = rw (u16-put (length xs) (xs ++ rest)) (bytes-append (length xs) xs rest refl)

pub vec16-put_all : (xs : List ℕ) → vec16 (put_vec16 xs) ≡ some (xs, [])
vec16-put_all xs = rw append-nil at (vec16-put xs [])

-- What is read and what remains are the bytes that were there.
pub bytes-split :
    (r : Reader) (n : ℕ) (xs rest : List ℕ)
    → bytes r n ≡ some (xs, rest)
    → (r ≡ xs ++ rest) × (length xs ≡ n)
unfolding bytes
bytes-split r n xs rest h =
    let enough : ltb (length r) n ≡ false = ground arith in
    let size = length-take n r in
    let le = ltb→le _ _ enough in
    let e : take n r ≡ xs = ground arith in
    let d : drop n r ≡ rest = ground arith in
    (rw (← e, ← d, take-append-drop n r), ap length (sym e) ∙ omega arith)

pub u8-split : (r : Reader) (n : ℕ) (rest : List ℕ) → u8 r ≡ some (n, rest) → r ≡ n ∷ rest
unfolding u8 bytes
u8-split [] n rest h = ground arith
u8-split (a ∷ r) n rest h = ground arith

pub u16-split :
    (r : Reader) (n : ℕ) (rest : List ℕ)
    → u16 r ≡ some (n, rest)
    → (high : ℕ) × (low : ℕ) × (r ≡ high ∷ low ∷ rest) × (n ≡ high * 256 + low)
unfolding u16 bytes
u16-split [] n rest h = ground arith
u16-split (a ∷ []) n rest h = ground arith
u16-split (a ∷ b ∷ r) n rest h = (a, b, ground arith, ground arith)

pub is_empty-false : (xs : List ℕ) → 1 ≤ length xs → is_empty xs ≡ false
unfolding is_empty
is_empty-false [] h = absurd (omega arith)
is_empty-false (x ∷ xs) h = refl
