-- ===== src/Field.antt =====
-- A text of announced length, which the parsers of src/server/auth.c and
-- src/server/monitor/monitor_auth.c gather byte by byte in an array, with a NUL behind it.
use protos_tpe.Base.{
  ℕ, zero, suc, ◌+◌, ◌<◌, ◌≡◌, refl, ap, ◌∙◌, Option, none, some, List, [], ◌∷◌, ◌++◌, append_assoc,
  append-nil, arith, ltb, if◌then◌else◌, length, set, take, get_elem?, length-set, lt→ltb,
}
use protos_tpe.Users.Text.{c_string}

-- `array[i++] = c; array[i] = '\0';`, and `none` where one of the two is outside the array
unfoldable pub put_char : List ℕ → ℕ → ℕ → Option (List ℕ)
put_char array i c =
    if ltb (i + 1) (length array) then some (set (set array i c) (i + 1) 0) else none

-- the array after all of `cs` from index `i` on
unfoldable pub put_chars : List ℕ → ℕ → List ℕ → List ℕ
put_chars array i [] = array
put_chars array i (c ∷ cs) = put_chars (set (set array i c) (i + 1) 0) (i + 1) cs

pub put_char_in :
    (array : List ℕ) (i c : ℕ)
    → i + 1 < length array
    → put_char array i c ≡ some (set (set array i c) (i + 1) 0)
unfolding put_char
put_char_in array i c h = rw (lt→ltb (i + 1) (length array) h)

take-set :
    (xs : List ℕ) (i c z : ℕ)
    → i < length xs
    → take (suc i) (set (set xs i c) (suc i) z) ≡ take i xs ++ c ∷ []
take-set [] i c z h = absurd (omega arith)
take-set (x ∷ xs) zero c z h = refl
take-set (x ∷ xs) (suc i) c z h = ap (◌∷◌ x) (take-set xs i c z (omega arith))

pub get_elem?-set : (xs : List ℕ) (i z : ℕ) → i < length xs → get_elem? (set xs i z) i ≡ some z
get_elem?-set [] i z h = absurd (omega arith)
get_elem?-set (x ∷ xs) zero z h = refl
get_elem?-set (x ∷ xs) (suc i) z h = get_elem?-set xs i z (omega arith)

length-set_twice : (xs : List ℕ) (i c j z : ℕ) → length (set (set xs i c) j z) ≡ length xs
length-set_twice xs i c j z = length-set (set xs i c) j z ∙ length-set xs i c

pub length-put_chars : (cs array : List ℕ) (i : ℕ) → length (put_chars array i cs) ≡ length array
unfolding put_chars
length-put_chars [] array i = refl
length-put_chars (c ∷ cs) array i =
    length-put_chars cs (set (set array i c) (i + 1) 0) (i + 1)
    ∙ length-set_twice array i c (i + 1) 0

-- What the array holds: what it held before index `i`, the new bytes, and a NUL.
put_chars-holds :
    (cs array : List ℕ) (i n : ℕ)
    → n ≡ i + length cs
    → n < length array
    → get_elem? array i ≡ some 0
    → (take n (put_chars array i cs) ≡ take i array ++ cs)
      × (get_elem? (put_chars array i cs) n ≡ some 0)
unfolding put_chars
put_chars-holds [] array i n e h z = let p : n ≡ i = omega arith in (rw (p, append-nil), rw p z)
put_chars-holds (c ∷ cs) array i n e h z =
    let next = set (set array i c) (i + 1) 0 in
    let one : i + 1 ≡ suc i = omega arith in
    let (a, b) =
      put_chars-holds cs next (i + 1) n (omega arith)
        (omega (arith, length-set_twice array i c (i + 1) 0))
        (get_elem?-set (set array i c) (i + 1) 0 (omega (arith, length-set array i c))) in
    (
      a
          ∙ ap (λ k. take k (set (set array i c) k 0) ++ cs) one
          ∙ ap (λ l. l ++ cs) (take-set array i c 0 (omega arith))
          ∙ append_assoc (take i array) (c ∷ []) cs,
      b,
    )

pub c_string-take :
    (array : List ℕ) (n : ℕ) → get_elem? array n ≡ some 0 → c_string array ≡ c_string (take n array)
c_string-take [] n z = cc
c_string-take (x ∷ xs) zero z = ground arith
c_string-take (x ∷ xs) (suc n) z = ground (arith, c_string-take xs n z)

-- Read as a string, the array is the text that was gathered, up to its first NUL.
pub c_string-put_chars :
    (cs array : List ℕ)
    → length cs < length array
    → get_elem? array 0 ≡ some 0
    → c_string (put_chars array 0 cs) ≡ c_string cs
c_string-put_chars cs array h z =
    let (a, b) = put_chars-holds cs array 0 (length cs) (omega arith) h z in
    c_string-take (put_chars array 0 cs) (length cs) b ∙ ap c_string a
