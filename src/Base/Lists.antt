-- ===== src/Base/Lists.antt =====
-- Arrays of the C code as lists with native indices, and windows onto them.
use Prim.Native.Nat.{ℕ, zero, suc, ◌+◌, ◌-◌, ◌≤◌, ◌<◌, min}
use mathlib.Core.Path.{◌≡◌, refl, sym, ap, ◌∙◌}
use mathlib.Core.List.{List, [], ◌∷◌, ◌++◌}
use mathlib.Core.Option.{Option, none, some}
use native.Mathlib.Omega.{arith}

module _ {ℓ} {A : Type ℓ} where
  abbrev pub length : List A → ℕ
  length [] = 0
  length (x ∷ xs) = suc (length xs)

  abbrev pub get_elem? : List A → ℕ → Option A
  get_elem? [] i = none
  get_elem? (x ∷ xs) zero = some x
  get_elem? (x ∷ xs) (suc i) = get_elem? xs i

  -- A write out of bounds changes nothing.
  abbrev pub set : List A → ℕ → A → List A
  set [] i v = []
  set (x ∷ xs) zero v = v ∷ xs
  set (x ∷ xs) (suc i) v = x ∷ set xs i v

  abbrev pub take : ℕ → List A → List A
  take zero xs = []
  take (suc n) [] = []
  take (suc n) (x ∷ xs) = x ∷ take n xs

  abbrev pub drop : ℕ → List A → List A
  drop zero xs = xs
  drop (suc n) [] = []
  drop (suc n) (x ∷ xs) = drop n xs

  abbrev pub replicate : ℕ → A → List A
  replicate zero a = []
  replicate (suc n) a = a ∷ replicate n a

  -- `bs` copied into the array from index `i` on; what does not fit is left out.
  abbrev pub store : List A → ℕ → List A → List A
  store [] i bs = []
  store (x ∷ xs) (suc i) bs = x ∷ store xs i bs
  store (x ∷ xs) zero [] = x ∷ xs
  store (x ∷ xs) zero (b ∷ bs) = b ∷ store xs zero bs

module _ {ℓ} {A : Type ℓ} where
  pub length-append : (xs ys : List A) → length (xs ++ ys) ≡ length xs + length ys
  length-append [] ys = omega arith
  length-append (x ∷ xs) ys = omega (arith, length-append xs ys)

  pub length-set : (xs : List A) (i : ℕ) (v : A) → length (set xs i v) ≡ length xs
  length-set [] i v = refl
  length-set (x ∷ xs) zero v = refl
  length-set (x ∷ xs) (suc i) v = ap suc (length-set xs i v)

  pub length-take : (n : ℕ) (xs : List A) → length (take n xs) ≡ min n (length xs)
  length-take zero xs = omega arith
  length-take (suc n) [] = omega arith
  length-take (suc n) (x ∷ xs) = omega (arith, length-take n xs)

  pub length-drop : (n : ℕ) (xs : List A) → length (drop n xs) ≡ length xs - n
  length-drop zero xs = omega arith
  length-drop (suc n) [] = omega arith
  length-drop (suc n) (x ∷ xs) = omega (arith, length-drop n xs)

  pub length-store : (xs : List A) (i : ℕ) (bs : List A) → length (store xs i bs) ≡ length xs
  length-store [] i bs = refl
  length-store (x ∷ xs) (suc i) bs = ap suc (length-store xs i bs)
  length-store (x ∷ xs) zero [] = refl
  length-store (x ∷ xs) zero (b ∷ bs) = ap suc (length-store xs zero bs)

  take-nil : (n : ℕ) → take {A = A} n [] ≡ []
  take-nil zero = refl
  take-nil (suc n) = refl

  pub take-append-drop : (n : ℕ) (xs : List A) → take n xs ++ drop n xs ≡ xs
  take-append-drop zero xs = refl
  take-append-drop (suc n) [] = refl
  take-append-drop (suc n) (x ∷ xs) = ap (◌∷◌ x) (take-append-drop n xs)

  -- The first `n` elements of `take n xs ++ ys`, where `xs` has as many.
  pub take-take-append :
      (n : ℕ) (xs ys : List A) → n ≤ length xs → take n (take n xs ++ ys) ≡ take n xs
  take-take-append zero xs ys h = refl
  take-take-append (suc n) [] ys h = elim h [ ]
  take-take-append (suc n) (x ∷ xs) ys h = ap (◌∷◌ x) (take-take-append n xs ys (omega arith))

  pub take-store :
      (xs bs : List A) (m : ℕ) → m ≡ length bs → m ≤ length xs → take m (store xs zero bs) ≡ bs
  take-store xs [] zero e h = refl
  take-store xs [] (suc m) e h = absurd (omega arith)
  take-store xs (b ∷ bs) zero e h = absurd (omega arith)
  take-store [] (b ∷ bs) (suc m) e h = elim h [ ]
  take-store (x ∷ xs) (b ∷ bs) (suc m) e h =
      ap (◌∷◌ b) (take-store xs bs m (omega arith) (omega arith))

  -- What a window shows after bytes are stored just past it: the old bytes, then the new ones.
  pub window-store :
      (xs bs : List A) (r n w m : ℕ)
      → w ≡ r + n
      → m ≡ n + length bs
      → w + length bs ≤ length xs
      → take m (drop r (store xs w bs)) ≡ take n (drop r xs) ++ bs
  window-store xs bs zero zero zero m e f h = take-store xs bs m (omega arith) (omega arith)
  window-store xs bs zero zero (suc w) m e f h = absurd (omega arith)
  window-store xs bs zero (suc n) zero m e f h = absurd (omega arith)
  window-store xs bs (suc r) n zero m e f h = absurd (omega arith)
  window-store [] bs zero (suc n) (suc w) m e f h = absurd (omega arith)
  window-store [] bs (suc r) n (suc w) m e f h = absurd (omega arith)
  window-store (x ∷ xs) bs zero (suc n) (suc w) zero e f h = absurd (omega arith)
  window-store (x ∷ xs) bs zero (suc n) (suc w) (suc m) e f h =
      ap (◌∷◌ x) (window-store xs bs zero n w m (omega arith) (omega arith) (omega arith))
  window-store (x ∷ xs) bs (suc r) n (suc w) m e f h =
      window-store xs bs r n w m (omega arith) f (omega arith)

  pub drop-drop : (xs : List A) (r k s : ℕ) → s ≡ r + k → drop k (drop r xs) ≡ drop s xs
  drop-drop xs zero k s e = ap (λ i. drop i xs) (omega arith)
  drop-drop [] (suc r) zero zero e = refl
  drop-drop [] (suc r) (suc k) zero e = refl
  drop-drop [] (suc r) zero (suc s) e = refl
  drop-drop [] (suc r) (suc k) (suc s) e = refl
  drop-drop (x ∷ xs) (suc r) k zero e = absurd (omega arith)
  drop-drop (x ∷ xs) (suc r) k (suc s) e = drop-drop xs r k s (omega arith)

  pub drop-take : (xs : List A) (k n : ℕ) → drop k (take n xs) ≡ take (n - k) (drop k xs)
  drop-take xs zero n = ap (λ i. take i xs) (omega arith)
  drop-take xs (suc k) zero = ap (λ i. take i (drop (suc k) xs)) {x = 0} (omega arith)
  drop-take [] (suc k) (suc n) = sym (take-nil (suc n - suc k))
  drop-take (x ∷ xs) (suc k) (suc n) = drop-take xs k n ∙ ap (λ i. take i (drop k xs)) (omega arith)

  -- Moving the start of a window drops its first elements.
  pub window-drop :
      (xs : List A) (k r n : ℕ) → take (n - k) (drop (r + k) xs) ≡ drop k (take n (drop r xs))
  window-drop xs k r n =
      ap (take (n - k)) (sym (drop-drop xs r k (r + k) refl)) ∙ sym (drop-take (drop r xs) k n)

  -- A window that is moved to the start of its array is what the array now starts with.
  pub window-move :
      (xs : List A) (r n : ℕ)
      → r + n ≤ length xs
      → take n (store xs 0 (take n (drop r xs))) ≡ take n (drop r xs)
  window-move xs r n h =
      let fits : length (take n (drop r xs)) ≡ n =
        omega (arith, length-take n (drop r xs), length-drop r xs) in
      take-store xs (take n (drop r xs)) n (sym fits) (omega arith)

  pub store-nil : (xs : List A) (i : ℕ) → store xs i [] ≡ xs
  store-nil [] i = refl
  store-nil (x ∷ xs) zero = refl
  store-nil (x ∷ xs) (suc i) = ap (◌∷◌ x) (store-nil xs i)

  -- A store is a write, then the store of the rest.
  pub store-set :
      (xs : List A) (i : ℕ) (b : A) (bs : List A)
      → store (set xs i b) (i + 1) bs ≡ store xs i (b ∷ bs)
  store-set [] i b bs = refl
  store-set (x ∷ xs) zero b bs = refl
  store-set (x ∷ xs) (suc i) b bs =
      ap (λ k. store (x ∷ set xs i b) k bs) {y = suc (i + 1)} (omega arith)
      ∙ ap (◌∷◌ x) (store-set xs i b bs)

  pub set-store : (xs : List A) (i : ℕ) (c : A) → set xs i c ≡ store xs i (c ∷ [])
  set-store xs i c = sym (store-nil (set xs i c) (i + 1)) ∙ store-set xs i c []

  -- An index in range, and the list from there on.
  pub get_elem?-drop :
      (xs : List A) (i : ℕ)
      → i < length xs
      → (x : A) × (get_elem? xs i ≡ some x) × (drop i xs ≡ x ∷ drop (i + 1) xs)
  get_elem?-drop [] i h = absurd (omega arith)
  get_elem?-drop (x ∷ xs) zero h =
      (x, refl, ap (λ k. x ∷ drop k (x ∷ xs)) {x = 1} {y = zero + 1} (omega arith))
  get_elem?-drop (x ∷ xs) (suc i) h =
      let (y, e, q) = get_elem?-drop xs i (omega arith) in
      (y, e, q ∙ ap (λ k. y ∷ drop k (x ∷ xs)) {x = suc (i + 1)} {y = suc i + 1} (omega arith))
