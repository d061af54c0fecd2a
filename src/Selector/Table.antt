-- ===== src/Selector/Table.antt =====
-- The items of the table: what a write to one of them leaves, and which one has the greatest
-- descriptor.
use protos_tpe.Base.{
  ℕ, zero, suc, ◌<◌, ◌≤◌, ◌≡◌, ◌≢◌, ◌⊎◌, inl, inr, refl, ap, ◌∙◌, none, some, List, [], ◌∷◌, ◌++◌,
  arith, ltb, ◌>>=◌, if◌then◌else◌, get_elem?, set, take, replicate, Option-cases,
}
use protos_tpe.Selector.{Item, max_from}

module _ {A : Type 0} where
  pub get-set_same :
      (xs : List A) (i : ℕ) (v w : A) → get_elem? xs i ≡ some w → get_elem? (set xs i v) i ≡ some v
  get-set_same [] i v w h = cc
  get-set_same (x ∷ xs) zero v w h = refl
  get-set_same (x ∷ xs) (suc i) v w h = get-set_same xs i v w h

  pub get-set_other :
      (xs : List A) (i j : ℕ) (v : A) → j ≢ i → get_elem? (set xs i v) j ≡ get_elem? xs j
  get-set_other [] i j v n = refl
  get-set_other (x ∷ xs) zero zero v n = absurd (omega (arith, n))
  get-set_other (x ∷ xs) zero (suc j) v n = refl
  get-set_other (x ∷ xs) (suc i) zero v n = refl
  get-set_other (x ∷ xs) (suc i) (suc j) v n = get-set_other xs i j v (omega (arith, n))

  pub get-take : (xs : List A) (n i : ℕ) → i < n → get_elem? (take n xs) i ≡ get_elem? xs i
  get-take xs zero i h = absurd (omega arith)
  get-take [] (suc n) i h = refl
  get-take (x ∷ xs) (suc n) zero h = refl
  get-take (x ∷ xs) (suc n) (suc i) h = get-take xs n i (omega arith)

  pub get-take-some :
      (xs : List A) (n i : ℕ) (v : A) → get_elem? (take n xs) i ≡ some v → get_elem? xs i ≡ some v
  get-take-some xs zero i v h = cc
  get-take-some [] (suc n) i v h = cc
  get-take-some (x ∷ xs) (suc n) zero v h = h
  get-take-some (x ∷ xs) (suc n) (suc i) v h = get-take-some xs n i v h

  -- In an array that is made longer, an index shows what it did, or one of the new entries.
  pub get-grown :
      (xs : List A) (k i : ℕ) (v w : A)
      → get_elem? (xs ++ replicate k v) i ≡ some w
      → (get_elem? xs i ≡ some w) ⊎ ((get_elem? xs i ≡ none) × (w ≡ v))
  get-grown [] zero i v w h = cc
  get-grown [] (suc k) zero v w h = inr (refl, cc)
  get-grown [] (suc k) (suc i) v w h = get-grown [] k i v w h
  get-grown (x ∷ xs) k zero v w h = inl h
  get-grown (x ∷ xs) k (suc i) v w h = get-grown xs k i v w h

module _ {H D : Type 0} where
  pub max_from-start : (items : List (Item H D)) (max : ℕ) → max ≤ max_from items max
  max_from-start [] max = omega arith
  max_from-start (item ∷ items) max = elim (Option-cases item.fd) [
    | inl n ↦ rw n (max_from-start items max)
    | inr (g, e) ↦ rw e (
        let m = if ltb max g then g else max in
        let step : max ≤ m = ground arith in omega (arith, step, max_from-start items m))
  ]

  pub max_from-bound :
      (items : List (Item H D)) (i f max : ℕ) (item : Item H D)
      → get_elem? items i ≡ some item
      → item.fd ≡ some f
      → f ≤ max_from items max
  max_from-bound [] i f max item h e = cc
  max_from-bound (x ∷ items) zero f max item h e =
      let here : x.fd ≡ some f = ap (λ o. o >>= λ (y : Item H D). y.fd) h ∙ e in
      let m = if ltb max f then f else max in
      let step : f ≤ m = ground arith in rw here (omega (arith, step, max_from-start items m))
  max_from-bound (x ∷ items) (suc i) f max item h e =
      max_from-bound items i f (elim x.fd [ none ↦ max | some g ↦ if ltb max g then g else max ])
        item h e

  pub max_from-le :
      (items : List (Item H D)) (max top : ℕ)
      → max ≤ top
      → ((i f : ℕ) (item : Item H D) → get_elem? items i ≡ some item → item.fd ≡ some f → f ≤ top)
      → max_from items max ≤ top
  max_from-le [] max top h below = h
  max_from-le (x ∷ items) max top h below =
      let rest =
        λ (i f : ℕ) (item : Item H D) (g : get_elem? items i ≡ some item) (e : item.fd ≡ some f).
          below (suc i) f item g e in
      elim (Option-cases x.fd) [
        | inl n ↦ rw n (max_from-le items max top h rest)
        | inr (g, e) ↦ rw e (
            let first : g ≤ top = below 0 g x refl e in
            max_from-le items (if ltb max g then g else max) top (ground (arith, h, first)) rest)
      ]
