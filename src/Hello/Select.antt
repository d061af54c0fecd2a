-- ===== src/Hello/Select.antt =====
-- The choice of a method in `hello_read`: the greatest of those offered that the server accepts.
use protos_tpe.Base.{
  ℕ, zero, suc, ◌+◌, ◌≤◌, ◌<◌, ◌≡◌, ◌⊎◌, inl, inr, refl, Bool, true, false, ◌||◌, some, List, [],
  ◌∷◌, arith, ◌==◌, if◌then◌else◌, Bool-cases, length, take, drop, get_elem?-drop,
}
use mathlib.Core.Path.{subst}
use protos_tpe.Methods.{accepted_method, no_method_accepted}
use protos_tpe.Hello.{choose, select_from, select_method}

abbrev pub All {ℓ κ} : {A : Type ℓ} → (A → Type κ) → List A → Type κ
All P [] = Unit
All P (x ∷ xs) = P x × All P xs

abbrev pub has : List ℕ → ℕ → Bool
has [] m = false
has (x ∷ xs) m = m == x || has xs m

-- The choice among `ms`, where `ok` says which methods are accepted.
abbrev pub IsSelected : (ℕ → Bool) → List ℕ → ℕ → Type 0
IsSelected ok ms r =
    (All (λ m. ok m ≡ false) ms × (r ≡ no_method_accepted))
    ⊎ ((ok r ≡ true) × (has ms r ≡ true) × All (λ m. ok m ≡ true → m ≤ r) ms)

All-mono : {P Q : ℕ → Type 0} → ((m : ℕ) → P m → Q m) → (ms : List ℕ) → All P ms → All Q ms
All-mono h [] a = tt
All-mono h (m ∷ ms) a = (h m a.0, All-mono h ms a.1)

choose_lem :
    (s m : ℕ)
    → s < 128
    → (s ≤ choose s m) × (m ≤ choose s m) × ((choose s m ≡ s) ⊎ (choose s m ≡ m))
unfolding choose
choose_lem s m h = (ground arith, ground arith, ground arith)

module _ (ok : ℕ → Bool) (small : (m : ℕ) → ok m ≡ true → m < 128) where
  -- the loop over the list of the methods, with no array
  pick : List ℕ → Bool × ℕ → Bool × ℕ
  pick [] acc = acc
  pick (m ∷ ms) (found, selected) =
      pick ms (if ok m then (true, choose selected m) else (found, selected))

  record Found (ms : List ℕ) (s : ℕ) (r : Bool × ℕ) : Type 0 where
    found : r.0 ≡ true
    good : ok r.1 ≡ true
    above : s ≤ r.1
    greatest : All (λ m. ok m ≡ true → m ≤ r.1) ms
    origin : (r.1 ≡ s) ⊎ (has ms r.1 ≡ true)

  pick-Found : (ms : List ℕ) (s : ℕ) → ok s ≡ true → Found ms s (pick ms (true, s))
  unfolding pick choose
  pick-Found [] s g = record {
    found = refl;
    good = g;
    above = omega arith;
    greatest = tt;
    origin = inl refl;
  }
  pick-Found (m ∷ ms) s g = elim (Bool-cases (ok m)) [
    | inl y ↦
        let c = choose_lem s m (small s g) in
        let g' : ok (choose s m) ≡ true = elim c.2 [ inl e ↦ rw e g | inr e ↦ rw e y ] in
        let f = pick-Found ms (choose s m) g' in
        rw y (record {
          found = f.found;
          good = f.good;
          above = omega (arith, c.0, f.above);
          greatest = ((λ _. omega (arith, c.1, f.above)), f.greatest);
          origin = ground (arith, f.origin, c.2);
        })
    | inr n ↦
        let f = pick-Found ms s g in
        rw n (record {
          found = f.found;
          good = f.good;
          above = f.above;
          greatest = ((λ y. cc), f.greatest);
          origin = ground (arith, f.origin);
        })
  ]

  pick-IsSelected :
      (ms : List ℕ) (r : Bool × ℕ)
      → pick ms (false, no_method_accepted) ≡ r
      → IsSelected ok ms (if r.0 then r.1 else no_method_accepted)
  unfolding pick choose
  pick-IsSelected [] r e = inl (tt, ground arith)
  pick-IsSelected (m ∷ ms) r e = elim (Bool-cases (ok m)) [
    | inl y ↦
        let f : Found ms m r = subst (Found ms m) (rw y at e) (pick-Found ms m y) in
        let last : r.1 ≡ (if r.0 then r.1 else no_method_accepted) = rw f.found in
        subst (IsSelected ok (m ∷ ms)) last
          (inr (f.good, ground (arith, f.origin), ((λ _. f.above), f.greatest)))
    | inr n ↦ elim (pick-IsSelected ms r (rw n at e)) [
      | inl (none_ok, q) ↦ inl ((n, none_ok), q)
      | inr (g, h, a) ↦ inr (g, ground (arith, h), ((λ y. cc), a))
    ]
  ]

  -- The loop of the code is `pick` over the methods received.
  select_from-pick :
      (array : List ℕ)
      → ((m : ℕ) → accepted_method array m ≡ some (ok m))
      → (methods : List ℕ) (i n : ℕ) (acc : Bool × ℕ) → i + n ≤ length methods
      → select_from array methods i n acc ≡ some (pick (take n (drop i methods)) acc)
  unfolding select_from pick
  select_from-pick array a methods i zero acc h = refl
  select_from-pick array a methods i (suc n) acc h =
      let (m, e, q) = get_elem?-drop methods i (omega arith) in
      rw (e, a m, select_from-pick array a methods (i + 1) n _ (omega arith), q)

  -- What the greeting's methods select: the greatest accepted one of the first `n`, or 0xFF.
  pub select_method-IsSelected :
      (array : List ℕ)
      → ((m : ℕ) → accepted_method array m ≡ some (ok m))
      → (methods : List ℕ) (n : ℕ) → n ≤ length methods
      → (r : ℕ) × (select_method array methods n ≡ some r) × IsSelected ok (take n methods) r
  unfolding select_method
  select_method-IsSelected array a methods n h =
      let r = pick (take n methods) (false, no_method_accepted) in
      (
        if r.0 then r.1 else no_method_accepted,
        rw (select_from-pick array a methods 0 n (false, no_method_accepted) (omega arith)),
        pick-IsSelected (take n methods) r refl,
      )
