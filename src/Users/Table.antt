-- ===== src/Users/Table.antt =====
-- The table of users as a map from names: what a search by index finds, and what the entries that
-- an operation moves or changes look up to.
use protos_tpe.Base.{
  ℕ, suc, ◌+◌, ◌≤◌, ◌≡◌, ◌⊎◌, inl, inr, refl, ap, ◌∙◌, true, Option, none, some, List, [], ◌∷◌,
  ◌++◌, arith, if◌then◌else◌, Bool-cases, length, get_elem?, set, take, drop,
}
use protos_tpe.Users.Text.{strcmp_eq, strcmp_eq_iff}
use protos_tpe.Users.{User, index_from, fits_field, max_users_registered, remove_at}

-- The user that a name stands for.
unfoldable pub find : List User → List ℕ → Option User
find [] k = none
find (u ∷ us) k = let rest = find us k in if strcmp_eq u.username k then some u else rest

-- No name stands for two users.
abbrev pub Distinct : List User → Type 0
Distinct [] = Unit
Distinct (u ∷ us) = (find us u.username ≡ none) × Distinct us

abbrev pub AllFit : List User → Type 0
AllFit [] = Unit
AllFit (u ∷ us) =
    (fits_field u.username ≡ true)
    × (fits_field u.password ≡ true)
    × (u.access_level ≤ 1)
    × AllFit us

-- The invariant of the table.
pub record IsValid (us : List User) : Type 0 where
  pub distinct : Distinct us
  pub bounded : length us ≤ max_users_registered
  pub fit : AllFit us

-- the table with the user of a name taken out, and with a new password for it
unfoldable pub erase : List User → List ℕ → List User
erase [] k = []
erase (u ∷ us) k = if strcmp_eq u.username k then us else u ∷ erase us k

unfoldable pub renew : List User → List ℕ → List ℕ → List User
renew [] k p = []
renew (u ∷ us) k p =
    if strcmp_eq u.username k then record u { password = p } ∷ us else u ∷ renew us k p

-- What `get_user_index` finds: the index of the first entry of the name, where there is one.
pub record Located (us : List User) (k : List ℕ) (i : ℕ) : Type 0 where
  pub at : ℕ
  pub who : User
  pub index : index_from us k i ≡ some (i + at)
  pub entry : get_elem? us at ≡ some who
  pub found : find us k ≡ some who
  pub removed : remove_at us at ≡ erase us k
  pub renewed : (p : List ℕ) → set us at (record who { password = p }) ≡ renew us k p

pub locate :
    (us : List User) (k : List ℕ) (i : ℕ)
    → ((index_from us k i ≡ none) × (find us k ≡ none)) ⊎ Located us k i
unfolding index_from find erase renew
locate [] k i = inl (refl, refl)
locate (u ∷ us) k i = elim (Bool-cases (strcmp_eq u.username k)) [
  | inl y ↦ inr (record {
    at = 0;
    who = u;
    index = rw y (ap some (omega arith));
    entry = refl;
    found = rw y;
    removed = rw y (ap (λ n. drop n (u ∷ us)) {x = 0 + 1} {y = 1} (omega arith));
    renewed = λ p. rw y;
  })
  | inr n ↦ elim (locate us k (i + 1)) [
    | inl (a, b) ↦ inl (rw n a, rw n b)
    | inr l ↦ inr (record {
      at = suc l.at;
      who = l.who;
      index = rw n (l.index ∙ ap some (omega arith));
      entry = l.entry;
      found = rw n l.found;
      removed = rw n (
          ap (λ m. u ∷ (take l.at us ++ drop m (u ∷ us))) {y = suc (l.at + 1)} (omega arith)
          ∙ ap (◌∷◌ u) l.removed);
      renewed = λ p. rw n (ap (◌∷◌ u) (l.renewed p));
    })
  ]
]

pub find-append :
    (us : List User) (v : User) (k : List ℕ)
    → find (us ++ v ∷ []) k ≡ elim (find us k) [
      | some u ↦ some u
      | none ↦ if strcmp_eq v.username k then some v else none
    ]
unfolding find
find-append [] v k = refl
find-append (u ∷ us) v k = ground (arith, find-append us v k)

pub find-erase :
    (us : List User) (k j : List ℕ)
    → Distinct us
    → find (erase us k) j ≡ (if strcmp_eq k j then none else find us j)
unfolding find erase
find-erase [] k j d = ground arith
find-erase (u ∷ us) k j d = ground (
  arith,
  strcmp_eq_iff k j,
  strcmp_eq_iff u.username k,
  strcmp_eq_iff u.username j,
  find-erase us k j d.1,
)

pub find-renew :
    (us : List User) (k p j : List ℕ)
    → find (renew us k p) j ≡ (
        if strcmp_eq k j
        then (elim (find us k) [ none ↦ none | some u ↦ some (record u { password = p }) ])
        else find us j)
unfolding find renew
find-renew [] k p j = ground arith
find-renew (u ∷ us) k p j = ground (
  arith,
  strcmp_eq_iff k j,
  strcmp_eq_iff u.username k,
  strcmp_eq_iff u.username j,
  find-renew us k p j,
)
