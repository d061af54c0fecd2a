-- ===== src/Methods/Accepted.antt =====
-- What `change_auth_methods` accepts is what `accepted_method` finds.
use protos_tpe.Base.{
  ℕ, zero, suc, ◌+◌, ◌<◌, ◌≤◌, ◌≡◌, refl, ap, ◌∙◌, Bool, true, false, ◌||◌, none, some, List, [],
  ◌∷◌, ◌++◌, arith, leb, ◌==◌, if◌then◌else◌, length, set, take, store, store-set, store-nil,
  set-store, length-set, length-store, lt→ltb,
}
use protos_tpe.Methods.{
  auth_ok, auth_error, user_pass, stop, supported_method, first_byte, put, change_from,
  change_auth_methods, search_from, accepted_method,
}

-- Whether a method is named by an argument of the request.
abbrev pub named : List (List ℕ) → ℕ → Bool
named [] m = false
named (a ∷ as') m = m == first_byte a || named as' m

abbrev pub AllSupported : List (List ℕ) → Type 0
AllSupported [] = Unit
AllSupported (a ∷ as') = (supported_method (first_byte a) ≡ true) × AllSupported as'

abbrev pub first_bytes : List (List ℕ) → List ℕ
first_bytes [] = []
first_bytes (a ∷ as') = first_byte a ∷ first_bytes as'

put_lem : (ms : List ℕ) (i m : ℕ) → i < length ms → put ms i m ≡ some (set ms i m)
unfolding put
put_lem ms i m h = rw (lt→ltb i (length ms) h)

change_from-store :
    (as' : List (List ℕ)) (ms : List ℕ) (i : ℕ)
    → AllSupported as'
    → i + length as' < length ms
    → length ms ≤ 255
    → change_from ms i as' ≡ some (auth_ok, store ms i (first_bytes as' ++ stop ∷ []))
unfolding change_from
change_from-store [] ms i s h w = rw (put_lem ms i stop (omega arith), set-store ms i stop)
change_from-store (a ∷ as') ms i s h w =
    rw (s.0, put_lem ms i (first_byte a) (omega arith))
      (ap (λ k. change_from (set ms i (first_byte a)) k as') {y = i + 1} (omega arith)
        ∙ change_from-store as' (set ms i (first_byte a)) (i + 1) s.1
            (omega (arith, length-set ms i (first_byte a)))
            (omega (arith, length-set ms i (first_byte a)))
        ∙ rw store-set)

search_from-store :
    (as' : List (List ℕ)) (ms : List ℕ) (k m : ℕ)
    → AllSupported as'
    → length as' < length ms
    → length as' < k
    → search_from (take k (store ms 0 (first_bytes as' ++ stop ∷ []))) m ≡ some (named as' m)
unfolding search_from supported_method
search_from-store as' ms zero m s h w = absurd (omega arith)
search_from-store as' [] (suc k) m s h w = absurd (omega arith)
search_from-store [] (x ∷ xs) (suc k) m s h w = refl
search_from-store (a ∷ as') (x ∷ []) (suc k) m s h w = absurd (omega arith)
search_from-store (a ∷ as') (x ∷ y ∷ xs) (suc zero) m s h w = absurd (omega arith)
search_from-store (a ∷ []) (x ∷ y ∷ xs) (suc (suc k)) m s h w = ground arith
search_from-store (a ∷ b ∷ as') (x ∷ y ∷ xs) (suc (suc k)) m s h w =
    ground (arith, search_from-store (b ∷ as') (y ∷ xs) (suc k) m s.1 (omega arith) (omega arith))

-- A change of fewer than 128 methods, all supported, is accepted: after it, `accepted_method`
-- accepts exactly the methods that the request names, and none from 128 on, the negative ones.
pub accepted_method-change :
    (as' : List (List ℕ)) (ms : List ℕ)
    → length ms ≡ 255
    → length as' < 128
    → AllSupported as'
    → (ms' : List ℕ) × (change_auth_methods ms (some as') ≡ some (auth_ok, ms'))
      × (length ms' ≡ 255)
      × ((m : ℕ) → accepted_method ms' m ≡ some (if leb 128 m then false else named as' m))
unfolding change_auth_methods accepted_method
accepted_method-change as' ms l h s = (
  store ms 0 (first_bytes as' ++ stop ∷ []),
  change_from-store as' ms 0 s (omega arith) (omega arith),
  length-store ms 0 (first_bytes as' ++ stop ∷ []) ∙ l,
  λ m. ground (arith, search_from-store as' ms 128 m s (omega arith) h),
)

-- A change that is refused because of an argument in its middle: the status is an error, and the
-- methods before that argument are written over the accepted ones, with no terminator behind.
pub change-refused :
    (as' : List (List ℕ)) (bad : List ℕ) (rest : List (List ℕ)) (ms : List ℕ)
    → length ms ≡ 255
    → length as' < 255
    → AllSupported as'
    → supported_method (first_byte bad) ≡ false
    → change_auth_methods ms (some (as' ++ bad ∷ rest))
      ≡ some (auth_error, store ms 0 (first_bytes as'))
unfolding change_auth_methods
change-refused as' bad rest ms l h s b = refused as' ms 0 (omega arith) (omega arith) s
  where
    refused :
        (as' : List (List ℕ)) (ms : List ℕ) (i : ℕ)
        → i + length as' < length ms
        → length ms ≤ 255
        → AllSupported as'
        → change_from ms i (as' ++ bad ∷ rest) ≡ some (auth_error, store ms i (first_bytes as'))
    refused [] ms i h w s = rw (b, store-nil)
    refused (a ∷ as') ms i h w s =
        rw (s.0, put_lem ms i (first_byte a) (omega arith))
          (ap (λ k. change_from (set ms i (first_byte a)) k (as' ++ bad ∷ rest)) {y = i + 1}
              (omega arith)
            ∙ refused as' (set ms i (first_byte a)) (i + 1)
                (omega (arith, length-set ms i (first_byte a)))
                (omega (arith, length-set ms i (first_byte a))) s.1
            ∙ rw store-set)

-- The default, which `main` installs: user and password only.
pub accepted_method-default :
    (ms : List ℕ) (m : ℕ)
    → length ms ≡ 255
    → (ms' : List ℕ) × (change_auth_methods ms none ≡ some (auth_ok, ms'))
      × (accepted_method ms' m ≡ some (m == user_pass))
unfolding change_auth_methods accepted_method search_from put
accepted_method-default [] m l = absurd (omega arith)
accepted_method-default (x ∷ []) m l = absurd (omega arith)
accepted_method-default (x ∷ y ∷ []) m l = absurd (omega arith)
accepted_method-default (x ∷ y ∷ z ∷ xs) m l =
    (user_pass ∷ stop ∷ z ∷ xs, ground arith, ground arith)
