-- ===== src/Parser/Compare.antt =====
-- src/lib/parser/parser_utils.c: parser_utils_strcmpi, the table that compares bytes to a text
-- whatever the case. tolower and toupper are parameters; `char` is signed, so that both are
-- defined for the characters below 128 only.
use protos_tpe.Base.{
  ℕ, ◌+◌, Bool, List, [], ◌∷◌, ◌==◌, if◌then◌else◌, length, Option, some, none, ◌>>=◌,
}
use protos_tpe.Parser.{Parser, Action, Transition, Definition, any, always, feed}

-- `enum string_cmp_event_types`
abbrev pub string_cmp_mayeq : ℕ
string_cmp_mayeq = 0

abbrev pub string_cmp_eq : ℕ
string_cmp_eq = 1

abbrev pub string_cmp_neq : ℕ
string_cmp_neq = 2

abbrev pub may_eq : Action
may_eq ret c = record ret { type = string_cmp_mayeq; n = 1; payload = c }

abbrev pub eq : Action
eq ret c = record ret { type = string_cmp_eq; n = 1; payload = c }

abbrev pub neq : Action
neq ret c = record ret { type = string_cmp_neq; n = 1; payload = c }

module _ (tolower toupper : ℕ → ℕ) where
  -- the transitions of the state `i`, which waits for the character `c` of a text of `n`
  abbrev pub compare_row : ℕ → ℕ → ℕ → List Transition
  compare_row n i c =
      let dest = if i + 1 == n then n else i + 1 in
      let act : Action = if i + 1 == n then eq else may_eq in
      record { when = tolower c; dest = dest; act1 = act; act2 = none }
      ∷ record { when = toupper c; dest = dest; act1 = act; act2 = none }
      ∷ record { when = any; dest = n + 1; act1 = neq; act2 = none }
      ∷ []

  -- the states from `i` on, with the states EQ and NEQ
  abbrev pub compare_rows : ℕ → ℕ → List ℕ → List (List Transition)
  compare_rows n i [] = always (n + 1) neq ∷ always (n + 1) neq ∷ []
  compare_rows n i (c ∷ s) = compare_row n i c ∷ compare_rows n (i + 1) s

  -- `parser_utils_strcmpi`; the flag says whether the three `calloc` gave memory.
  abbrev pub parser_utils_strcmpi : Bool → List ℕ → Definition
  parser_utils_strcmpi memory s = record {
    states = if memory then compare_rows (length s) 0 s else [];
    start_state = 0;
  }

-- the bytes, one after another
abbrev pub feeds : Parser → List ℕ → Option Parser
feeds p [] = some p
feeds p (b ∷ bs) = do p1 ← feed p b; feeds p1 bs
