-- ===== src/Parser/Compared.antt =====
-- The parser of parser_utils_strcmpi against a comparison of the two texts.
use protos_tpe.Base.{
  ℕ, zero, suc, ◌+◌, ◌<◌, ◌≡◌, refl, sym, ap, ◌∙◌, Bool, true, false, List, [], ◌∷◌, ◌==◌, leb,
  ◌||◌, if◌then◌else◌, length, get_elem?, drop, some, ◌>>=◌, arith, inl, inr, Bool-cases,
}
use protos_tpe.Parser
use protos_tpe.Parser.{Parser, Event, Action, Transition, Definition, any, always, feed}
use protos_tpe.Parser.Always.{At, stepped, feed-At}
use protos_tpe.Parser.Compare.{
  string_cmp_mayeq, string_cmp_eq, string_cmp_neq, may_eq, eq, neq, compare_row, compare_rows,
  parser_utils_strcmpi, feeds,
}

module _ (tolower toupper : ℕ → ℕ) where
  -- what the bytes are to the text: it, its beginning, or neither
  abbrev pub verdict : List ℕ → List ℕ → ℕ
  verdict [] [] = string_cmp_eq
  verdict (c ∷ s) [] = string_cmp_mayeq
  verdict [] (b ∷ bs) = string_cmp_neq
  verdict (c ∷ s) (b ∷ bs) =
      let rest = verdict s bs in if b == tolower c || b == toupper c then rest else string_cmp_neq

  neq_row :
      (s : List ℕ) (n i : ℕ)
      → get_elem? (compare_rows tolower toupper n i s) (length s + 1) ≡ some (always (n + 1) neq)
  neq_row [] n i = refl
  neq_row (c ∷ s) n i =
      let next : suc (length s) + 1 ≡ suc (length s + 1) = omega arith in
      rw next (neq_row s n (i + 1))

  -- in the state NEQ
  lost :
      (d : Definition) (dest : ℕ) (bs : List ℕ) (p : Parser)
      → At d dest p
      → get_elem? d.states dest ≡ some (always dest neq)
      → p.e1.type ≡ string_cmp_neq
      → (p' : Parser) × (feeds p bs ≡ some p') × (p'.e1.type ≡ string_cmp_neq)
  lost d dest [] p a h t = (p, refl, t)
  lost d dest (b ∷ bs) p a h t =
      let p1 = stepped p dest neq b in
      let (p', e, t') = lost d dest bs p1 (record { same = a.same; state_is = refl }) h refl in
      (p', ap (λ m. m >>= λ q. feeds q bs) (feed-At dest neq b a h) ∙ e, t')

  feed-row :
      (p : Parser) (n i c b : ℕ)
      → get_elem? p.definition.states p.state ≡ some (compare_row tolower toupper n i c)
      → leb (tolower c) 255 ≡ true
      → leb (toupper c) 255 ≡ true
      → feed p b
        ≡ some (
            if b == tolower c || b == toupper c
            then stepped p (if i + 1 == n then n else i + 1) (if i + 1 == n then eq else may_eq) b
            else stepped p (n + 1) neq b)
  unfolding feed
  feed-row p n i c b h lo up = elim (Bool-cases (b == tolower c)) [
    | inl y ↦ rw (h, lo, up, y) refl
    | inr m ↦ elim (Bool-cases (b == toupper c)) [
      | inl y ↦ rw (h, lo, up, m, y) refl
      | inr k ↦ rw (h, lo, up, m, k) refl
    ]
  ]

  head_of :
      {A : Type 0} (i : ℕ) (xs ys : List A) (y : A)
      → drop i xs ≡ y ∷ ys
      → (get_elem? xs i ≡ some y) × (drop (suc i) xs ≡ ys)
  head_of zero [] ys y h = absurd cc
  head_of (suc i) [] ys y h = absurd cc
  head_of zero (x ∷ xs) ys y h = (cc, cc)
  head_of (suc i) (x ∷ xs) ys y h = head_of i xs ys y h

  -- the parser in the state `i`, where `rest` of the text of `n` characters is left
  record Waits (n i : ℕ) (rest : List ℕ) (p : Parser) : Type 0 where
    rows : drop i p.definition.states ≡ compare_rows tolower toupper n i rest
    here : p.state ≡ i
    left : i + length rest ≡ n
    sink : get_elem? p.definition.states (n + 1) ≡ some (always (n + 1) neq)

  dest_is : (n i : ℕ) → (if i + 1 == n then n else i + 1) ≡ i + 1
  dest_is n i = elim (Bool-cases (i + 1 == n)) [
    | inl y ↦ rw y (ground (arith, y))
    | inr m ↦ rw m refl
  ]

  agreed-type :
      (p : Parser) (n i b dest : ℕ) (rest : List ℕ)
      → i + 1 + length rest ≡ n
      → (stepped p dest (if i + 1 == n then eq else may_eq) b).e1.type ≡ verdict rest []
  agreed-type p n i b dest [] h = let last : (i + 1 == n) ≡ true = ground (arith, h) in rw last refl
  agreed-type p n i b dest (c ∷ rest) h =
      let more : (i + 1 == n) ≡ false = ground (arith, h) in rw more refl

  -- a byte that agrees with the character that the parser waits for
  agreed :
      (p : Parser) (n i c b : ℕ) (rest : List ℕ)
      → Waits n i (c ∷ rest) p
      → leb (tolower c) 255 ≡ true
      → leb (toupper c) 255 ≡ true
      → (b == tolower c || b == toupper c) ≡ true
      → (p1 : Parser) × (feed p b ≡ some p1)
        × Waits n (i + 1) rest p1
        × (p1.e1.type ≡ verdict rest [])
  agreed p n i c b rest w lo up y =
      let act : Action = if i + 1 == n then eq else may_eq in
      let (at, later) =
        head_of i p.definition.states (compare_rows tolower toupper n (i + 1) rest)
          (compare_row tolower toupper n i c) w.rows in
      let p1 = stepped p (if i + 1 == n then n else i + 1) act b in
      let next : i + 1 ≡ suc i = omega arith in
      let left : i + 1 + length rest ≡ n = omega (arith, w.left) in
      (
        p1,
        feed-row p n i c b (ap (get_elem? p.definition.states) w.here ∙ at) lo up
            ∙ ap (λ t. some (if t then p1 else stepped p (n + 1) neq b)) y,
        record {
          rows = ap (λ k. drop k p.definition.states) next ∙ later;
          here = dest_is n i;
          left = left;
          sink = w.sink;
        },
        agreed-type p n i b (if i + 1 == n then n else i + 1) rest left,
      )

  -- a byte after which the texts differ
  differs :
      (p : Parser) (n i b : ℕ) (rest bs : List ℕ)
      → Waits n i rest p
      → feed p b ≡ some (stepped p (n + 1) neq b)
      → (p' : Parser) × (feeds p (b ∷ bs) ≡ some p') × (p'.e1.type ≡ string_cmp_neq)
  differs p n i b rest bs w h =
      let (p', e, t) =
        lost p.definition (n + 1) bs (stepped p (n + 1) neq b)
          (record { same = refl; state_is = refl }) w.sink refl in
      (p', ap (λ m. m >>= λ q. feeds q bs) h ∙ e, t)

  disagreed :
      (p : Parser) (n i c b : ℕ) (rest : List ℕ)
      → Waits n i (c ∷ rest) p
      → leb (tolower c) 255 ≡ true
      → leb (toupper c) 255 ≡ true
      → (b == tolower c || b == toupper c) ≡ false
      → feed p b ≡ some (stepped p (n + 1) neq b)
  disagreed p n i c b rest w lo up m =
      let (at, later) =
        head_of i p.definition.states (compare_rows tolower toupper n (i + 1) rest)
          (compare_row tolower toupper n i c) w.rows in
      let act : Action = if i + 1 == n then eq else may_eq in
      let p1 = stepped p (if i + 1 == n then n else i + 1) act b in
      feed-row p n i c b (ap (get_elem? p.definition.states) w.here ∙ at) lo up
      ∙ ap (λ t. some (if t then p1 else stepped p (n + 1) neq b)) m

  verdict-next :
      (c b : ℕ) (rest bs : List ℕ) (t : Bool)
      → (b == tolower c || b == toupper c) ≡ t
      → verdict (c ∷ rest) (b ∷ bs) ≡ (if t then verdict rest bs else string_cmp_neq)
  verdict-next c b rest bs t e = ap (λ t. if t then verdict rest bs else string_cmp_neq) e

  -- the characters for which `tolower` and `toupper` are defined
  abbrev pub IsAscii : List ℕ → Type 0
  IsAscii s = (j c : ℕ) → get_elem? s j ≡ some c → c < 128

  abbrev Judges : Parser → List ℕ → List ℕ → Type 0
  Judges p rest bs = (p' : Parser) × (feeds p bs ≡ some p') × (p'.e1.type ≡ verdict rest bs)

  module _ (lower : (c : ℕ) → c < 128 → tolower c < 256)
      (upper : (c : ℕ) → c < 128 → toupper c < 256) where
    run-verdict :
        (bs rest : List ℕ) (p : Parser) (n i : ℕ)
        → Waits n i rest p
        → IsAscii rest
        → (bs ≡ [] → p.e1.type ≡ verdict rest [])
        → Judges p rest bs
    run-verdict [] rest p n i w ascii t = (p, refl, t refl)
    run-verdict (b ∷ bs) [] p n i w ascii t =
        let (at, later) =
          head_of i p.definition.states (always (n + 1) neq ∷ []) (always (n + 1) neq) w.rows in
        differs p n i b [] bs w
          (feed-At (n + 1) neq b (record { same = refl; state_is = w.here }) at)
    run-verdict (b ∷ bs) (c ∷ rest) p n i w ascii t =
        let small = ascii 0 c refl in
        let lo : leb (tolower c) 255 ≡ true = ground (arith, lower c small) in
        let up : leb (toupper c) 255 ≡ true = ground (arith, upper c small) in
        elim (Bool-cases (b == tolower c || b == toupper c))
          as (λ x. Judges p (c ∷ rest) (b ∷ bs)) [
            | inr m ↦
                let (p', e, t') =
                  differs p n i b (c ∷ rest) bs w (disagreed p n i c b rest w lo up m) in
                (p', e, t' ∙ sym (verdict-next c b rest bs false m))
            | inl y ↦
                let (p1, e1, w1, t1) = agreed p n i c b rest w lo up y in
                let (p', e, t') =
                  run-verdict bs rest p1 n (i + 1) w1 (λ j d g. ascii (suc j) d g) (λ q. t1) in
                (
                  p',
                  ap (λ m. m >>= λ q. feeds q bs) e1 ∙ e,
                  t' ∙ sym (verdict-next c b rest bs true y),
                )
          ]

    -- Where memory is given for the table and the text is ASCII, the parser of
    -- `parser_utils_strcmpi` runs over any bytes. If there are any, then the event of the last of
    -- them says what all of them are to the text, whatever the case: STRING_CMP_EQ for the text,
    -- STRING_CMP_MAYEQ for a beginning of it, STRING_CMP_NEQ for all else. `tolower` and
    -- `toupper` of an ASCII character are below 256.
    pub parser_utils_strcmpi-verdict :
        (s : List ℕ) (classes : List ℕ) (past_end b : ℕ) (bs : List ℕ)
        → IsAscii s
        → (p : Parser) × (feeds
              (Parser.start classes past_end (parser_utils_strcmpi tolower toupper true s))
              (b ∷ bs)
            ≡ some p)
          × (p.e1.type ≡ verdict s (b ∷ bs))
    parser_utils_strcmpi-verdict s classes past_end b bs ascii =
        run-verdict (b ∷ bs) s
          (Parser.start classes past_end (parser_utils_strcmpi tolower toupper true s)) (length s) 0
          (record { rows = refl; here = refl; left = omega arith; sink = neq_row s (length s) 0 })
          ascii (λ e. absurd cc)
