-- ===== src/Tests/Compare.antt =====
-- The parser that compares bytes to a text.
use protos_tpe.Base.{
  ℕ, zero, suc, ◌+◌, ◌-◌, ◌<◌, ◌≡◌, refl, List, [], ◌∷◌, some, leb, ◌&&◌, if◌then◌else◌, arith,
  true,
}
use protos_tpe.Parser
use protos_tpe.Parser.{Parser}
use protos_tpe.Parser.Compare.{
  parser_utils_strcmpi, feeds, string_cmp_mayeq, string_cmp_eq, string_cmp_neq,
}
use protos_tpe.Parser.Compared.{verdict, IsAscii, parser_utils_strcmpi-verdict}

-- tolower and toupper of the C locale
abbrev lower : ℕ → ℕ
lower c = if leb 65 c && leb c 90 then c + 32 else c

abbrev upper : ℕ → ℕ
upper c = if leb 97 c && leb c 122 then c - 32 else c

lower_small : (c : ℕ) → c < 128 → lower c < 256
lower_small c h = ground arith

upper_small : (c : ℕ) → c < 128 → upper c < 256
upper_small c h = ground arith

-- "Foo"
abbrev foo : List ℕ
foo = 70 ∷ 111 ∷ 111 ∷ []

some-equal : {x y : ℕ} → some x ≡ some y → x ≡ y
some-equal p = cc

foo-IsAscii : IsAscii lower upper foo
foo-IsAscii zero c e = omega (arith, some-equal e)
foo-IsAscii (suc zero) c e = omega (arith, some-equal e)
foo-IsAscii (suc (suc zero)) c e = omega (arith, some-equal e)
foo-IsAscii (suc (suc (suc j))) c e = absurd cc

-- "fO" is a beginning, "fOo" the text, "fa" and "fOo!" are neither
beginning : verdict lower upper foo (102 ∷ 79 ∷ []) ≡ string_cmp_mayeq
beginning = refl

whole : verdict lower upper foo (102 ∷ 79 ∷ 111 ∷ []) ≡ string_cmp_eq
whole = refl

other : verdict lower upper foo (102 ∷ 97 ∷ []) ≡ string_cmp_neq
other = refl

longer : verdict lower upper foo (102 ∷ 79 ∷ 111 ∷ 33 ∷ []) ≡ string_cmp_neq
longer = refl

parser_utils_strcmpi-verdict_example :
    (p : Parser) × (feeds
        (Parser.start Parser.no_classes 0 (parser_utils_strcmpi lower upper true foo))
        (102 ∷ 79 ∷ 111 ∷ [])
      ≡ some p)
    × (p.e1.type ≡ verdict lower upper foo (102 ∷ 79 ∷ 111 ∷ []))
parser_utils_strcmpi-verdict_example =
    parser_utils_strcmpi-verdict lower upper lower_small upper_small foo Parser.no_classes 0 102
      (79 ∷ 111 ∷ []) foo-IsAscii
