-- ===== src/Dimacs/Reader.antt =====
-- The reading functions of `parse_funcs.cpp`, and `parse_clause`. The cursor is the text from it on;
-- `load_file` has ended the text by END_OF_SEC, which `cur` gives past its last character.
use messaging_cells.Common.{
  ℕ, zero, suc, ◌+◌, ◌-◌, ◌*◌, ◌%◌, ◌^◌, ◌==◌, ltb, leb, Bool, true, false, not, ◌&&◌, ◌||◌,
  if◌then◌else◌, ◌⊎◌, inl, inr, List, [], ◌∷◌,
}
use messaging_cells.Dimacs.Literals.{ℤ, pos, negsuc}

unfoldable pub cur : List ℕ → ℕ
cur [] = 0
cur (c ∷ cs) = c

unfoldable pub next : List ℕ → List ℕ
next [] = []
next (c ∷ cs) = cs

unfoldable pub is_digit : ℕ → Bool
is_digit c = leb 48 c && leb c 57

-- `isalnum` and `isspace` of the C locale, by the codes of ASCII.
unfoldable pub is_alnum : ℕ → Bool
unfolding is_digit
is_alnum c = is_digit c || leb 65 c && leb c 90 || leb 97 c && leb c 122

unfoldable pub is_space : ℕ → Bool
is_space c = c == 32 || leb 9 c && leb c 13

-- The condition of the loop of `skip_whitespace`; 45, 43 and 0 are '-', '+' and END_OF_SEC.
unfoldable pub is_skipped : ℕ → Bool
unfolding is_alnum is_space
is_skipped c = (not (is_alnum c) || is_space c) && not (c == 45) && not (c == 43) && not (c == 0)

unfoldable pub skip_whitespace : List ℕ → ℕ → List ℕ × ℕ
unfolding is_skipped
skip_whitespace [] line = ([], line)
skip_whitespace (c ∷ cs) line =
    let rest = skip_whitespace cs (if c == 10 then line + 1 else line) in
    if is_skipped c then rest else (c ∷ cs, line)

unfoldable pub skip_line : List ℕ → ℕ → List ℕ × ℕ
skip_line [] line = ([], line)
skip_line (c ∷ cs) line =
    let rest = skip_line cs line in
    if c == 0 then (c ∷ cs, line) else if c == 10 then (cs, line + 1) else rest

-- A `long` has 64 bits. Signed overflow, which the language leaves open, is written as the
-- wrap-around of two's complement: a sum stands for its bits, and `to_long` reads them with the sign.
abbrev pub long_size : ℕ
long_size = 2 ^ 64

abbrev pub long_lim : ℕ
long_lim = 2 ^ 63

unfoldable pub wrap_long : ℕ → ℕ
wrap_long n = n % long_size

unfoldable pub to_long : ℕ → ℤ
to_long n = if ltb n long_lim then pos n else negsuc (long_size - n - 1)

-- `(neg)?(-val):(val)`
unfoldable pub with_sign : Bool → ℕ → ℤ
unfolding wrap_long to_long
with_sign neg n = to_long (if neg then wrap_long (long_size - n) else n)

-- The loop of `parse_long`.
unfoldable pub digits : ℕ → List ℕ → ℕ × List ℕ
unfolding is_digit wrap_long
digits val [] = (val, [])
digits val (c ∷ cs) =
    let rest = digits (wrap_long (val * 10 + (c - 48))) cs in
    if is_digit c then rest else (val, c ∷ cs)

-- What the reader throws: `pax_bad_int` with the character and the line, and `dix_bad_lit` with the
-- literal and the line.
pub data Thrown : Type 0 where
  bad_int : ℕ → ℕ → Thrown
  bad_lit : ℤ → ℕ → Thrown

unfoldable pub parse_digits : Bool → List ℕ → ℕ → Thrown ⊎ (ℤ × List ℕ)
unfolding digits cur is_digit with_sign
parse_digits neg cs line =
    if not (is_digit (cur cs))
    then inl (bad_int (cur cs) line)
    else inr (with_sign neg (digits 0 cs).0, (digits 0 cs).1)

unfoldable pub parse_long : List ℕ → ℕ → Thrown ⊎ (ℤ × List ℕ)
unfolding parse_digits cur next
parse_long cs line =
    if cur cs == 45
    then parse_digits true (next cs) line
    else if cur cs == 43
    then parse_digits false (next cs) line
    else parse_digits false cs line

-- `get_var`
unfoldable pub get_var : ℤ → ℕ
get_var (pos n) = n
get_var (negsuc n) = suc n

-- What `parse_clause` gives: true with the literals, false with none, or what it throws. Each has the
-- text behind it and the line. Each round of the loop takes at least one character.
pub data Parsed : Type 0 where
  parsed : List ℤ → List ℕ → ℕ → Parsed
  no_clause : List ℕ → ℕ → Parsed
  thrown : Thrown → Parsed
  out_of_fuel : Parsed

unfoldable pub push_first : ℤ → Parsed → Parsed
push_first l (parsed ls cs line) = parsed (l ∷ ls) cs line
push_first l (no_clause cs line) = no_clause cs line
push_first l (thrown t) = thrown t
push_first l out_of_fuel = out_of_fuel

unfoldable pub parse_lits : ℕ → ℕ → List ℕ → ℕ → Parsed
unfolding cur skip_whitespace parse_long get_var push_first
parse_lits decl_vars zero cs line = out_of_fuel
parse_lits decl_vars (suc fuel) cs line = elim (cur cs == 0) [
  | true ↦ parsed [] cs line
  | false ↦
      (let (ds, ln) = skip_whitespace cs line in
        elim (parse_long ds ln) [
          | inl t ↦ thrown t
          | inr (l, es) ↦ elim (get_var l == 0) [
            | true ↦ parsed [] es ln
            | false ↦ elim (ltb decl_vars (get_var l)) [
              | true ↦ thrown (bad_lit l ln)
              | false ↦ push_first l (parse_lits decl_vars fuel es ln)
            ]
          ]
        ])
]

-- `if(lits.is_empty()){ return false; }`
unfoldable pub if_some_lits : Parsed → Parsed
if_some_lits (parsed [] cs line) = no_clause cs line
if_some_lits (parsed (l ∷ ls) cs line) = parsed (l ∷ ls) cs line
if_some_lits (no_clause cs line) = no_clause cs line
if_some_lits (thrown t) = thrown t
if_some_lits out_of_fuel = out_of_fuel

unfoldable pub parse_clause : ℕ → ℕ → List ℕ → ℕ → Parsed
unfolding parse_lits if_some_lits
parse_clause decl_vars fuel cs line =
    if cur cs == 0
    then no_clause cs line
    else (let (ds, ln) = skip_whitespace cs line in if_some_lits (parse_lits decl_vars fuel ds ln))
