-- ===== src/Dimacs/RoundTrip.antt =====
-- What is printed is read back.
use messaging_cells.Common.{
  if_so, if_not, ◌-◌, ℕ, zero, suc, ◌+◌, ◌*◌, ◌/◌, ◌%◌, ◌≤◌, ◌<◌, ◌≡◌, refl, ap, ◌∙◌, ◌==◌, ltb,
  Bool, Bool-cases, true, false, if◌then◌else◌, inl, inr, List, [], ◌∷◌, ◌++◌, append_assoc, arith,
}
use messaging_cells.Dimacs.Literals.{ℤ, pos, negsuc}
use messaging_cells.Dimacs.Reader.{
  cur, is_digit, digits, parse_digits, parse_long, get_var, long_size, long_lim, wrap_long, to_long,
  with_sign,
}

-- The decimal digits of a number, as an output stream prints them.
unfoldable pub show_nat : ℕ → ℕ → List ℕ
show_nat zero n = []
show_nat (suc fuel) n =
    let front = show_nat fuel (n / 10) in
    if ltb n 10 then (48 + n) ∷ [] else front ++ (48 + n % 10) ∷ []

unfoldable pub show_long : ℤ → List ℕ
unfolding show_nat
show_long (pos n) = show_nat (suc n) n
show_long (negsuc n) = 45 ∷ show_nat (suc (suc n)) (suc n)

wrap_long-lt : (n : ℕ) → n < long_lim → wrap_long n ≡ n
unfolding wrap_long
wrap_long-lt n h = omega arith

digit_lt : (d : ℕ) → d < 10 → is_digit (48 + d) ≡ true
unfolding is_digit
digit_lt d h = ground arith

digits-digit :
    (v d : ℕ) (cs : List ℕ)
    → d < 10
    → v * 10 + d < long_lim
    → digits v ((48 + d) ∷ cs) ≡ digits (v * 10 + d) cs
unfolding digits
digits-digit v d cs h l =
    let dig : is_digit (48 + d) ≡ true = digit_lt d h in
    let e : wrap_long (v * 10 + (48 + d - 48)) ≡ v * 10 + d =
      ap wrap_long (omega arith) ∙ wrap_long-lt (v * 10 + d) l in
    if_so (digits (wrap_long (v * 10 + (48 + d - 48))) cs) (v, (48 + d) ∷ cs) dig
    ∙ ap (λ m. digits m cs) e

digits-show_nat :
    (fuel n : ℕ) (cs : List ℕ)
    → n < fuel
    → n < long_lim
    → digits 0 (show_nat fuel n ++ cs) ≡ digits n cs
unfolding show_nat
digits-show_nat zero n cs h b = absurd (omega arith)
digits-show_nat (suc fuel) n cs h b = elim (Bool-cases (ltb n 10)) [
  | inl y ↦
      rw y (
        digits-digit 0 n cs (ground (arith, y)) (omega arith) ∙ ap (λ m. digits m cs) (omega arith))
  | inr y ↦
      (let g : 10 ≤ n = ground (arith, y) in
        rw (y, append_assoc (show_nat fuel (n / 10)) ((48 + n % 10) ∷ []) cs)
          (digits-show_nat fuel (n / 10) ((48 + n % 10) ∷ cs) (omega arith) (omega arith)
            ∙ digits-digit (n / 10) (n % 10) cs (omega arith) (omega arith)
            ∙ ap (λ m. digits m cs) (omega arith)))
]

-- A text that goes on with no digit.
unfoldable pub IsEnd : List ℕ → Type 0
IsEnd cs = is_digit (cur cs) ≡ false

digits-IsEnd : (n : ℕ) (cs : List ℕ) → IsEnd cs → digits n cs ≡ (n, cs)
unfolding digits IsEnd cur
digits-IsEnd n [] h = refl
digits-IsEnd n (c ∷ cs) h = rw h

pub cur-show_nat :
    (fuel n : ℕ) (cs : List ℕ) → n < fuel → is_digit (cur (show_nat fuel n ++ cs)) ≡ true
unfolding show_nat cur is_digit
cur-show_nat zero n cs h = absurd (omega arith)
cur-show_nat (suc fuel) n cs h = elim (Bool-cases (ltb n 10)) [
  | inl y ↦ ground (arith, y)
  | inr y ↦
      (let g : 10 ≤ n = ground (arith, y) in
        rw (y, append_assoc (show_nat fuel (n / 10)) ((48 + n % 10) ∷ []) cs)
          (cur-show_nat fuel (n / 10) ((48 + n % 10) ∷ cs) (omega arith)))
]

parse_digits-show_nat :
    (neg : Bool) (fuel n : ℕ) (cs : List ℕ) (line : ℕ)
    → n < fuel
    → n < long_lim
    → IsEnd cs
    → parse_digits neg (show_nat fuel n ++ cs) line ≡ inr (with_sign neg n, cs)
unfolding parse_digits
parse_digits-show_nat neg fuel n cs line h b e =
    rw (cur-show_nat fuel n cs h, digits-show_nat fuel n cs h b, digits-IsEnd n cs e)

with_sign-plus : (n : ℕ) → n < long_lim → with_sign false n ≡ pos n
unfolding with_sign to_long
with_sign-plus n h = ground arith

with_sign-minus : (n : ℕ) → suc n < long_lim → with_sign true (suc n) ≡ negsuc n
unfolding with_sign to_long wrap_long
with_sign-minus n h =
    let e : (long_size - suc n) % long_size ≡ long_size - suc n = omega arith in
    let big : ltb (long_size - suc n) long_lim ≡ false = ground arith in
    ap to_long e ∙ if_not _ _ big ∙ ap negsuc (omega arith)

not_sign : (c : ℕ) → is_digit c ≡ true → ((c == 45) ≡ false) × ((c == 43) ≡ false)
unfolding is_digit
not_sign c h = (ground (arith, h), ground (arith, h))

-- A number that was printed, and that is below 2^63 without its sign, is read back as it was, up to
-- the first character behind it that is no digit, and the line does not matter.
pub parse_long-show_long :
    (l : ℤ) (cs : List ℕ) (line : ℕ)
    → get_var l < long_lim
    → IsEnd cs
    → parse_long (show_long l ++ cs) line ≡ inr (l, cs)
unfolding parse_long show_long get_var
parse_long-show_long (pos n) cs line b e =
    let s = not_sign (cur (show_nat (suc n) n ++ cs)) (cur-show_nat (suc n) n cs (omega arith)) in
    rw (s.0, s.1)
      (parse_digits-show_nat false (suc n) n cs line (omega arith) b e
        ∙ ap (λ l. inr (l, cs)) (with_sign-plus n b))
parse_long-show_long (negsuc n) cs line b e =
    parse_digits-show_nat true (suc (suc n)) (suc n) cs line (omega arith) b e
    ∙ ap (λ l. inr (l, cs)) (with_sign-minus n b)
