-- ===== src/Device/Rules/Parts.antt =====
-- The parts of the rules' parsers: a text up to a separator, a run of units, trimming, numerals.
use aio_t_cloud.Base.{
  Text, codes, ◌++◌, ℕ, Bool, true, false, ◌||◌, some, none, [], ◌∷◌, if◌then◌else◌, is_truthy, ◌≡◌,
  ◌∙◌, refl, arith, All, All-append, Bool-cases, inl, inr, nat_eq, trim, trim_start, trim_tight,
  split_at,
}
use mathlib.Core.List.{reverse, reverse-cons, reverse-reverse, append_assoc}
use aio_t_cloud.Topics.{span, strip_prefix, is_digit}
use aio_t_cloud.Device.Rules.{
  Numeral, read_numeral, read_digits, read_decimals, Operator, at_least, at_most, equal, differs,
  above, under, operator_text, operators, read_operator, trim_end, shortest_field, not_space,
}

-- No unit passes the test, so far.
abbrev pub Avoids : ℕ → Text → Type 0
Avoids c s = All (λ d. nat_eq d c ≡ false) s

pub split_at-append : (c : ℕ) (l r : Text) → Avoids c l → split_at c (l ++ c ∷ r) ≡ some (l, r)
split_at-append c [] r h = ground arith
split_at-append c (d ∷ l) r h = rw (h.0, split_at-append c l r h.1)

pub split_at-none : (c : ℕ) (s : Text) → Avoids c s → split_at c s ≡ none
split_at-none c [] h = refl
split_at-none c (d ∷ s) h = rw (h.0, split_at-none c s h.1)

-- The first unit of a text, if any, fails the test.
abbrev pub Stops : (ℕ → Bool) → Text → Type 0
Stops p [] = Unit
Stops p (c ∷ _) = p c ≡ false

pub span-append_stop :
    (p : ℕ → Bool) (run rest : Text)
    → All (λ c. p c ≡ true) run
    → Stops p rest
    → span p (run ++ rest) ≡ (run, rest)
unfolding span
span-append_stop p [] [] h k = refl
span-append_stop p [] (c ∷ rest) h k = rw k
span-append_stop p (d ∷ run) rest h k = rw (h.0, span-append_stop p run rest h.1 k)

-- No white space in it.
abbrev pub IsSolid : Text → Type 0
IsSolid s = All (λ c. not_space c ≡ true) s

pub trim_start-solid : (s : Text) → IsSolid s → trim_start s ≡ s
unfolding trim_start
trim_start-solid [] h = refl
trim_start-solid (c ∷ s) h = ground arith

All-reverse : (s : Text) → IsSolid s → IsSolid (reverse s)
All-reverse [] h = tt
All-reverse (c ∷ s) h =
    rw reverse-cons
      (All-append (λ d. not_space d ≡ true) (reverse s) (c ∷ []) (All-reverse s h.1) (h.0, tt))

pub trim_end-solid : (s : Text) → IsSolid s → trim_end s ≡ s
unfolding trim_end
trim_end-solid s h = rw (trim_start-solid (reverse s) (All-reverse s h)) (reverse-reverse s)

pub trim-solid : (s : Text) → IsSolid s → trim s ≡ s
trim-solid s h = trim_tight s (trim_start-solid s h, trim_start-solid (reverse s) (All-reverse s h))

pub shortest_field-solid : (s : Text) → is_truthy s ≡ true → IsSolid s → shortest_field s ≡ some s
shortest_field-solid [] t h = absurd (ground arith)
shortest_field-solid (c ∷ s) t h = rw (trim_end-solid s h.1)

-- A numeral as it is written.
abbrev pub numeral_text : Numeral → Text
numeral_text n =
    (if n.is_negative then codes "-" else [])
    ++ (n.whole ++ (if is_truthy n.decimals then b'.' ∷ n.decimals else []))

abbrev pub AreDigits : Text → Type 0
AreDigits s = All (λ c. is_digit c ≡ true) s

abbrev pub IsNumeral : Numeral → Type 0
IsNumeral n = (is_truthy n.whole ≡ true) × AreDigits n.whole × AreDigits n.decimals

-- What may follow a numeral: neither a digit nor a point.
abbrev pub in_numeral : ℕ → Bool
in_numeral c = is_digit c || nat_eq c b'.'

is_digit-Stops : (rest : Text) → Stops in_numeral rest → Stops is_digit rest
is_digit-Stops [] h = tt
is_digit-Stops (c ∷ rest) h = ground arith

point-Stops :
    (s rest : Text)
    → Stops in_numeral rest
    → Stops is_digit ((if is_truthy s then b'.' ∷ s else []) ++ rest)
point-Stops [] rest h = is_digit-Stops rest h
point-Stops (_ ∷ s) rest h = refl

read_decimals-append :
    (s rest : Text)
    → AreDigits s
    → Stops in_numeral rest
    → read_decimals ((if is_truthy s then b'.' ∷ s else []) ++ rest) ≡ (s, rest)
unfolding read_decimals strip_prefix
read_decimals-append [] [] h k = refl
read_decimals-append [] (c ∷ rest) h k = ground arith
read_decimals-append (d ∷ s) rest h k =
    rw (span-append_stop is_digit (d ∷ s) rest h (is_digit-Stops rest k))

read_digits-append :
    (sign : Bool) (w s rest : Text)
    → is_truthy w ≡ true
    → AreDigits w
    → AreDigits s
    → Stops in_numeral rest
    → read_digits sign ((w ++ (if is_truthy s then b'.' ∷ s else [])) ++ rest)
      ≡ some (record { is_negative = sign; whole = w; decimals = s }, rest)
unfolding read_digits
read_digits-append sign w s rest t h k stop =
    let point : Text = if is_truthy s then b'.' ∷ s else [] in
    rw (
      append_assoc w point rest,
      span-append_stop is_digit w (point ++ rest) h (point-Stops s rest stop),
      read_decimals-append s rest k stop,
      t,
    )

no_minus :
    (w s : Text) → is_truthy w ≡ true → AreDigits w → strip_prefix (codes "-") (w ++ s) ≡ none
unfolding strip_prefix
no_minus [] s t h = absurd (ground arith)
no_minus (d ∷ w) s t h = ground arith

unsigned : (s : Text) → strip_prefix (codes "-") s ≡ none → read_numeral s ≡ read_digits false s
unfolding read_numeral
unsigned s h = rw (h, read_numeral) refl

pub read_numeral-numeral_text :
    (n : Numeral) (rest : Text)
    → IsNumeral n
    → Stops in_numeral rest
    → read_numeral (numeral_text n ++ rest) ≡ some (n, rest)
unfolding read_numeral
read_numeral-numeral_text n rest h k = elim (Bool-cases n.is_negative) [
  | inl minus ↦ rw minus (read_digits-append true n.whole n.decimals rest h.0 h.1 h.2 k)
  | inr plain ↦
      let digits : Text = n.whole ++ (if is_truthy n.decimals then b'.' ∷ n.decimals else []) in
      let e : strip_prefix (codes "-") (digits ++ rest) ≡ none =
        rw append_assoc (no_minus n.whole _ h.0 h.1) in
      rw plain (
        unsigned (digits ++ rest) e
        ∙ read_digits-append false n.whole n.decimals rest h.0 h.1 h.2 k)
]

-- The operators are told apart if no `=` follows.
pub read_operator-operator_text :
    (o : Operator) (rest : Text)
    → Stops (λ c. nat_eq c b'=') rest
    → read_operator operators (operator_text o ++ rest) ≡ some (o, rest)
unfolding read_operator strip_prefix
read_operator-operator_text at_least rest h = refl
read_operator-operator_text at_most rest h = refl
read_operator-operator_text equal rest h = refl
read_operator-operator_text differs rest h = refl
read_operator-operator_text above [] h = refl
read_operator-operator_text above (c ∷ rest) h = ground arith
read_operator-operator_text under [] h = refl
read_operator-operator_text under (c ∷ rest) h = ground arith
