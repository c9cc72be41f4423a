-- ===== src/Base/Decimal.antt =====
-- strconv.ParseInt(s, 10, 64) of the Go library, and what it makes of the text of a number.
use Prim.Native.Char.{code}
use Prim.Native.Nat.{ℕ, zero, suc, ◌+◌, ◌-◌, ◌*◌, ◌/◌, ◌%◌, ◌^◌, ◌<◌}
use Prim.Native.String.{String}
use Prim.Native.String.append
use mathlib.Core.Path.{◌≡◌, refl, sym, ap, ◌∙◌}
use mathlib.Core.Logic.{◌≢◌, inl, inr}
use mathlib.Core.Bool.{◌&&◌}
use mathlib.Core.Option.{Option, none, some}
use native.Mathlib.Nat.{zero-add}
use native.Mathlib.Omega.{arith}
use full.Base.Int.{ℤ, pos, negsuc}
use full.Base.Tests.{ltb, leb, if◌then◌else◌, ◌==◌, nat_eq, Bool-cases}
use full.Base.Text.{◌+++◌, digit, digits, format_int}

-- The loop over the digits, with the value read so far.
unfoldable pub digits_value : Option ℕ → String → Option ℕ
digits_value none s = none
digits_value (some acc) String.[] = some acc
digits_value (some acc) (String.◌∷◌ c s) =
    digits_value
      (if leb b'0' (code c) && leb (code c) b'9' then some (acc * 10 + (code c - b'0')) else none) s

-- ParseUint, as far as it matters to ParseInt: the digits, and one of them at least.
unfoldable pub parse_uint : String → Option ℕ
unfolding digits_value
parse_uint String.[] = none
parse_uint (String.◌∷◌ c s) = digits_value (some 0) (String.◌∷◌ c s)

abbrev pub negated : ℕ → ℤ
negated zero = pos 0
negated (suc n) = negsuc n

abbrev pub in_range : Option ℕ → Option ℤ
in_range none = none
in_range (some n) = if ltb n (2 ^ 63) then some (pos n) else none

abbrev pub in_negative_range : Option ℕ → Option ℤ
in_negative_range none = none
in_negative_range (some n) = if leb n (2 ^ 63) then some (negated n) else none

-- strconv.ParseInt(s, 10, 64), none for an error of either kind.
unfoldable pub parse_int : String → Option ℤ
unfolding parse_uint
parse_int String.[] = none
parse_int (String.◌∷◌ c s) =
    if code c == b'+'
    then in_range (parse_uint s)
    else if code c == b'-'
    then in_negative_range (parse_uint s)
    else in_range (parse_uint (String.◌∷◌ c s))

digits_value-append :
    (o : Option ℕ) (s t : String) → digits_value o (s +++ t) ≡ digits_value (digits_value o s) t
unfolding digits_value
digits_value-append none s t = refl
digits_value-append (some acc) String.[] t = rw append.nil
digits_value-append (some acc) (String.◌∷◌ c s) t = rw append.cons (
    digits_value-append
      (if leb b'0' (code c) && leb (code c) b'9' then some (acc * 10 + (code c - b'0')) else none) s
      t)

digits_value-digit : (acc d : ℕ) → d < 10 → digits_value (some acc) (digit d) ≡ some (acc * 10 + d)
unfolding digits_value digit
digits_value-digit acc zero h = refl
digits_value-digit acc (suc zero) h = refl
digits_value-digit acc (suc (suc zero)) h = refl
digits_value-digit acc (suc (suc (suc zero))) h = refl
digits_value-digit acc (suc (suc (suc (suc zero)))) h = refl
digits_value-digit acc (suc (suc (suc (suc (suc zero))))) h = refl
digits_value-digit acc (suc (suc (suc (suc (suc (suc zero)))))) h = refl
digits_value-digit acc (suc (suc (suc (suc (suc (suc (suc zero))))))) h = refl
digits_value-digit acc (suc (suc (suc (suc (suc (suc (suc (suc zero)))))))) h = refl
digits_value-digit acc (suc (suc (suc (suc (suc (suc (suc (suc (suc zero))))))))) h = refl
digits_value-digit acc (suc (suc (suc (suc (suc (suc (suc (suc (suc (suc d)))))))))) h =
    absurd (omega arith)

digits_value-digits : (fuel n : ℕ) → n < fuel → digits_value (some 0) (digits fuel n) ≡ some n
unfolding digits
digits_value-digits zero n h = elim h [ ]
digits_value-digits (suc fuel) n h = elim (Bool-cases (ltb n 10)) [
  | inl small ↦
      rw (small, digits_value-digit 0 n (ground arith)) (ap (λ (k : ℕ). some k) (zero-add n))
  | inr large ↦
      rw
        (
          large,
          digits_value-append (some 0) (digits fuel (n / 10)) (digit (n % 10)),
          digits_value-digits fuel (n / 10) (ground arith),
          digits_value-digit (n / 10) (n % 10) (omega arith),
        )
        (ap (λ (k : ℕ). some k) (omega arith))
]

-- A text that has a value begins with a digit.
parse_int-digits :
    (s : String) (n : ℕ)
    → s ≢ ""
    → digits_value (some 0) s ≡ some n
    → n < 2 ^ 63
    → parse_int s ≡ some (pos n)
unfolding parse_int
parse_int-digits String.[] n ne e h = absurd (ne refl)
parse_int-digits (String.◌∷◌ c s) n ne e h = ground (arith, e)

digits_value-format_int : (n : ℕ) → digits_value (some 0) (format_int n) ≡ some n
unfolding format_int
digits_value-format_int n = digits_value-digits (suc n) n (omega arith)

format_int-zero : format_int 0 ≡ "0"
unfolding format_int
format_int-zero = refl

value-nil : (n : ℕ) → digits_value (some 0) "" ≡ some n → 0 ≡ n
unfolding digits_value
value-nil n h = ground (arith, h)

pub format_int-ne : (n : ℕ) → format_int n ≢ ""
format_int-ne n e =
    let nought : 0 ≡ n =
      value-nil n (ap (digits_value (some 0)) (sym e) ∙ digits_value-format_int n) in
    cc (format_int-zero, e, nought)

-- ParseInt reads what FormatInt wrote, for every number that fits.
pub parse_int-format_int : (n : ℕ) → n < 2 ^ 63 → parse_int (format_int n) ≡ some (pos n)
parse_int-format_int n =
    parse_int-digits (format_int n) n (format_int-ne n) (digits_value-format_int n)
