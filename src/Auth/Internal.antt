-- ===== src/Auth/Internal.antt =====
-- internal/platform/internalauth/internalauth.go: the bearer token between services.
use Prim.Native.Char.{code}
use Prim.Native.String.append
use text.Mathlib.TextEquality.{Char-path}
use full.Base.{
  ◌≡◌, ◌≢◌, inl, inr, Option-cases, Bool, false, Option, none, some, String, arith, ◌==◌, nat_eq,
  string_eq, if◌then◌else◌,
}
use full.Base.Http.{Reply, error, status_of}
use full.Base.Text.{◌+++◌}

-- strings.HasPrefix and strings.TrimPrefix: what follows the prefix, none where it is missing.
unfoldable pub trim_prefix : String → String → Option String
trim_prefix String.[] s = some s
trim_prefix (String.◌∷◌ c p) String.[] = none
trim_prefix (String.◌∷◌ c p) (String.◌∷◌ d s) =
    let rest = trim_prefix p s in if code c == code d then rest else none

-- ConstantTimeCompare answers 1 for equal bytes.
abbrev pub is_token : String → Option String → Bool
is_token expected none = false
is_token expected (some got) = got == expected

abbrev pub bearer_prefix : String
bearer_prefix = "Bearer "

-- New: the middleware around `next`.
unfoldable pub require_token :
    {A W : Type 0} → String → String → (W → Reply A × W) → W → Reply A × W
require_token expected header next w =
    if expected == ""
    then (error 503 "service unavailable", w)
    else if is_token expected (trim_prefix bearer_prefix header)
    then next w
    else (error 401 "unauthorized", w)

trim_prefix-append : (p s : String) → trim_prefix p (p +++ s) ≡ some s
unfolding trim_prefix
trim_prefix-append String.[] s = rw append.nil
trim_prefix-append (String.◌∷◌ c p) s = rw append.cons (ground (arith, trim_prefix-append p s))

append-trim_prefix : (p s r : String) → trim_prefix p s ≡ some r → s ≡ p +++ r
unfolding trim_prefix
append-trim_prefix String.[] s r e = rw append.nil (ground (arith, e))
append-trim_prefix (String.◌∷◌ c p) String.[] r e = cc
append-trim_prefix (String.◌∷◌ c p) (String.◌∷◌ d s) r e =
    rw append.cons (ground (arith, append-trim_prefix p s r, Char-path c d))

-- The handler behind the token runs exactly on requests whose header is "Bearer " and the token,
-- which is not empty; every other request is answered 503, if no token is configured, or 401, and
-- changes nothing.
pub require_token-Guards :
    {A W : Type 0} (expected header : String) (next : W → Reply A × W) (w : W)
    → let out = require_token expected header next w in
      ((header ≡ bearer_prefix +++ expected) × (expected ≢ "") → out ≡ next w)
      × (expected ≡ "" → (status_of out.0 ≡ 503) × (out.1 ≡ w))
      × ((expected ≢ "") × (header ≢ bearer_prefix +++ expected)
          → (status_of out.0 ≡ 401) × (out.1 ≡ w))
unfolding require_token
require_token-Guards expected header next w = (
  λ h. ground (
    arith,
    h,
    trim_prefix-append bearer_prefix expected,
    string_eq.same_iff expected "",
    string_eq.same_iff expected expected,
  ),
  λ h. ground (arith, h, string_eq.same_iff expected ""),
  λ h. elim (Option-cases (trim_prefix bearer_prefix header)) [
    | inl e ↦ ground (arith, h, e, string_eq.same_iff expected "")
    | inr (got, e) ↦ ground (
      arith,
      h,
      e,
      string_eq.same_iff expected "",
      string_eq.same_iff got expected,
      append-trim_prefix bearer_prefix header got,
    )
  ],
)
