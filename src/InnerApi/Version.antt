-- ===== src/InnerApi/Version.antt =====
-- pkg/innerapi/client.go: the version in the URL of a request, the base URL, and the text of a bad
-- status in an error.
use ai_gateway_epp.Base.{
  Str, ℕ, ◌+◌, ◌-◌, ◌*◌, ◌<◌, ◌≡◌, ◌≢◌, inl, inr, [], ◌∷◌, ◌++◌, arith, ltb, if◌then◌else◌,
  Bool-cases, ◌==◌, ◌/◌, ◌%◌, codes, length, length-append, All, zero, suc, ◌≤◌, min, refl, ap, ◌∙◌,
  false, ℤ,
}
use ai_gateway_epp.InnerApi.Text.{
  is_unreserved, escape_byte, hex_digit, take_bytes, trim_right, query_escape, truncate,
}
use ai_gateway_epp.InnerApi.Client.{Client, new_client}

-- url.QueryUnescape, which the server reads a query value with.
unfoldable pub hex_value : ℕ → ℕ
hex_value c = if ltb c b'A' then c - b'0' else c - b'A' + 10

unfoldable pub query_unescape : Str → Str
unfolding hex_value
query_unescape [] = []
query_unescape (c ∷ []) = (if c == b'+' then b' ' else c) ∷ []
query_unescape (c ∷ d ∷ []) = (if c == b'+' then b' ' else c) ∷ (if d == b'+' then b' ' else d) ∷ []
query_unescape (c ∷ d ∷ e ∷ s) =
    let here = query_unescape s in
    let next = query_unescape (d ∷ e ∷ s) in
    if c == b'%'
    then (hex_value d * 16 + hex_value e) ∷ here
    else (if c == b'+' then b' ' else c) ∷ next

abbrev pub IsByte : ℕ → Type 0
IsByte c = c < 256

hex_digit_lem : (n : ℕ) → n < 16 → (hex_value (hex_digit n) ≡ n) × (b'+' < hex_digit n)
unfolding hex_value hex_digit
hex_digit_lem n h = ground arith

unescape_plain :
    (c : ℕ) (s : Str) → c ≢ b'%' → c ≢ b'+' → query_unescape (c ∷ s) ≡ c ∷ query_unescape s
unfolding query_unescape
unescape_plain c [] h k = ground arith
unescape_plain c (d ∷ []) h k = ground arith
unescape_plain c (d ∷ e ∷ s) h k = ground arith

unescape_plus : (s : Str) → query_unescape (b'+' ∷ s) ≡ b' ' ∷ query_unescape s
unfolding query_unescape
unescape_plus [] = ground arith
unescape_plus (d ∷ []) = ground arith
unescape_plus (d ∷ e ∷ s) = ground arith

unescape_byte :
    (c : ℕ) (s : Str) → IsByte c → query_unescape (escape_byte c ++ s) ≡ c ∷ query_unescape s
unfolding escape_byte is_unreserved query_unescape
unescape_byte c s h = elim (Bool-cases (is_unreserved c)) [
  | inl kept ↦ ground (arith, unescape_plain c s)
  | inr other ↦ ground (
    arith,
    unescape_plus s,
    hex_digit_lem (c / 16) (omega (arith, h)),
    hex_digit_lem (c % 16) (omega arith),
  )
]

pub query_unescape-query_escape : (s : Str) → All IsByte s → query_unescape (query_escape s) ≡ s
unfolding query_escape query_unescape
query_unescape-query_escape [] h = refl
query_unescape-query_escape (c ∷ s) h =
    unescape_byte c (query_escape s) h.0 ∙ ap (λ t. c ∷ t) (query_unescape-query_escape s h.1)

-- A byte that is none of those that query_escape writes.
abbrev IsDelimiter : ℕ → Type 0
IsDelimiter b = (is_unreserved b ≡ false) × (b ≢ b'+') × (b ≢ b'%')

trim_right_slash : (s : Str) → trim_right (s ++ b'/' ∷ []) ≡ trim_right s
unfolding trim_right
trim_right_slash [] = refl
trim_right_slash (c ∷ s) = rw (trim_right_slash s) refl

-- A slash at the end of the base URL makes no difference to a client, and so to no request.
pub new_client_slash :
    (base_url token : Str) (timeout : ℤ)
    → new_client (base_url ++ b'/' ∷ []) token timeout ≡ new_client base_url token timeout
unfolding new_client
new_client_slash base_url token timeout = rw (trim_right_slash base_url) refl

length-take_bytes : (n : ℕ) (s : Str) → length (take_bytes n s) ≡ min n (length s)
unfolding take_bytes
length-take_bytes zero s = ground arith
length-take_bytes (suc n) [] = ground arith
length-take_bytes (suc n) (c ∷ s) = ground (arith, length-take_bytes n s)

-- The text in an error has at most n bytes and three dots.
pub truncate_bound : (s : Str) (n : ℕ) → length (truncate s n) ≤ n + 3
unfolding truncate
truncate_bound s n =
    ground (arith, length-take_bytes n s, length-append (take_bytes n s) (codes "..."))
