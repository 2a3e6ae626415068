-- ===== src/InnerApi/Text.antt =====
-- The functions of net/url, strings and bytes that pkg/innerapi/client.go calls, and its truncate.
use ai_gateway_epp.Base.{
  Str, codes, length, ℕ, zero, suc, ◌+◌, ◌-◌, ◌/◌, ◌%◌, Bool, ◌&&◌, ◌||◌, [], ◌∷◌, ◌++◌, leb, ltb,
  if◌then◌else◌, ◌==◌,
}

abbrev pub in_range : ℕ → ℕ → ℕ → Bool
in_range low high c = leb low c && leb c high

-- The bytes that url.QueryEscape keeps.
unfoldable pub is_unreserved : ℕ → Bool
is_unreserved c =
    in_range b'a' b'z' c
    || (in_range b'A' b'Z' c
        || (in_range b'0' b'9' c || (c == b'-' || (c == b'_' || (c == b'.' || c == b'~')))))

unfoldable pub hex_digit : ℕ → ℕ
hex_digit n = if ltb n 10 then b'0' + n else b'A' + (n - 10)

unfoldable pub escape_byte : ℕ → Str
unfolding is_unreserved hex_digit
escape_byte c =
    if is_unreserved c
    then c ∷ []
    else if c == b' '
    then b'+' ∷ []
    else b'%' ∷ hex_digit (c / 16) ∷ hex_digit (c % 16) ∷ []

-- url.QueryEscape
unfoldable pub query_escape : Str → Str
unfolding escape_byte
query_escape [] = []
query_escape (c ∷ s) = escape_byte c ++ query_escape s

-- strings.TrimRight(s, "/")
unfoldable pub trim_right : Str → Str
trim_right [] = []
trim_right (c ∷ s) =
    let rest = trim_right s in
    elim rest [ [] ↦ if c == b'/' then [] else c ∷ [] | d ∷ t ↦ c ∷ d ∷ t ]

-- The blanks of bytes.TrimSpace below 0x80; no JSON text begins or ends with the others.
unfoldable pub is_space : ℕ → Bool
is_space c = in_range 9 13 c || c == b' '

unfoldable pub trim_left_space : Str → Str
unfolding is_space
trim_left_space [] = []
trim_left_space (c ∷ s) = if is_space c then trim_left_space s else c ∷ s

unfoldable pub trim_right_space : Str → Str
unfolding is_space
trim_right_space [] = []
trim_right_space (c ∷ s) =
    let rest = trim_right_space s in
    elim rest [ [] ↦ if is_space c then [] else c ∷ [] | d ∷ t ↦ c ∷ d ∷ t ]

unfoldable pub trim_space : Str → Str
unfolding trim_left_space trim_right_space
trim_space s = trim_left_space (trim_right_space s)

unfoldable pub take_bytes : ℕ → Str → Str
take_bytes zero s = []
take_bytes (suc n) [] = []
take_bytes (suc n) (c ∷ s) = c ∷ take_bytes n s

-- truncate; its callers pass a length that is not negative.
unfoldable pub truncate : Str → ℕ → Str
unfolding take_bytes
truncate s n = if leb (length s) n then s else take_bytes n s ++ codes "..."
