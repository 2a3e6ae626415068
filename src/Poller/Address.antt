-- ===== src/Poller/Address.antt =====
-- pkg/poller/discovery.go: addresses, with the functions of strconv and net that it calls.
use ai_gateway_epp.Base.{
  Str, length, ℤ, pos, negsuc, ℕ, zero, suc, ◌+◌, ◌-◌, ◌*◌, ◌/◌, ◌%◌, ◌<◌, ◌≡◌, refl, ◌≢◌, ◌&&◌, [],
  ◌∷◌, ◌++◌, if◌then◌else◌, ◌==◌, ltb, length-append, inl, inr, arith, Bool-cases, has_byte,
}

-- strconv.Itoa. A number below 10 ^ fuel has at most `fuel` digits.
decimal : ℕ → ℕ → Str
decimal zero n = []
decimal (suc fuel) n =
    let front = decimal fuel (n / 10) in
    if ltb n 10 then (48 + n) ∷ [] else front ++ (48 + n % 10) ∷ []

unfoldable pub itoa : ℤ → Str
unfolding decimal
itoa (pos n) = decimal (n + 1) n
itoa (negsuc n) = b'-' ∷ decimal (n + 2) (n + 1)

-- net.JoinHostPort
unfoldable pub join_host_port : Str → Str → Str
unfolding has_byte
join_host_port host port =
    if has_byte b':' host then b'[' ∷ host ++ b']' ∷ b':' ∷ port else host ++ b':' ∷ port

-- `addr[:len(addr)-1]` and `addr[len(addr)-1]`, of an address that is not empty.
unfoldable pub split_last : ℕ → Str → Str × ℕ
split_last c [] = ([], c)
split_last c (d ∷ s) = let (front, last) = split_last d s in (c ∷ front, last)

unfoldable pub unwrap_ipv6 : Str → Str
unfolding split_last
unwrap_ipv6 [] = []
unwrap_ipv6 (c ∷ []) = c ∷ []
unwrap_ipv6 (c ∷ d ∷ s) =
    let (front, last) = split_last d s in
    if ltb 2 (length (c ∷ d ∷ s)) && (c == b'[' && last == b']') then front else c ∷ d ∷ s

split_last-append : (c : ℕ) (s : Str) (l : ℕ) → split_last c (s ++ l ∷ []) ≡ (c ∷ s, l)
unfolding split_last
split_last-append c [] l = refl
split_last-append c (d ∷ s) l = rw (split_last-append d s l)

unwrap_ipv6_plain : (c : ℕ) (s : Str) → c ≢ b'[' → unwrap_ipv6 (c ∷ s) ≡ c ∷ s
unfolding unwrap_ipv6
unwrap_ipv6_plain c [] h = refl
unwrap_ipv6_plain c (d ∷ s) h = ground arith

-- The brackets of an address are taken off, and an address without the first one is kept.
pub unwrap_ipv6_lem :
    (c : ℕ) (s : Str)
    → c ≢ b'['
    → (unwrap_ipv6 (b'[' ∷ c ∷ s ++ b']' ∷ []) ≡ c ∷ s) × (unwrap_ipv6 (c ∷ s) ≡ c ∷ s)
unfolding unwrap_ipv6
unwrap_ipv6_lem c s plain = (
  ground (arith, split_last-append c s b']', length-append s (b']' ∷ [])),
  unwrap_ipv6_plain c s plain,
)

-- The digits of a text, read back.
pub value : ℕ → Str → ℕ
value acc [] = acc
value acc (c ∷ s) = value (acc * 10 + (c - 48)) s

value-append : (acc : ℕ) (s : Str) (c : ℕ) → value acc (s ++ c ∷ []) ≡ value acc s * 10 + (c - 48)
unfolding value
value-append acc [] c = refl
value-append acc (d ∷ s) c = value-append (acc * 10 + (d - 48)) s c

value-decimal : (fuel n : ℕ) → n < fuel → value 0 (decimal fuel n) ≡ n
unfolding value decimal
value-decimal zero n h = elim h [ ]
value-decimal (suc fuel) n h = elim (Bool-cases (ltb n 10)) [
  | inl small ↦ rw small (omega arith)
  | inr large ↦
      rw (large, value-append 0 (decimal fuel (n / 10)) (48 + n % 10))
        (rw (value-decimal fuel (n / 10) (ground arith)) (omega arith))
]

-- The decimal text of a number reads back as the number, for every number: the fuel is enough. A
-- negative number is a minus sign and the text of its size.
pub value-itoa :
    (n : ℕ)
    → (value 0 (itoa (pos n)) ≡ n)
      × ((t : Str) × (itoa (negsuc n) ≡ b'-' ∷ t) × (value 0 t ≡ n + 1))
unfolding itoa
value-itoa n = (
  value-decimal (n + 1) n (omega arith),
  (decimal (n + 2) (n + 1), refl, value-decimal (n + 2) (n + 1) (omega arith)),
)
