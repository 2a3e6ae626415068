-- ===== src/InnerApi/Client.antt =====
-- pkg/innerapi/client.go: the client. What the network, net/http and encoding/json do is given by a
-- `Net`, which stands for the answers of one call.
use ai_gateway_epp.Base.{
  Str, codes, str_eq, length, ℤ, pos, negsuc, ℕ, Bool, true, false, not, ◌&&◌, ◌||◌, Option, none,
  some, [], ◌∷◌, ◌++◌, ltb, if◌then◌else◌, ◌==◌, has_byte,
}
use ai_gateway_epp.InnerApi.Text.{query_escape, trim_right, truncate, take_bytes, trim_space}

-- Client; `timeout` is that of the `http.Client`, in nanoseconds.
pub record Client : Type 0 where
  pub base_url : Str
  pub token : Str
  pub timeout : ℕ

unfoldable pub new_client : Str → Str → ℤ → Client
unfolding trim_right
new_client base_url token timeout = record {
  base_url = trim_right base_url;
  token = token;
  timeout = elim timeout [ pos n ↦ if n == 0 then 3000000000 else n | negsuc n ↦ 3000000000 ];
}

-- The request that net/http sends: a GET, with at most the one header.
pub record Request : Type 0 where
  pub url : Str
  pub authorization : Option Str

-- What Do returns without an error: the bytes of the body, and whether reading on from their end
-- fails.
pub record Response : Type 0 where
  pub status : ℕ
  pub body : Str
  pub broken : Bool

-- envelope; `data_text` is the raw Data, empty when the field is missing.
pub record Envelope : Type 0 where
  pub err_num : ℤ
  pub err_msg : Str
  pub data_text : Str
  pub work_mode : Str

-- The payload of Get, with its config as raw text.
pub record Payload : Type 0 where
  pub version : Str
  pub config : Str

-- What the code outside of the repository answers: whether NewRequestWithContext takes a URL, the
-- result of Do, and the decoders of encoding/json.
pub record Net {ℓ} (T : Type ℓ) : Type ℓ where
  pub url_ok : Str → Bool
  pub send : Request → Option Response
  pub decode_envelope : Str → Option Envelope
  pub decode_payload : Str → Option Payload
  pub decode_config : Str → Option T

pub data GetError : Type 0 where
  bad_url : GetError
  send_failed : GetError
  read_failed : GetError
  bad_status : ℕ → Str → GetError
  bad_envelope : GetError
  bad_errnum : ℤ → Str → GetError
  bad_data : GetError
  bad_config : GetError

-- The results of Get, `out` with them.
pub record Got {ℓ} (T : Type ℓ) : Type ℓ where
  pub changed : Bool
  pub new_version : Str
  pub out : Option T
  pub error : Option GetError

-- `u += sep + "version=" + url.QueryEscape(version)`
unfoldable pub request_url : Client → Str → Str → Str
unfolding has_byte query_escape
request_url c path [] = c.base_url ++ path
request_url c path (v ∷ version) =
    let u = c.base_url ++ path in
    let sep = if has_byte b'?' u then b'&' else b'?' in
    u ++ sep ∷ codes "version=" ++ query_escape (v ∷ version)

unfoldable pub set_auth : Client → Request → Request
set_auth c req = elim c.token [
  | [] ↦ req
  | t ∷ ts ↦ record req { authorization = some (codes "Token " ++ t ∷ ts) }
]

-- `32 << 20`
abbrev pub body_limit : ℕ
body_limit = 33554432

-- io.ReadAll of the limited body: an error behind the limit is not met.
unfoldable pub read_body : Response → Option Str
unfolding take_bytes
read_body r =
    if r.broken && ltb (length r.body) body_limit then none else some (take_bytes body_limit r.body)

unfoldable pub is_errnum_ok : ℤ → Bool
is_errnum_ok (pos n) = n == 200
is_errnum_ok (negsuc n) = false

-- `len(env.Data) == 0 || bytes.Equal(bytes.TrimSpace(env.Data), []byte("null"))`
unfoldable pub is_no_data : Str → Bool
unfolding trim_space str_eq
is_no_data raw = length raw == 0 || str_eq (trim_space raw) (codes "null")

module _ {ℓ} {T : Type ℓ} where
  unfoldable pub get_failed : GetError → Got T
  get_failed e = record { changed = false; new_version = []; out = none; error = some e }

  -- The end of Get: the payload of an envelope that carries data.
  unfoldable pub decode_data : Net T → Str → Got T
  unfolding get_failed
  decode_data net raw = elim (net.decode_payload raw) [
    | none ↦ get_failed bad_data
    | some p ↦ elim (net.decode_config p.config) [
      | none ↦ get_failed bad_config
      | some x ↦ record { changed = true; new_version = p.version; out = some x; error = none }
    ]
  ]

  unfoldable pub check_envelope : Net T → Str → Envelope → Got T
  unfolding get_failed decode_data is_errnum_ok is_no_data
  check_envelope net version env =
      if not (is_errnum_ok env.err_num)
      then get_failed (bad_errnum env.err_num env.err_msg)
      else if is_no_data env.data_text
      then record { changed = false; new_version = version; out = none; error = none }
      else decode_data net env.data_text

  unfoldable pub check_response : Net T → Str → Response → Got T
  unfolding get_failed check_envelope read_body truncate
  check_response net version r = elim (read_body r) [
    | none ↦ get_failed read_failed
    | some body ↦
        if not (r.status == 200)
        then get_failed (bad_status r.status (truncate body 200))
        else elim (net.decode_envelope body) [
          | none ↦ get_failed bad_envelope
          | some env ↦ check_envelope net version env
        ]
  ]

  -- Get, with an `out` that is not nil, as all its callers pass.
  unfoldable pub get : Net T → Client → Str → Str → Got T
  unfolding get_failed check_response request_url set_auth
  get net c path version =
      let u = request_url c path version in
      if not (net.url_ok u)
      then get_failed bad_url
      else elim (net.send (set_auth c (record { url = u; authorization = none }))) [
        | none ↦ get_failed send_failed
        | some r ↦ check_response net version r
      ]
