-- ===== src/InnerApi/Outcome.antt =====
-- pkg/innerapi/client.go: when Get reports newer data, an error, or no news.
use ai_gateway_epp.Base.{
  Str, ℤ, pos, negsuc, ◌≡◌, ◌↔◌, inl, inr, true, false, none, some, arith, Option-cases, refl, [],
  ◌∙◌,
}
use ai_gateway_epp.InnerApi.Client.{
  get_failed, Response, set_auth, decode_data, Request, read_body, Net, Payload, request_url,
  Envelope, is_errnum_ok, Client, is_no_data, get, check_envelope, check_response,
}

module _ {ℓ} {T : Type ℓ} (net : Net T) (c : Client) (path version : Str) where
  abbrev pub sent_request : Request
  sent_request = set_auth c (record { url = request_url c path version; authorization = none })

  -- The answer is a complete 200, the envelope says 200 and carries data, and both decode.
  pub record Newer (x : T) (next : Str) : Type ℓ where
    pub response : Response
    pub body : Str
    pub env : Envelope
    pub payload : Payload
    pub taken : net.url_ok (request_url c path version) ≡ true
    pub sent : net.send sent_request ≡ some response
    pub read : read_body response ≡ some body
    pub ok : response.status ≡ 200
    pub enveloped : net.decode_envelope body ≡ some env
    pub accepted : env.err_num ≡ pos 200
    pub filled : is_no_data env.data_text ≡ false
    pub decoded : net.decode_payload env.data_text ≡ some payload
    pub configured : net.decode_config payload.config ≡ some x
    pub versioned : payload.version ≡ next

  is_errnum_ok_iff : (n : ℤ) → (is_errnum_ok n ≡ true) ↔ (n ≡ pos 200)
  unfolding is_errnum_ok
  is_errnum_ok_iff (pos n) = ground arith
  is_errnum_ok_iff (negsuc n) = ground arith

  decode_data-Newer :
      (raw : Str)
      → (decode_data net raw).changed ≡ true
      → (p : Payload) × (x : T) × (net.decode_payload raw ≡ some p)
        × (net.decode_config p.config ≡ some x)
        × (decode_data net raw
            ≡ record { changed = true; new_version = p.version; out = some x; error = none })
  unfolding decode_data get_failed
  decode_data-Newer raw h = elim (Option-cases (net.decode_payload raw)) [
    | inl bad ↦ ground arith
    | inr (p, good) ↦ elim (Option-cases (net.decode_config p.config)) [
      | inl bad ↦ ground arith
      | inr (x, fine) ↦ (p, x, good, fine, ground arith)
    ]
  ]

  -- Every way out of Get before the payload leaves `changed` false.
  get-decode_data :
      (get net c path version).changed ≡ true
      → (r : Response) × (body : Str) × (env : Envelope) × (net.url_ok (request_url c path version)
          ≡ true)
        × (net.send sent_request ≡ some r)
        × (read_body r ≡ some body)
        × (r.status ≡ 200)
        × (net.decode_envelope body ≡ some env)
        × (is_errnum_ok env.err_num ≡ true)
        × (is_no_data env.data_text ≡ false)
        × (get net c path version ≡ decode_data net env.data_text)
  unfolding get get_failed check_response check_envelope
  get-decode_data h = elim (Option-cases (net.send sent_request)) [
    | inl lost ↦ ground arith
    | inr (r, sent) ↦ elim (Option-cases (read_body r)) [
      | inl cut ↦ ground arith
      | inr (body, read) ↦ elim (Option-cases (net.decode_envelope body)) [
        | inl bad ↦ ground arith
        | inr (env, good) ↦ (
          r,
          body,
          env,
          ground arith,
          sent,
          read,
          ground arith,
          good,
          ground arith,
          ground arith,
          ground arith,
        )
      ]
    ]
  ]

  -- Get returns the config x and the version `next`, as newer data, just when the URL is a URL, the
  -- answer is read whole with status 200, its envelope has ErrNum 200 and data, and the payload and
  -- the config in it decode, to `next` and to x.
  pub get-Newer :
      (x : T) (next : Str)
      → (get net c path version
          ≡ record { changed = true; new_version = next; out = some x; error = none })
        ↔ Newer x next
  unfolding get get_failed check_response check_envelope decode_data is_errnum_ok
  get-Newer x next = (
    λ e.
        let (r, body, env, taken, sent, read, ok, good, fine, filled, rest) =
          get-decode_data (rw e refl) in
        let (p, y, decoded, configured, g) =
          decode_data-Newer env.data_text (rw (← rest, e) refl) in
        record {
          response = r;
          body = body;
          env = env;
          payload = p;
          taken = taken;
          sent = sent;
          read = read;
          ok = ok;
          enveloped = good;
          accepted = (is_errnum_ok_iff env.err_num).0 fine;
          filled = filled;
          decoded = decoded;
          configured = ground (arith, rest, g, e, configured);
          versioned = ground (arith, rest, g, e);
        },
    λ n.
        let fine = (is_errnum_ok_iff n.env.err_num).1 n.accepted in
        ground (
          arith, n.taken, n.sent, n.read, n.ok, n.enveloped, fine, n.filled, n.decoded,
          n.configured, n.versioned,
        ),
  )

  pub get_changed :
      (get net c path version).changed ≡ true
      → (x : T) × (next : Str) × (get net c path version
          ≡ record { changed = true; new_version = next; out = some x; error = none })
  get_changed h =
      let (r, body, env, taken, sent, read, ok, good, fine, filled, rest) = get-decode_data h in
      let (p, x, decoded, configured, g) = decode_data-Newer env.data_text (rw (← rest) h) in
      (x, p.version, rest ∙ g)

  -- Without newer data Get returns no config, and either the version of its caller and no error, or
  -- an error and the empty version.
  pub get_otherwise :
      (get net c path version).changed ≡ false
      → get net c path version ≡ elim (get net c path version).error [
        | none ↦ record { changed = false; new_version = version; out = none; error = none }
        | some e ↦ record { changed = false; new_version = []; out = none; error = some e }
      ]
  unfolding get get_failed check_response check_envelope decode_data
  get_otherwise h = elim (Option-cases (net.send sent_request)) [
    | inl lost ↦ ground arith
    | inr (r, sent) ↦ elim (Option-cases (read_body r)) [
      | inl cut ↦ ground arith
      | inr (body, read) ↦ elim (Option-cases (net.decode_envelope body)) [
        | inl bad ↦ ground arith
        | inr (env, good) ↦ ground arith
      ]
    ]
  ]
