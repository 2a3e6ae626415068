-- ===== src/Examples/Fetches.antt =====
-- The theorems about pkg/innerapi and the fetches of the sources at concrete inputs.
use ai_gateway_epp.InnerApi.Client.{Net, Client, get, new_client}
use ai_gateway_epp.InnerApi.Outcome.{Newer, get-Newer, get_otherwise}
use ai_gateway_epp.Base.{
  Str, codes, pos, negsuc, ℕ, ◌≡◌, refl, ◌↔◌, true, false, none, some, [], String,
}

-- A server that answers every request alike; its texts decode to themselves.
abbrev net : {T : Type 0} → ℕ → Str → T → Net T
net status content x = record {
  url_ok = λ u. true;
  send = λ req. some (record { status = status; body = content; broken = false });
  decode_envelope =
      λ body. some (record { err_num = pos 200; err_msg = []; data_text = body; work_mode = [] });
  decode_payload = λ raw. some (record { version = codes "v2"; config = raw });
  decode_config = λ raw. some x;
}

abbrev sevens : String → Net ℕ
sevens content = net 200 (codes content) 7

abbrev client : Client
client = new_client (codes "http://api/") (codes "secret") (negsuc 0)

get-Newer_example :
    (get (sevens "{}") client (codes "/p") (codes "v1")
      ≡ record { changed = true; new_version = codes "v2"; out = some 7; error = none })
    ↔ Newer (sevens "{}") client (codes "/p") (codes "v1") 7 (codes "v2")
get-Newer_example = get-Newer (sevens "{}") client (codes "/p") (codes "v1") 7 (codes "v2")

is_null : (get (sevens " null ") client (codes "/p") (codes "v1")).changed ≡ false
unfolding get
is_null = refl

get_otherwise_example :
    let g = get (sevens " null ") client (codes "/p") (codes "v1") in
    g ≡ elim g.error [
      | none ↦ record { changed = false; new_version = codes "v1"; out = none; error = none }
      | some e ↦ record { changed = false; new_version = []; out = none; error = some e }
    ]
get_otherwise_example = get_otherwise (sevens " null ") client (codes "/p") (codes "v1") is_null
