-- ===== src/Examples/Requests.antt =====
-- The theorems about pkg/demux at concrete inputs.
use ai_gateway_epp.Cell.Manager.{ensure}
use ai_gateway_epp.Cell.Events.{step, run}
use ai_gateway_epp.Cell.Reachable.{init}
use ai_gateway_epp.Demux.Server.{
  Server, Message, HeaderValue, process, request_headers, fields, text, returned, refused,
  metadata_namespace, pool_metadata_key, unavailable, status,
}
use ai_gateway_epp.Demux.Pools.{Names, Asks, by_metadata}
use ai_gateway_epp.Demux.Requests.{
  process_refused, reason, not_known, pool_target, process-expected, process_swapped,
  process_counted, expected, tagged, served_by, process_balanced, one_error,
}
use ai_gateway_epp.Cell.Model.{World, modify_engine}
use ai_gateway_epp.Cell.Apply.{track, apply_config}
use ai_gateway_epp.Base.{
  lookup, insert, Str, codes, str_eq, ℕ, ◌+◌, ◌≡◌, refl, sym, ◌∙◌, inr, none, some, List, [], ◌∷◌,
  arith, if◌then◌else◌, str_eq_instance,
}
use ai_gateway_epp.Examples.Worlds.{options, chat, config_two, served}

abbrev id_key : Str
id_key = codes "x-request-id"

-- ExtractHeaderValue: the last value of the key.
unfoldable pub last_value : Str → List HeaderValue → Str → Str
unfolding str_eq
last_value key [] found = found
last_value key (h ∷ hs) found = last_value key hs (if str_eq h.key key then h.raw_value else found)

abbrev pub server : (World → World) → Server
server between = record {
  default_pool = [];
  extract_id = λ hs. last_value id_key hs [];
  request_id_key = id_key;
  new_id = codes "id-1";
  serve = λ e m. returned none;
  between = between;
  during = λ w. w;
}

abbrev pub calm : Server
calm = server (λ w. w)

-- The engine of the cell is swapped between its look-up and Track.
abbrev swapping : Server
swapping = server (λ w. (apply_config options w chat config_two).0)

abbrev pub request : Message
request = record {
  payload = request_headers none;
  metadata = (metadata_namespace, fields ((pool_metadata_key, text chat) ∷ [])) ∷ [];
}

named : Names request chat
unfolding Names lookup str_eq
named = ((pool_metadata_key, text chat) ∷ [], refl, refl, λ e. ground (arith, e))

calm-Asks : Asks calm request (some chat)
calm-Asks = by_metadata named

swapping-Asks : Asks swapping request (some chat)
swapping-Asks = by_metadata named

calm-target : pool_target served (some chat) ≡ served_by 0 0
unfolding pool_target run step apply_config ensure insert str_eq lookup
calm-target = refl

same_engine : (served.cells 0).engine ≡ some 0
unfolding run step apply_config lookup ensure insert str_eq
same_engine = refl

other_engine : ((swapping.between served).cells 0).engine ≡ some 1
unfolding apply_config lookup run step ensure insert str_eq
other_engine = refl

served_by_inj : (a b c d : ℕ) → served_by a b ≡ served_by c d → (a ≡ c) × (b ≡ d)
served_by_inj a b c d e = (ground arith, ground arith)

stable :
    (c e : ℕ)
    → pool_target served (some chat) ≡ served_by c e
    → ((calm.between served).cells c).engine ≡ some e
stable c e h = let s = served_by_inj c e 0 0 (sym h ∙ calm-target) in rw (s.0, s.1) same_engine

process-expected_example :
    (process calm served (inr request)).1
    ≡ expected calm (tagged calm served request none refl) (pool_target served (some chat))
process-expected_example =
    process-expected calm served request none refl (some chat) calm-Asks stable

-- In a new manager there is no cell for the pool.
new_target : pool_target init (some chat) ≡ not_known chat
unfolding pool_target str_eq lookup
new_target = refl

process_refused_example : process calm init (inr request) ≡ (
  one_error (reason (pool_target init (some chat))) init,
  expected calm (tagged calm init request none refl) (pool_target init (some chat)),
)
process_refused_example =
    process_refused calm init request none refl (some chat) calm-Asks
      (λ c e h. ground (arith, new_target, h))

process_swapped_example :
    let (w', r) = process swapping served (inr request) in
    (r ≡ refused (status unavailable (codes "cell is not serving (draining or not ready)")))
    × ((w'.engines 0).wg ≡ ((swapping.between served).engines 0).wg)
    × (w'.metrics ≡ (one_error (codes "cell-draining") (swapping.between served)).metrics)
process_swapped_example =
    process_swapped swapping served request none refl (some chat) swapping-Asks 0 0 0 calm-target
      (λ e. ground (arith, other_engine, e))

-- While the request is served, another one starts in the same engine.
abbrev busy : Server
busy = record calm { during = λ w. (track w 0 0).0 }

busy-Asks : Asks busy request (some chat)
busy-Asks = by_metadata named

one_more :
    let counted = modify_engine served 0 (λ g. record g { wg = g.wg + 1 }) in
    ((busy.during counted).engines 0).wg + 0 ≡ (counted.engines 0).wg + 1
unfolding track run step apply_config lookup ensure insert str_eq
one_more = refl

process_counted_example :
    (((process busy served (inr request)).0.engines 0).wg + 0 ≡ (served.engines 0).wg + 1)
    × ((process busy served (inr request)).1
        ≡ expected busy (tagged busy served request none refl) (served_by 0 0))
process_counted_example =
    process_counted busy served request none refl (some chat) busy-Asks 0 0 0 1 0 calm-target
      same_engine one_more (omega arith)

process_balanced_example :
    ((process calm served (inr request)).0.engines 0).wg ≡ (served.engines 0).wg
process_balanced_example = process_balanced calm served (inr request) 0 (λ u. refl) (λ u. refl)
