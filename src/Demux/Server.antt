-- ===== src/Demux/Server.antt =====
-- pkg/demux/demux.go and server.go. The llm-d functions that read headers and metadata, the UUID
-- generator and the engine's StreamingServer are parameters; so is what other goroutines do to the
-- manager while a request runs.
use ai_gateway_epp.Cell.Apply.{track, done}
use ai_gateway_epp.Cell.Role.{role_eq, role_primary}
use ai_gateway_epp.Cell.Model.{World, get}
use ai_gateway_epp.Base.{
  Str, codes, str_eq, lookup, ℕ, ◌⊎◌, inl, inr, Option, none, some, List, [], ◌∷◌, ◌++◌,
  if◌then◌else◌, str_eq_instance,
}

-- demux.go
pub data RouteError : Type 0 where
  no_pool_metadata unknown_pool cell_draining : RouteError
  other_error : ℕ → RouteError

pub data Code : Type 0 where
  internal unavailable : Code

-- A gRPC status, or an error that is passed on as it is.
pub data Reply : Type 0 where
  status : Code → Str → Reply
  plain : ℕ → Reply

unfoldable pub to_status : RouteError → Reply
to_status no_pool_metadata = status internal (codes "missing inference-pool metadata")
to_status unknown_pool = status internal (codes "unknown inference pool")
to_status cell_draining = status unavailable (codes "cell is not serving (draining or not ready)")
to_status (other_error n) = plain n

-- ManagerRouter.Route
unfoldable pub route : World → Str → ℕ ⊎ RouteError
unfolding get
route w pool = elim (get w pool) [ some c ↦ inl c | none ↦ inr unknown_pool ]

-- corev3.HeaderValue, with the two fields that are set.
pub record HeaderValue : Type 0 where
  pub key : Str
  pub raw_value : Str

-- A value of the dynamic metadata: what is no text is `other_value`, what is no map `no_map`.
pub data Leaf : Type 0 where
  text : Str → Leaf
  other_value : Leaf

pub data Namespace : Type 0 where
  fields : List (Str × Leaf) → Namespace
  no_map : Namespace

-- The oneof of a ProcessingRequest: its headers, whose map may be nil, or anything else.
pub data Payload : Type 0 where
  request_headers : Option (List HeaderValue) → Payload
  other_payload : ℕ → Payload

pub record Message : Type 0 where
  pub payload : Payload
  pub metadata : List (Str × Namespace)

-- What the engine's Process does with the stream: it returns, with or without an error, or panics
-- with a value, which is given as `%v` prints it.
pub data Served : Type 0 where
  returned : Option ℕ → Served
  panicked : Str → Served

pub record Server : Type 0 where
  pub default_pool : Str
  -- llmdenvoy.ExtractHeaderValue for the key of the request id
  pub extract_id : List HeaderValue → Str
  pub request_id_key : Str
  -- uuid.NewString
  pub new_id : Str
  pub serve : ℕ → Message → Served
  -- other goroutines, between the load of the engine and Track, and while the engine serves
  pub between : World → World
  pub during : World → World

abbrev pub metadata_namespace : Str
metadata_namespace = codes "llm-d.ai"

abbrev pub pool_metadata_key : Str
pool_metadata_key = codes "inference-pool"

unfoldable pub leaf_text : Option Leaf → Str
leaf_text (some (text s)) = s
leaf_text (some other_value) = []
leaf_text none = []

unfoldable pub namespace_pool : Option Namespace → Str
unfolding leaf_text lookup
namespace_pool (some (fields m)) = leaf_text (lookup pool_metadata_key m)
namespace_pool (some no_map) = []
namespace_pool none = []

-- extractPool, over what llmdenvoy.ExtractMetadataValues returns.
unfoldable pub extract_pool : Message → Str
unfolding namespace_pool lookup
extract_pool m = namespace_pool (lookup metadata_namespace m.metadata)

-- The part of Process that gives the request an id, and writes a new one into its headers.
unfoldable pub headers_or_empty : Option (List HeaderValue) → List HeaderValue
headers_or_empty none = []
headers_or_empty (some hs) = hs

unfoldable pub with_request_id : Server → Option (List HeaderValue) → Option (List HeaderValue)
unfolding headers_or_empty str_eq
with_request_id s hs =
    if str_eq (s.extract_id (headers_or_empty hs)) []
    then some (headers_or_empty hs ++ record { key = s.request_id_key; raw_value = s.new_id } ∷ [])
    else hs

-- What Process returns: the error of Recv, a refusal, what the engine returned, or the error that a
-- recovered panic is turned into.
pub data Outcome : Type 0 where
  recv_failed : ℕ → Outcome
  refused : Reply → Outcome
  answered : ℕ → Message → Option ℕ → Outcome
  recovered : ℕ → Reply → Outcome

unfoldable pub answer : ℕ → Message → Served → Outcome
answer e m (returned r) = answered e m r
answer e m (panicked v) = recovered e (status internal (codes "internal error: " ++ v))

-- demuxErrors: one more error with a reason.
unfoldable pub count_error : Str → World → World
count_error reason w = record w {
  metrics = record w.metrics { demux_errors = w.metrics.demux_errors ++ reason ∷ [] };
}

-- Process once its cell and engine are known. `done` is deferred, so it runs after a panic too.
unfoldable pub serve_tracked : Server → World → ℕ → ℕ → Message → World × Outcome
unfolding track done answer to_status count_error
serve_tracked s w c e m =
    let (w', ok) = track (s.between w) c e in
    if ok
    then (done (s.during w') e, answer e m (s.serve e m))
    else (count_error (codes "cell-draining") w', refused (to_status cell_draining))

unfoldable pub serve_cell : Server → World → ℕ → Message → World × Outcome
unfolding serve_tracked to_status count_error
serve_cell s w c m = elim (w.cells c).engine [
  | none ↦ (count_error (codes "cell-draining") w, refused (to_status cell_draining))
  | some e ↦
      if role_eq (w.cells c).role role_primary
      then serve_tracked s w c e m
      else (count_error (codes "cell-draining") w, refused (to_status cell_draining))
]

unfoldable pub serve_pool : Server → World → Str → Message → World × Outcome
unfolding route serve_cell to_status count_error
serve_pool s w pool m = elim (route w pool) [
  | inr e ↦ (count_error (codes "unknown-pool") w, refused (to_status e))
  | inl c ↦ serve_cell s w c m
]

-- The pool of a request: its metadata's, or the default; `none` if both are empty.
unfoldable pub choose_pool : Str → Str → Option Str
choose_pool [] [] = none
choose_pool [] (d ∷ ds) = some (d ∷ ds)
choose_pool (p ∷ ps) default = some (p ∷ ps)

unfoldable pub serve_chosen : Server → World → Message → Option Str → World × Outcome
unfolding serve_pool to_status count_error
serve_chosen s w m none = (count_error (codes "no-pool") w, refused (to_status no_pool_metadata))
serve_chosen s w m (some pool) = serve_pool s w pool m

-- Process; the first Recv fails or gives a message. A message with headers that are nil counts as
-- one of another kind.
unfoldable pub process : Server → World → ℕ ⊎ Message → World × Outcome
unfolding extract_pool with_request_id serve_chosen choose_pool
process s w (inl e) = (w, recv_failed e)
process s w (inr m) = elim m.payload [
  | other_payload _ ↦
      (w, refused (status internal (codes "first ext-proc message is not RequestHeaders")))
  | request_headers hs ↦
      serve_chosen s w (record m { payload = request_headers (with_request_id s hs) })
        (choose_pool (extract_pool m) s.default_pool)
]
