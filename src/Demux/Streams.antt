-- ===== src/Demux/Streams.antt =====
-- pkg/demux/server.go: bufferedStream, and the request id that the engine reads back.
use ai_gateway_epp.Demux.Server.{headers_or_empty, Message, with_request_id, HeaderValue, Server}
use ai_gateway_epp.Base.{
  str_eq_iff, ℕ, zero, suc, ◌≡◌, refl, ap, ◌≢◌, ◌⊎◌, inl, inr, Bool, true, false, not, Option, List,
  [], ◌∷◌, ◌++◌, arith, if◌then◌else◌,
}

-- bufferedStream over what the real stream will give, one result for each Recv; at its end Recv
-- fails with the error 0.
pub record BufferedStream : Type 0 where
  pub first : Message
  pub used : Bool
  pub rest : List (ℕ ⊎ Message)

unfoldable pub recv_real : List (ℕ ⊎ Message) → (ℕ ⊎ Message) × List (ℕ ⊎ Message)
recv_real [] = (inl 0, [])
recv_real (r ∷ rs) = (r, rs)

unfoldable pub recv : BufferedStream → (ℕ ⊎ Message) × BufferedStream
unfolding recv_real
recv b =
    if not b.used
    then (inr b.first, record b { used = true })
    else let (r, rest) = recv_real b.rest in (r, record b { rest = rest })

-- The results of a number of calls of Recv.
pub recv_all : ℕ → BufferedStream → List (ℕ ⊎ Message)
recv_all zero b = []
recv_all (suc n) b = (recv b).0 ∷ recv_all n (recv b).1

pub recv_all_real : ℕ → List (ℕ ⊎ Message) → List (ℕ ⊎ Message)
recv_all_real zero rs = []
recv_all_real (suc n) rs = (recv_real rs).0 ∷ recv_all_real n (recv_real rs).1

recv_all_used :
    (n : ℕ) (m : Message) (rs : List (ℕ ⊎ Message))
    → recv_all n (record { first = m; used = true; rest = rs }) ≡ recv_all_real n rs
unfolding recv_all recv_all_real recv
recv_all_used zero m rs = refl
recv_all_used (suc n) m rs = ap (◌∷◌ (recv_real rs).0) (recv_all_used n m (recv_real rs).1)

-- The engine reads the message that Process took from the stream, and then what the stream gives as
-- if nothing had been taken: the first message comes exactly once.
recv_all_replays :
    (n : ℕ) (m : Message) (rs : List (ℕ ⊎ Message))
    → recv_all (suc n) (record { first = m; used = false; rest = rs })
      ≡ recv_all_real (suc n) (inr m ∷ rs)
unfolding recv_all recv_all_real recv
recv_all_replays n m rs = ap (◌∷◌ (inr m)) (recv_all_used n m rs)

-- If the id that is appended to headers without one is read back from them, the headers that are
-- handed on have the id that Process has read or made: an id that the request carries is kept,
-- with all headers as they are; if it carries none, the new id is read back.
extract_id-with_request_id :
    (s : Server) (hs : Option (List HeaderValue))
    → ((gs : List HeaderValue)
        → s.extract_id gs ≡ []
        → s.extract_id (gs ++ record { key = s.request_id_key; raw_value = s.new_id } ∷ [])
          ≡ s.new_id)
    → ((s.extract_id (headers_or_empty hs) ≢ []) × (with_request_id s hs ≡ hs))
      ⊎ ((s.extract_id (headers_or_empty hs) ≡ [])
          × (s.extract_id (headers_or_empty (with_request_id s hs)) ≡ s.new_id))
unfolding with_request_id
extract_id-with_request_id s hs reads =
    ground (arith, str_eq_iff (s.extract_id (headers_or_empty hs)) [], reads (headers_or_empty hs))
