-- ===== src/Examples/Polls.antt =====
-- The theorems about the polling loops and the epp_data watcher at concrete inputs.
use ai_gateway_epp.Cell.Events.{step, run}
use ai_gateway_epp.Examples.Worlds.{
  options, code_pool, served, chat, served-Inv, config_two, config_one,
}
use ai_gateway_epp.Poller.Loop.{Fetched, fetched, fetch_error, new_poller, round, rounds, second}
use ai_gateway_epp.Poller.Rounds.{first_sync-rounds, some_clean}
use ai_gateway_epp.Poller.Retried.{Serves, tries}
use ai_gateway_epp.Poller.Backoff.{failing, failing_delay}
use ai_gateway_epp.Poller.Address.{value, itoa, value-itoa}
use ai_gateway_epp.Poller.Endpoints.{HasDistinctKeys}
use ai_gateway_epp.Poller.Watcher.{EppDataConfig, handle_data}
use ai_gateway_epp.Poller.Handled.{handle_data_synced, IsSettled, assigned_role}
use ai_gateway_epp.Poller.Polled.{data_rounds, poll-IsSettled}
use ai_gateway_epp.Cell.Invariant.{Inv}
use ai_gateway_epp.Cell.Reachable.{init}
use ai_gateway_epp.Base.{
  str_eq, lookup, Str, codes, pos, negsuc, ℕ, ◌+◌, ◌*◌, ◌^◌, min, ◌≡◌, refl, inl, Bool, true, false,
  none, some, List, [], ◌∷◌, if◌then◌else◌, ◌==◌, str_eq_instance, str_eq_iff, not, arith, ltb,
}

abbrev pub self : Str
self = codes "epp-1"

-- The instance leaves the pool `chat`, which it has served, for the pool `code`.
abbrev snapshot_two : EppDataConfig
snapshot_two = record {
  epp_config = (code_pool, config_two) ∷ [];
  assignment =
      (chat, record { primary = some (codes "epp-2"); standby = none })
      ∷ (code_pool, record { primary = some self; standby = some (codes "epp-2") })
      ∷ [];
}

abbrev pub snapshot_one : EppDataConfig
snapshot_one = record {
  epp_config = (chat, config_one) ∷ [];
  assignment = (chat, record { primary = some self; standby = none }) ∷ [];
}

two_distinct : HasDistinctKeys snapshot_two.assignment
unfolding lookup str_eq
two_distinct = (refl, (refl, tt))

two_good : (handle_data options self served snapshot_two).1 ≡ true
unfolding handle_data run step
two_good = refl

handle_data_synced_example :
    let w' = (handle_data options self served snapshot_two).0 in
    Inv w' × IsSettled w' chat (assigned_role self snapshot_two.assignment chat)
handle_data_synced_example =
    handle_data_synced options self served snapshot_two served-Inv chat two_distinct two_good

abbrev fetches : List (Fetched EppDataConfig)
fetches = fetch_error ∷ fetched true (codes "v1") snapshot_one ∷ []

then_good :
    (handle_data options self
      (data_rounds options self 5 (new_poller, init) fetches).1
      snapshot_two).1
    ≡ true
unfolding handle_data rounds
then_good = refl

poll-IsSettled_example :
    let (p, w) = data_rounds options self 5 (new_poller, init) fetches in
    let (q, u) =
      round 5 (handle_data options self) (p, w) (fetched true (codes "v2") snapshot_two) in
    (q.version ≡ codes "v2")
    × (q.once_done ≡ true)
    × (q.delay ≡ 5)
    × Inv u
    × IsSettled u code_pool (assigned_role self snapshot_two.assignment code_pool)
poll-IsSettled_example =
    poll-IsSettled options self 5 fetches (codes "v2") code_pool snapshot_two two_distinct then_good

-- A handler that adds numbers up and refuses 0.
abbrev add_up : ℕ → ℕ → ℕ × Bool
add_up s n = if n == 0 then (s, false) else (s + n, true)

abbrev numbers : List (Fetched ℕ)
numbers = fetched true (codes "v1") 3 ∷ fetched true (codes "v2") 0 ∷ fetch_error ∷ []

-- A source that is down in the round 1, and a handler that accepts the number once its sum is over 5.
abbrev one_snapshot : ℕ → Str → Fetched ℕ
one_snapshot i u =
    if i == 1 then fetch_error else fetched (not (str_eq u (codes "v7"))) (codes "v7") 3

abbrev down_once : ℕ → Bool
down_once i = i == 1

one_snapshot-Serves : Serves one_snapshot down_once (codes "v7") 3
one_snapshot-Serves = record {
  fails = λ i u off. ground (arith, off);
  gives = λ i u on other. ground (arith, on, other, str_eq_iff u (codes "v7"));
  idles = λ i on. ground (arith, on, str_eq_iff (codes "v7") (codes "v7"));
}

abbrev over_five : ℕ → ℕ → ℕ × Bool
over_five s n = (s + n, ltb 5 (s + n))

-- The number is handled twice, in the rounds 0 and 2.
handled_twice :
    tries 5 over_five one_snapshot down_once (codes "v7") 3 one_snapshot-Serves 6 0 0 ≡ (6, true)
unfolding tries
handled_twice = refl

first_sync_example :
    (rounds 5 add_up (new_poller, 1) numbers).0.first_sync_closes
    ≡ (if some_clean add_up 1 numbers then 1 else 0)
first_sync_example = first_sync-rounds 5 add_up numbers 1

failing_delay_example :
    let (q, s') = failing 5 add_up (new_poller, 1) 4 in
    (q.delay ≡ min (second * 2 ^ 3) (30 * second))
    × (q.version ≡ new_poller.version)
    × (q.failures ≡ new_poller.failures + 4)
    × (q.first_sync_closes ≡ new_poller.first_sync_closes)
    × (q.once_done ≡ new_poller.once_done)
    × (q.backoff_state ≡ true)
    × (s' ≡ 1)
failing_delay_example =
    failing_delay 5 add_up new_poller 1 3 (unfold new_poller in refl)
      (inl (unfold new_poller in refl))

itoa_at_8000 :
    (value 0 (itoa (pos 8000)) ≡ 8000)
    × ((t : Str) × (itoa (negsuc 8000) ≡ b'-' ∷ t) × (value 0 t ≡ 8001))
itoa_at_8000 = value-itoa 8000
