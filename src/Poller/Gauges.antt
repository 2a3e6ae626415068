-- ===== src/Poller/Gauges.antt =====
-- pkg/poller: the gauge `poller_backoff_state` of poller.go, and the gauge `assignment_no_match` of
-- epp_data.go.
use ai_gateway_epp.Cell.Role.{Role}
use ai_gateway_epp.Poller.Handled.{resolve_all_lem, assigned_role}
use ai_gateway_epp.Poller.Assignment.{resolve_all}
use ai_gateway_epp.Poller.Loop.{
  second, synced, fetch_error, Poller, reset, rounds, fetched, Fetched, round, next, fail,
  sync_once, new_poller,
}
use ai_gateway_epp.Base.{
  ℕ, ◌*◌, ◌≡◌, refl, ◌∙◌, ◌↔◌, ◌⊎◌, Bool, true, false, List, [], ◌∷◌, arith, Str, lookup, sym, ap,
  inl, none, some, str_eq_instance, str_eq_iff, Option,
}
use ai_gateway_epp.Poller.Watcher.{no_match, assignment_no_match, EppDataConfig}
use ai_gateway_epp.Poller.Endpoints.{HasDistinctKeys}

-- Whether the last fetch of some has failed.
ends_failing {ℓ} : {T : Type ℓ} → Bool → List (Fetched T) → Bool
ends_failing b [] = b
ends_failing b (fetch_error ∷ fs) = ends_failing true fs
ends_failing b (fetched c v x ∷ fs) = ends_failing false fs

ends_failing-cons {ℓ} :
    {T : Type ℓ} (b : Bool) (f : Fetched T) (fs : List (Fetched T))
    → ends_failing b (f ∷ fs) ≡ ends_failing (ends_failing false (f ∷ [])) fs
unfolding ends_failing
ends_failing-cons b fetch_error fs = refl
ends_failing-cons b (fetched c v x) fs = refl

-- The gauge and the back-off agree.
record Agrees (p : Poller) : Type 0 where
  ceiling : (p.backoff.max ≡ 0) ⊎ (p.backoff.max ≡ 30 * second)
  active : (p.backoff.current ≡ 0) ↔ (p.backoff_state ≡ false)

module _ {ℓ} {T S : Type ℓ} (interval : ℕ) (handle : S → T → S × Bool) where
  round-Agrees :
      (p : Poller) (s : S) (f : Fetched T) → Agrees p → Agrees (round interval handle (p, s) f).0
  unfolding round next reset fail synced sync_once
  round-Agrees p s fetch_error a = record {
    ceiling = ground (arith, a.ceiling);
    active = ground (arith, a.ceiling, a.active);
  }
  round-Agrees p s (fetched c v x) a = record {
    ceiling = ground (arith, a.ceiling);
    active = ground arith;
  }

  round-backoff_state :
      (p : Poller) (s : S) (f : Fetched T)
      → (round interval handle (p, s) f).0.backoff_state ≡ ends_failing false (f ∷ [])
  unfolding round next reset fail synced sync_once ends_failing
  round-backoff_state p s fetch_error = refl
  round-backoff_state p s (fetched c v x) = ground arith

  rounds-Agrees :
      (fs : List (Fetched T)) (p : Poller) (s : S)
      → Agrees p
      → Agrees (rounds interval handle (p, s) fs).0
        × ((rounds interval handle (p, s) fs).0.backoff_state ≡ ends_failing p.backoff_state fs)
  unfolding rounds ends_failing
  rounds-Agrees [] p s a = (a, refl)
  rounds-Agrees (f ∷ fs) p s a =
      let (q, u) = round interval handle (p, s) f in
      let r = rounds-Agrees fs q u (round-Agrees p s f a) in
      (
        r.0,
        r.1
            ∙ ap (λ b. ends_failing b fs) (round-backoff_state p s f)
            ∙ sym (ends_failing-cons p.backoff_state f fs),
      )

  -- After any fetches of a new poller the gauge poller_backoff_state is 1 just when the last fetch has
  -- failed, and it is 0 just when the poller's back-off is at its start.
  rounds-backoff_state :
      (fs : List (Fetched T)) (s : S)
      → let p = (rounds interval handle (new_poller, s) fs).0 in
        (p.backoff_state ≡ ends_failing false fs)
        × ((p.backoff.current ≡ 0) ↔ (p.backoff_state ≡ false))
  unfolding new_poller
  rounds-backoff_state fs s =
      let r =
        rounds-Agrees fs new_poller s
          (record { ceiling = inl refl; active = (λ h. refl, λ h. refl) }) in
      (r.1, r.0.active)

given_none : (x : Option Role) → elim x [ none ↦ none | some role ↦ some role ] ≡ none → x ≡ none
given_none none h = refl
given_none (some r) h = ground (arith, h)

-- The gauge assignment_no_match is 1 after Handle has resolved the roles of a snapshot whose clusters
-- differ just when the snapshot's assignment view gives this instance no role in any cluster.
assignment_no_match_lem :
    (self : Str) (cfg : EppDataConfig)
    → HasDistinctKeys cfg.assignment
    → (assignment_no_match self cfg ≡ true)
      ↔ ((k : Str) → assigned_role self cfg.assignment k ≡ none)
unfolding assignment_no_match no_match lookup
assignment_no_match_lem self cfg distinct =
    by_roles (resolve_all self cfg.assignment [])
      (λ k. resolve_all_lem self k cfg.assignment [] distinct)
  where
    by_roles :
        (m : List (Str × Role))
        → ((k : Str)
            → lookup k m
              ≡ elim (assigned_role self cfg.assignment k) [ none ↦ none | some role ↦ some role ])
        → (no_match m ≡ true) ↔ ((k : Str) → assigned_role self cfg.assignment k ≡ none)
    by_roles [] same = (λ h k. given_none _ (sym (same k)), λ h. refl)
    by_roles ((j, r) ∷ m) same = (
      λ h. ground (arith, h),
      λ h.
          let e = same j ∙ ap (λ x. elim x [ none ↦ none | some role ↦ some role ]) (h j) in
          ground (arith, e, str_eq_iff j j),
    )
