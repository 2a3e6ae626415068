-- ===== src/ClusterTable/Plugin.antt =====
-- pkg/eppplugin/clustertable/discovery.go: the plugin of an engine, its factory, and its readiness.
use ai_gateway_epp.Base.{
  Str, codes, str_eq, ℕ, ◌+◌, ◌≡◌, refl, Bool, true, false, ◌||◌, Option, none, some, List, [], ◌∷◌,
  ◌++◌, arith, if◌then◌else◌, lookup, ap, ◌∙◌, str_eq_instance,
}
use ai_gateway_epp.ClusterTable.Hub.{snapshot, Hub}
use ai_gateway_epp.ClusterTable.Endpoint.{Endpoint, NamespacedName, id_eq}
use ai_gateway_epp.ClusterTable.Discovery.{Call, start_rounds, apply, Applied, notify}
use ai_gateway_epp.ClusterTable.Diff.{last_of, start_rounds_synced}

-- discovery; `hub` is shared, so it is an argument of the calls. `ready_closes` counts the closes of
-- the channel `ready`.
pub record Plugin : Type 0 where
  pub cluster_name : Str
  pub applied : Applied
  pub once_done : Bool
  pub ready_closes : ℕ

-- NewFactory, for the parameters of a plugin: none, or what their decoder gives for clusterName, which
-- is empty when it is missing, or fails.
unfoldable pub new_discovery : Option (Option Str) → Option Plugin
new_discovery parameters =
    let fresh : Str → Plugin =
      λ name. record { cluster_name = name; applied = []; once_done = false; ready_closes = 0 } in
    elim parameters [
      | none ↦ some (fresh [])
      | some decoded ↦ elim decoded [ none ↦ none | some name ↦ some (fresh name) ]
    ]

abbrev pub plugin_type : Str
plugin_type = codes "cluster-table-discovery"

-- TypedName, as its type and its name.
unfoldable pub typed_name : Plugin → Str × Str
unfolding str_eq
typed_name d = (plugin_type, if str_eq d.cluster_name [] then codes "default" else d.cluster_name)

-- d.once.Do on the close of `ready`.
unfoldable pub close_ready : Plugin → Plugin
close_ready d =
    if d.once_done then d else record d { once_done = true; ready_closes = d.ready_closes + 1 }

module _ (equal : Endpoint → Endpoint → Bool) where
  -- One round of Start, up to WaitChange.
  unfoldable pub start_round : Plugin → Hub → Plugin × List Call
  unfolding apply snapshot close_ready
  start_round d h =
      let (a, cs) = apply equal (snapshot d.cluster_name h).0 d.applied in
      (close_ready (record d { applied = a }), cs)

  -- The rounds of Start, over the hubs that they see.
  unfoldable pub start_all : Plugin → List Hub → Plugin × List Call
  unfolding start_round
  start_all d [] = (d, [])
  start_all d (h ∷ hs) =
      let (e, cs) = start_round d h in let (g, ds) = start_all e hs in (g, cs ++ ds)

-- `once` and the channel go together.
abbrev Closed : Bool → Plugin → Type 0
Closed b d = (d.once_done ≡ b) × (d.ready_closes ≡ (if b then 1 else 0))

close_ready_kept :
    (d : Plugin)
    → ((close_ready d).cluster_name ≡ d.cluster_name) × ((close_ready d).applied ≡ d.applied)
unfolding close_ready
close_ready_kept d = (ground arith, ground arith)

close_ready-Closed : (b : Bool) (d : Plugin) → Closed b d → Closed true (close_ready d)
unfolding close_ready
close_ready-Closed b d h = (ground arith, ground arith)

or_true : (b : Bool) → (b || true) ≡ true
or_true true = refl
or_true false = refl

module _ (equal : Endpoint → Endpoint → Bool) where
  same_rounds :
      (hs : List Hub) (c k : Str) (a b : Applied)
      → c ≡ k
      → a ≡ b
      → start_rounds equal c hs a ≡ start_rounds equal k hs b
  same_rounds hs c k a b e f = rw (e, f) refl

  -- The plugin's rounds send what the rounds over its applied map send.
  start_all-start_rounds :
      (hs : List Hub) (d : Plugin)
      → ((start_all equal d hs).0.applied ≡ (start_rounds equal d.cluster_name hs d.applied).0)
        × ((start_all equal d hs).1 ≡ (start_rounds equal d.cluster_name hs d.applied).1)
  unfolding start_all start_round start_rounds
  start_all-start_rounds [] d = (refl, refl)
  start_all-start_rounds (h ∷ hs) d =
      let r = apply equal (snapshot d.cluster_name h).0 d.applied in
      let u : Plugin = record d { applied = r.0 } in
      let kept = close_ready_kept u in
      let ih = start_all-start_rounds hs (close_ready u) in
      let s = same_rounds hs _ d.cluster_name _ r.0 kept.0 kept.1 in
      (ih.0 ∙ ap (λ x. x.0) s, ap (λ cs. r.1 ++ cs) (ih.1 ∙ ap (λ x. x.1) s))

  start_all-Closed :
      (hs : List Hub) (d : Plugin) → Closed true d → Closed true (start_all equal d hs).0
  unfolding start_all start_round
  start_all-Closed [] d h = h
  start_all-Closed (g ∷ hs) d h =
      let u : Plugin = record d {
        applied = (apply equal (snapshot d.cluster_name g).0 d.applied).0;
      } in
      start_all-Closed hs (close_ready u) (close_ready-Closed true u h)

module _ (equal : Endpoint → Endpoint → Bool) where
  first_round-Closed :
      (hs : List Hub) (h : Hub) (d : Plugin)
      → Closed false d
      → Closed true (start_all equal d (hs ++ h ∷ [])).0
  unfolding start_all start_round
  first_round-Closed [] h d c =
      let u : Plugin = record d {
        applied = (apply equal (snapshot d.cluster_name h).0 d.applied).0;
      } in
      close_ready-Closed false u c
  first_round-Closed (g ∷ hs) h d c =
      let u : Plugin = record d {
        applied = (apply equal (snapshot d.cluster_name g).0 d.applied).0;
      } in
      start_all-Closed equal (hs ++ h ∷ []) (close_ready u) (close_ready-Closed false u c)

new_discovery_fields :
    (name : Str) (d : Plugin)
    → new_discovery (some (some name)) ≡ some d
    → (d.cluster_name ≡ name) × (d.applied ≡ []) × Closed false d
unfolding new_discovery
new_discovery_fields name d made = (ground arith, ground arith, (ground arith, ground arith))

module _ (equal : Endpoint → Endpoint → Bool)
    (equal_sound : (a b : Endpoint) → equal a b ≡ true → a ≡ b) where
  -- If endpoints that are Equal are equal, a new plugin that has made at least one round has
  -- closed its Ready channel once, and its store, empty at first, has for every id exactly what
  -- the hub of its last round has for its cluster.
  new_discovery_ready :
      (name : Str) (d : Plugin) (hs : List Hub) (h : Hub) (id : NamespacedName)
      → new_discovery (some (some name)) ≡ some d
      → ((start_all equal d (hs ++ h ∷ [])).0.ready_closes ≡ 1)
        × (lookup id (notify [] (start_all equal d (hs ++ h ∷ [])).1)
            ≡ last_of id (snapshot name h).0)
  new_discovery_ready name d hs h id made =
      let f = new_discovery_fields name d made in
      let s =
        (start_all-start_rounds equal (hs ++ h ∷ []) d).1
        ∙ ap (λ x. x.1) (same_rounds equal (hs ++ h ∷ []) _ name _ [] f.0 f.1) in
      (
        (first_round-Closed equal hs h d f.2).1,
        rw s (start_rounds_synced equal equal_sound name hs h id),
      )
