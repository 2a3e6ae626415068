-- ===== src/Cmd/Plugins.antt =====
-- cmd/epp/plugins.go: what registerPlugins puts into the registries of llm-d. A plugin is named by the
-- Go constant of its type; all are of the stability Beta.
use ai_gateway_epp.Base.{
  Str, codes, str_eq, insert, length, ◌≡◌, refl, Bool, false, List, [], ◌∷◌, str_eq_instance,
}

-- Register, RegisterAsDefaultProducer with the constant of its data key, and RegisterFeatureGate with
-- its default.
pub data Registration : Type 0 where
  plugin : Str → Registration
  default_producer : Str → Str → Registration
  feature_gate : Str → Bool → Registration

-- The registrations, in order; the factory of the last is NewFactory of the hub.
abbrev pub registrations : List Registration
registrations =
    feature_gate (codes "flowcontrol.FeatureGate") false
    ∷ plugin (codes "utilizationfilter.UtilizationFilterType")
    ∷ plugin (codes "prefix.PrefixCacheScorerPluginType")
    ∷ plugin (codes "kvcacheutilization.KvCacheUtilizationScorerType")
    ∷ plugin (codes "queuedepth.QueueScorerType")
    ∷ plugin (codes "runningrequests.RunningRequestsSizeScorerType")
    ∷ plugin (codes "loadaware.LoadAwareType")
    ∷ plugin (codes "sessionaffinityscorer.SessionAffinityType")
    ∷ plugin (codes "maxscore.MaxScorePickerType")
    ∷ plugin (codes "random.RandomPickerType")
    ∷ plugin (codes "weightedrandom.WeightedRandomPickerType")
    ∷ plugin (codes "single.SingleProfileHandlerType")
    ∷ plugin (codes "globalstrict.GlobalStrictFairnessPolicyType")
    ∷ plugin (codes "roundrobin.RoundRobinFairnessPolicyType")
    ∷ plugin (codes "fcfs.FCFSOrderingPolicyType")
    ∷ plugin (codes "edf.EDFOrderingPolicyType")
    ∷ plugin (codes "slodeadline.SLODeadlineOrderingPolicyType")
    ∷ plugin (codes "usagelimits.StaticUsageLimitPolicyType")
    ∷ plugin (codes "concurrency.ConcurrencyDetectorType")
    ∷ plugin (codes "utilizationdetector.UtilizationDetectorType")
    ∷ default_producer (codes "approximateprefix.ApproxPrefixCachePluginType")
        (codes "attrprefix.PrefixCacheMatchInfoDataKey")
    ∷ default_producer (codes "inflightload.InFlightLoadProducerType")
        (codes "attrconcurrency.InFlightLoadDataKey")
    ∷ default_producer (codes "tokenizer.PluginType") (codes "tokenizer.TokenizedPromptDataKey")
    ∷ plugin (codes "openai.OpenAIParserType")
    ∷ plugin (codes "passthrough.PassthroughParserType")
    ∷ plugin (codes "vllmhttp.VllmHTTPParserType")
    ∷ plugin (codes "sourcemetrics.MetricsDataSourceType")
    ∷ plugin (codes "extractormetrics.MetricsExtractorType")
    ∷ plugin (codes "clustertable.PluginType")
    ∷ []

unfoldable pub registered_name : Registration → Str
registered_name (plugin t) = t
registered_name (default_producer t _) = t
registered_name (feature_gate g _) = g

-- llm-d's registries, by the names in them; a name that is registered again replaces the entry.
unfoldable pub register_plugins :
    List (Str × Registration) → List Registration → List (Str × Registration)
unfolding registered_name insert
register_plugins registry [] = registry
register_plugins registry (r ∷ rs) = register_plugins (insert (registered_name r) r registry) rs

-- The constants have different names: there are as many entries as registrations.
register_plugins_count : length (register_plugins [] registrations) ≡ length registrations
unfolding register_plugins str_eq
register_plugins_count = refl
