-- ===== src/ClusterTable/Endpoint.antt =====
-- The llm-d types that pkg/eppplugin/clustertable and pkg/poller fill in: NamespacedName, and the
-- fields of EndpointMetadata that the source sets.
use ai_gateway_epp.Base.{
  Str, str_eq_iff, str_eq, Eq, ◌≡◌, ◌↔◌, Bool, true, ◌&&◌, arith, str_eq_instance,
}

pub record NamespacedName : Type 0 where
  pub namespace : Str
  pub name : Str

unfoldable pub id_beq : NamespacedName → NamespacedName → Bool
unfolding str_eq
id_beq a b = str_eq a.namespace b.namespace && str_eq a.name b.name

pub id_beq_iff : (a b : NamespacedName) → (id_beq a b ≡ true) ↔ (a ≡ b)
unfolding id_beq
id_beq_iff a b = ground (arith, str_eq_iff a.namespace b.namespace, str_eq_iff a.name b.name)

instance abbrev pub id_eq : Eq NamespacedName
id_eq = record { beq = id_beq; beq_iff = id_beq_iff }

pub record Endpoint : Type 0 where
  pub id : NamespacedName
  pub name : Str
  pub address : Str
  pub port : Str
  pub metrics_host : Str
