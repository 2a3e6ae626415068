-- ===== src/Poller/Assignment.antt =====
-- pkg/poller/epp_data.go: the roles of an instance in the full assignment view.
use ai_gateway_epp.Cell.Role.{Role, role_none, role_standby, role_primary}
use ai_gateway_epp.Base.{
  Str, str_eq_iff, str_eq, insert, ◌≡◌, ◌≢◌, Bool, true, false, Option, none, some, List, [], ◌∷◌,
  arith, if◌then◌else◌, str_eq_instance,
}

-- innerapi.AssignmentEntry; a nil pointer is `none`.
pub record AssignmentEntry : Type 0 where
  pub primary : Option Str
  pub standby : Option Str

unfoldable pub is_self : Str → Option Str → Bool
unfolding str_eq
is_self self none = false
is_self self (some id) = str_eq id self

unfoldable pub resolve_role : Str → AssignmentEntry → Role × Bool
unfolding is_self
resolve_role self e =
    if is_self self e.primary
    then (role_primary, true)
    else if is_self self e.standby
    then (role_standby, true)
    else (role_none, false)

unfoldable pub text_or_empty : Option Str → Str
text_or_empty none = []
text_or_empty (some id) = id

unfoldable pub peer_id : Str → AssignmentEntry → Str
unfolding is_self text_or_empty
peer_id self e =
    if is_self self e.primary
    then text_or_empty e.standby
    else if is_self self e.standby
    then text_or_empty e.primary
    else []

-- The first loop of Handle: the map from a cluster to this instance's role.
unfoldable pub resolve_all :
    Str → List (Str × AssignmentEntry) → List (Str × Role) → List (Str × Role)
unfolding resolve_role insert
resolve_all self [] mine = mine
resolve_all self ((cluster, e) ∷ rest) mine =
    let (role, ok) = resolve_role self e in
    resolve_all self rest (if ok then insert cluster role mine else mine)

-- Of the two instances of a group with different ids, one is primary, the other standby, and each
-- has the other as its peer; an instance with neither id has no role and no peer.
resolve_role_group :
    (p s self : Str)
    → p ≢ s
    → self ≢ p
    → self ≢ s
    → let e : AssignmentEntry = record { primary = some p; standby = some s } in
      (resolve_role p e ≡ (role_primary, true))
      × (resolve_role s e ≡ (role_standby, true))
      × (peer_id p e ≡ s)
      × (peer_id s e ≡ p)
      × (resolve_role self e ≡ (role_none, false))
      × (peer_id self e ≡ [])
unfolding resolve_role peer_id
resolve_role_group p s self different np ns = (
  ground (arith, str_eq_iff p p),
  ground (arith, str_eq_iff p s, str_eq_iff s s),
  ground (arith, str_eq_iff p p),
  ground (arith, str_eq_iff p s, str_eq_iff s s),
  ground (arith, str_eq_iff p self, str_eq_iff s self),
  ground (arith, str_eq_iff p self, str_eq_iff s self),
)
