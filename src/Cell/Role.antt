-- ===== src/Cell/Role.antt =====
-- pkg/cell/role.go: the role that an instance has for a cluster, and the state of a cell. The source
-- numbers the constants from 0; here each is a constructor.
use ai_gateway_epp.Base.{Bool, true, false, Str, codes}

pub data Role : Type 0 where
  role_none role_standby role_primary : Role

unfoldable pub role_string : Role → Str
role_string role_standby = codes "standby"
role_string role_primary = codes "primary"
role_string role_none = codes "none"

abbrev pub role_eq : Role → Role → Bool
role_eq role_none role_none = true
role_eq role_standby role_standby = true
role_eq role_primary role_primary = true
role_eq _ _ = false

pub data State : Type 0 where
  state_creating state_standby state_primary state_draining : State

unfoldable pub state_string : State → Str
state_string state_creating = codes "creating"
state_string state_standby = codes "standby"
state_string state_primary = codes "primary"
state_string state_draining = codes "draining"

abbrev pub state_eq : State → State → Bool
state_eq state_creating state_creating = true
state_eq state_standby state_standby = true
state_eq state_primary state_primary = true
state_eq state_draining state_draining = true
state_eq _ _ = false
