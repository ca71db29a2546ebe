-- ===== src/Cluster/Units.antt =====
-- controller.go: reading a systemd unit, and telling an owned unit from a foreign one.
pub mod Names
pub mod Identity
pub mod Frontend
use strix_halo_cluster_glm.Base.{
  String, List, [], ◌∷◌, ◌++◌, Bool, true, false, not, ◌&&◌, ◌||◌, Option, none, some, Result, ok,
  err, ◌==◌, if◌then◌else◌, lookup, insert, sprint, sprintf_d, split, cut, fields, trim_quotes,
  is_hex32, any, map, refuse,
}
use strix_halo_cluster_glm.Base
use strix_halo_cluster_glm.Base.Integer.{ℤ, pos, negsuc, int_eq}
use strix_halo_cluster_glm.Cluster.Owner.{OwnedUnit}
use strix_halo_cluster_glm.Cluster.Host.{World, M, pure, lift, command, ◌>>=◌, ◌>>◌}

abbrev pub Fields : Type 0
Fields = List (String × String)

-- `m[k]` on a `map[string]string`
abbrev pub or_empty : Option String → String
or_empty none = ""
or_empty (some v) = v

unfoldable pub field : String → Fields → String
field k m = or_empty (lookup k m)

abbrev with_line : Option (String × String) → Fields → Fields
with_line none m = m
with_line (some (k, v)) m = insert k v m

unfoldable pub lines_from : Fields → List String → Fields
lines_from m [] = m
lines_from m (s ∷ ss) = lines_from (with_line (cut 61 s) m) ss

unfoldable pub show_args : String → List String
show_args name =
    "systemctl" ∷ "--user" ∷ "show" ∷ name ∷ "-p" ∷ "ActiveState" ∷ "-p" ∷ "SubState" ∷ "-p"
    ∷ "MainPID" ∷ "-p" ∷ "InvocationID" ∷ "-p" ∷ "Environment" ∷ "-p" ∷ "LoadState" ∷ []

unfoldable pub stop_args : String → List String
stop_args name = "systemctl" ∷ "--user" ∷ "stop" ∷ name ∷ []

-- The map that `unit` makes of the output, or its error.
unfoldable pub unit_fields : String → Result Fields
unfolding lines_from field
unit_fields out =
    let m = lines_from [] (split 10 out) in
    if field "ActiveState" m == "" || field "MainPID" m == ""
    then err "incomplete unit state"
    else ok m

-- (*ClusterController).unit
unfoldable pub unit : World → OwnedUnit → M Fields
unfolding unit_fields show_args
unit w u = do out ← command w u.rank (show_args u.name); lift (unit_fields out)

unfoldable pub unit_active : Fields → Bool
unit_active m =
    not (field "MainPID" m == "0")
    || (not (field "ActiveState" m == "inactive") && not (field "ActiveState" m == "failed"))

unfoldable pub nonce_found : String → List String → Bool
nonce_found nonce [] = false
nonce_found nonce (s ∷ ss) =
    let rest = nonce_found nonce ss in
    trim_quotes s == sprint ("CIRU_OWNER_NONCE=" ∷ nonce ∷ []) || rest

-- verifyUnit
unfoldable pub verify_unit : OwnedUnit → Fields → Result (Unit {0})
unfolding nonce_found
verify_unit u m =
    if not (unit_active m)
    then ok tt
    else if not (is_hex32 u.nonce) || not (is_hex32 (field "InvocationID" m))
    then err "missing ownership nonce/InvocationID"
    else if not (nonce_found u.nonce (fields (field "Environment" m)))
        || (not (u.invocation_id == "") && not (field "InvocationID" m == u.invocation_id))
    then err (sprint ("foreign or replaced unit: " ∷ u.name ∷ []))
    else ok tt

-- The name that `validUnits` wants.
unfoldable pub wanted_name : Bool → OwnedUnit → String
wanted_name legacy u =
    if legacy
    then (if u.name == "ciru-frontend-001" && int_eq u.rank (pos 0)
        then u.name
        else sprint ("ciru-model-rank" ∷ sprintf_d u.rank ∷ "-001" ∷ []))
    else sprint ("strixglm-rank" ∷ sprintf_d u.rank ∷ [])

abbrev pub rank_in_pair : ℤ → Bool
rank_in_pair (pos n) = Base.leb n 1
rank_in_pair (negsuc n) = false

unfoldable pub valid_from : List String → List OwnedUnit → Bool → Result (Unit {0})
unfolding wanted_name
valid_from seen [] legacy = ok tt
valid_from seen (u ∷ us) legacy =
    if not (rank_in_pair u.rank)
      || not (u.name == wanted_name legacy u)
      || any (λ s. s == u.name) seen
      || not (is_hex32 u.nonce)
    then err "invalid owned unit binding"
    else valid_from (u.name ∷ seen) us legacy

-- validUnits
unfoldable pub valid_units : List OwnedUnit → Bool → Result (Unit {0})
unfolding valid_from
valid_units us legacy = valid_from [] us legacy

unfoldable pub inspect_each : World → List OwnedUnit → M (Unit {0})
unfolding verify_unit
inspect_each w [] = pure tt
inspect_each w (u ∷ us) = do m ← unit w u; lift (verify_unit u m); inspect_each w us

-- (*ClusterController).inspectAll
unfoldable pub inspect_all : World → List OwnedUnit → Bool → M (Unit {0})
unfolding inspect_each valid_units
inspect_all w us legacy = do lift (valid_units us legacy); inspect_each w us
