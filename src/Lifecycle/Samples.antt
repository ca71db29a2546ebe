-- ===== src/Lifecycle/Samples.antt =====
-- The hosts of Cluster/Samples with what the gateway asks besides: the other model's units are off,
-- and the coordinator runs from the start of its unit to its stop.
use strix_halo_cluster_glm.Base.{
  String, List, [], ◌∷◌, Bool, true, false, ◌&&◌, ◌||◌, Result, ok, ◌==◌, if◌then◌else◌,
}
use strix_halo_cluster_glm.Base.Integer.{ℤ}
use strix_halo_cluster_glm.Cluster.Host.{Action, ran, World}
use strix_halo_cluster_glm.Cluster.Samples.{hosts, answer, is_up, third}
use strix_halo_cluster_glm.Lifecycle.Services.{Services}

abbrev fourth : List String → String
fourth (a ∷ cs) = third cs
fourth [] = ""

abbrev state_of : Bool → String
state_of true = "LoadState=loaded\nControlGroup=\nActiveState=active\nMainPID=42\n"
state_of false = "LoadState=loaded\nControlGroup=\nActiveState=inactive\nMainPID=0\n"

abbrev gateway_answer : List Action → ℤ → List String → Result String
gateway_answer acts rank args =
    if third args == "show"
    then if fourth args == "strixglm-rank0.service" || fourth args == "strixglm-rank1.service"
      then ok (state_of (is_up rank acts))
      else if fourth args == "ds41-rank0.service" || fourth args == "ds41-rank1.service"
      then ok (state_of false)
      else answer acts rank args
    else answer acts rank args

-- Whether the latest start or stop of the coordinator is a start.
abbrev pair_up : List Action → Bool
pair_up [] = false
pair_up (ran r args ∷ acts) =
    let before = pair_up acts in
    if fourth args == "strixglm-pair.service" && third args == "start"
    then true
    else if fourth args == "strixglm-pair.service" && third args == "stop"
    then false
    else before
pair_up (_ ∷ acts) = pair_up acts

abbrev pub gateway_hosts : World
gateway_hosts = record hosts { run = gateway_answer }

abbrev pub services : Services
services = record {
  systemctl = λ acts args. ok (state_of (pair_up acts));
  backend = pair_up;
  inference = λ _. ok (record { status = 200; choices = 1 });
  meminfo = λ _. ok "MemAvailable: 3 kB\nSwapFree: 2 kB\n";
  polls = λ _. 2;
}
