-- ===== src/Settings/Tests.antt =====
-- A gateway whose settings file is four letters, and runs on it.
use strix_halo_cluster_glm.Base.{
  String, [], ◌∷◌, ◌≡◌, refl, Bool, true, false, Option, none, some, Result, ok, err, eqb, sprint,
  lookup,
}
use Prim.Native.Char.{code}
use strix_halo_cluster_glm.Json.{Map, boolean}
use strix_halo_cluster_glm.Cluster.Lease.{holding}
use strix_halo_cluster_glm.Cluster.Host.{unsynced}
use strix_halo_cluster_glm.Settings.{
  ApiSettings, Payload, SettingsCodec, Gateway, put_settings, load_api_settings, rotate_token,
  disabled_api_category,
}
use strix_halo_cluster_glm.Settings.Committed.{full, load-put_settings, rotate_token-Keeps}

abbrev letter : Bool → String
letter true = "t"
letter false = "f"

abbrev encoded : Bool → Bool → Bool → Bool → String
encoded a b c d = sprint (letter a ∷ letter b ∷ letter c ∷ letter d ∷ [])

abbrev decoded : String → Result (Option Payload)
decoded (String.◌∷◌ a (String.◌∷◌ b (String.◌∷◌ c (String.◌∷◌ d String.[])))) = ok (
    some (record {
      chat = some (eqb (code a) 116);
      workspaces = some (eqb (code b) 116);
      legacy_coding = some (eqb (code c) 116);
      operations = some (eqb (code d) 116);
    }))
decoded _ = err "four letters"

abbrev letters : SettingsCodec
letters = record {
  decode = decoded;
  encode = λ s. encoded s.chat s.workspaces s.legacy_coding s.operations;
}

decoded-encoded :
    (a b c d : Bool)
    → decoded (encoded a b c d)
      ≡ ok (some (full (record { chat = a; workspaces = b; legacy_coding = c; operations = d })))
unfolding sprint
decoded-encoded true true true true = refl
decoded-encoded true true true false = refl
decoded-encoded true true false true = refl
decoded-encoded true true false false = refl
decoded-encoded true false true true = refl
decoded-encoded true false true false = refl
decoded-encoded true false false true = refl
decoded-encoded true false false false = refl
decoded-encoded false true true true = refl
decoded-encoded false true true false = refl
decoded-encoded false true false true = refl
decoded-encoded false true false false = refl
decoded-encoded false false true true = refl
decoded-encoded false false true false = refl
decoded-encoded false false false true = refl
decoded-encoded false false false false = refl

decodes : (s : ApiSettings) → letters.decode (letters.encode s) ≡ ok (some (full s))
decodes s = decoded-encoded s.chat s.workspaces s.legacy_coding s.operations

abbrev gateway : Gateway
gateway = record {
  token = "old";
  retired_tokens = [];
  token_file = holding "old";
  settings = none;
  settings_file = holding "tttt";
}

put_run : (put_settings letters (unsynced "sync") none "tftt" gateway).0.status ≡ 200
unfolding put_settings sprint
put_run = refl

load-put_settings_example :
    load_api_settings letters (put_settings letters (unsynced "sync") none "tftt" gateway).1
    ≡ ok (put_settings letters (unsynced "sync") none "tftt" gateway).1
load-put_settings_example =
    load-put_settings letters decodes (unsynced "sync") none "tftt" gateway put_run

paused_test :
    disabled_api_category
      (put_settings letters (unsynced "sync") none "tftt" gateway).1
      "POST /v1/workspaces/sessions/{id}/{action}"
      "run"
    ≡ "workspaces"
unfolding put_settings disabled_api_category sprint
paused_test = refl

abbrev consent : Map
consent = ("confirm", boolean true) ∷ []

rotate_token-Keeps_example :
    (rotate_token (unsynced "sync") none "new" "old" consent gateway).1.token_file
    ≡ holding (rotate_token (unsynced "sync") none "new" "old" consent gateway).1.token
rotate_token-Keeps_example = rotate_token-Keeps (unsynced "sync") "new" "old" consent gateway refl

rotated_test : (rotate_token (unsynced "sync") none "new" "old" consent gateway).1.token ≡ "new"
unfolding rotate_token lookup
rotated_test = refl
