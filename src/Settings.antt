-- ===== src/Settings.antt =====
-- internal/app/settings.go: the switches of the public API and the gateway's token, each with its file.
-- A handler runs under its mutex, so a request is one step.
pub mod Committed
mod Tests
use strix_halo_cluster_glm.Base.{
  String, List, [], ◌∷◌, ◌++◌, ℕ, Bool, true, false, not, ◌&&◌, ◌||◌, Option, none, some, Result,
  ok, err, refuse, ◌>>=◌, ◌>>◌, ◌==◌, eqb, if◌then◌else◌, length, lookup, sprint,
}
use strix_halo_cluster_glm.Json.{Json, Map, at}
use strix_halo_cluster_glm.Chat.Request.{is_true}
use strix_halo_cluster_glm.Cluster.Lease.{Stored, missing, unreadable, holding}
use strix_halo_cluster_glm.Cluster.Host.{WriteOutcome, written}

pub record ApiSettings : Type 0 where
  pub chat : Bool
  pub workspaces : Bool
  pub legacy_coding : Bool
  pub operations : Bool

-- The decoded switches, none where a key is left out.
pub record Payload : Type 0 where
  pub chat : Option Bool
  pub workspaces : Option Bool
  pub legacy_coding : Option Bool
  pub operations : Option Bool

-- encoding/json on the settings file: what its one value holds under `api`, with unknown keys refused.
pub record SettingsCodec : Type 0 where
  pub decode : String → Result (Option Payload)
  pub encode : ApiSettings → String

abbrev incomplete : String
incomplete = "api requires chat, workspaces, legacy_coding and operations booleans"

abbrev complete : Option Bool → Option Bool → Option Bool → Option Bool → Result ApiSettings
complete (some a) (some b) (some c) (some d) =
    ok (record { chat = a; workspaces = b; legacy_coding = c; operations = d })
complete a b c d = err incomplete

abbrev api_of : Option Payload → Result ApiSettings
api_of none = err incomplete
api_of (some p) = complete p.chat p.workspaces p.legacy_coding p.operations

-- parseAPISettings
unfoldable pub parse_api_settings : SettingsCodec → String → Result ApiSettings
parse_api_settings c raw = c.decode raw >>= api_of

-- The gateway's live values and its files.
pub record Gateway : Type 0 where
  pub token : String
  pub retired_tokens : List String
  pub token_file : Stored String
  pub settings : Option ApiSettings
  pub settings_file : Stored String

-- currentAPISettings
unfoldable pub current_api_settings : Gateway → ApiSettings
current_api_settings g = elim g.settings [
  | some s ↦ s
  | none ↦ record { chat = true; workspaces = true; legacy_coding = true; operations = true }
]

-- What opening a file and reading it back gives; `reread` is an error of the read itself.
abbrev pub reads_back : Option String → Stored String → String → Bool
reads_back none (holding t) raw = t == raw
reads_back reread file raw = false

abbrev pub confirmed :
    Option String → String → Result (Unit {0}) × Stored String → Result (Unit {0}) × Stored String
confirmed reread raw (ok _, file) = (ok tt, file)
confirmed reread raw (err e, file) =
    if reads_back reread file raw then (ok tt, file) else (err e, file)

-- persistGatewaySetting, with what is in the file behind it.
unfoldable pub persist :
    WriteOutcome → Option String → String → Stored String → Result (Unit {0}) × Stored String
persist outcome reread raw old = confirmed reread raw (written outcome raw old)

pub record Reply : Type 0 where
  pub status : ℕ
  pub body : String

abbrev put_answer : Gateway → ApiSettings → Result (Unit {0}) × Stored String → Reply × Gateway
put_answer g s (ok _, file) =
    (record { status = 200; body = "" }, record g { settings = some s; settings_file = file })
put_answer g s (err e, file) = (
  record { status = 500; body = "could not persist API settings; live switches unchanged" },
  record g { settings_file = file },
)

abbrev put_parsed :
    SettingsCodec → WriteOutcome → Option String → Gateway → Result ApiSettings → Reply × Gateway
put_parsed c outcome reread g (err e) = (record { status = 400; body = e }, g)
put_parsed c outcome reread g (ok s) =
    put_answer g s (persist outcome reread (c.encode s) g.settings_file)

-- PUT /v1/settings of an authorized client.
unfoldable pub put_settings :
    SettingsCodec → WriteOutcome → Option String → String → Gateway → Reply × Gateway
unfolding parse_api_settings persist
put_settings c outcome reread raw g = put_parsed c outcome reread g (parse_api_settings c raw)

abbrev loaded : Gateway → Result ApiSettings → Result Gateway
loaded g (err e) = err (sprint ("invalid saved API settings (not silently reset): " ∷ e ∷ []))
loaded g (ok s) = ok (record g { settings = some s })

abbrev load_from : SettingsCodec → Gateway → Stored String → Result Gateway
load_from c g missing = ok g
load_from c g (unreadable e) = err (sprint ("read API settings: " ∷ e ∷ []))
load_from c g (holding raw) = loaded g (parse_api_settings c raw)

-- loadAPISettings
unfoldable pub load_api_settings : SettingsCodec → Gateway → Result Gateway
unfolding parse_api_settings
load_api_settings c g = load_from c g g.settings_file

abbrev rotated : Gateway → String → Result (Unit {0}) × Stored String → Reply × Gateway
rotated g next (ok _, file) = (
  record { status = 200; body = next },
  record g { token = next; retired_tokens = g.retired_tokens ++ g.token ∷ []; token_file = file },
)
rotated g next (err e, file) = (
  record { status = 500; body = "could not persist new token; existing credential unchanged" },
  record g { token_file = file },
)

-- POST /v1/settings/token of a client with the token `got` and the decoded body; `next` is random.
unfoldable pub rotate_token :
    WriteOutcome → Option String → String → String → Map → Gateway → Reply × Gateway
unfolding at persist
rotate_token outcome reread next got body g =
    if not (eqb (length body) 1) || not (is_true (at "confirm" body))
    then (
      record {
        status = 400;
        body = "explicit confirm:true required; the server generates the new secret";
      },
      g,
    )
    else if not (got == g.token)
    then (
      record { status = 401; body = "token already changed; reconnect before rotating again" },
      g,
    )
    else rotated g next (persist outcome reread next g.token_file)

-- disabledAPICategory, with the last part of the request's path
unfoldable pub disabled_api_category : Gateway → String → String → String
unfolding current_api_settings
disabled_api_category g pattern action =
    let s = current_api_settings g in
    if pattern == "POST /v1/chat/completions" || pattern == "POST /v1/attachments"
    then (if s.chat then "" else "chat")
    else if pattern == "POST /v1/coding/tasks" || pattern == "POST /v1/coding/tasks/{id}/apply"
    then (if s.legacy_coding then "" else "legacy_coding")
    else if pattern == "POST /v1/operations/jobs"
    then (if s.operations then "" else "operations")
    else if pattern == "POST /v1/workspaces/sessions"
    then (if s.workspaces then "" else "workspaces")
    else if pattern == "POST /v1/workspaces/sessions/{id}/{action}"
    then (if not s.workspaces && not (action == "abort") && not (action == "close")
        then "workspaces"
        else "")
    else ""
