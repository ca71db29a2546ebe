-- ===== src/Settings/Committed.antt =====
-- The live values against their files.
use strix_halo_cluster_glm.Base.{
  String, ◌≡◌, refl, ap, ◌∙◌, arith, true, not, ◌||◌, Option, none, some, Result, ok, err, ◌==◌,
  eq_iff, eqb, if_cases, length, ◌>>=◌,
}
use strix_halo_cluster_glm.Json.{Map, at}
use strix_halo_cluster_glm.Chat.Request.{is_true}
use strix_halo_cluster_glm.Cluster.Lease.{Stored, missing, unreadable, holding}
use strix_halo_cluster_glm.Cluster.Host.{WriteOutcome, committed, refused, unsynced}
use strix_halo_cluster_glm.Settings.{
  ApiSettings, Payload, SettingsCodec, Gateway, Reply, reads_back, persist, put_settings,
  put_parsed, put_answer, load_api_settings, loaded, load_from, parse_api_settings, api_of,
  rotate_token, rotated,
}

reads_back-holding :
    (reread : Option String) (file : Stored String) (raw : String)
    → reads_back reread file raw ≡ true
    → file ≡ holding raw
reads_back-holding none (holding t) raw h = ap holding ((eq_iff t raw).0 h)
reads_back-holding none missing raw h = cc
reads_back-holding none (unreadable e) raw h = cc
reads_back-holding (some e) missing raw h = cc
reads_back-holding (some e) (unreadable x) raw h = cc
reads_back-holding (some e) (holding t) raw h = cc

-- A value that counts as persisted is what the file holds.
persist-ok :
    (outcome : WriteOutcome) (reread : Option String) (raw : String) (old : Stored String)
    → (persist outcome reread raw old).0 ≡ ok tt
    → (persist outcome reread raw old).1 ≡ holding raw
unfolding persist
persist-ok committed reread raw old h = refl
persist-ok (refused e) reread raw old h =
    if_cases (λ (x : Result (Unit {0}) × Stored String). x.0 ≡ ok tt → x.1 ≡ holding raw)
      (reads_back reread old raw) _ _ (λ back _. reads_back-holding reread old raw back) (λ _ h. cc)
      h
persist-ok (unsynced e) reread raw old h =
    if_cases (λ (x : Result (Unit {0}) × Stored String). x.0 ≡ ok tt → x.1 ≡ holding raw)
      (reads_back reread (holding raw) raw) _ _ (λ _ _. refl) (λ _ h. cc) h

-- Where the file can be read back, a value that does not count as persisted left the file alone.
persist-err :
    (outcome : WriteOutcome) (raw x : String) (old : Stored String)
    → (persist outcome none raw old).0 ≡ err x
    → (persist outcome none raw old).1 ≡ old
unfolding persist
persist-err committed raw x old h = cc
persist-err (refused e) raw x old h =
    if_cases (λ (y : Result (Unit {0}) × Stored String). y.0 ≡ err x → y.1 ≡ old)
      (reads_back none old raw) _ _ (λ _ h. cc) (λ _ _. refl) h
persist-err (unsynced e) raw x old h =
    if_cases (λ (y : Result (Unit {0}) × Stored String). y.0 ≡ err x → y.1 ≡ old)
      (reads_back none (holding raw) raw) _ _ (λ _ h. cc)
      (λ differs _. absurd (ground (arith, differs, eq_iff raw raw))) h

-- The payload that gives every switch.
abbrev pub full : ApiSettings → Payload
full s = record {
  chat = some s.chat;
  workspaces = some s.workspaces;
  legacy_coding = some s.legacy_coding;
  operations = some s.operations;
}

module _ (c : SettingsCodec)
    (decodes : (s : ApiSettings) → c.decode (c.encode s) ≡ ok (some (full s))) where
  -- Where decoding gives back the switches that were encoded, a PUT that is answered with 200 is
  -- durable: whatever the write did, loading the settings file again gives the live switches.
  pub load-put_settings :
      (outcome : WriteOutcome) (reread : Option String) (raw : String) (g : Gateway)
      → (put_settings c outcome reread raw g).0.status ≡ 200
      → load_api_settings c (put_settings c outcome reread raw g).1
        ≡ ok (put_settings c outcome reread raw g).1
  unfolding put_settings load_api_settings parse_api_settings
  load-put_settings outcome reread raw g h = on (parse_api_settings c raw) h
    where
      stored :
          (s : ApiSettings) (r : Result (Unit {0})) (file : Stored String)
          → (r ≡ ok tt → file ≡ holding (c.encode s))
          → (put_answer g s (r, file)).0.status ≡ 200
          → load_from c (put_answer g s (r, file)).1 (put_answer g s (r, file)).1.settings_file
            ≡ ok (put_answer g s (r, file)).1
      stored s (ok _) file f h =
          let g' = record g { settings = some s; settings_file = file } in
          ap (load_from c g') (f refl) ∙ ap (λ r. loaded g' (r >>= api_of)) (decodes s)
      stored s (err e) file f h = absurd (omega (arith, h))

      on :
          (r : Result ApiSettings)
          → (put_parsed c outcome reread g r).0.status ≡ 200
          → load_from c
              (put_parsed c outcome reread g r).1
              (put_parsed c outcome reread g r).1.settings_file
            ≡ ok (put_parsed c outcome reread g r).1
      on (err e) h = absurd (omega (arith, h))
      on (ok s) h =
          stored s (persist outcome reread (c.encode s) g.settings_file).0
            (persist outcome reread (c.encode s) g.settings_file).1
            (persist-ok outcome reread (c.encode s) g.settings_file) h

-- As long as the token file can be read back, the live token is the one in the file behind every
-- rotation, whether it was refused, failed before or behind the rename, or went through.
pub rotate_token-Keeps :
    (outcome : WriteOutcome) (next got : String) (body : Map) (g : Gateway)
    → g.token_file ≡ holding g.token
    → (rotate_token outcome none next got body g).1.token_file
      ≡ holding (rotate_token outcome none next got body g).1.token
unfolding rotate_token
rotate_token-Keeps outcome next got body g agree =
    if_cases P (not (eqb (length body) 1) || not (is_true (at "confirm" body))) _ _ (λ _. agree)
      (λ _.
        if_cases P (not (got == g.token)) _ _ (λ _. agree)
          (λ _.
            on (persist outcome none next g.token_file).0 (persist outcome none next g.token_file).1
              (persist-ok outcome none next g.token_file)
              (λ x failed. persist-err outcome next x g.token_file failed)))
  where
    P : Reply × Gateway → Type 0
    P x = x.1.token_file ≡ holding x.1.token

    on :
        (r : Result (Unit {0})) (file : Stored String)
        → (r ≡ ok tt → file ≡ holding next)
        → ((x : String) → r ≡ err x → file ≡ g.token_file)
        → P (rotated g next (r, file))
    on (ok _) file done failed = done refl
    on (err x) file done failed = failed x refl ∙ agree
