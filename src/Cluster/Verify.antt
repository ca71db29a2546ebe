-- ===== src/Cluster/Verify.antt =====
-- controller.go: checking the installed runtime against its manifest, and a rank before its launch.
use strix_halo_cluster_glm.Base.{
  String, List, [], ◌∷◌, ℕ, ◌*◌, Bool, true, false, not, ◌&&◌, ◌||◌, Option, none, some, ◌==◌, eqb,
  ltb, if◌then◌else◌, sprint, sprintf_d, join_path, split, fields, has_prefix, contains, is_abs,
  sort_texts, trim_space, after_last, parse_saturated, lookup, any, map, length, get_elem?,
}
use strix_halo_cluster_glm.Base.Integer.{ℤ, pos, int_eq, negsuc}
use strix_halo_cluster_glm.Cluster.Owner.{ClusterConfig}
use strix_halo_cluster_glm.Cluster.Units.{or_empty}
use strix_halo_cluster_glm.Cluster.Host.{
  World, M, Weight, WeightRank, shared, other, numbered, Manifest, pure, fail, discard, refuse_if,
  command, read_manifest, ◌>>=◌, ◌>>◌,
}

abbrev pub escapes : String → Bool
escapes p = is_abs p || contains p ".."

abbrev pub keys {ℓ} : {V : Type ℓ} → List (String × V) → List String
keys m = map (λ e. e.0) m

abbrev identity_of : Option (List (String × String)) → List (String × String)
identity_of none = []
identity_of (some m) = m

-- The line that sha256sum prints for a file of the manifest.
unfoldable pub hash_line : ClusterConfig → List (String × String) → String → String
hash_line cfg ids p = sprint (or_empty (lookup p ids) ∷ "  " ∷ join_path cfg.engine_root p ∷ [])

unfoldable pub lines_agree :
    ClusterConfig → ℤ → List (String × String) → List String → List String → M (Unit {0})
unfolding hash_line
lines_agree cfg rank ids (p ∷ ps) (line ∷ lines) = do
  refuse_if (not (line == hash_line cfg ids p))
      (sprint ("runtime identity mismatch rank" ∷ sprintf_d rank ∷ " " ∷ p ∷ []))
  lines_agree cfg rank ids ps lines
lines_agree cfg rank ids _ _ = pure tt

unfoldable pub verify_identity : World → ClusterConfig → ℤ → List (String × String) → M (Unit {0})
unfolding lines_agree
verify_identity w cfg rank ids = do
  refuse_if (ltb (length ids) 10) "missing runtime identity"
  refuse_if (any escapes (keys ids)) "invalid manifest path"
  let sorted = sort_texts (keys ids)
  out ← command w rank ("sha256sum" ∷ "--" ∷ map (join_path cfg.engine_root) sorted)
  let lines = split 10 (trim_space out)
  refuse_if (not (eqb (length lines) (length sorted))) "incomplete runtime hash output"
  lines_agree cfg rank ids sorted lines

abbrev belongs : WeightRank → ℤ → Bool
belongs shared rank = true
belongs other rank = false
belongs (numbered r) rank = int_eq r rank

unfoldable pub verify_weight : World → ClusterConfig → ℤ → Weight → M (Unit {0})
verify_weight w cfg rank f = do
  refuse_if (escapes f.path) "invalid weight path"
  out ← command w rank ("stat" ∷ "--printf=%s" ∷ "--" ∷ join_path cfg.engine_root f.path ∷ [])
  refuse_if (not (out == sprintf_d f.size)) (sprint ("checkpoint size mismatch: " ∷ f.path ∷ []))

-- The weights of other ranks are passed over.
unfoldable pub verify_weights : World → ClusterConfig → ℤ → List Weight → M (Unit {0})
unfolding verify_weight
verify_weights w cfg rank [] = pure tt
verify_weights w cfg rank (f ∷ fs) = elim (belongs f.rank rank) [
  | true ↦ verify_weight w cfg rank f >> verify_weights w cfg rank fs
  | false ↦ verify_weights w cfg rank fs
]

unfoldable pub verify_rank : World → ClusterConfig → ℤ → Manifest → M (Unit {0})
unfolding verify_identity verify_weights
verify_rank w cfg rank m = do
  verify_identity w cfg rank
      (identity_of (lookup (sprint ("rank" ∷ sprintf_d rank ∷ [])) m.identity))
  verify_weights w cfg rank m.weights

-- (*ClusterController).Verify
unfoldable pub verify : World → ClusterConfig → M (Unit {0})
unfolding verify_rank
verify w cfg = do
  m ← read_manifest w
  refuse_if (not (eqb (length m.weights) 23) || not (eqb (length m.identity) 2))
      "unexpected runtime manifest shape"
  verify_rank w cfg (pos 0) m
  verify_rank w cfg (pos 1) m

-- `ru.Port()` of a rank URL that NewClusterController has accepted: the text behind the last colon.
abbrev pub url_port : String → String
url_port raw = or_empty (after_last 58 raw)

abbrev pub rank_url : ClusterConfig → ℤ → String
rank_url cfg rank = if int_eq rank (pos 0) then cfg.rank_url_0 else cfg.rank_url_1

-- The address, where its port is one of the rank's two.
abbrev if_taken : ClusterConfig → ℤ → String → Option String → Option String
if_taken cfg rank address none = none
if_taken cfg rank address (some port) =
    if port == url_port (rank_url cfg rank) || port == sprintf_d cfg.master_port
    then some address
    else none

abbrev taken_address : ClusterConfig → ℤ → Option String → Option String
taken_address cfg rank none = none
taken_address cfg rank (some address) = if_taken cfg rank address (after_last 58 address)

-- The fourth field of a line of `ss -H -ltn`, where it ends in one of the rank's two ports.
unfoldable pub line_busy : ClusterConfig → ℤ → String → Option String
line_busy cfg rank line = taken_address cfg rank (get_elem? (fields line) 3)

abbrev or_next : Option String → Option String → Option String
or_next none next = next
or_next (some a) next = some a

unfoldable pub busy_address : ClusterConfig → ℤ → List String → Option String
unfolding line_busy
busy_address cfg rank [] = none
busy_address cfg rank (l ∷ ls) = or_next (line_busy cfg rank l) (busy_address cfg rank ls)

abbrev pub refuse_busy : ℤ → Option String → M (Unit {0})
refuse_busy rank none = pure tt
refuse_busy rank (some address) =
    fail (sprint ("rank" ∷ sprintf_d rank ∷ " reserved port already busy: " ∷ address ∷ []))

abbrev mem_field : Option String → ℤ → ℤ
mem_field none old = old
mem_field (some f) old = parse_saturated f

-- The last MemAvailable line that has a second field.
unfoldable pub mem_available : ℤ → List String → ℤ
mem_available n [] = n
mem_available n (l ∷ ls) =
    mem_available (if has_prefix l "MemAvailable:" then mem_field (get_elem? (fields l) 1) n else n)
      ls

abbrev pub min_available : ℕ
min_available = 104 * 1024 * 1024

abbrev below : ℤ → ℕ → Bool
below (pos n) limit = ltb n limit
below (negsuc n) limit = true

-- What `start` asks of one rank before it reserves the pair; the launcher's hash comes back.
unfoldable pub preflight_rank : World → ClusterConfig → ℤ → Option String → M String
unfolding busy_address mem_available
preflight_rank w cfg rank first = do
  hash ← command w rank ("sha256sum" ∷ "--" ∷ cfg.launcher ∷ [])
  refuse_if (int_eq rank (pos 1) && not (or_empty first == hash))
      "two-node launcher identities differ"
  listeners ← command w rank ("ss" ∷ "-H" ∷ "-ltn" ∷ [])
  refuse_busy rank (busy_address cfg rank (split 10 listeners))
  meminfo ← command w rank ("cat" ∷ "/proc/meminfo" ∷ [])
  refuse_if (below (mem_available (pos 0) (split 10 meminfo)) min_available)
      (sprint ("rank" ∷ sprintf_d rank ∷ " less than104GiB available" ∷ []))
  discard (
      command w rank
        ("mkdir" ∷ "-p" ∷ join_path cfg.state_dir "logs" ∷ join_path cfg.state_dir "settings" ∷ []))
  pure hash

unfoldable pub preflight : World → ClusterConfig → M (Unit {0})
unfolding preflight_rank
preflight w cfg = do
  first ← preflight_rank w cfg (pos 0) none
  discard (preflight_rank w cfg (pos 1) (some first))
