-- ===== src/Lifecycle/Memory.antt =====
-- lifecycle_native.go: the memory of a host, from /proc/meminfo.
use strix_halo_cluster_glm.Base.{
  String, List, [], ◌∷◌, ℕ, zero, suc, ◌*◌, ◌-◌, ◌%◌, ◌^◌, Bool, true, false, not, ◌&&◌, Option,
  none, some, Result, ok, err, ◌==◌, ltb, if◌then◌else◌, ◌>>=◌, ◌>>◌, refuse, lookup, insert, split,
  fields, ◌≡◌, refl, trim_suffix, parse_int,
}
use strix_halo_cluster_glm.Base.Integer.{ℤ, pos, negsuc}
use strix_halo_cluster_glm.Cluster.Host
use strix_halo_cluster_glm.Cluster.Host.{M, pure, lift, command, World}
use strix_halo_cluster_glm.Lifecycle.Services.{Services, read_meminfo}

abbrev Map : Type 0
Map = List (String × ℤ)

-- An int64 from its 64 bits.
unfoldable pub signed64 : ℕ → ℤ
signed64 m = if ltb m (2 ^ 63) then pos m else negsuc (2 ^ 64 - m - 1)

-- `v * 1024` on int64
unfoldable pub kilobytes : ℤ → ℤ
unfolding signed64
kilobytes (pos n) = signed64 (n * 1024 % 2 ^ 64)
kilobytes (negsuc n) = signed64 ((2 ^ 64 - suc n * 1024 % 2 ^ 64) % 2 ^ 64)

abbrev measured : String → Map → Option ℤ → Result Map
measured key m none = err "invalid syntax"
measured key m (some v) = ok (insert key (kilobytes v) m)

-- One line of the file; only two keys count.
unfoldable pub memory_line : Map → List String → Result Map
unfolding kilobytes
memory_line m (name ∷ amount ∷ rest) =
    let key = trim_suffix name ":" in
    if not (key == "MemAvailable") && not (key == "SwapFree")
    then ok m
    else measured key m (parse_int amount)
memory_line m _ = ok m

unfoldable pub memory_lines : Map → List String → Result Map
unfolding memory_line
memory_lines m [] = ok m
memory_lines m (l ∷ ls) = do m' ← memory_line m (fields l); memory_lines m' ls

abbrev or_zero : Option ℤ → ℤ
or_zero none = pos 0
or_zero (some v) = v

abbrev positive : ℤ → Bool
positive (pos zero) = false
positive (pos (suc n)) = true
positive (negsuc n) = false

-- parseMeminfo
unfoldable pub parse_meminfo : String → Result (ℤ × ℤ)
unfolding memory_lines
parse_meminfo raw = do
  m ← memory_lines [] (split 10 raw)
  let available = or_zero (lookup "MemAvailable" m)
  refuse (not (positive available)) "MemAvailable missing"
  ok (available, or_zero (lookup "SwapFree" m))

abbrev pub memory_source : World → Services → ℤ → M String
memory_source w s (pos zero) = read_meminfo s
memory_source w s _ = command w (pos 1) ("cat" ∷ "/proc/meminfo" ∷ [])

-- nodeMemory
unfoldable pub node_memory : World → Services → ℤ → M (ℤ × ℤ)
unfolding parse_meminfo
node_memory w s rank = Host.◌>>=◌ (memory_source w s rank) (λ b. lift (parse_meminfo b))

meminfo_test :
    parse_meminfo "MemTotal: 9 kB\nMemAvailable: 3 kB\nSwapFree: 2 kB\n" ≡ ok (pos 3072, pos 2048)
unfolding parse_meminfo fields split trim_suffix parse_int insert lookup
meminfo_test = refl
