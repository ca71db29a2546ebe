-- ===== src/Chat/Text/Shorter.antt =====
-- What is left behind a match is shorter than the text.
use strix_halo_cluster_glm.Base.{
  ℕ, suc, ◌≤◌, ◌<◌, arith, ◌≡◌, refl, ap, Option, none, some, cut_prefix,
}
use Prim.Native.Char.{Char}
use Prim.Native.String.{String, [], ◌∷◌}
use strix_halo_cluster_glm.Chat.Text.{
  cut_text, pushed, or_later, skip_space, value_behind, value_at, keyed, or_longer, key_value,
  keyed_from, glm_argument,
}

-- How many code points a text has.
unfoldable pub size : String → ℕ
size [] = 0
size (c ∷ s) = suc (size s)

pub cut_prefix-size-le : (sep s rest : String) → cut_prefix sep s ≡ some rest → size rest ≤ size s
unfolding cut_prefix size
cut_prefix-size-le [] s rest h = let same : s ≡ rest = cc in ground (arith, ap size same)
cut_prefix-size-le (p ∷ ps) [] rest h = cc
cut_prefix-size-le (p ∷ ps) (c ∷ s) rest h = ground (arith, h, cut_prefix-size-le ps s rest)

pub cut_prefix-size-lt :
    (p : Char) (ps s rest : String) → cut_prefix (p ∷ ps) s ≡ some rest → size rest < size s
unfolding cut_prefix size
cut_prefix-size-lt p ps [] rest h = cc
cut_prefix-size-lt p ps (c ∷ s) rest h = ground (arith, h, cut_prefix-size-le ps s rest)

module _ (p : Char) (ps : String) where
  pub cut_text-size-lt :
      (s before behind : String)
      → cut_text (p ∷ ps) s ≡ some (before, behind)
      → size behind < size s
  unfolding cut_text size
  cut_text-size-lt [] before behind h = cc
  cut_text-size-lt (c ∷ s) before behind h =
      now (cut_prefix (p ∷ ps) (c ∷ s)) refl (cut_text (p ∷ ps) s) (cut_text-size-lt s) h
    where
      later :
          (l : Option (String × String))
          → ((a b : String) → l ≡ some (a, b) → size b < size s)
          → pushed c l ≡ some (before, behind)
          → size behind < suc (size s)
      later none f e = cc
      later (some (a, b)) f e =
          let same : b ≡ behind = cc in ground (arith, f a b refl, ap size same)

      now :
          (x : Option String)
          → cut_prefix (p ∷ ps) (c ∷ s) ≡ x
          → (l : Option (String × String)) → ((a b : String) → l ≡ some (a, b) → size b < size s)
          → or_later x (pushed c l) ≡ some (before, behind)
          → size behind < suc (size s)
      now (some r) found l f e =
          let same : r ≡ behind = cc in
          ground (arith, cut_prefix-size-lt p ps (c ∷ s) r found, ap size same)
      now none found l f e = later l f e

skip_space-size-le : (s : String) → size (skip_space s) ≤ size s
unfolding skip_space size
skip_space-size-le [] = omega arith
skip_space-size-le (c ∷ s) = ground (arith, skip_space-size-le s)

value_at-size :
    (x : Option String) (value behind : String) (n : ℕ)
    → ((s : String) → x ≡ some s → size s ≤ n)
    → value_at x ≡ some (value, behind)
    → size behind < n
value_at-size none value behind n f e = cc
value_at-size (some s) value behind n f e = on (cut_prefix "<arg_value>" (skip_space s)) refl e
  where
    on :
        (y : Option String)
        → cut_prefix "<arg_value>" (skip_space s) ≡ y
        → value_behind y ≡ some (value, behind)
        → size behind < n
    on none found e = cc
    on (some t) found e = ground (
      arith,
      f s refl,
      skip_space-size-le s,
      cut_prefix-size-le "<arg_value>" (skip_space s) t found,
      cut_text-size-lt "<" "/arg_value>" t value behind e,
    )

key_value-size-lt :
    (s key value behind : String) → key_value s ≡ some (key, value, behind) → size behind < size s
unfolding key_value size
key_value-size-lt [] key value behind h = cc
key_value-size-lt (c ∷ s) key value behind h =
    now (value_at (cut_prefix "</arg_key>" (c ∷ s))) refl (key_value s) (key_value-size-lt s) h
  where
    now :
        (x : Option (String × String))
        → value_at (cut_prefix "</arg_key>" (c ∷ s)) ≡ x
        → (l : Option (String × String × String))
        → ((k v b : String) → l ≡ some (k, v, b) → size b < size s)
        → or_longer x (keyed c l) ≡ some (key, value, behind)
        → size behind < suc (size s)
    now (some (v, b)) found l f e =
        let same : b ≡ behind = cc in
        ground (
          arith,
          ap size same,
          value_at-size (cut_prefix "</arg_key>" (c ∷ s)) v b (suc (size s))
              (λ r cutting. cut_prefix-size-le "</arg_key>" (c ∷ s) r cutting) found,
        )
    now none found (some (k, v, b)) f e =
        let same : b ≡ behind = cc in ground (arith, ap size same, f k v b refl)
    now none found none f e = cc

pub glm_argument-size-lt :
    (s key value behind : String)
    → glm_argument s ≡ some (key, value, behind)
    → size behind < size s
unfolding glm_argument
glm_argument-size-lt s key value behind h = on (cut_prefix "<arg_key>" (skip_space s)) refl h
  where
    on :
        (x : Option String)
        → cut_prefix "<arg_key>" (skip_space s) ≡ x
        → keyed_from x ≡ some (key, value, behind)
        → size behind < size s
    on none found e = cc
    on (some t) found e = ground (
      arith,
      skip_space-size-le s,
      cut_prefix-size-le "<arg_key>" (skip_space s) t found,
      key_value-size-lt t key value behind e,
    )
