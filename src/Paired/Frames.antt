-- ===== src/Paired/Frames.antt =====
-- paired.go: the frames of an event stream.
use Prim.Native.Char.{code}
use Prim.Native.String.{[], ◌∷◌}
use strix_halo_cluster_glm.Base.{
  String, List, [], ◌∷◌, ◌++◌, ◌≡◌, refl, Bool, true, false, ◌&&◌, Option, none, some, eqb, sprint,
  join, split, trim_space, cut_prefix, if◌then◌else◌,
}

abbrev starts_line : String → Bool
starts_line [] = false
starts_line (c ∷ s) = eqb (code c) 10

-- strings.ReplaceAll(s, "\r\n", "\n")
unfoldable pub drop_returns : String → String
drop_returns [] = []
drop_returns (c ∷ s) =
    let rest = drop_returns s in if eqb (code c) 13 && starts_line s then rest else c ∷ rest

-- What is read of strings.Split(s, "\n\n"): the frames behind, the frame so far, and whether a line
-- break stands behind it.
abbrev pub Frames : Type 0
Frames = List String × String × Bool

-- The first flag is whether the character is a line break.
abbrev frames_step : Bool → String → Frames → Frames
frames_step true c (before, frame, true) = (before ++ frame ∷ [], "", false)
frames_step true c (before, frame, false) = (before, frame, true)
frames_step false c (before, frame, true) = (before, sprint (frame ∷ "\n" ∷ c ∷ []), false)
frames_step false c (before, frame, false) = (before, sprint (frame ∷ c ∷ []), false)

abbrev all_frames : Frames → List String
all_frames (before, frame, true) = before ++ sprint (frame ∷ "\n" ∷ []) ∷ []
all_frames (before, frame, false) = before ++ frame ∷ []

unfoldable pub frames_from : Frames → String → List String
frames_from f [] = all_frames f
frames_from f (c ∷ s) = frames_from (frames_step (eqb (code c) 10) (c ∷ "") f) s

unfoldable pub split_frames : String → List String
unfolding frames_from
split_frames s = frames_from ([], "", false) s

split_frames_test : split_frames "a\nb\n\nc\n\n" ≡ "a\nb" ∷ "c" ∷ "" ∷ []
unfolding split_frames sprint
split_frames_test = refl

abbrev data_of : Option String → List String → List String
data_of none rest = rest
data_of (some d) rest = trim_space d ∷ rest

unfoldable pub data_lines : List String → List String
data_lines [] = []
data_lines (l ∷ ls) = data_of (cut_prefix "data:" l) (data_lines ls)

-- sseFrameData
unfoldable pub sse_frame_data : String → String
unfolding data_lines drop_returns
sse_frame_data frame = join "\n" (data_lines (split 10 (drop_returns frame)))
