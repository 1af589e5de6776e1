-- ===== src/Utils/Split.antt =====
-- src/public/utils/ad_utils.{h,cpp}: ad_utils_split_string, and the lines that AD_LOGGER writes.
pub mod Join
use auto_drop.Prelude.{
  ℕ, zero, suc, ◌+◌, Bool, true, false, ◌&&◌, if◌then◌else◌, ltb, ◌==◌, Option, none, some, List,
  [], ◌∷◌, ◌++◌, map, Str, codes, length, take, drop,
}
use auto_drop.Prelude.Loops.{◌>>=◌}

abbrev pub is_prefix : Str → Str → Bool
is_prefix [] s = true
is_prefix (d ∷ ds) [] = false
is_prefix (d ∷ ds) (c ∷ s) = (d == c) && is_prefix ds s

abbrev pub shift : Option ℕ → Option ℕ
shift none = none
shift (some i) = some (suc i)

-- std::string::find from the place that `s` begins at: `none` is npos.
unfoldable pub find : Str → Str → Option ℕ
find d [] = if is_prefix d [] then some 0 else none
find d (c ∷ s) = if is_prefix d (c ∷ s) then some 0 else shift (find d s)

-- One round: what `find` gave, and `go` for the rounds that follow.
abbrev pub next_piece : Str → Str → (Str → Option (List Str)) → Option ℕ → Option (List Str)
next_piece d rest go none = some (rest ∷ [])
next_piece d rest go (some end) = do
  more ← go (drop (end + length d) rest)
  some (take end rest ∷ more)

-- The loop with at most `n` rounds: `none` when it has not ended by then. `rest` is
-- str.substr(start).
unfoldable pub split_rest : ℕ → Str → Str → Option (List Str)
unfolding find
split_rest zero d rest = none
split_rest (suc n) d rest = next_piece d rest (split_rest n d) (find d rest)

unfoldable pub ad_utils_split_string : ℕ → Str → Str → Option (List Str)
unfolding split_rest
ad_utils_split_string fuel str delimiter = split_rest fuel delimiter str

pub data LogLevel : Type 0 where
  debug info error : LogLevel

abbrev pub severity : LogLevel → ℕ
severity debug = 0
severity info = 1
severity error = 2

unfoldable pub level_to_string : LogLevel → Str
level_to_string debug = codes "DEBUG"
level_to_string info = codes "INFO"
level_to_string error = codes "ERROR"

-- The lines that log(level, ...) hands to output_log, for the text that vsnprintf has made and the
-- time of each line.
unfoldable pub log : ℕ → LogLevel → Str → Str → LogLevel → Str → Option (List Str)
unfolding ad_utils_split_string level_to_string
log fuel global_log_level module_name now level buffer =
    if ltb (severity level) (severity global_log_level) then some [] else do
      lines ← ad_utils_split_string fuel buffer (codes "\n")
      some (
          map {A = Str}
            (λ line.
              codes "["
              ++ now
              ++ codes "] ["
              ++ level_to_string level
              ++ codes "] ["
              ++ module_name
              ++ codes "] "
              ++ line)
            lines)
