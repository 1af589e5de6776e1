-- ===== src/Cli/RuntimeConfig/Follow.antt =====
-- The log that src/cli/runtime_config.cpp follows: open_log prints what is new in the log file at each
-- event of inotify. Opening the file and inotify itself are outside.
pub mod Keyed
pub mod Shown
use auto_drop.Prelude.{
  ℕ, Bool, false, ◌&&◌, ◌||◌, if◌then◌else◌, is_some, List, [], ◌∷◌, ◌++◌, Str, length, drop,
}
use auto_drop.Cli.Words.Lines.{getlines_from}
use auto_drop.Cli.RuntimeConfig.{LogConfig}
use auto_drop.Utils.Split.{find}

unfoldable pub log_has_keyword : Str → List LogConfig → Bool
unfolding find
log_has_keyword line [] = false
log_has_keyword line (keyword ∷ keywords) =
    (is_some (find keyword.log_module line) && is_some (find keyword.log_level line))
    || log_has_keyword line keywords

-- The while over the lines.
unfoldable pub keyword_lines : List LogConfig → List Str → Str
unfolding log_has_keyword
keyword_lines keywords [] = []
keyword_lines keywords (line ∷ more) =
    let rest = keyword_lines keywords more in
    if log_has_keyword line keywords then (line ++ 10 ∷ []) ++ rest else rest

-- `file` is the file when its lines are read, `file'` when seekg goes to its end.
unfoldable pub read_new_content : List LogConfig → Str → Str → ℕ → Str × ℕ
unfolding keyword_lines getlines_from
read_new_content keywords file file' position =
    (keyword_lines keywords (getlines_from [] (drop position file)), length file')

-- An event of inotify: its mask has IN_MODIFY, with the file at its two moments, or has not.
pub data LogEvent : Type 0 where
  modified : Str → Str → LogEvent
  other_event : LogEvent

-- What the events print.
unfoldable pub print_events : List LogConfig → List LogEvent → ℕ → Str × ℕ
unfolding read_new_content
print_events keywords [] position = ([], position)
print_events keywords (other_event ∷ es) position = print_events keywords es position
print_events keywords (modified file file' ∷ es) position =
    let (log_content, position') = read_new_content keywords file file' position in
    let (more, at_end) = print_events keywords es position' in (log_content ++ more, at_end)
