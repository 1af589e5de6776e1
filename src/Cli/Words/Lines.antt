-- ===== src/Cli/Words/Lines.antt =====
-- Texts of whole lines, and the loops that read their lines: std::getline and that of
-- src/cli/device_config.cpp, which leaves out a last line that has no newline.
use auto_drop.Prelude.{
  ◌≡◌, refl, ◌∙◌, ap, Bool, true, false, ◌||◌, if◌then◌else◌, ◌==◌, List, [], ◌∷◌, ◌++◌, Str, All,
  append_assoc, append-nil, arith,
}
use auto_drop.Cli.SmConfig.{is_empty}
use auto_drop.Cli.Words.{plain_chars, plain}
use auto_drop.Cli.DeviceConfig.{lines_from}

abbrev pub has_newline : Str → Bool
has_newline [] = false
has_newline (c ∷ s) = (c == 10) || has_newline s

abbrev pub unlines : List Str → Str
unlines [] = []
unlines (l ∷ ls) = l ++ 10 ∷ unlines ls

-- while (std::getline(ss, line)): `line` is what has been read of the present line.
unfoldable pub getlines_from : Str → Str → List Str
getlines_from line [] = if is_empty line then [] else line ∷ []
getlines_from line (c ∷ s) =
    let more = getlines_from (line ++ c ∷ []) s in
    let next = line ∷ getlines_from [] s in if c == 10 then next else more

lines_from-append :
    (acc l s : Str)
    → has_newline l ≡ false
    → lines_from acc (l ++ 10 ∷ s) ≡ (acc ++ l) ∷ lines_from [] s
unfolding lines_from
lines_from-append acc [] s h = ap (λ a. a ∷ lines_from [] s) (append-nil' acc)
  where
    append-nil' : (a : Str) → a ≡ a ++ []
    append-nil' a = ground (arith, append-nil a)
lines_from-append acc (c ∷ l) s h =
    ground (arith, lines_from-append (acc ++ c ∷ []) l s, append_assoc acc (c ∷ []) l)

getlines_from-append :
    (acc l s : Str)
    → has_newline l ≡ false
    → getlines_from acc (l ++ 10 ∷ s) ≡ (acc ++ l) ∷ getlines_from [] s
unfolding getlines_from
getlines_from-append acc [] s h = ground (arith, append-nil acc)
getlines_from-append acc (c ∷ l) s h =
    ground (arith, getlines_from-append (acc ++ c ∷ []) l s, append_assoc acc (c ∷ []) l)

abbrev pub OneLine : Str → Type 0
OneLine l = has_newline l ≡ false

-- Both loops read the lines that were written.
pub lines_from-unlines : (ls : List Str) → All OneLine ls → lines_from [] (unlines ls) ≡ ls
unfolding lines_from
lines_from-unlines [] h = refl
lines_from-unlines (l ∷ ls) h =
    lines_from-append [] l (unlines ls) h.0 ∙ ap (◌∷◌ l) (lines_from-unlines ls h.1)

pub getlines_from-unlines : (ls : List Str) → All OneLine ls → getlines_from [] (unlines ls) ≡ ls
unfolding getlines_from
getlines_from-unlines [] h = refl
getlines_from-unlines (l ∷ ls) h =
    getlines_from-append [] l (unlines ls) h.0 ∙ ap (◌∷◌ l) (getlines_from-unlines ls h.1)

pub unlines-append : (ls ms : List Str) → unlines (ls ++ ms) ≡ unlines ls ++ unlines ms
unlines-append [] ms = refl
unlines-append (l ∷ ls) ms =
    ap (λ s. l ++ 10 ∷ s) (unlines-append ls ms)
    ∙ ground (arith, append_assoc l (10 ∷ unlines ls) (unlines ms))

pub OneLine-append : (s t : Str) → OneLine s → OneLine t → OneLine (s ++ t)
OneLine-append [] t h k = k
OneLine-append (c ∷ s) t h k = ground (arith, OneLine-append s t (ground (arith, h)) k)

plain_chars-OneLine : (w : Str) → plain_chars w ≡ true → OneLine w
plain_chars-OneLine [] h = refl
plain_chars-OneLine (c ∷ w) h = ground (arith, plain_chars-OneLine w)

pub plain-OneLine : (w : Str) → plain w ≡ true → OneLine w
plain-OneLine [] h = refl
plain-OneLine (c ∷ w) h = plain_chars-OneLine (c ∷ w) h
