-- ===== src/Cli/Session/RuntimeMenu.antt =====
-- src/cli/main.cpp: what a session does with the lines of make_bdr of src/cli/runtime_config.cpp.
use auto_drop.Prelude.{
  ◌≡◌, refl, sym, ◌∙◌, ap, true, false, ◌||◌, List, [], ◌∷◌, ◌++◌, Str, codes, str_beq, str_beq_iff,
  lookup, str_eq, All, append_assoc, append-nil, arith,
}
use auto_drop.Cli.RuntimeConfig.{LogConfig, has_config, enable_log, make_bdr_lines}
use auto_drop.Cli.Words.{plain}
use auto_drop.Cli.Words.Lines.{OneLine}
use auto_drop.Cli.Session.{Session, at_menu, Library, Documented, restart_daemons, feed_all}
use auto_drop.Cli.Session.Feeds.{feed-command}
use auto_drop.Cli.Session.SmLines.{three_words}

abbrev pub PlainLog : LogConfig → Type 0
PlainLog c = (plain c.log_module ≡ true) × (plain c.log_level ≡ true)

abbrev pub DistinctLogs : List LogConfig → Type 0
DistinctLogs [] = Unit {0}
DistinctLogs (c ∷ cs) = (has_config c cs ≡ false) × DistinctLogs cs

abbrev pub FreshLogs : List LogConfig → List LogConfig → Type 0
FreshLogs acc cs = All (λ c. has_config c acc ≡ false) cs

has_config-append :
    (c : LogConfig) (cs ds : List LogConfig)
    → has_config c (cs ++ ds) ≡ (has_config c cs || has_config c ds)
unfolding has_config
has_config-append c [] ds = refl
has_config-append c (d ∷ cs) ds = ground (arith, has_config-append c cs ds)

FreshLogs-snoc :
    (c : LogConfig) (acc cs : List LogConfig)
    → has_config c cs ≡ false
    → FreshLogs acc cs
    → FreshLogs (acc ++ c ∷ []) cs
unfolding has_config
FreshLogs-snoc c acc [] h f = tt
FreshLogs-snoc c acc (d ∷ cs) h f = (
  ground (
    arith,
    has_config-append d acc (c ∷ []),
    str_beq_iff c.log_level d.log_level,
    str_beq_iff d.log_level c.log_level,
    str_beq_iff c.log_module d.log_module,
    str_beq_iff d.log_module c.log_module,
    f.0,
  ),
  FreshLogs-snoc c acc cs (ground (arith, h)) f.1,
)

pub FreshLogs-nil : (cs : List LogConfig) → FreshLogs [] cs
unfolding has_config
FreshLogs-nil [] = tt
FreshLogs-nil (c ∷ cs) = (refl, FreshLogs-nil cs)

enable_log-new :
    (c : LogConfig) (acc : List LogConfig)
    → has_config c acc ≡ false
    → enable_log (c.log_module ∷ c.log_level ∷ []) acc ≡ acc ++ c ∷ []
unfolding enable_log
enable_log-new c acc h = rw h refl

module _ (drivers : List Str) (check_lua stored : Str → Str) (edited : List Str → Str)
    (lib : Library) (doc : Documented lib) where
  abbrev line : LogConfig → Str
  line c = codes "enable_log " ++ (c.log_module ++ (codes " " ++ c.log_level))

  line-words :
      (c : LogConfig)
      → PlainLog c
      → (lib.split (line c) ≡ codes "enable_log" ∷ c.log_module ∷ c.log_level ∷ [])
        × OneLine (line c)
  line-words c h = three_words lib doc (codes "enable_log") c.log_module c.log_level refl h.0 h.1

  pub runtime_lines-OneLine :
      (cs : List LogConfig) → All PlainLog cs → All OneLine (make_bdr_lines cs)
  unfolding make_bdr_lines
  runtime_lines-OneLine [] h = (refl, tt)
  runtime_lines-OneLine (c ∷ cs) h = ((line-words c h.0).1, runtime_lines-OneLine cs h.1)

  pub feed_all-logs :
      (cs : List LogConfig) (s : Session)
      → All PlainLog cs
      → FreshLogs s.logs cs
      → DistinctLogs cs
      → s.place ≡ at_menu (codes "runtime")
      → feed_all drivers check_lua stored edited lib (make_bdr_lines cs) s ≡ record s {
        logs = s.logs ++ cs;
        calls = s.calls ++ restart_daemons s.devices s.sm.init_state ∷ [];
      }
  unfolding feed_all make_bdr_lines lookup str_beq
  feed_all-logs [] s h f d here =
      let s' : Session = record s {
        calls = s.calls ++ restart_daemons s.devices s.sm.init_state ∷ [];
      } in
      feed-command drivers check_lua stored edited lib doc (codes "runtime") (codes "restart") _ _
        [] (codes "restart") s refl refl refl here (doc.splits.last_word (codes "restart") refl)
      ∙ ap (λ (l : List LogConfig). record s' { logs = l }) (sym (append-nil s.logs))
  feed_all-logs (c ∷ cs) s h f d here =
      let ps = c.log_module ∷ c.log_level ∷ [] in
      let rest = feed_all drivers check_lua stored edited lib (make_bdr_lines cs) in
      let s' : Session = record s { logs = s.logs ++ c ∷ [] } in
      let calls = s.calls ++ restart_daemons s.devices s.sm.init_state ∷ [] in
      ap rest (
        feed-command drivers check_lua stored edited lib doc (codes "runtime") (codes "enable_log")
          _ _ ps (line c) s refl refl refl here (line-words c h.0).0
        ∙ ap (λ (l : List LogConfig). record s { logs = l }) (enable_log-new c s.logs f.0))
      ∙ feed_all-logs cs s' h.1 (FreshLogs-snoc c s.logs cs d.0 f.1) d.1 here
      ∙ ap (λ (l : List LogConfig). record s { logs = l; calls = calls })
          (append_assoc s.logs (c ∷ []) cs)
