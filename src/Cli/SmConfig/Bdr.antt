-- ===== src/Cli/SmConfig/Bdr.antt =====
-- src/cli/sm_config.cpp: the lines that make_bdr writes, each without its newline.
use auto_drop.Prelude.{if◌then◌else◌, List, [], ◌∷◌, ◌++◌, map, Str, codes}
use auto_drop.Sm.{EventNode, StateNode}
use auto_drop.Cli.SmConfig.{SmTree, or_empty, is_empty, replace_newlines_and_quotes}

-- A line of an action, if its code is not empty; `kind` is the text between the name and the code.
unfoldable pub action_line : Str → Str → Str → List Str
action_line name kind code =
    if is_empty code
    then []
    else (codes "input_action "
        ++ (name ++ (kind ++ (replace_newlines_and_quotes code ++ codes "\""))))
      ∷ []

unfoldable pub state_lines : StateNode → List Str
unfolding action_line
state_lines n =
    (codes "create_state " ++ n.name)
    ∷ (action_line n.name (codes " enter \"") (or_empty n.enter)
        ++ (action_line n.name (codes " exit \"") (or_empty n.exit)
            ++ action_line n.name (codes " do \"") (or_empty n.action)))

unfoldable pub event_line : Str → EventNode → Str
event_line name e =
    codes "add_event "
    ++ (name ++ (codes " " ++ (or_empty e.trigger ++ (codes " " ++ or_empty e.next))))

-- What is added to trans_config.
unfoldable pub trans_lines : StateNode → List Str
unfolding event_line
trans_lines n =
    (if is_empty n.next then [] else (codes "set_next " ++ (n.name ++ (codes " " ++ n.next))) ∷ [])
    ++ map (event_line n.name) n.events

-- The loop over the states, for `ret` and for `trans_config`.
unfoldable pub all_state_lines : List StateNode → List Str
unfolding state_lines
all_state_lines [] = []
all_state_lines (n ∷ ns) = (if is_empty n.name then [] else state_lines n) ++ all_state_lines ns

unfoldable pub all_trans_lines : List StateNode → List Str
unfolding trans_lines
all_trans_lines [] = []
all_trans_lines (n ∷ ns) = (if is_empty n.name then [] else trans_lines n) ++ all_trans_lines ns

unfoldable pub init_line : Str → List Str
init_line init = if is_empty init then [] else (codes "set_init " ++ init) ∷ []

unfoldable pub make_bdr_lines : SmTree → List Str
unfolding all_state_lines all_trans_lines init_line
make_bdr_lines t = all_state_lines t.states ++ (all_trans_lines t.states ++ init_line t.init_state)
