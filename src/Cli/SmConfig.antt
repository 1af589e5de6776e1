-- ===== src/Cli/SmConfig.antt =====
-- src/cli/sm_config.cpp: the commands that edit the states in the configuration file. The file is
-- the argument, as read_config_file gives it, and an operation returns the tree that it gives to
-- write_config_file; a node taken from the tree is part of it, as in yaml-cpp. What the file then
-- holds is `write_config_file` below. A text that is printed is a constructor of `Message`.
pub mod Nodes
pub mod WellFormed
pub mod Loads
pub mod Escape
pub mod Bdr
pub mod Restore
pub mod Stored
use auto_drop.Prelude.{
  ℕ, zero, suc, Bool, true, false, not, ◌&&◌, ◌||◌, if◌then◌else◌, ltb, Option, none, some, List,
  [], ◌∷◌, ◌++◌, map, length, Str, codes, str_beq, is_some, ◌==◌,
}
use auto_drop.Sm.{EventNode, StateNode, find_state}

-- The `sm` part of the file.
pub record SmTree : Type 0 where
  pub init_state : Str
  pub states : List StateNode

pub data Message : Type 0 where
  bad_params : Message
  no_state : Str → Message
  no_states : Str → Str → Message
  event_exists : Str → Message
  state_exists : Str → Message
  bad_action_type : Str → Message
  lua_error : Str → Message
  done : Message

-- A command's new tree and what it prints.
abbrev pub Reply : Type 0
Reply = SmTree × Message

-- check_params(_params, index): no error message.
abbrev pub has_param : List Str → ℕ → Bool
has_param params i = ltb i (length params)

abbrev pub param : List Str → ℕ → Str
param [] i = []
param (p ∷ ps) zero = p
param (p ∷ ps) (suc i) = param ps i

abbrev pub known : Str → List StateNode → Bool
known name states = is_some (find_state name states)

-- Writing through the node that get_state_from_sm returned, the first of that name.
unfoldable pub change_node : Str → (StateNode → StateNode) → List StateNode → List StateNode
change_node name f [] = []
change_node name f (n ∷ ns) = if str_beq n.name name then f n ∷ ns else n ∷ change_node name f ns

unfoldable pub make_new_state : Str → StateNode
make_new_state name = record {
  name = name;
  enter = some [];
  exit = some [];
  action = some [];
  next = [];
  events = [];
}

unfoldable pub create_state : List Str → SmTree → Reply
unfolding make_new_state
create_state params t =
    if has_param params 0
    then (if known (param params 0) t.states
        then (t, state_exists (param params 0))
        else (record t { states = t.states ++ make_new_state (param params 0) ∷ [] }, done))
    else (t, bad_params)

unfoldable pub set_next : List Str → SmTree → Reply
set_next params t =
    if has_param params 0 && has_param params 1
    then (if known (param params 0) t.states && known (param params 1) t.states
        then (
          record t {
            states =
                change_node (param params 0) (λ n. record n { next = param params 1 }) t.states;
          },
          done,
        )
        else (t, no_states (param params 0) (param params 1)))
    else (t, bad_params)

unfoldable pub set_init : List Str → SmTree → Reply
set_init params t =
    if has_param params 0
    then (if known (param params 0) t.states
        then (record t { init_state = param params 0 }, done)
        else (t, no_state (param params 0)))
    else (t, bad_params)

-- as<std::string>(""): the trigger, or the empty text.
abbrev pub or_empty : Option Str → Str
or_empty none = []
or_empty (some s) = s

unfoldable pub has_trigger : Str → List EventNode → Bool
has_trigger e [] = false
has_trigger e (n ∷ ns) = str_beq (or_empty n.trigger) e || has_trigger e ns

abbrev pub events_of : Option StateNode → List EventNode
events_of none = []
events_of (some n) = n.events

abbrev pub event_node : Str → Str → EventNode
event_node trigger next = record { trigger = some trigger; next = some next }

unfoldable pub add_event : List Str → SmTree → Reply
unfolding has_trigger
add_event params t =
    let s = param params 0 in
    let e = param params 1 in
    let target = param params 2 in
    if has_param params 0 && has_param params 1 && has_param params 2
    then (if known s t.states && known target t.states
        then (if has_trigger e (events_of (find_state s t.states)) then (t, event_exists e) else (
          record t {
            states =
                change_node s (λ n. record n { events = n.events ++ event_node e target ∷ [] })
                  t.states;
          },
          done,
        ))
        else (t, no_states s target))
    else (t, bad_params)

pub data ActionType : Type 0 where
  enter_action exit_action do_action : ActionType

unfoldable pub action_type : Str → Option ActionType
action_type s =
    if str_beq s (codes "enter")
    then some enter_action
    else if str_beq s (codes "exit")
    then some exit_action
    else if str_beq s (codes "do")
    then some do_action
    else none

abbrev pub put_action : ActionType → Str → StateNode → StateNode
put_action enter_action code n = record n { enter = some code }
put_action exit_action code n = record n { exit = some code }
put_action do_action code n = record n { action = some code }

abbrev pub is_empty : Str → Bool
is_empty [] = true
is_empty (c ∷ s) = false

-- The `while` of input_action, on the text right of `pos`: "<>" becomes a newline.
unfoldable pub decode_newlines : Str → Str
decode_newlines [] = []
decode_newlines (a ∷ []) = a ∷ []
decode_newlines (a ∷ b ∷ s) =
    let mark = 10 ∷ decode_newlines s in
    let plain = a ∷ decode_newlines (b ∷ s) in if (a == b'<') && (b == b'>') then mark else plain

-- replaceNewlinesAndQuotes: its two loops.
unfoldable pub encode_newlines : Str → Str
encode_newlines [] = []
encode_newlines (c ∷ s) = if c == 10 then b'<' ∷ b'>' ∷ encode_newlines s else c ∷ encode_newlines s

unfoldable pub escape_quotes : Str → Str
escape_quotes [] = []
escape_quotes (c ∷ s) = if c == 34 then 92 ∷ 34 ∷ escape_quotes s else c ∷ escape_quotes s

unfoldable pub replace_newlines_and_quotes : Str → Str
unfolding encode_newlines escape_quotes
replace_newlines_and_quotes s = escape_quotes (encode_newlines s)

-- `check_lua` is the text that check_lua_code returns, empty if the code compiles.
module _ (check_lua : Str → Str) where
  unfoldable pub change_state_action : Str → Str → Str → SmTree → Reply
  change_state_action name kind code t =
      if known name t.states
      then elim (action_type kind) [
        | none ↦ (t, bad_action_type kind)
        | some a ↦
            if is_empty (check_lua code)
            then (record t { states = change_node name (put_action a code) t.states }, done)
            else (t, lua_error (check_lua code))
      ]
      else (t, no_state name)

  unfoldable pub input_action : List Str → SmTree → Reply
  unfolding change_state_action decode_newlines
  input_action params t =
      if has_param params 0 && has_param params 1 && has_param params 2
      then change_state_action (param params 0) (param params 1) (decode_newlines (param params 2))
          t
      else (t, bad_params)

  -- `edited` is what edit_by_editor returns: the text left in the file, less the comment.
  unfoldable pub edit_action : List Str → Str → SmTree → Reply
  unfolding change_state_action
  edit_action params edited t =
      if has_param params 0 && has_param params 1
      then change_state_action (param params 0) (param params 1) edited t
      else (t, bad_params)

unfoldable pub clear : SmTree → SmTree
clear t = record { init_state = []; states = [] }

-- A text as read_config_file gives it back after write_config_file has written it: `stored` is what
-- yaml-cpp makes of a code, which can have several lines and is then written as a literal block. All
-- other texts are words of one line, and come back as they were. A file that yaml-cpp cannot read
-- again is left aside.
abbrev pub stored_code : (Str → Str) → Option Str → Option Str
stored_code stored none = none
stored_code stored (some code) = some (stored code)

abbrev pub reread_node : (Str → Str) → StateNode → StateNode
reread_node stored n = record n {
  enter = stored_code stored n.enter;
  exit = stored_code stored n.exit;
  action = stored_code stored n.action;
}

unfoldable pub reread : (Str → Str) → SmTree → SmTree
reread stored t = record t { states = map (reread_node stored) t.states }

-- The file that the next command reads: a command that is done has written it.
unfoldable pub write_config_file : (Str → Str) → Reply → Reply
unfolding reread
write_config_file stored (t, done) = (reread stored t, done)
write_config_file stored (t, bad_params) = (t, bad_params)
write_config_file stored (t, no_state s) = (t, no_state s)
write_config_file stored (t, no_states s s') = (t, no_states s s')
write_config_file stored (t, event_exists e) = (t, event_exists e)
write_config_file stored (t, state_exists s) = (t, state_exists s)
write_config_file stored (t, bad_action_type a) = (t, bad_action_type a)
write_config_file stored (t, lua_error e) = (t, lua_error e)

-- The commands of make_sm_menue, less test_lua, which writes nothing; and clear.
pub data Command : Type 0 where
  create next init event action : List Str → Command
  edit : List Str → Str → Command
  clear_all : Command

module _ (check_lua : Str → Str) where
  -- The tree that the command gives to write_config_file, or the one that it has read.
  unfoldable pub edit_command : Command → SmTree → Reply
  unfolding create_state set_next set_init add_event input_action edit_action clear
  edit_command (create ps) t = create_state ps t
  edit_command (next ps) t = set_next ps t
  edit_command (init ps) t = set_init ps t
  edit_command (event ps) t = add_event ps t
  edit_command (action ps) t = input_action check_lua ps t
  edit_command (edit ps edited) t = edit_action check_lua ps edited t
  edit_command clear_all t = (clear t, done)

  -- Commands on one tree, without the file between them.
  unfoldable pub edit_commands : List Command → SmTree → SmTree
  edit_commands [] t = t
  edit_commands (c ∷ cs) t = edit_commands cs (edit_command c t).0

  module _ (stored : Str → Str) where
    unfoldable pub run_command : Command → SmTree → Reply
    unfolding edit_command write_config_file
    run_command c t = write_config_file stored (edit_command c t)

    unfoldable pub run_commands : List Command → SmTree → SmTree
    run_commands [] t = t
    run_commands (c ∷ cs) t = run_commands cs (run_command c t).0
