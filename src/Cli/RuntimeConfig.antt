-- ===== src/Cli/RuntimeConfig.antt =====
-- src/cli/runtime_config.cpp: the commands that filter the log and open the chute, and the arguments
-- with which restart starts a device. std::stoi is a parameter: `none` is its exception.
pub mod Commands
pub mod Follow
pub mod Restart
mod Examples
use auto_drop.Prelude.{
  ℕ, Bool, true, false, ◌&&◌, ◌||◌, if◌then◌else◌, ltb, ◌==◌, Option, none, some, List, [], ◌∷◌,
  ◌++◌, Str, str_beq, codes,
}
use auto_drop.Prelude.Int.{ℤ, pos, ltb_ℤ}
use auto_drop.Cli.SmConfig.{has_param, param}
use auto_drop.Core.Daemons.{DeviceConfig, SmConfig}
use auto_drop.Core.Runner.{Request}
use auto_drop.Rpc.Remote.{ad_rpc_set_lc_open}

pub record LogConfig : Type 0 where
  pub log_level : Str
  pub log_module : Str

abbrev pub same_config : LogConfig → LogConfig → Bool
same_config a b = str_beq a.log_level b.log_level && str_beq a.log_module b.log_module

-- std::find
unfoldable pub has_config : LogConfig → List LogConfig → Bool
has_config c [] = false
has_config c (d ∷ ds) = same_config d c || has_config c ds

unfoldable pub erase_config : LogConfig → List LogConfig → List LogConfig
erase_config c [] = []
erase_config c (d ∷ ds) = let rest = d ∷ erase_config c ds in if same_config d c then ds else rest

abbrev pub config_of : List Str → LogConfig
config_of params = record { log_level = param params 1; log_module = param params 0 }

unfoldable pub enable_log : List Str → List LogConfig → List LogConfig
unfolding has_config
enable_log params cs =
    if has_param params 0 && has_param params 1
    then (if has_config (config_of params) cs then cs else cs ++ config_of params ∷ [])
    else cs

unfoldable pub disable_log : List Str → List LogConfig → List LogConfig
unfolding erase_config
disable_log params cs =
    if has_param params 0 && has_param params 1 then erase_config (config_of params) cs else cs

-- The lines of make_bdr, each without its newline.
unfoldable pub make_bdr_lines : List LogConfig → List Str
make_bdr_lines [] = codes "restart" ∷ []
make_bdr_lines (c ∷ cs) =
    (codes "enable_log " ++ (c.log_module ++ (codes " " ++ c.log_level))) ∷ make_bdr_lines cs

unfoldable pub clear_log : List LogConfig → List LogConfig
clear_log cs = []

-- The `for` over the characters of `args` in restart; `arg` is what has been read of the present one.
unfoldable pub split_from : Str → Str → List Str
split_from arg [] = arg ∷ []
split_from arg (c ∷ s) =
    let next = arg ∷ split_from [] s in
    let more = split_from (arg ++ c ∷ []) s in if c == b' ' then next else more

unfoldable pub split_args : Str → List Str
unfolding split_from
split_args args = split_from [] args

pub data LcReply : Type 0 where
  bad_params out_of_range stoi_throws : LcReply
  done : Option Request → LcReply

unfoldable pub set_lc_open : (Str → Option ℤ) → List Str → List DeviceConfig → LcReply
set_lc_open stoi params ds =
    if has_param params 0 && has_param params 1
    then elim (stoi (param params 1)) [
      | none ↦ stoi_throws
      | some t ↦
          if ltb_ℤ t (pos 0) || ltb_ℤ (pos 100) t
          then out_of_range
          else done (ad_rpc_set_lc_open (param params 0) t ds)
    ]
    else bad_params

-- The port to which send_sm_event and show_sm_state turn; they send nothing if it is 0.
unfoldable pub running_sm_port : List SmConfig → ℕ
running_sm_port [] = 0
running_sm_port (s ∷ ss) = s.port
