-- ===== src/Cli/RedisConfig.antt =====
-- src/cli/redis_config.cpp: the connection to the redis server in the configuration file.
pub mod Port
use auto_drop.Prelude.{
  ℕ, zero, suc, ◌+◌, ◌-◌, ◌*◌, Bool, true, false, not, ◌&&◌, ◌||◌, if◌then◌else◌, ltb, leb, ◌==◌,
  Option, none, some, List, [], ◌∷◌, ◌++◌, Str, codes,
}
use auto_drop.Prelude.Decimal.{to_string, digits_from}
use auto_drop.Prelude.Int.{ℤ, pos, negsuc}
use auto_drop.Cli.SmConfig.{has_param, param, is_empty}

-- The `redis` part of the file; a key that is absent reads as its default, the empty text or 0.
pub record RedisConfig : Type 0 where
  pub host : Str
  pub port : ℤ
  pub password : Str

pub data Message : Type 0 where
  bad_params stoi_throws not_configured done : Message

abbrev pub is_digit : ℕ → Bool
is_digit c = leb 48 c && leb c 57

-- std::isspace
abbrev pub is_space : ℕ → Bool
is_space c = (c == 32) || (leb 9 c && leb c 13)

-- The magnitude after the sign: `none` where there is no digit.
unfoldable pub magnitude : Str → Option ℕ
unfolding digits_from
magnitude [] = none
magnitude (c ∷ s) = if is_digit c then some (digits_from 0 (c ∷ s)) else none

-- A value of `int`, or the exception out_of_range.
abbrev pub in_int : Option ℤ → Option ℤ
in_int none = none
in_int (some (pos n)) = if ltb n 2147483648 then some (pos n) else none
in_int (some (negsuc n)) = if ltb n 2147483648 then some (negsuc n) else none

abbrev pub positive : Option ℕ → Option ℤ
positive none = none
positive (some n) = some (pos n)

abbrev pub negative : Option ℕ → Option ℤ
negative none = none
negative (some zero) = some (pos 0)
negative (some (suc n)) = some (negsuc n)

abbrev pub signed : Str → Option ℤ
signed [] = none
signed (c ∷ s) =
    if c == b'-'
    then negative (magnitude s)
    else if c == b'+'
    then positive (magnitude s)
    else positive (magnitude (c ∷ s))

abbrev pub skip_spaces : Str → Str
skip_spaces [] = []
skip_spaces (c ∷ s) = let rest = skip_spaces s in if is_space c then rest else c ∷ s

-- std::stoi: `none` is one of its exceptions, which the command line prints.
unfoldable pub stoi : Str → Option ℤ
unfolding magnitude
stoi s = in_int (signed (skip_spaces s))

-- std::to_string
unfoldable pub int_to_string : ℤ → Str
int_to_string (pos n) = to_string n
int_to_string (negsuc n) = b'-' ∷ to_string (suc n)

-- The new file, what is printed, and whether restart_redis_subscriber is called.
unfoldable pub params : List Str → RedisConfig → RedisConfig × Message × Bool
unfolding stoi
params ps node =
    if has_param ps 0 && has_param ps 1 && has_param ps 2
    then elim (stoi (param ps 1)) [
      | none ↦ (node, stoi_throws, false)
      | some port ↦ (record { host = param ps 0; port = port; password = param ps 2 }, done, true)
    ]
    else (node, bad_params, false)

-- `none` is the null pointer.
unfoldable pub get_redis_config : RedisConfig → Option RedisConfig
get_redis_config node = if is_empty node.host then none else some node

-- The server that `get` and `set` turn to, with the key and the value; `send` is AD_REDIS_HELPER.
module _ {R : Type 0} (send : RedisConfig → List Str → R) where
  unfoldable pub ask : Bool → List Str → RedisConfig → Option R × Message
  unfolding get_redis_config
  ask enough ps node =
      if enough
      then elim (get_redis_config node) [
        | none ↦ (none, not_configured)
        | some c ↦ (some (send c ps), done)
      ]
      else (none, bad_params)

  unfoldable pub get : List Str → RedisConfig → Option R × Message
  unfolding ask
  get ps node = ask (has_param ps 0) ps node

  unfoldable pub set : List Str → RedisConfig → Option R × Message
  unfolding ask
  set ps node = ask (has_param ps 0 && has_param ps 1) ps node

-- The lines of make_bdr, each without its newline.
unfoldable pub make_bdr_lines : RedisConfig → List Str
unfolding get_redis_config int_to_string
make_bdr_lines node = elim (get_redis_config node) [
  | none ↦ []
  | some c ↦
      (codes "params "
        ++ (c.host ++ (codes " " ++ (int_to_string c.port ++ (codes " " ++ c.password)))))
      ∷ []
]

unfoldable pub clear : RedisConfig → RedisConfig
clear node = record { host = []; port = pos 0; password = [] }
