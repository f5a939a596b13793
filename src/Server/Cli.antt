-- ===== src/Server/Cli.antt =====
-- src/server/cli.h: the command line.
pub mod Checked
pub mod RoundTrip
mod Tests
use file_web_server.Base.{
  ℕ, ◌+◌, ◌-◌, ◌*◌, ◌^◌, ◌%◌, Bool, true, false, not, ◌||◌, ◌&&◌, List, [], ◌∷◌, Option, none, some,
  is_some, ltb, leb, ◌==◌, if◌then◌else◌, Bytes, codes, equal, is_empty,
}
use file_web_server.Base.Int.{ℤ, pos, negsuc}
use file_web_server.Server.FileServer.Path.{is_space}

pub record ServerConfig : Type 0 where
  pub root_dir : Bytes
  pub port : ℕ
  pub cert_file : Option Bytes
  pub key_file : Option Bytes
  pub keep_alive_timeout : ℤ
  pub help : Bool
  pub version : Bool

abbrev pub default_config : ServerConfig
default_config = record {
  root_dir = [];
  port = 8080;
  cert_file = none;
  key_file = none;
  keep_alive_timeout = pos 75;
  help = false;
  version = false;
}

-- What atoi reads: blanks, a sign, and the digits up to the first byte that is none.
unfoldable pub skip_spaces : Bytes → Bytes
skip_spaces [] = []
skip_spaces (c ∷ s) = if is_space c then skip_spaces s else c ∷ s

unfoldable pub leading_digits : ℕ → Bytes → ℕ
leading_digits acc [] = acc
leading_digits acc (c ∷ s) = elim (leb b'0' c && leb c b'9') [
  | true ↦ leading_digits (acc * 10 + (c - b'0')) s
  | false ↦ acc
]

abbrev pub negate : ℕ → ℤ
negate n = if n == 0 then pos 0 else negsuc (n - 1)

unfoldable pub signed_digits : Bytes → ℤ
unfolding leading_digits
signed_digits [] = pos 0
signed_digits (c ∷ s) =
    if c == b'-'
    then negate (leading_digits 0 s)
    else if c == b'+'
    then pos (leading_digits 0 s)
    else pos (leading_digits 0 (c ∷ s))

-- int has 32 bits, and the C standard leaves atoi undefined outside of them: `none`.
abbrev pub int_limit : ℕ
int_limit = 2 ^ 31

abbrev pub as_int : ℤ → Option ℤ
as_int (pos n) = if ltb n int_limit then some (pos n) else none
as_int (negsuc n) = if ltb n int_limit then some (negsuc n) else none

unfoldable pub atoi : Bytes → Option ℤ
unfolding skip_spaces signed_digits
atoi s = as_int (signed_digits (skip_spaces s))

-- static_cast<uint16_t>
abbrev pub port_mod : ℕ
port_mod = 2 ^ 16

abbrev pub as_port : ℤ → ℕ
as_port (pos n) = n % port_mod
as_port (negsuc n) = port_mod - 1 - n % port_mod

-- The three errors that end the program with std::exit(1).
pub data CliError : Type 0 where
  requires_value unknown_option : Bytes → CliError
  unpaired : CliError

pub data ParseResult : Type 0 where
  parsed : ServerConfig → ParseResult
  exited : CliError → ParseResult
  undefined : ParseResult

-- What one option with its value does to the configuration.
pub data Setting : Type 0 where
  set : ServerConfig → Setting
  no_option out_of_range : Setting

unfoldable pub apply_option : Bytes → Bytes → ServerConfig → Setting
unfolding atoi
apply_option arg val cfg =
    if equal arg (codes "--root")
    then set (record cfg { root_dir = val })
    else if equal arg (codes "--port")
    then elim (atoi val) [ none ↦ out_of_range | some v ↦ set (record cfg { port = as_port v }) ]
    else if equal arg (codes "--cert")
    then set (record cfg { cert_file = some val })
    else if equal arg (codes "--key")
    then set (record cfg { key_file = some val })
    else if equal arg (codes "--timeout")
    then elim (atoi val) [
      | none ↦ out_of_range
      | some v ↦ set (record cfg { keep_alive_timeout = v })
    ]
    else no_option

-- What follows the loop.
unfoldable pub finish_config : ServerConfig → ParseResult
finish_config cfg =
    if not (is_some cfg.cert_file) && is_some cfg.key_file
      || is_some cfg.cert_file && not (is_some cfg.key_file)
    then exited unpaired
    else parsed (if is_empty cfg.root_dir then record cfg { root_dir = codes "." } else cfg)

-- The options that stand alone.
pub data Flag : Type 0 where
  help_flag version_flag no_flag : Flag

unfoldable pub flag_of : Bytes → Flag
flag_of arg =
    if equal arg (codes "--help") || equal arg (codes "-h")
    then help_flag
    else if equal arg (codes "--version")
    then version_flag
    else no_flag

-- The loop over the arguments.
unfoldable pub parse_options : ServerConfig → List Bytes → ParseResult
unfolding finish_config apply_option flag_of
parse_options cfg [] = finish_config cfg
parse_options cfg (arg ∷ []) = elim (flag_of arg) [
  | help_flag ↦ parse_options (record cfg { help = true }) []
  | version_flag ↦ parse_options (record cfg { version = true }) []
  | no_flag ↦ exited (requires_value arg)
]
parse_options cfg (arg ∷ val ∷ rest) = elim (flag_of arg) [
  | help_flag ↦ parse_options (record cfg { help = true }) (val ∷ rest)
  | version_flag ↦ parse_options (record cfg { version = true }) (val ∷ rest)
  | no_flag ↦ elim (apply_option arg val cfg) [
    | set cfg' ↦ parse_options cfg' rest
    | no_option ↦ exited (unknown_option arg)
    | out_of_range ↦ undefined
  ]
]

-- args[0] is the name of the program.
unfoldable pub parse_args : List Bytes → ParseResult
unfolding parse_options
parse_args [] = finish_config default_config
parse_args (prog ∷ args) = parse_options default_config args
