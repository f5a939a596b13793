-- ===== src/Server/Cli/RoundTrip.antt =====
-- A command line written option by option, and what `parse_args` reads from it.
use file_web_server.Base.{
  ℕ, ◌+◌, ◌-◌, ◌&&◌, leb, ◌%◌, ◌<◌, true, ◌≡◌, refl, ◌∙◌, sym, ap, List, [], ◌∷◌, ◌++◌, some, arith,
  Bytes, codes, equal, to_decimal, All,
}
use file_web_server.Base.Decimal.{
  IsDigit, TakesDigits, read-to_decimal, to_decimal-IsDigit, to_decimal-cons,
}
use file_web_server.Base.Int.{pos}
use file_web_server.Server.Cli.{
  ServerConfig, help_flag, version_flag, apply_option, atoi, signed_digits, skip_spaces,
  default_config, finish_config, flag_of, int_limit, leading_digits, parse_args, parse_options,
  port_mod,
}

-- An option of the command line.
pub data CliOption : Type 0 where
  root cert key : Bytes → CliOption
  port timeout : ℕ → CliOption
  help version : CliOption

-- Its arguments.
unfoldable pub written : CliOption → List Bytes
written (root s) = codes "--root" ∷ s ∷ []
written (cert s) = codes "--cert" ∷ s ∷ []
written (key s) = codes "--key" ∷ s ∷ []
written (port n) = codes "--port" ∷ to_decimal n ∷ []
written (timeout n) = codes "--timeout" ∷ to_decimal n ∷ []
written help = codes "--help" ∷ []
written version = codes "--version" ∷ []

unfoldable pub command_line : List CliOption → List Bytes
command_line [] = []
command_line (o ∷ os) = written o ++ command_line os

-- What it means.
unfoldable pub meaning : CliOption → ServerConfig → ServerConfig
meaning (root s) c = record c { root_dir = s }
meaning (cert s) c = record c { cert_file = some s }
meaning (key s) c = record c { key_file = some s }
meaning (port n) c = record c { port = n }
meaning (timeout n) c = record c { keep_alive_timeout = pos n }
meaning help c = record c { help = true }
meaning version c = record c { version = true }

unfoldable pub meanings : List CliOption → ServerConfig → ServerConfig
meanings [] c = c
meanings (o ∷ os) c = meanings os (meaning o c)

-- A port has 16 bits, and a timeout 31.
abbrev pub InRange : CliOption → Type 0
InRange (port n) = n < port_mod
InRange (timeout n) = n < int_limit
InRange _ = Unit {0}

leading_digits-TakesDigits : TakesDigits int_limit leading_digits
unfolding leading_digits
leading_digits-TakesDigits m d s h b =
    let k : (leb b'0' (b'0' + d) && leb (b'0' + d) b'9') ≡ true = ground arith in
    let z : b'0' + d - b'0' ≡ d = omega arith in ground arith

digits-not-blank : (c : ℕ) (s : Bytes) → IsDigit c → skip_spaces (c ∷ s) ≡ c ∷ s
unfolding skip_spaces
digits-not-blank c s h = ground arith

digits-unsigned :
    (c : ℕ) (s : Bytes) → IsDigit c → signed_digits (c ∷ s) ≡ pos (leading_digits 0 (c ∷ s))
unfolding signed_digits
digits-unsigned c s h = ground arith

atoi-to_decimal : (n : ℕ) → n < int_limit → atoi (to_decimal n) ≡ some (pos n)
unfolding atoi
atoi-to_decimal n h =
    let (c, s, e) = to_decimal-cons n in
    let d : IsDigit c = (rw e at (to_decimal-IsDigit n)).0 in
    let v : leading_digits 0 (c ∷ s) ≡ n =
      ap (leading_digits 0) (sym e)
      ∙ read-to_decimal int_limit leading_digits leading_digits-TakesDigits n h in
    rw e (rw (digits-not-blank c s d, digits-unsigned c s d, v) (ground arith))

atoi-port : (n : ℕ) → n < port_mod → atoi (to_decimal n) ≡ some (pos n)
atoi-port n h = atoi-to_decimal n (omega arith)

parse-help :
    (c : ServerConfig) (arg : Bytes) (rest : List Bytes)
    → flag_of arg ≡ help_flag
    → parse_options c (arg ∷ rest) ≡ parse_options (record c { help = true }) rest
unfolding parse_options
parse-help c arg [] e = rw (e, parse_options) refl
parse-help c arg (v ∷ rest) e = rw (e, parse_options) refl

parse-version :
    (c : ServerConfig) (arg : Bytes) (rest : List Bytes)
    → flag_of arg ≡ version_flag
    → parse_options c (arg ∷ rest) ≡ parse_options (record c { version = true }) rest
unfolding parse_options
parse-version c arg [] e = rw (e, parse_options) refl
parse-version c arg (v ∷ rest) e = rw (e, parse_options) refl

-- One option in front of the others.
parse-written :
    (o : CliOption) (c : ServerConfig) (rest : List Bytes)
    → InRange o
    → parse_options c (written o ++ rest) ≡ parse_options (meaning o c) rest
unfolding written meaning parse_options flag_of apply_option equal
parse-written (root s) c rest h = refl
parse-written (cert s) c rest h = refl
parse-written (key s) c rest h = refl
parse-written (port n) c rest h =
    let k : n % port_mod ≡ n = omega arith in rw (parse_options, atoi-port n h) (rw k refl)
parse-written (timeout n) c rest h = rw (parse_options, atoi-to_decimal n h) refl
parse-written help c rest h = parse-help c (codes "--help") rest refl
parse-written version c rest h = parse-version c (codes "--version") rest refl

parse_options-command_line :
    (os : List CliOption) (c : ServerConfig)
    → All InRange os
    → parse_options c (command_line os) ≡ finish_config (meanings os c)
unfolding command_line meanings parse_options
parse_options-command_line [] c h = refl
parse_options-command_line (o ∷ os) c (h, hs) =
    parse-written o c (command_line os) h ∙ parse_options-command_line os (meaning o c) hs

-- A command line written from a list of options, with ports below 65536 and timeouts below
-- 2147483648 in decimal, is parsed as these options applied in order to the default configuration,
-- and the final checks of it.
pub parse_args-command_line :
    (prog : Bytes) (os : List CliOption)
    → All InRange os
    → parse_args (prog ∷ command_line os) ≡ finish_config (meanings os default_config)
unfolding parse_args
parse_args-command_line prog os h = parse_options-command_line os default_config h
