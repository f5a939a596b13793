-- ===== src/Server/Cli/Tests.antt =====
-- A command line with four options.
use file_web_server.Base.{[], ◌∷◌, ◌≡◌, List, codes, arith, some}
use file_web_server.Base.Int.{pos}
use file_web_server.Server.Cli.Checked.{IsUsable, parse_args-IsUsable}
use file_web_server.Server.Cli.RoundTrip.{
  CliOption, cert, command_line, key, meanings, parse_args-command_line, port, timeout, meaning,
}
use file_web_server.Server.Cli.{ServerConfig, default_config, finish_config, parse_args, parsed}

abbrev options : List CliOption
options = port 8443 ∷ cert (codes "c.pem") ∷ timeout 30 ∷ key (codes "k.pem") ∷ []

parse_args-command_line_example :
    parse_args (codes "fws" ∷ command_line options)
    ≡ finish_config (meanings options default_config)
parse_args-command_line_example =
    parse_args-command_line (codes "fws") options
      (omega arith, (record {}, (omega arith, (record {}, record {}))))

abbrev secure_config : ServerConfig
secure_config = record default_config {
  root_dir = codes ".";
  port = 8443;
  cert_file = some (codes "c.pem");
  key_file = some (codes "k.pem");
  keep_alive_timeout = pos 30;
}

accepted : parse_args (codes "fws" ∷ command_line options) ≡ parsed secure_config
unfolding meanings meaning finish_config
accepted = parse_args-command_line_example

parse_args-IsUsable_example : IsUsable secure_config
parse_args-IsUsable_example =
    parse_args-IsUsable (codes "fws" ∷ command_line options) secure_config accepted
