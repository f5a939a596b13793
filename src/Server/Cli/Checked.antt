-- ===== src/Server/Cli/Checked.antt =====
-- What holds of every configuration that `parse_args` returns.
use file_web_server.Base.{
  ◌<◌, true, ◌≡◌, ◌≢◌, ◌⊎◌, inl, inr, refl, List, [], ◌∷◌, is_some, arith, Bytes, Option-cases,
}
use file_web_server.Base.Int.{ℤ, pos, negsuc}
use file_web_server.Server.Cli.{
  ServerConfig, parsed, Setting, set, no_option, out_of_range, Flag, help_flag, version_flag,
  no_flag, apply_option, as_port, atoi, default_config, finish_config, flag_of, parse_args,
  parse_options, port_mod,
}

pub record IsUsable (cfg : ServerConfig) : Type 0 where
  pub paired : is_some cfg.cert_file ≡ is_some cfg.key_file
  pub rooted : cfg.root_dir ≢ []
  pub port_lt : cfg.port < port_mod

finish_config-IsUsable :
    (cfg : ServerConfig) {r : ServerConfig}
    → cfg.port < port_mod
    → finish_config cfg ≡ parsed r
    → IsUsable r
unfolding finish_config
finish_config-IsUsable cfg h e = ground arith

as_port-lt : (v : ℤ) → as_port v < port_mod
as_port-lt (pos n) = omega arith
as_port-lt (negsuc n) = omega arith

apply_option-port :
    (arg val : Bytes) (cfg : ServerConfig) {cfg' : ServerConfig}
    → cfg.port < port_mod
    → apply_option arg val cfg ≡ set cfg'
    → cfg'.port < port_mod
unfolding apply_option
apply_option-port arg val cfg h e = elim (Option-cases (atoi val)) [
  | inl n ↦ ground arith
  | inr (v, n) ↦ ground (arith, as_port-lt v)
]

Setting-cases :
    (s : Setting) → ((cfg : ServerConfig) × (s ≡ set cfg)) ⊎ ((s ≡ no_option) ⊎ (s ≡ out_of_range))
Setting-cases (set cfg) = inl (cfg, refl)
Setting-cases no_option = inr (inl refl)
Setting-cases out_of_range = inr (inr refl)

Flag-cases : (f : Flag) → (f ≡ help_flag) ⊎ ((f ≡ version_flag) ⊎ (f ≡ no_flag))
Flag-cases help_flag = inl refl
Flag-cases version_flag = inr (inl refl)
Flag-cases no_flag = inr (inr refl)

parse_options-IsUsable :
    (args : List Bytes) (cfg : ServerConfig) {r : ServerConfig}
    → cfg.port < port_mod
    → parse_options cfg args ≡ parsed r
    → IsUsable r
unfolding parse_options
parse_options-IsUsable [] cfg h e = finish_config-IsUsable cfg h e
parse_options-IsUsable (arg ∷ []) cfg h e = elim (Flag-cases (flag_of arg)) [
  | inl f ↦ finish_config-IsUsable (record cfg { help = true }) h (rw (parse_options, f) at e)
  | inr (inl f) ↦
      finish_config-IsUsable (record cfg { version = true }) h (rw (parse_options, f) at e)
  | inr (inr f) ↦ absurd (ground (arith, rw (parse_options, f) at e))
]
parse_options-IsUsable (arg ∷ val ∷ rest) cfg h e = elim (Flag-cases (flag_of arg)) [
  | inl f ↦
      parse_options-IsUsable (val ∷ rest) (record cfg { help = true }) h
        (rw (parse_options, f) at e)
  | inr (inl f) ↦
      parse_options-IsUsable (val ∷ rest) (record cfg { version = true }) h
        (rw (parse_options, f) at e)
  | inr (inr f) ↦ elim (Setting-cases (apply_option arg val cfg)) [
    | inl (cfg', s) ↦
        parse_options-IsUsable rest cfg' (apply_option-port arg val cfg h s)
          (rw (parse_options, f, s) at e)
    | inr (inl s) ↦ absurd (ground (arith, rw (parse_options, f, s) at e))
    | inr (inr s) ↦ absurd (ground (arith, rw (parse_options, f, s) at e))
  ]
]

-- Every configuration that parse_args returns has both a certificate and a key or neither, a root
-- directory that is not empty, and a port below 65536.
pub parse_args-IsUsable :
    (args : List Bytes) (cfg : ServerConfig) → parse_args args ≡ parsed cfg → IsUsable cfg
unfolding parse_args
parse_args-IsUsable [] cfg e = finish_config-IsUsable default_config (omega arith) e
parse_args-IsUsable (prog ∷ args) cfg e = parse_options-IsUsable args default_config (omega arith) e
