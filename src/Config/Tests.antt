-- ===== src/Config/Tests.antt =====
-- Settings read from text, and the theorems on them at concrete inputs.
use beaver_mq.Prelude.{◌≤◌, ◌≡◌, refl, none, some, [], ◌∷◌, codes, str_eq, arith}
use beaver_mq.Config.Number.{read_number, read_digits, skip_space, case_eq}
use beaver_mq.Config.Value.{
  parse_size, parse_threads, cluster_entries, node_entries, split_commas, skip_blanks, has_byte,
}
use beaver_mq.Config.Apply.{
  config_defaults, config_load_lines, config_apply_env, config_resolve_threads,
}
use beaver_mq.Config.Bounds.{IsConfig, config-IsConfig}
use beaver_mq.Config.Size.{parse_size_wraps}

four_mebibytes : parse_size (codes "4m") ≡ some 4194304
unfolding parse_size read_number read_digits skip_space
four_mebibytes = refl

-- No text at all is read as automatic.
no_threads : parse_threads [] ≡ some 0
unfolding parse_threads read_number read_digits skip_space case_eq str_eq
no_threads = refl

two_nodes : cluster_entries (codes "a:1,,b, c:2") ≡ codes "a:1" ∷ codes "c:2" ∷ []
unfolding cluster_entries node_entries split_commas skip_blanks has_byte
two_nodes = refl

config-IsConfig_example :
    let c = config_resolve_threads 8 (
      config_apply_env
        (λ v. none)
        (config_load_lines (λ v. none) config_defaults (codes "threads = 4 # four" ∷ []))
        ((codes "amqp_port", codes "70000") ∷ [])) in
    IsConfig c × (1 ≤ c.threads)
config-IsConfig_example =
    config-IsConfig (λ v. none) (codes "threads = 4 # four" ∷ [])
      ((codes "amqp_port", codes "70000") ∷ []) 8

parse_size_wraps_example : parse_size (codes "18014398509481984k") ≡ some 0
unfolding read_number read_digits skip_space
parse_size_wraps_example =
    parse_size_wraps (codes "18014398509481984k") 18014398509481984 1
      (record { some_digit = refl; not_negative = refl; magnitude = refl; ends = refl })
      (omega arith) (omega arith)
