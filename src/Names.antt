-- ===== src/Names.antt =====
-- `safe_file_component` of controller/closed_wave_registry.py, which every part uses for the names
-- of its files.
use portable_batch_execution.Base.{
  ℕ, String, Bool, not, ◌&&◌, ◌||◌, ◌==◌, any, truthy, ltb, eqb, length, Outcome, ok, value_error,
  raise_if, ◌>>◌,
}
use portable_batch_execution.Base.Order.{codes}

abbrev max_component_len : ℕ
max_component_len = 128

-- One of `/`, `\`, `?` and `#`.
is_forbidden : ℕ → Bool
is_forbidden c = eqb c b'/' || eqb c 92 || eqb c b'?' || eqb c b'#'

unfoldable pub is_safe_component : String → Bool
unfolding is_forbidden
is_safe_component s =
    truthy s
    && not (ltb max_component_len (length (codes s)))
    && not (s == "." || s == "..")
    && not (any is_forbidden (codes s))

unfoldable pub safe_file_component : String → Outcome String
safe_file_component s = do
  raise_if (not (is_safe_component s)) (value_error "must be an opaque identifier")
  ok s
