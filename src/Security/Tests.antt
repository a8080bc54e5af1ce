-- ===== src/Security/Tests.antt =====
-- `validate_default_shell` at concrete commands.
use tux_bridge.Prelude.{◌≡◌, ◌≤◌, refl, Str, codes, List, [], ◌∷◌, All, len, trim, texts}
use tux_bridge.Error.{ok, is_ok}
use tux_bridge.Security.{validate_default_shell}
use tux_bridge.Security.Shell.{
  HasListedProgram, IsWord, IsClean, concat, visible, validate_default_shell_ok,
}
use mathlib.Core.Bool.{false}

abbrev allowlist : List Str
allowlist = codes "ls" ∷ codes "cat" ∷ []

abbrev argv : List Str
argv = codes "ls" ∷ codes "-la" ∷ []

accepts : validate_default_shell (codes "  ls -la ") allowlist ≡ ok argv
unfolding validate_default_shell texts
accepts = refl

rejects_chaining : is_ok (validate_default_shell (codes "ls; id") allowlist) ≡ false
unfolding validate_default_shell texts
rejects_chaining = refl

validate_default_shell_ok_example :
    HasListedProgram allowlist argv
    × All IsWord argv
    × All IsClean argv
    × (concat argv ≡ visible (trim (codes "  ls -la ")))
    × (len (trim (codes "  ls -la ")) ≤ 16384)
validate_default_shell_ok_example =
    validate_default_shell_ok (codes "  ls -la ") allowlist argv accepts
