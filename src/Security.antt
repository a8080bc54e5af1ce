-- ===== src/Security.antt =====
-- src/security.rs: the security profiles, and the raw commands that the default profile accepts.
pub mod Shell
mod Tests
use tux_bridge.Prelude.{
  ℕ, String, Str, codes, Bool, true, false, not, ◌&&◌, ◌||◌, List, [], ◌∷◌, ◌++◌, any, is_empty,
  leb, ltb, len, trim, contains, eq_str, is_ascii_whitespace, is_whitespace,
}
use tux_bridge.Error.{
  ApiResult, ok, err, refuse_if, ◌>>◌, ◌>>=◌, bad_request, forbidden, says, text, quoted,
}

pub data SecurityProfile : Type 0 where
  default loose i_want_to_nuke_my_server : SecurityProfile

unfoldable pub allows_unrestricted_shell : SecurityProfile → Bool
allows_unrestricted_shell default = false
allows_unrestricted_shell loose = true
allows_unrestricted_shell i_want_to_nuke_my_server = true

abbrev is_nuke : SecurityProfile → Bool
is_nuke i_want_to_nuke_my_server = true
is_nuke _ = false

pub record SecurityProfileResponse : Type 0 where
  pub profile : SecurityProfile
  pub unrestricted_shell : Bool
  pub general_command_api : Bool
  pub passwordless_sudo_expected : Bool
  pub default_command_allowlist : List Str

-- The handler, on the two configuration values that it reads.
pub get_security_profile : SecurityProfile → List Str → SecurityProfileResponse
get_security_profile profile allowlist = record {
  profile = profile;
  unrestricted_shell = allows_unrestricted_shell profile;
  general_command_api = allows_unrestricted_shell profile;
  passwordless_sudo_expected = is_nuke profile;
  default_command_allowlist = allowlist;
}

abbrev pub needles : List Str
needles =
    codes ";"
    ∷ codes "&&"
    ∷ codes "||"
    ∷ codes "|"
    ∷ codes ">"
    ∷ codes "<"
    ∷ codes "`"
    ∷ codes "$("
    ∷ codes "${"
    ∷ (10 ∷ [])
    ∷ (13 ∷ [])
    ∷ (92 ∷ 10 ∷ [])
    ∷ codes "*"
    ∷ codes "?"
    ∷ codes "["
    ∷ codes "]"
    ∷ []

-- `split_ascii_whitespace`: the maximal runs without ASCII white space. `cur` is the run so far.
abbrev pub flush : Str → List Str → List Str
flush [] rest = rest
flush (c ∷ cur) rest = (c ∷ cur) ∷ rest

unfoldable pub words_from : Str → Str → List Str
unfolding is_ascii_whitespace
words_from cur [] = flush cur []
words_from cur (c ∷ s) = elim (is_ascii_whitespace c) [
  | true ↦ flush cur (words_from [] s)
  | false ↦ words_from (cur ++ c ∷ []) s
]

abbrev pub split_ascii_whitespace : Str → List Str
split_ascii_whitespace s = words_from [] s

-- The test of the program, the first word.
unfoldable pub check_program : List Str → List Str → ApiResult (List Str)
check_program allowlist [] = err (bad_request (says "command must contain a program"))
check_program allowlist (program ∷ args) = do
  refuse_if (not (any (λ allowed. eq_str allowed program) allowlist)) (
      forbidden (
        text "program "
        ∷ quoted program
        ∷ text " is not allowed by the default security profile"
        ∷ []))
  ok (program ∷ args)

unfoldable pub validate_default_shell : Str → List Str → ApiResult (List Str)
unfolding check_program words_from
validate_default_shell command allowlist = do
  let trimmed = trim command
  refuse_if (is_empty trimmed) (bad_request (says "command must not be empty"))
  refuse_if (ltb 16384 (len trimmed)) (bad_request (says "command is too large"))
  refuse_if (any (λ needle. contains needle trimmed) needles)
      (forbidden (says "default profile raw commands cannot use shell metacharacters or chaining"))
  check_program allowlist (split_ascii_whitespace trimmed)
