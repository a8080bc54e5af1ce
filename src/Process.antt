-- ===== src/Process.antt =====
-- Child processes as src/git.rs, src/git_mutation.rs and src/git_extra.rs start them, and the chain
-- of such steps by `?`. Programs are not part of the repository: running one is a field.
pub mod Keeps
use tux_bridge.Prelude.{ℕ, Str, Bytes, Bool, Option, List}
use tux_bridge.Error.{ApiError, ApiResult, ok, err}
use tux_bridge.Paths.{PathBuf}
use tux_bridge.Host.{IoResult}

pub record Command : Type 0 where
  pub program : Str
  pub env : List (Str × Str)
  pub args : List Str

-- `code` is missing when a signal ended the process.
pub record Output : Type 0 where
  pub success : Bool
  pub code : Option ℕ
  pub stdout : Bytes
  pub stderr : Bytes

-- `from_utf8_lossy` replaces what is not UTF-8.
pub record Processes : Type 1 where
  pub World : Type 0
  pub canonicalize : PathBuf → World → IoResult PathBuf
  pub output : Command → World → IoResult Output × World
  pub from_utf8_lossy : Bytes → Str

-- A computation that may fail and may start processes.
abbrev pub Act : Type 0 → Type 0 → Type 0
Act W A = W → ApiResult A × W

abbrev pub continue : {W A B : Type 0} → ApiResult A × W → (A → Act W B) → ApiResult B × W
continue (ok a, w) f = f a w
continue (err e, w) f = (err e, w)

infixl 5 ◌>>=◌ ◌>>◌
unfoldable pub ◌>>=◌ : {W A B : Type 0} → Act W A → (A → Act W B) → Act W B
(m >>= f) w = continue (m w) f

unfoldable pub ◌>>◌ : {W B : Type 0} → Act W (Unit {0}) → Act W B → Act W B
(m >> k) w = continue (m w) (λ done. k)

-- A check that starts no process.
unfoldable pub lift : {W A : Type 0} → ApiResult A → Act W A
lift r w = (r, w)

-- `map_err(|_| e)`
unfoldable pub or_fail : {W A : Type 0} → ApiError → Act W A → Act W A
or_fail e m w = let (r, v) = m w in elim r [ ok a ↦ (ok a, v) | err x ↦ (err e, v) ]
