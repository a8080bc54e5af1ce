-- ===== src/Lsp/Preflight.antt =====
-- `apply_workspace_edit` of src/lsp.rs writes only what it has prepared and checked.
use tux_bridge.Prelude.{
  ◌≤◌, ◌≡◌, ◌⊎◌, Str, Bytes, as_bytes, from_utf8, Bool, true, Option, some, List, [], ◌∷◌, All, len,
}
use tux_bridge.Prelude.Dict.{Dict}
use tux_bridge.Prelude.Sort.{sort_by}
use tux_bridge.Error.{ok}
use tux_bridge.Json.{Json, Items}
use tux_bridge.Paths.{PathBuf, is_under}
use tux_bridge.Host.{Host}
use tux_bridge.Lsp.Edits.{apply_text_edits}
use tux_bridge.Lsp.Workspace.{PreparedFileEdit, max_lsp_document_bytes, collect_workspace_edits}

module _ (host : Host) (uri_path : Str → Option (Option PathBuf)) where
  -- A file that is ready: it lies under the root, and the new content is that of its text with the edits.
  pub IsReady : PathBuf → host.World → Str × Items → PreparedFileEdit → Type 0
  IsReady root w (uri, edits) item =
      ((path : PathBuf) × (uri_path uri ≡ some (some path))
        × (host.canonicalize path w ≡ ok item.path))
      × (is_under root item.path ≡ true)
      × ((file : Bytes) × (host.read item.path w ≡ ok file) × (from_utf8 file ≡ some item.original))
      × (len item.original ≤ max_lsp_document_bytes)
      × (apply_text_edits item.original edits ≡ ok item.updated)
      × (item.old_sha256 ≡ host.sha256 (as_bytes item.original))
      × (item.new_sha256 ≡ host.sha256 (as_bytes item.updated))

  -- One prepared file for each URI, in order.
  pub data AreReady (root : PathBuf) (w : host.World)
      : Dict Items → List PreparedFileEdit → Type 0 where
    none_left : AreReady root w [] []
    one_more :
        {entry : Str × Items} {item : PreparedFileEdit} {grouped : Dict Items}
        {rest : List PreparedFileEdit}
        → IsReady root w entry item
        → AreReady root w grouped rest
        → AreReady root w (entry ∷ grouped) (item ∷ rest)

  -- No file has changed since it was prepared.
  pub IsUnchanged : host.World → PreparedFileEdit → Type 0
  IsUnchanged w item =
      (current : Bytes) × (host.read item.path w ≡ ok current)
      × (host.sha256 current ≡ item.old_sha256)

  -- What holds before the first write.
  pub IsPreflight : PathBuf → Json → Bool → host.World → List PreparedFileEdit → Type 0
  IsPreflight root edit dry_run w prepared =
      (grouped : Dict Items) × (collect_workspace_edits edit ≡ ok grouped)
      × AreReady root w (sort_by (λ entry. entry.0) grouped) prepared
      × ((dry_run ≡ true) ⊎ All (IsUnchanged w) prepared)
