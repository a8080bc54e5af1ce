-- ===== src/Lsp/Workspace.antt =====
-- `apply_workspace_edit` of src/lsp.rs: the edits of many files, prepared before the first is written.
use tux_bridge.Prelude.{
  ℕ, suc, Str, Bytes, codes, as_bytes, from_utf8, Bool, true, false, not, Option, none, some, List,
  [], ◌∷◌, map, len, ltb, is_some, or_else, if◌then◌else◌, eq_str,
}
use tux_bridge.Prelude.Dict.{Dict, get, insert}
use tux_bridge.Prelude.Sort.{sort_by}
use tux_bridge.Error.{
  ApiResult, ok, err, ◌>>=◌, ◌>>◌, refuse_if, ok_or, map_err, says, bad_request, forbidden,
  unsupported, conflict, internal, shown, text,
}
use tux_bridge.Json.{
  Json, null, array, Items, nil, cons, Fields, end, field, get_field, as_object, as_str,
}
use tux_bridge.Paths.{PathBuf, is_under, parent, relative_display}
use tux_bridge.Host.{Host, is_symlink, map_io}
use tux_bridge.Mutation.Write.{begin_temp}
use tux_bridge.Lsp.Edits.{apply_text_edits}

abbrev pub max_lsp_document_bytes : ℕ
max_lsp_document_bytes = 8388608

pub record LspEditFile : Type 0 where
  pub path : Str
  pub old_sha256 : Str
  pub new_sha256 : Str
  pub edits : ℕ
  pub changed : Bool

pub record LspWorkspaceEditResponse : Type 0 where
  pub server : Str
  pub dry_run : Bool
  pub applied : Bool
  pub files : List LspEditFile

pub record PreparedFileEdit : Type 0 where
  pub display_path : Str
  pub path : PathBuf
  pub original : Str
  pub updated : Str
  pub edit_count : ℕ
  pub old_sha256 : Str
  pub new_sha256 : Str

unfoldable pub as_array : Json → Option Items
as_array (array items) = some items
as_array null = none
as_array _ = none

unfoldable pub is_null : Json → Bool
is_null null = true
is_null _ = false

unfoldable pub extend : Items → Items → Items
extend nil more = more
extend (cons item items) more = cons item (extend items more)

unfoldable pub count : Items → ℕ
count nil = 0
count (cons item items) = suc (count items)

-- `grouped.entry(uri).or_default().extend(items)`
unfoldable pub add_edits : Str → Items → Dict Items → Dict Items
unfolding get insert extend
add_edits uri items grouped = insert uri (extend (or_else (get uri grouped) nil) items) grouped

unfoldable pub collect_changes : Fields → Dict Items → ApiResult (Dict Items)
unfolding as_array add_edits
collect_changes end grouped = ok grouped
collect_changes (field uri edits rest) grouped = elim (as_array edits) [
  | none ↦ err (bad_request (says "LSP changes entry is not an edit array"))
  | some items ↦ collect_changes rest (add_edits uri items grouped)
]

-- The URI and the edits of one entry of `documentChanges`.
unfoldable pub document_edit : Json → ApiResult (Str × Items)
unfolding get_field as_str as_array
document_edit change = do
  refuse_if (is_some (get_field (codes "kind") change)) (
      unsupported
        (says "LSP resource create/rename/delete operations are not automatically applied"))
  let document = or_else (get_field (codes "textDocument") change) null
  uri ←
      ok_or (as_str (or_else (get_field (codes "uri") document) null))
        (bad_request (says "LSP TextDocumentEdit is missing a URI"))
  edits ←
      ok_or (as_array (or_else (get_field (codes "edits") change) null))
        (bad_request (says "LSP TextDocumentEdit is missing edits"))
  ok (uri, edits)

unfoldable pub collect_documents : Items → Dict Items → ApiResult (Dict Items)
unfolding document_edit add_edits
collect_documents nil grouped = ok grouped
collect_documents (cons change rest) grouped = elim (document_edit change) [
  | err e ↦ err e
  | ok (uri, edits) ↦ collect_documents rest (add_edits uri edits grouped)
]

unfoldable pub collect_workspace_edits : Json → ApiResult (Dict Items)
unfolding is_null get_field as_object as_array collect_changes collect_documents
collect_workspace_edits edit =
    let changes : Option Fields = as_object (or_else (get_field (codes "changes") edit) null) in
    let first : ApiResult (Dict Items) = elim changes [
      | none ↦ ok []
      | some fields ↦ collect_changes fields []
    ] in
    let documents : Option Items =
      as_array (or_else (get_field (codes "documentChanges") edit) null) in
    if is_null edit
    then ok []
    else (first >>= λ grouped. elim documents [
      | none ↦ ok grouped
      | some items ↦ collect_documents items grouped
    ])

unfoldable pub listed : PreparedFileEdit → LspEditFile
listed item = record {
  path = item.display_path;
  old_sha256 = item.old_sha256;
  new_sha256 = item.new_sha256;
  edits = item.edit_count;
  changed = not (eq_str item.original item.updated);
}

unfoldable pub edit_response : Str → Bool → List PreparedFileEdit → LspWorkspaceEditResponse
unfolding listed
edit_response server dry_run prepared = record {
  server = server;
  dry_run = dry_run;
  applied = not dry_run;
  files = map listed prepared;
}

-- `uri_path` is `Url::parse` and `to_file_path` of the crate `url`: nothing when the text is no URI,
-- and no path when it does not name a file.
module _ (host : Host) (uri_path : Str → Option (Option PathBuf)) where
  unfoldable pub read_to_string : PathBuf → host.World → ApiResult Str
  read_to_string path w = map_err map_io (host.read path w) >>= λ bytes.
      ok_or (from_utf8 bytes) (internal (says "stream did not contain valid UTF-8"))

  unfoldable pub prepare_edit : PathBuf → Str → Items → host.World → ApiResult PreparedFileEdit
  unfolding read_to_string apply_text_edits count
  prepare_edit root uri edits w = do
    url ← ok_or (uri_path uri) (bad_request (says "LSP returned an invalid edit URI"))
    path ← ok_or url (forbidden (says "LSP edit targets a non-file URI"))
    canonical ← map_err map_io (host.canonicalize path w)
    refuse_if (not (is_under root canonical))
        (forbidden (says "LSP edit attempted to escape the workspace root"))
    metadata ← map_err map_io (host.symlink_metadata canonical w)
    refuse_if (is_symlink metadata.kind)
        (forbidden (says "LSP edits through symlinks are not allowed"))
    original ← read_to_string canonical w
    refuse_if (ltb max_lsp_document_bytes (len original))
        (bad_request (says "an LSP-edited file exceeds the 8 MiB limit"))
    updated ← apply_text_edits original edits
    ok (record {
      display_path = relative_display root canonical;
      path = canonical;
      original = original;
      updated = updated;
      edit_count = count edits;
      old_sha256 = host.sha256 (as_bytes original);
      new_sha256 = host.sha256 (as_bytes updated);
    })

  unfoldable pub prepare_all : PathBuf → Dict Items → host.World → ApiResult (List PreparedFileEdit)
  unfolding prepare_edit
  prepare_all root [] w = ok []
  prepare_all root ((uri, edits) ∷ grouped) w =
      let others = prepare_all root grouped w in
      prepare_edit root uri edits w >>= λ first. others >>= λ rest. ok (first ∷ rest)

  -- The loop that looks for files that changed since.
  unfoldable pub check_unchanged : List PreparedFileEdit → host.World → ApiResult (Unit {0})
  check_unchanged [] w = ok tt
  check_unchanged (item ∷ rest) w =
      let others = check_unchanged rest w in
      map_err map_io (host.read item.path w) >>= λ current.
      refuse_if (not (eq_str (host.sha256 current) item.old_sha256))
        (conflict (shown item.display_path ∷ text " changed after LSP preflight" ∷ []))
      >> others

  unfoldable pub atomic_replace : PathBuf → Bytes → host.World → ApiResult (Unit {0}) × host.World
  atomic_replace path content w = elim (parent path) [
    | none ↦ (err (bad_request (says "edited file has no parent directory")), w)
    | some dir ↦ elim (host.metadata path w) [
      | err e ↦ (err (map_io e), w)
      | ok metadata ↦
          begin_temp host
            (record {
              root = [];
              target = path;
              content = content;
              permissions = some metadata.permissions;
              no_clobber = false;
            })
            (host.create_temp dir w)
    ]
  ]

  -- The loop that writes, up to the first error.
  unfoldable pub write_edits :
      List PreparedFileEdit → host.World → ApiResult (Unit {0}) × host.World
  unfolding atomic_replace
  write_edits [] w = (ok tt, w)
  write_edits (item ∷ rest) w =
      let skipped = write_edits rest w in
      let (done, w') = atomic_replace item.path (as_bytes item.updated) w in
      let written = write_edits rest w' in
      if eq_str item.original item.updated
      then skipped
      else elim done [ err e ↦ (err e, w') | ok u ↦ written ]

  unfoldable pub plan_edits : PathBuf → Json → Bool → host.World → ApiResult (List PreparedFileEdit)
  unfolding collect_workspace_edits sort_by prepare_all check_unchanged
  plan_edits root edit dry_run w = do
    grouped ← collect_workspace_edits edit
    prepared ← prepare_all root (sort_by (λ entry. entry.0) grouped) w
    if dry_run then ok tt else check_unchanged prepared w
    ok prepared

  unfoldable pub apply_workspace_edit :
      Str → PathBuf → Json → Bool → host.World → ApiResult LspWorkspaceEditResponse × host.World
  unfolding plan_edits write_edits edit_response
  apply_workspace_edit server root edit dry_run w = elim (plan_edits root edit dry_run w) [
    | err e ↦ (err e, w)
    | ok prepared ↦
        let (done, w') = write_edits prepared w in
        if dry_run
        then (ok (edit_response server dry_run prepared), w)
        else (done >> ok (edit_response server dry_run prepared), w')
  ]
