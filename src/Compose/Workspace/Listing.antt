-- ===== src/Compose/Workspace/Listing.antt =====
-- The list of a directory of backend/internal/compose/workspace.go, and the list of the roots.

use compose_manager.Base.{ℤ, Outcome, done, error, ◌>>=◌, ◌>>◌, require, or_error}
use compose_manager.Base.{text_lt, sort_by, ℕ}
use compose_manager.Base.{suc}
use compose_manager.Base.{Bool, true, false, not, ◌&&◌, ◌||◌, Option}
use compose_manager.Base.{List, [], ◌∷◌, ◌++◌, if◌then◌else◌}
use compose_manager.Base.{any}
use compose_manager.Base.{Text, codes, same, is_empty}
use compose_manager.Base.{to_lower}
use compose_manager.Filepath.{base, join_path}
use compose_manager.Compose.Guard.{Kind, is_compose_filename}
use compose_manager.Compose.Workspace.{
  Site, Disk, WorkspaceError, resolve_path, stat_other, is_editable, absent_file, not_regular,
  list_failed,
}

pub record WorkspaceRoot : Type 0 where
  pub id : ℕ
  pub name : Text
  pub path : Text

pub roots_from : ℕ → List Text → List WorkspaceRoot
roots_from n [] = []
roots_from n (root ∷ rest) =
    let name = base root in
    record {
      id = n;
      name = if same name (codes ".") || same name (codes "/") then root else name;
      path = root;
    }
    ∷ roots_from (suc n) rest

-- `Roots`.
pub workspace_roots : Site → List WorkspaceRoot
workspace_roots e = roots_from 0 e.roots

-- What `os.ReadDir` and `Info` say of an entry.
pub data EntryKind : Type 0 where
  symlink unreadable plain_file sub_directory special_file : EntryKind

pub record DirEntry : Type 0 where
  pub name : Text
  pub kind : EntryKind
  pub size : ℕ
  pub modified_at : ℕ

pub record WorkspaceEntry : Type 0 where
  pub name : Text
  pub path : Text
  pub is_directory : Bool
  pub size : ℕ
  pub modified_at : ℕ
  pub editable : Bool
  pub compose_file : Bool

abbrev entry_of : Text → DirEntry → Bool → WorkspaceEntry
entry_of cleaned x is_directory = record {
  name = x.name;
  path = if is_empty cleaned then x.name else join_path cleaned x.name;
  is_directory = is_directory;
  size = x.size;
  modified_at = x.modified_at;
  editable = not is_directory && is_editable x.name;
  compose_file = not is_directory && is_compose_filename x.name;
}

abbrev shown : Text → DirEntry → EntryKind → List WorkspaceEntry
shown cleaned x plain_file = entry_of cleaned x false ∷ []
shown cleaned x sub_directory = entry_of cleaned x true ∷ []
shown cleaned x kind = []

pub entries_of : Text → List DirEntry → List WorkspaceEntry
entries_of cleaned [] = []
entries_of cleaned (x ∷ xs) = shown cleaned x x.kind ++ entries_of cleaned xs

-- Directories first, then by name with the letters of ASCII alike. Go's sort may order entries of equal
-- rank otherwise.
pub entry_before : WorkspaceEntry → WorkspaceEntry → Bool
entry_before a b =
    if (a.is_directory && b.is_directory) || not (a.is_directory || b.is_directory)
    then text_lt (to_lower a.name) (to_lower b.name)
    else a.is_directory

abbrev as_directory : Kind → Outcome WorkspaceError (Unit {0})
as_directory Kind.directory = done tt
as_directory Kind.absent = error absent_file
as_directory Kind.regular = error not_regular
as_directory Kind.special = error not_regular

pub list_resolved :
    Site
    → Disk
    → Option (List DirEntry)
    → Outcome WorkspaceError (Text × Text)
    → Outcome WorkspaceError (List WorkspaceEntry)
list_resolved e d entries (error x) = error x
list_resolved e d entries (done (resolved, cleaned)) = do
  require (not (any (λ (f : Text × Text). same f.0 resolved) d.files)) not_regular
  as_directory (stat_other e resolved d)
  found ← or_error entries list_failed
  done (sort_by entry_before (entries_of cleaned found))

-- `List`; `entries` is what the directory holds, or nothing if it cannot be read.
pub list_entries :
    Site → Disk → Option (List DirEntry) → ℤ → Text → Outcome WorkspaceError (List WorkspaceEntry)
list_entries e d entries root_id relative =
    list_resolved e d entries (resolve_path e root_id relative)
