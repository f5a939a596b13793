-- ===== src/Server/FileServer/Files.antt =====
-- `FileServer::open` over a file system.
pub mod Opening
mod Tests
use file_web_server.Base.{
  ℕ, Bool, true, false, not, List, ◌++◌, Option, none, some, if◌then◌else◌, Bytes, codes, is_empty,
}
use file_web_server.Base.Int.{ℤ}
use file_web_server.Http.Mime.{detect_mime_type}
use file_web_server.Server.FileServer.Path.{normalize, is_within_root}

-- st_mode, as far as the code tells kinds apart.
pub data FileKind : Type 0 where
  regular directory symlink special : FileKind

-- struct stat
pub record Stat : Type 0 where
  pub kind : FileKind
  pub size : ℤ
  pub mtime : ℤ

-- The answers of the file system while one request is handled; `none` is a failure. `open_file`
-- is ::open(path, O_RDONLY | O_CLOEXEC), and `opendir` has the names that readdir then gives.
pub record FileSystem : Type 0 where
  pub lstat : Bytes → Option Stat
  pub stat : Bytes → Option Stat
  pub realpath : Bytes → Option Bytes
  pub open_file : Bytes → Option ℕ
  pub opendir : Bytes → Option (List Bytes)

pub record FileInfo : Type 0 where
  pub fd : ℕ
  pub size : ℤ
  pub last_modified : ℤ
  pub mime_type : Bytes
  pub resolved_path : Bytes

pub data FileError : Type 0 where
  not_found forbidden bad_request is_directory : FileError

pub data FileResult : Type 0 where
  opened : FileInfo → FileResult
  refused : FileError → FileResult

-- The constructor: the canonical root, or the one given where it has none.
unfoldable pub canonical_root : FileSystem → Bytes → Bytes
canonical_root fs root_dir = elim (fs.realpath root_dir) [ none ↦ root_dir | some real ↦ real ]

abbrev pub is_regular : FileKind → Bool
is_regular regular = true
is_regular _ = false

-- The last steps: a regular file is opened for reading.
unfoldable pub open_regular : FileSystem → Bytes → Stat → FileResult
open_regular fs full_path st =
    if not (is_regular st.kind) then refused forbidden else elim (fs.open_file full_path) [
      | none ↦ refused not_found
      | some fd ↦ opened (record {
        fd = fd;
        size = st.size;
        last_modified = st.mtime;
        mime_type = detect_mime_type full_path;
        resolved_path = full_path;
      })
    ]

-- A directory stands for its index.html.
unfoldable pub open_index : FileSystem → Bytes → FileResult
unfolding open_regular
open_index fs full_path =
    let index_path = full_path ++ codes "/index.html" in
    elim (fs.stat index_path) [
      | none ↦ refused is_directory
      | some ist ↦
          if is_regular ist.kind then open_regular fs index_path ist else refused is_directory
    ]

unfoldable pub open_target : FileSystem → Bytes → Stat → FileKind → FileResult
unfolding open_index
open_target fs full_path st directory = open_index fs full_path
open_target fs full_path st regular = open_regular fs full_path st
open_target fs full_path st symlink = open_regular fs full_path st
open_target fs full_path st special = open_regular fs full_path st

-- A symbolic link is followed if its target lies within the root.
unfoldable pub open_link : FileSystem → Bytes → Bytes → FileResult
unfolding open_target
open_link fs root full_path = elim (fs.realpath full_path) [
  | none ↦ refused forbidden
  | some resolved ↦
      if not (is_within_root resolved root) then refused forbidden else elim (fs.stat full_path) [
        | none ↦ refused not_found
        | some st ↦ open_target fs full_path st st.kind
      ]
]

abbrev pub is_symlink : FileKind → Bool
is_symlink symlink = true
is_symlink _ = false

unfoldable pub open_path : FileSystem → Bytes → Bytes → FileResult
unfolding open_link
open_path fs root full_path = elim (fs.lstat full_path) [
  | none ↦ refused not_found
  | some st ↦
      if is_symlink st.kind
      then open_link fs root full_path
      else open_target fs full_path st st.kind
]

unfoldable pub open_request : FileSystem → Bytes → Bytes → FileResult
unfolding open_path
open_request fs root request_path =
    let normalized = normalize request_path in
    if is_empty normalized then refused bad_request else open_path fs root (root ++ normalized)
