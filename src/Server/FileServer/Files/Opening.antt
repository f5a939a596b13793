-- ===== src/Server/FileServer/Files/Opening.antt =====
-- What `FileServer::open` can open.
use file_web_server.Base.{
  Bool, true, false, ◌≡◌, ◌⊎◌, sym, ap, ◌∙◌, inl, inr, arith, [], ◌++◌, some, Bytes, codes,
  is_empty, Bool-cases, Option-cases, if◌then◌else◌,
}
use file_web_server.Server.FileServer.Files.{
  FileInfo, FileResult, FileSystem, Stat, FileKind, regular, directory, symlink, special, opened,
  refused, is_directory, is_regular, is_symlink, open_regular, open_index, open_link, open_path,
  open_request, open_target,
}
use file_web_server.Server.FileServer.Path.Root.{Within, is_within_root-Within}
use file_web_server.Server.FileServer.Path.Safety.{IsSafe, normalize-IsSafe}
use file_web_server.Server.FileServer.Path.{normalize, is_within_root}

-- A file that is handed out: it is open for reading, at its own path.
abbrev pub IsOpen : FileSystem → Bytes → FileInfo → Type 0
IsOpen fs path info = (info.resolved_path ≡ path) × (fs.open_file path ≡ some info.fd)

abbrev pub OpenAt : FileSystem → Bytes → FileInfo → Type 0
OpenAt fs path info = IsOpen fs path info ⊎ IsOpen fs (path ++ codes "/index.html") info

or_else : FileInfo → FileResult → FileInfo
or_else d (opened info) = info
or_else d (refused e) = d

opened-inj : (a b : FileInfo) → opened a ≡ opened b → a ≡ b
unfolding or_else
opened-inj a b e = ap (or_else a) e

open_regular-IsOpen :
    (fs : FileSystem) (path : Bytes) (st : Stat) (info : FileInfo)
    → open_regular fs path st ≡ opened info
    → IsOpen fs path info
unfolding open_regular
open_regular-IsOpen fs path st info e = elim (Bool-cases (is_regular st.kind)) [
  | inr k ↦ ground (arith, rw k at e)
  | inl k ↦ elim (Option-cases (fs.open_file path)) [
    | inl o ↦ ground (arith, rw (open_regular, k, o) at e)
    | inr (fd, o) ↦
        let q = opened-inj _ info (rw (open_regular, k, o) at e) in
        (sym (ap (λ i. i.resolved_path) q), o ∙ ap (λ i. some i.fd) q)
  ]
]

if_taken :
    {b : Bool} (x y : FileResult) {z : FileResult} → b ≡ true → (if b then x else y) ≡ z → x ≡ z
if_taken x y k e = rw k at e

open_index-OpenAt :
    (fs : FileSystem) (path : Bytes) (info : FileInfo)
    → open_index fs path ≡ opened info
    → OpenAt fs path info
unfolding open_index
open_index-OpenAt fs path info e = elim (Option-cases (fs.stat (path ++ codes "/index.html"))) [
  | inl n ↦ ground (arith, rw (open_index, n) at e)
  | inr (ist, n) ↦ elim (Bool-cases (is_regular ist.kind)) [
    | inr k ↦ ground (arith, rw (open_index, n, k) at e)
    | inl k ↦
        let index = path ++ codes "/index.html" in
        inr (
          open_regular-IsOpen fs index ist info (
            if_taken (open_regular fs index ist) (refused is_directory) k
              (rw (open_index, n) at e)))
  ]
]

open_target-OpenAt :
    (fs : FileSystem) (path : Bytes) (st : Stat) (k : FileKind) (info : FileInfo)
    → open_target fs path st k ≡ opened info
    → OpenAt fs path info
unfolding open_target
open_target-OpenAt fs path st directory info e = open_index-OpenAt fs path info e
open_target-OpenAt fs path st regular info e = inl (open_regular-IsOpen fs path st info e)
open_target-OpenAt fs path st symlink info e = inl (open_regular-IsOpen fs path st info e)
open_target-OpenAt fs path st special info e = inl (open_regular-IsOpen fs path st info e)

open_link-OpenAt :
    (fs : FileSystem) (root path : Bytes) (info : FileInfo)
    → open_link fs root path ≡ opened info
    → OpenAt fs path info
      × ((real : Bytes) × (fs.realpath path ≡ some real) × (is_within_root real root ≡ true))
unfolding open_link
open_link-OpenAt fs root path info e = elim (Option-cases (fs.realpath path)) [
  | inl n ↦ ground (arith, rw (open_link, n) at e)
  | inr (real, n) ↦ elim (Bool-cases (is_within_root real root)) [
    | inr k ↦ ground (arith, rw (open_link, n, k) at e)
    | inl k ↦ elim (Option-cases (fs.stat path)) [
      | inl t ↦ ground (arith, rw (open_link, n, k, t) at e)
      | inr (st, t) ↦
          (open_target-OpenAt fs path st st.kind info (rw (open_link, n, k, t) at e), (real, n, k))
    ]
  ]
]

-- Where the path itself is a link, its target lies within the root.
abbrev pub LinkInside : FileSystem → Bytes → Bytes → Type 0
LinkInside fs root path =
    ((st : Stat) × (fs.lstat path ≡ some st) × (is_symlink st.kind ≡ false))
    ⊎ ((real : Bytes) × (fs.realpath path ≡ some real) × Within real root)

open_path-OpenAt :
    (fs : FileSystem) (root path : Bytes) (info : FileInfo)
    → open_path fs root path ≡ opened info
    → OpenAt fs path info × LinkInside fs root path
unfolding open_path
open_path-OpenAt fs root path info e = elim (Option-cases (fs.lstat path)) [
  | inl n ↦ ground (arith, rw (open_path, n) at e)
  | inr (st, n) ↦ elim (Bool-cases (is_symlink st.kind)) [
    | inl k ↦
        let (o, inside) = open_link-OpenAt fs root path info (rw (open_path, n, k) at e) in
        (o, inr (inside.0, inside.1, is_within_root-Within inside.0 root inside.2))
    | inr k ↦
        (open_target-OpenAt fs path st st.kind info (rw (open_path, n, k) at e), inl (st, n, k))
  ]
]

-- If open_request opens a file for a URL path, the normalized path is safe in the sense of
-- normalize-IsSafe, the file that was opened is the root followed by it, or the index.html in it,
-- and where the path itself is a symbolic link its target is the root or a path below it.
pub open_request-IsOpen :
    (fs : FileSystem) (root path : Bytes) (info : FileInfo)
    → open_request fs root path ≡ opened info
    → IsSafe (normalize path)
      × OpenAt fs (root ++ normalize path) info
      × LinkInside fs root (root ++ normalize path)
unfolding open_request
open_request-IsOpen fs root path info e = elim (Bool-cases (is_empty (normalize path))) [
  | inl n ↦ ground (arith, rw (open_request, n) at e)
  | inr n ↦
      let (o, inside) =
        open_path-OpenAt fs root (root ++ normalize path) info (rw (open_request, n) at e) in
      (
        normalize-IsSafe path (λ k. let n' : is_empty [] ≡ false = rw k at n in ground arith),
        o,
        inside,
      )
]
