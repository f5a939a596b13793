-- ===== src/Server/FileServer/Listing.antt =====
-- Directory listings: `FileServer::list_directory` and `FileServer::build_directory_html`.
pub mod Links
pub mod Escape
pub mod Order
pub mod Insertion
mod Tests
use file_web_server.Base.{
  ℕ, ◌+◌, ◌-◌, ◌*◌, ◌/◌, ◌%◌, Bool, true, false, ◌&&◌, ◌||◌, List, [], ◌∷◌, ◌++◌, none, some, ltb,
  leb, ◌==◌, if◌then◌else◌, Bytes, codes, less, is_empty, to_decimal,
}
use file_web_server.Base.Int.{ℤ, pos_part}
use file_web_server.Http.Response.{Tm, padded}
use file_web_server.Server.FileServer.Path.{normalize, is_hidden}
use file_web_server.Server.FileServer.Files.{FileSystem, FileKind, directory}

pub record DirEntry : Type 0 where
  pub name : Bytes
  pub is_dir : Bool
  pub size : ℤ
  pub last_modified : ℤ

abbrev pub is_directory_kind : FileKind → Bool
is_directory_kind directory = true
is_directory_kind _ = false

-- The readdir loop: hidden names and names without a stat are skipped.
unfoldable pub read_entries : FileSystem → Bytes → List Bytes → List DirEntry
read_entries fs dir_path [] = []
read_entries fs dir_path (name ∷ names) =
    let later = read_entries fs dir_path names in
    if is_empty name || is_hidden name then later else elim (fs.stat (dir_path ++ name)) [
      | none ↦ later
      | some st ↦
          record {
            name = name;
            is_dir = is_directory_kind st.kind;
            size = st.size;
            last_modified = st.mtime;
          }
          ∷ later
    ]

-- The comparison of the sort: directories first, then by name.
unfoldable pub entry_before : DirEntry → DirEntry → Bool
entry_before a b = elim a.is_dir [
  | true ↦ if b.is_dir then less a.name b.name else true
  | false ↦ if b.is_dir then false else less a.name b.name
]

-- std::sort, with its comparison.
abbrev pub Sort : Type 0
Sort = (DirEntry → DirEntry → Bool) → List DirEntry → List DirEntry

unfoldable pub sort_entries : Sort → List DirEntry → List DirEntry
unfolding entry_before
sort_entries sort es = sort entry_before es

-- dir_path with a slash at its end
unfoldable pub ends_with_slash : Bytes → Bool
ends_with_slash [] = false
ends_with_slash (c ∷ []) = c == b'/'
ends_with_slash (_ ∷ c ∷ s) = ends_with_slash (c ∷ s)

abbrev pub with_slash : Bytes → Bytes
with_slash s = if ends_with_slash s then s else s ++ codes "/"

unfoldable pub list_directory : Sort → FileSystem → Bytes → Bytes → List DirEntry
unfolding read_entries sort_entries
list_directory sort fs root request_path =
    let normalized = normalize request_path in
    if is_empty normalized
    then []
    else let dir_path = with_slash (root ++ normalized) in
      elim (fs.opendir dir_path) [
        | none ↦ []
        | some names ↦ sort_entries sort (read_entries fs dir_path names)
      ]

unfoldable pub escape_byte : ℕ → Bytes
escape_byte c =
    if c == b'&'
    then codes "&amp;"
    else if c == b'<'
    then codes "&lt;"
    else if c == b'>'
    then codes "&gt;"
    else if c == b'"'
    then codes "&quot;"
    else if c == 39
    then codes "&#39;"
    else c ∷ []

unfoldable pub html_escape : Bytes → Bytes
html_escape [] = []
html_escape (c ∷ s) = escape_byte c ++ html_escape s

-- The digits of "0123456789ABCDEF".
unfoldable pub hex_char : ℕ → ℕ
hex_char d = if ltb d 10 then b'0' + d else b'A' + (d - 10)

-- isalnum in the "C" locale, and the five marks that stand for themselves.
unfoldable pub is_plain : ℕ → Bool
is_plain c =
    (leb b'0' c && leb c b'9')
    || (leb b'A' c && leb c b'Z')
    || (leb b'a' c && leb c b'z')
    || c == b'-'
    || c == b'_'
    || c == b'.'
    || c == b'~'
    || c == b'/'

unfoldable pub encode_byte : ℕ → Bytes
unfolding is_plain hex_char
encode_byte c =
    if is_plain c
    then c ∷ []
    else if c == b' '
    then codes "%20"
    else b'%' ∷ hex_char (c / 16) ∷ hex_char (c % 16) ∷ []

unfoldable pub url_encode_path : Bytes → Bytes
url_encode_path [] = []
url_encode_path (c ∷ s) = encode_byte c ++ url_encode_path s

-- round(n / d) to the nearest, a tie to the even number, as %.1f rounds an exact quotient
abbrev pub round_even : ℕ → ℕ → ℕ
round_even n d =
    let q = n / d in
    let r = 2 * (n % d) in
    if ltb r d then q else if ltb d r then q + 1 else if q % 2 == 0 then q else q + 1

-- "%.1f" of size / unit, and a suffix. The quotient by a power of two is exact for sizes below 2^53,
-- which a double holds.
abbrev pub tenths : ℕ → ℕ → Bytes → Bytes
tenths size unit suffix =
    let t = round_even (size * 10) unit in
    to_decimal (t / 10) ++ (codes "." ++ (to_decimal (t % 10) ++ suffix))

-- st_size is not negative for the files that are listed.
unfoldable pub format_size : ℤ → Bytes
format_size size =
    let n = pos_part size in
    if ltb n 1024
    then to_decimal n ++ codes " B"
    else if ltb n (1024 * 1024)
    then tenths n 1024 (codes " KB")
    else if ltb n (1024 * 1024 * 1024)
    then tenths n (1024 * 1024) (codes " MB")
    else tenths n (1024 * 1024 * 1024) (codes " GB")

-- strftime "%Y-%m-%d %H:%M"; months count from 0
unfoldable pub format_local_time : Tm → Bytes
format_local_time t =
    to_decimal t.year
    ++ (codes "-"
        ++ (padded 2 (t.mon + 1)
            ++ (codes "-"
                ++ (padded 2 t.mday
                    ++ (codes " " ++ (padded 2 t.hour ++ (codes ":" ++ padded 2 t.minute)))))))
