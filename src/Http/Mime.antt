-- ===== src/Http/Mime.antt =====
-- src/http/mime_types.h: the extension table and its binary search.
mod Tests
pub mod Lookup
use file_web_server.Base.{
  ℕ, zero, suc, ◌+◌, ◌-◌, ◌/◌, ◌<◌, Bool, true, false, ◌&&◌, List, [], ◌∷◌, Option, none, some, ltb,
  ◌==◌, if◌then◌else◌, length, get_elem?, drop, Bytes, codes, equal, less, find_byte,
}

pub record MimeEntry : Type 0 where
  pub ext : Bytes
  pub mime : Bytes

abbrev pub entry : Bytes → Bytes → MimeEntry
entry e m = record { ext = e; mime = m }

-- MIME_TABLE, in the order of the source.
unfoldable pub mime_table : List MimeEntry
mime_table =
    entry (codes ".aac") (codes "audio/aac")
    ∷ entry (codes ".avif") (codes "image/avif")
    ∷ entry (codes ".avi") (codes "video/x-msvideo")
    ∷ entry (codes ".bmp") (codes "image/bmp")
    ∷ entry (codes ".bz2") (codes "application/x-bzip2")
    ∷ entry (codes ".csv") (codes "text/csv")
    ∷ entry (codes ".doc") (codes "application/msword")
    ∷ entry (codes ".docx")
        (codes "application/vnd.openxmlformats-officedocument.wordprocessingml.document")
    ∷ entry (codes ".eot") (codes "application/vnd.ms-fontobject")
    ∷ entry (codes ".epub") (codes "application/epub+zip")
    ∷ entry (codes ".flac") (codes "audio/flac")
    ∷ entry (codes ".flv") (codes "video/x-flv")
    ∷ entry (codes ".gif") (codes "image/gif")
    ∷ entry (codes ".gz") (codes "application/gzip")
    ∷ entry (codes ".htm") (codes "text/html; charset=utf-8")
    ∷ entry (codes ".html") (codes "text/html; charset=utf-8")
    ∷ entry (codes ".ico") (codes "image/x-icon")
    ∷ entry (codes ".jpeg") (codes "image/jpeg")
    ∷ entry (codes ".jpg") (codes "image/jpeg")
    ∷ entry (codes ".js") (codes "application/javascript")
    ∷ entry (codes ".json") (codes "application/json")
    ∷ entry (codes ".m4a") (codes "audio/mp4")
    ∷ entry (codes ".mkv") (codes "video/x-matroska")
    ∷ entry (codes ".mov") (codes "video/quicktime")
    ∷ entry (codes ".mp3") (codes "audio/mpeg")
    ∷ entry (codes ".mp4") (codes "video/mp4")
    ∷ entry (codes ".mpeg") (codes "video/mpeg")
    ∷ entry (codes ".mpg") (codes "video/mpeg")
    ∷ entry (codes ".ogg") (codes "audio/ogg")
    ∷ entry (codes ".otf") (codes "font/otf")
    ∷ entry (codes ".pdf") (codes "application/pdf")
    ∷ entry (codes ".png") (codes "image/png")
    ∷ entry (codes ".ppt") (codes "application/vnd.ms-powerpoint")
    ∷ entry (codes ".pptx")
        (codes "application/vnd.openxmlformats-officedocument.presentationml.presentation")
    ∷ entry (codes ".rar") (codes "application/vnd.rar")
    ∷ entry (codes ".svg") (codes "image/svg+xml")
    ∷ entry (codes ".svgz") (codes "image/svg+xml")
    ∷ entry (codes ".swf") (codes "application/x-shockwave-flash")
    ∷ entry (codes ".tar") (codes "application/x-tar")
    ∷ entry (codes ".tif") (codes "image/tiff")
    ∷ entry (codes ".tiff") (codes "image/tiff")
    ∷ entry (codes ".toml") (codes "application/toml")
    ∷ entry (codes ".ttf") (codes "font/ttf")
    ∷ entry (codes ".txt") (codes "text/plain")
    ∷ entry (codes ".wav") (codes "audio/wave")
    ∷ entry (codes ".webm") (codes "video/webm")
    ∷ entry (codes ".webp") (codes "image/webp")
    ∷ entry (codes ".woff") (codes "font/woff")
    ∷ entry (codes ".woff2") (codes "font/woff2")
    ∷ entry (codes ".xls") (codes "application/vnd.ms-excel")
    ∷ entry (codes ".xlsx")
        (codes "application/vnd.openxmlformats-officedocument.spreadsheetml.sheet")
    ∷ entry (codes ".xml") (codes "application/xml")
    ∷ entry (codes ".yaml") (codes "application/yaml")
    ∷ entry (codes ".yml") (codes "application/yaml")
    ∷ entry (codes ".zip") (codes "application/zip")
    ∷ []

-- FALLBACK_MIME
abbrev pub fallback_mime : Bytes
fallback_mime = codes "application/octet-stream"

-- s.rfind(byte)
unfoldable pub rfind_byte : ℕ → Bytes → Option ℕ
rfind_byte b [] = none
rfind_byte b (c ∷ s) = elim (rfind_byte b s) [
  | some i ↦ some (suc i)
  | none ↦ if c == b then some 0 else none
]

-- The comparison handed to std::lower_bound.
abbrev pub entry_less : MimeEntry → Bytes → Bool
entry_less e key = less e.ext key

-- std::lower_bound over the entries from `first`, `len` of them: halve until none is left. The fuel
-- is the length of the table.
unfoldable pub lower_bound : ℕ → List MimeEntry → Bytes → ℕ → ℕ → ℕ
lower_bound zero table key first len = first
lower_bound (suc fuel) table key first len =
    let half = len / 2 in
    let right = lower_bound fuel table key (first + half + 1) (len - half - 1) in
    let left = lower_bound fuel table key first half in
    if len == 0 then first else elim (get_elem? table (first + half)) [
      | none ↦ first
      | some e ↦ if entry_less e key then right else left
    ]

-- The search for one extension, and the test of what it lands on.
unfoldable pub search_ext : List MimeEntry → Bytes → Bytes
unfolding lower_bound
search_ext table key =
    elim (get_elem? table (lower_bound (length table) table key 0 (length table))) [
      | none ↦ fallback_mime
      | some e ↦ if equal e.ext key then e.mime else fallback_mime
    ]

unfoldable pub detect_mime_type : Bytes → Bytes
detect_mime_type path = elim (rfind_byte b'.' path) [
  | none ↦ fallback_mime
  | some dot ↦ search_ext mime_table (drop dot path)
]
