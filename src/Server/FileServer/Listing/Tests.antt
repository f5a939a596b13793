-- ===== src/Server/FileServer/Listing/Tests.antt =====
-- A name with a blank, a markup byte and a percent sign, and a directory of three entries.
use file_web_server.Server.FileServer.Listing.Links.{normalize-url_encode_path}
use file_web_server.Server.FileServer.Path.Safety.{IsName, spelled}
use file_web_server.Server.FileServer.Path.{normalize}
use mathlib.Core.List.{Perm}
use file_web_server.Base.{◌≡◌, arith, codes, Bytes, All, List, [], ◌∷◌, false, true}
use file_web_server.Base.Int.{pos}
use file_web_server.Server.FileServer.Listing.Escape.{IsText, html_escape-IsText}
use file_web_server.Server.FileServer.Listing.Order.{IsListing, sort_entries-IsListing}
use file_web_server.Server.FileServer.Listing.Insertion.{insertion_sort, insertion_sort-Sorts}
use file_web_server.Server.FileServer.Listing.Links.{url_decode-url_encode_path}
use file_web_server.Server.FileServer.Listing.{DirEntry, html_escape, sort_entries, url_encode_path}
use file_web_server.Server.FileServer.Path.{url_decode}

abbrev odd_name : Bytes
odd_name = codes "a <%"

url_decode-url_encode_path_example : url_decode (url_encode_path odd_name) ≡ odd_name
url_decode-url_encode_path_example = url_decode-url_encode_path odd_name (
  (omega arith, omega arith),
  (
    (omega arith, omega arith),
    ((omega arith, omega arith), ((omega arith, omega arith), record {})),
  ),
)

html_escape-IsText_example : All IsText (html_escape odd_name)
html_escape-IsText_example = html_escape-IsText odd_name

abbrev three : List DirEntry
three =
    record { name = codes "b"; is_dir = false; size = pos 1; last_modified = pos 0 }
    ∷ record { name = codes "a"; is_dir = false; size = pos 2; last_modified = pos 0 }
    ∷ record { name = codes "z"; is_dir = true; size = pos 0; last_modified = pos 0 }
    ∷ []

sort_entries-IsListing_example :
    IsListing (sort_entries insertion_sort three) × Perm (sort_entries insertion_sort three) three
sort_entries-IsListing_example = sort_entries-IsListing insertion_sort three insertion_sort-Sorts

abbrev names : List Bytes
names = codes "d" ∷ odd_name ∷ []

names-IsName : All IsName names
names-IsName = (
  record {
    not_empty = λ e. ground arith;
    no_slash = ground arith;
    legal = ground arith;
    shown = ground arith;
  },
  (
    record {
      not_empty = λ e. ground arith;
      no_slash = ground arith;
      legal = ground arith;
      shown = ground arith;
    },
    tt,
  ),
)

normalize-url_encode_path_example : normalize (url_encode_path (spelled names)) ≡ spelled names
normalize-url_encode_path_example = normalize-url_encode_path names names-IsName (omega arith)
