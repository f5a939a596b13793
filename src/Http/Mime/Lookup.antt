-- ===== src/Http/Mime/Lookup.antt =====
-- The type of a path against a search of the table from front to back.
use file_web_server.Base.{
  ℕ, zero, suc, true, false, Bool, ◌&&◌, ◌||◌, ◌≡◌, ◌≢◌, refl, sym, ◌∙◌, inl, inr, List, [], ◌∷◌,
  some, arith, if◌then◌else◌, length, get_elem?, drop, Bytes, codes, Bool-cases, Option-cases,
  equal, equal_iff, less,
}
use file_web_server.Http.Mime.{
  MimeEntry, detect_mime_type, fallback_mime, lower_bound, mime_table, rfind_byte, search_ext,
}

-- The search from front to back.
abbrev pub linear : List MimeEntry → Bytes → Bytes
linear [] key = fallback_mime
linear (e ∷ es) key = if equal e.ext key then e.mime else linear es key

abbrev in_table : List MimeEntry → Bytes → Bool
in_table [] key = false
in_table (e ∷ es) key = equal e.ext key || in_table es key

linear-absent :
    (es : List MimeEntry) (key : Bytes) → in_table es key ≡ false → linear es key ≡ fallback_mime
linear-absent [] key h = refl
linear-absent (e ∷ es) key h = elim (Bool-cases (equal e.ext key)) [
  | inl k ↦ absurd (ground arith)
  | inr k ↦ rw k (linear-absent es key (rw k at h))
]

place-absent :
    (es : List MimeEntry) (key : Bytes) (i : ℕ) (e : MimeEntry)
    → in_table es key ≡ false
    → get_elem? es i ≡ some e
    → equal e.ext key ≡ false
place-absent [] key i e h g = absurd (ground arith)
place-absent (x ∷ es) key zero e h g =
    let z : x ≡ e = ground arith in let off : equal x.ext key ≡ false = ground arith in rw z at off
place-absent (x ∷ es) key (suc i) e h g = place-absent es key i e (ground arith) g

search_ext-absent :
    (es : List MimeEntry) (key : Bytes)
    → in_table es key ≡ false
    → search_ext es key ≡ fallback_mime
unfolding search_ext
search_ext-absent es key h =
    elim (Option-cases (get_elem? es (lower_bound (length es) es key 0 (length es)))) [
      | inl e ↦ rw (search_ext, e) refl
      | inr (x, e) ↦ rw (search_ext, e, place-absent es key _ x h e) refl
    ]

abbrev pub avi : Bytes
avi = codes ".avi"

-- The entries of which both searches agree, run one by one.
abbrev agree : List MimeEntry → Bool
agree [] = true
agree (e ∷ es) =
    (equal e.ext avi || equal (search_ext mime_table e.ext) (linear mime_table e.ext)) && agree es

table-agree : agree mime_table ≡ true
unfolding mime_table search_ext lower_bound equal less
table-agree = refl

agree-present :
    (es : List MimeEntry) (key : Bytes)
    → agree es ≡ true
    → in_table es key ≡ true
    → key ≢ avi
    → search_ext mime_table key ≡ linear mime_table key
agree-present [] key a h n = absurd (ground arith)
agree-present (e ∷ es) key a h n = elim (Bool-cases (equal e.ext key)) [
  | inr k ↦ agree-present es key (ground arith) (rw k at h) n
  | inl k ↦
      let z : e.ext ≡ key = (equal_iff e.ext key).0 k in
      elim (Bool-cases (equal e.ext avi)) [
        | inl v ↦ absurd (n (sym z ∙ (equal_iff e.ext avi).0 v))
        | inr v ↦
            let same : equal (search_ext mime_table e.ext) (linear mime_table e.ext) ≡ true =
              ground arith in
            rw (sym z) ((equal_iff (search_ext mime_table e.ext) (linear mime_table e.ext)).0 same)
      ]
]

search_ext-linear : (key : Bytes) → key ≢ avi → search_ext mime_table key ≡ linear mime_table key
search_ext-linear key n = elim (Bool-cases (in_table mime_table key)) [
  | inl h ↦ agree-present mime_table key table-agree h n
  | inr h ↦ search_ext-absent mime_table key h ∙ sym (linear-absent mime_table key h)
]

-- For every path with a dot whose part from the last dot on is not .avi, detect_mime_type answers
-- as a search of MIME_TABLE from front to back.
pub detect_mime_type-linear :
    (path : Bytes) (dot : ℕ)
    → rfind_byte b'.' path ≡ some dot
    → drop dot path ≢ avi
    → detect_mime_type path ≡ linear mime_table (drop dot path)
unfolding detect_mime_type
detect_mime_type-linear path dot e n =
    rw (detect_mime_type, e) (search_ext-linear (drop dot path) n)
