-- ===== src/Server/FileServer/Listing/Escape.antt =====
-- `html_escape`: the bytes that it leaves.
use file_web_server.Base.{
  ℕ, Bool, false, ◌||◌, ◌≡◌, refl, [], ◌∷◌, ◌++◌, ◌==◌, All, arith, inl, inr, Bytes, Bool-cases,
}
use file_web_server.Server.FileServer.Listing.{escape_byte, html_escape}

-- The bytes that end a text, an attribute's value, or start a tag.
abbrev pub is_markup : ℕ → Bool
is_markup c = c == b'<' || c == b'>' || c == b'"' || c == 39

abbrev pub IsText : ℕ → Type 0
IsText c = is_markup c ≡ false

append-IsText : (s t : Bytes) → All IsText s → All IsText t → All IsText (s ++ t)
append-IsText [] t h k = k
append-IsText (c ∷ s) t (h, hs) k = (h, append-IsText s t hs k)

escape_byte-IsText : (c : ℕ) → All IsText (escape_byte c)
unfolding escape_byte
escape_byte-IsText c = elim (Bool-cases (c == b'&')) [
  | inl e1 ↦ rw (e1) (refl, (refl, (refl, (refl, (refl, record {})))))
  | inr e1 ↦ elim (Bool-cases (c == b'<')) [
    | inl e2 ↦ rw (e1, e2) (refl, (refl, (refl, (refl, record {}))))
    | inr e2 ↦ elim (Bool-cases (c == b'>')) [
      | inl e3 ↦ rw (e1, e2, e3) (refl, (refl, (refl, (refl, record {}))))
      | inr e3 ↦ elim (Bool-cases (c == b'"')) [
        | inl e4 ↦ rw (e1, e2, e3, e4) (refl, (refl, (refl, (refl, (refl, (refl, record {}))))))
        | inr e4 ↦ elim (Bool-cases (c == 39)) [
          | inl e5 ↦ rw (e1, e2, e3, e4, e5) (refl, (refl, (refl, (refl, (refl, record {})))))
          | inr e5 ↦ rw (e1, e2, e3, e4, e5) (ground arith, record {})
        ]
      ]
    ]
  ]
]

-- Whatever the text, its HTML form has no angle bracket and no quote of either kind.
pub html_escape-IsText : (s : Bytes) → All IsText (html_escape s)
unfolding html_escape
html_escape-IsText [] = record {}
html_escape-IsText (c ∷ s) =
    append-IsText (escape_byte c) (html_escape s) (escape_byte-IsText c) (html_escape-IsText s)
