-- ===== src/Server/FileServer/Path.antt =====
-- `FileServer::normalize` and `FileServer::is_within_root`.
pub mod Root
pub mod Safety
pub mod Fuel
pub mod Names
mod Tests
use mathlib.Core.List.{reverse}
use file_web_server.Base.{
  ℕ, zero, suc, ◌+◌, ◌-◌, ◌*◌, Bool, true, false, not, ◌&&◌, ◌||◌, List, [], ◌∷◌, ◌++◌, Option,
  none, some, ltb, leb, ◌==◌, if◌then◌else◌, length, take, drop, get_or, Bytes, codes, equal, find,
  find_byte, is_empty,
}

unfoldable pub hex_digit : ℕ → Option ℕ
hex_digit c =
    if leb b'0' c && leb c b'9'
    then some (c - b'0')
    else if leb b'a' c && leb c b'f'
    then some (c - b'a' + 10)
    else if leb b'A' c && leb c b'F'
    then some (c - b'A' + 10)
    else none

-- isspace in the "C" locale
abbrev pub is_space : ℕ → Bool
is_space c = c == b' ' || (leb 9 c && leb c 13)

-- strtol(hex, &end, 16) on a text of two characters, where `end == hex + 2 && val > 0`. strtol also
-- takes one blank or a plus sign for the first character; after a minus sign the value is not
-- positive; and "0x" ends before the x.
unfoldable pub strtol_hex : ℕ → ℕ → Option ℕ
strtol_hex a b = elim (hex_digit b) [
  | none ↦ none
  | some low ↦ elim (hex_digit a) [
    | some high ↦ if high * 16 + low == 0 then none else some (high * 16 + low)
    | none ↦ if (is_space a || a == b'+') && not (low == 0) then some low else none
  ]
]

-- What `%` and the two bytes behind it decode to.
abbrev pub escape : ℕ → ℕ → ℕ → Option ℕ
escape c a b = if c == b'%' then strtol_hex a b else none

-- Step 1. An escape needs two more bytes; any other byte stands for itself.
unfoldable pub url_decode : Bytes → Bytes
unfolding strtol_hex
url_decode [] = []
url_decode (c ∷ []) = c ∷ []
url_decode (c ∷ a ∷ []) = c ∷ a ∷ []
url_decode (c ∷ a ∷ b ∷ s) = elim (escape c a b) [
  | some v ↦ v ∷ url_decode s
  | none ↦ c ∷ url_decode (a ∷ b ∷ s)
]

-- Step 2.
abbrev pub is_illegal : ℕ → Bool
is_illegal c = c == 0 || (ltb c 32 && not (c == 9))

unfoldable pub has_illegal : Bytes → Bool
has_illegal [] = false
has_illegal (c ∷ s) = is_illegal c || has_illegal s

unfoldable pub skip_slashes : Bytes → Bytes
skip_slashes [] = []
skip_slashes (c ∷ s) = if c == b'/' then skip_slashes s else c ∷ s

-- The segment up to the next slash, and the text behind that slash.
unfoldable pub split_segment : Bytes → Bytes × Bytes
split_segment s = elim (find_byte b'/' s) [
  | none ↦ (s, [])
  | some end ↦ (take end s, drop (end + 1) s)
]

-- What one segment does to `parts`, newest first; `none` is an escape from the root.
unfoldable pub push_segment : Bytes → List Bytes → Option (List Bytes)
push_segment seg parts =
    if equal seg (codes ".")
    then some parts
    else if equal seg (codes "..")
    then elim parts [ [] ↦ none | _ ∷ ps ↦ some ps ]
    else some (seg ∷ parts)

-- How the loop over the segments ends: with the segments, newest first, or with an escape from the
-- root. `out_of_fuel` is no end of the loop.
pub data Resolved : Type 0 where
  done : List Bytes → Resolved
  escaped out_of_fuel : Resolved

-- Steps 3 and 4. The text is `decoded` from `start` on; a round takes at least one byte, so the
-- length of the text is enough fuel. The segment is not empty, since its first byte is no slash.
unfoldable pub resolve : ℕ → Bytes → List Bytes → Resolved
resolve zero [] parts = done parts
resolve zero (_ ∷ _) parts = out_of_fuel
resolve (suc fuel) rest parts = elim (skip_slashes rest) [
  | [] ↦ done parts
  | c ∷ s ↦
      let (seg, behind) = split_segment (c ∷ s) in
      elim (push_segment seg parts) [ none ↦ escaped | some parts' ↦ resolve fuel behind parts' ]
]

-- Step 5.
unfoldable pub is_hidden : Bytes → Bool
is_hidden [] = false
is_hidden (c ∷ _) = c == b'.'

unfoldable pub has_hidden : List Bytes → Bool
has_hidden [] = false
has_hidden (p ∷ ps) = is_hidden p || has_hidden ps

-- Step 6.
unfoldable pub join : List Bytes → Bytes
join [] = []
join (p ∷ ps) = b'/' ∷ (p ++ join ps)

unfoldable pub rebuild : List Bytes → Bytes
unfolding join
rebuild parts = if is_empty (join parts) then codes "/" else join parts

-- The empty text is the refusal.
unfoldable pub normalize_decoded : Bytes → Bytes
unfolding rebuild has_illegal has_hidden is_hidden
normalize_decoded decoded =
    if has_illegal decoded then [] else elim (resolve (length decoded) decoded []) [
      | escaped ↦ []
      | out_of_fuel ↦ []
      | done parts ↦ if has_hidden (reverse parts) then [] else rebuild (reverse parts)
    ]

unfoldable pub normalize : Bytes → Bytes
unfolding normalize_decoded
normalize path = normalize_decoded (url_decode path)

-- A path is within the root if the root is found at its start, and ends there or before a slash.
unfoldable pub is_within_root : Bytes → Bytes → Bool
is_within_root resolved root = elim (find root resolved) [
  | none ↦ false
  | some rp ↦
      if not (rp == 0)
      then false
      else if length resolved == length root
      then true
      else get_or resolved (length root) 0 == b'/'
]
