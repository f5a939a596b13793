-- ===== src/Server/FileServer/Listing/Links.antt =====
-- The links of a listing: `url_encode_path` against the decoding in `normalize`.
use file_web_server.Base.{
  List, ℕ, ◌+◌, ◌*◌, ◌<◌, ◌/◌, ◌%◌, true, false, ◌≡◌, refl, ap, ◌∙◌, [], ◌∷◌, ◌++◌, some, ◌==◌,
  arith, inl, inr, All, Bytes, Bool-cases,
}
use file_web_server.Server.FileServer.Listing.{encode_byte, hex_char, is_plain, url_encode_path}
use file_web_server.Server.FileServer.Path.Names.{normalize_decoded-spelled}
use file_web_server.Server.FileServer.Path.Safety.{IsName, spelled}
use file_web_server.Server.FileServer.Path.{
  normalize, normalize_decoded, hex_digit, strtol_hex, url_decode,
}

-- A byte that can stand in a file name.
abbrev pub IsNameByte : ℕ → Type 0
IsNameByte c = (0 < c) × (c < 256)

hex_digit-hex_char : (d : ℕ) → d < 16 → hex_digit (hex_char d) ≡ some d
unfolding hex_digit hex_char
hex_digit-hex_char d h = ground arith

strtol_hex-hex_char :
    (c : ℕ) → IsNameByte c → strtol_hex (hex_char (c / 16)) (hex_char (c % 16)) ≡ some c
unfolding strtol_hex
strtol_hex-hex_char c (p, h) =
    let hi = hex_digit-hex_char (c / 16) (omega arith) in
    let lo = hex_digit-hex_char (c % 16) (omega arith) in
    let sum : c / 16 * 16 + c % 16 ≡ c = omega arith in
    let pos : c == 0 ≡ false = ground arith in rw (strtol_hex, lo, hi, sum, pos) refl

-- A byte other than % stands for itself.
url_decode-cons : (c : ℕ) (s : Bytes) → c == b'%' ≡ false → url_decode (c ∷ s) ≡ c ∷ url_decode s
unfolding url_decode
url_decode-cons c [] h = refl
url_decode-cons c (a ∷ []) h = refl
url_decode-cons c (a ∷ b ∷ s) h = rw (url_decode, h) refl

url_decode-escape :
    (a b v : ℕ) (s : Bytes)
    → strtol_hex a b ≡ some v
    → url_decode (b'%' ∷ a ∷ b ∷ s) ≡ v ∷ url_decode s
unfolding url_decode
url_decode-escape a b v s h = rw (url_decode, h) refl

is_plain-unescaped : (c : ℕ) → is_plain c ≡ true → c == b'%' ≡ false
unfolding is_plain
is_plain-unescaped c h = ground arith

url_decode-encode_byte :
    (c : ℕ) (s : Bytes) → IsNameByte c → url_decode (encode_byte c ++ s) ≡ c ∷ url_decode s
unfolding encode_byte strtol_hex hex_digit
url_decode-encode_byte c s h = elim (Bool-cases (is_plain c)) [
  | inl e ↦ rw e (url_decode-cons c s (is_plain-unescaped c e))
  | inr e ↦ elim (Bool-cases (c == b' ')) [
    | inl f ↦
        let z : 32 ≡ c = ground arith in
        rw (e, f) (url_decode-escape b'2' b'0' 32 s refl ∙ ap (λ v. v ∷ url_decode s) z)
    | inr f ↦
        rw (e, f)
          (url_decode-escape (hex_char (c / 16)) (hex_char (c % 16)) c s (strtol_hex-hex_char c h))
  ]
]

-- For every name of bytes other than 0, those above visible ASCII included, the path that
-- url_encode_path writes into a link is decoded by normalize to the name, though the comment of
-- normalize says that only visible ASCII is decoded.
pub url_decode-url_encode_path :
    (name : Bytes) → All IsNameByte name → url_decode (url_encode_path name) ≡ name
unfolding url_encode_path url_decode
url_decode-url_encode_path [] h = refl
url_decode-url_encode_path (c ∷ s) (h, hs) =
    url_decode-encode_byte c (url_encode_path s) h
    ∙ ap (λ z. c ∷ z) (url_decode-url_encode_path s hs)

-- For a path of names that are not empty, start with no dot, and hold no slash and no control byte
-- but a tab, all of bytes below 256: the path that url_encode_path writes is normalized to it, so
-- every such path is reached by a request. The code decodes bytes of 128 and above too, against
-- the comment of normalize.
pub normalize-url_encode_path :
    (parts : List Bytes)
    → All IsName parts
    → All IsNameByte (spelled parts)
    → normalize (url_encode_path (spelled parts)) ≡ spelled parts
unfolding normalize
normalize-url_encode_path parts h b =
    ap normalize_decoded (url_decode-url_encode_path (spelled parts) b)
    ∙ normalize_decoded-spelled parts h
