-- ===== src/Server/FileServer/Path/Names.antt =====
-- `normalize` on paths that are built of file names.
use mathlib.Core.List.{reverse, reverse_aux, reverse-reverse}
use file_web_server.Base.{
  ℕ, zero, suc, ◌+◌, ◌≤◌, false, List, [], ◌∷◌, ◌++◌, none, some, ◌≡◌, refl, ap, ◌∙◌, inr, arith,
  ◌==◌, length, length-append, take, drop, drop-behind, append-nil, Bytes, equal, find_byte,
  find_byte-absent, find_byte-append, take-length_append, All, All-append,
}
use file_web_server.Server.FileServer.Path.Fuel.{resolve_nothing}
use file_web_server.Server.FileServer.Path.Safety.{
  IsLegal, IsName, rebuild-spelled, slashed, spelled,
}
use file_web_server.Server.FileServer.Path.{
  has_hidden, has_illegal, is_hidden, normalize_decoded, done, push_segment, resolve, skip_slashes,
  split_segment,
}

skip_slashes-name : (p t : Bytes) → IsName p → skip_slashes (p ++ t) ≡ p ++ t
unfolding skip_slashes
skip_slashes-name [] t h = absurd (h.not_empty refl)
skip_slashes-name (c ∷ p) t h =
    let other : c == b'/' ≡ false = let n = h.no_slash.0 in ground arith in rw other refl

-- What stands behind a name and its slash.
abbrev behind : List Bytes → Bytes
behind [] = []
behind (q ∷ qs) = q ++ slashed qs

split_segment-slashed :
    (p : Bytes) (ps : List Bytes) → IsName p → split_segment (p ++ slashed ps) ≡ (p, behind ps)
unfolding split_segment
split_segment-slashed p [] h =
    let absent : find_byte b'/' p ≡ none = find_byte-absent b'/' p h.no_slash in
    ap split_segment (append-nil p) ∙ rw (split_segment, absent) refl
split_segment-slashed p (q ∷ qs) h =
    let t = q ++ slashed qs in
    let text = p ++ b'/' ∷ t in
    let found : find_byte b'/' text ≡ some (length p) = find_byte-append b'/' p t h.no_slash in
    let before : take (length p) text ≡ p = take-length_append p (b'/' ∷ t) in
    let after : drop (length p + 1) text ≡ t = drop-behind p (b'/' ∷ t) 1 in
    rw (split_segment, found, before, after) refl

push_segment-name :
    (p : Bytes) (parts : List Bytes) → IsName p → push_segment p parts ≡ some (p ∷ parts)
unfolding push_segment equal
push_segment-name [] parts h = absurd (h.not_empty refl)
push_segment-name (c ∷ p) parts h =
    let other : c == b'.' ≡ false = let n = h.shown in ground arith in rw (push_segment, other) refl

behind-length : (ps : List Bytes) → length (behind ps) ≤ length (slashed ps)
behind-length [] = omega arith
behind-length (p ∷ ps) = omega arith

resolve-behind :
    (ps : List Bytes) (fuel : ℕ) (parts : List Bytes)
    → All IsName ps
    → length (behind ps) ≤ fuel
    → resolve fuel (behind ps) parts ≡ done (reverse_aux ps parts)
unfolding resolve
resolve-behind [] fuel parts h enough = resolve_nothing fuel parts
resolve-behind ([] ∷ ps) fuel parts (h, hs) enough = absurd (h.not_empty refl)
resolve-behind ((c ∷ p) ∷ ps) zero parts h enough = absurd (omega arith)
resolve-behind ((c ∷ p) ∷ ps) (suc fuel) parts (h, hs) enough =
    let dark : skip_slashes (c ∷ (p ++ slashed ps)) ≡ c ∷ (p ++ slashed ps) =
      skip_slashes-name (c ∷ p) (slashed ps) h in
    let split : split_segment (c ∷ (p ++ slashed ps)) ≡ (c ∷ p, behind ps) =
      split_segment-slashed (c ∷ p) ps h in
    let pushed : push_segment (c ∷ p) parts ≡ some ((c ∷ p) ∷ parts) =
      push_segment-name (c ∷ p) parts h in
    rw (resolve, dark, split, pushed)
      (rw split (
        resolve-behind ps fuel ((c ∷ p) ∷ parts) hs
          (omega (arith, length-append p (slashed ps), behind-length ps))))

resolve-spelled :
    (ps : List Bytes)
    → All IsName ps
    → resolve (length (spelled ps)) (spelled ps) [] ≡ done (reverse ps)
unfolding resolve skip_slashes
resolve-spelled [] h = refl
resolve-spelled (p ∷ ps) h =
    resolve-behind (p ∷ ps) (suc (length (p ++ slashed ps))) [] h (omega arith)

has_illegal-legal : (s : Bytes) → All IsLegal s → has_illegal s ≡ false
unfolding has_illegal
has_illegal-legal [] h = refl
has_illegal-legal (c ∷ s) (h, hs) = let later = has_illegal-legal s hs in ground (arith, h)

slashed-IsLegal : (ps : List Bytes) → All IsName ps → All IsLegal (slashed ps)
slashed-IsLegal [] h = tt
slashed-IsLegal (p ∷ ps) (h, hs) =
    (inr (omega arith), All-append IsLegal p (slashed ps) h.legal (slashed-IsLegal ps hs))

spelled-IsLegal : (ps : List Bytes) → All IsName ps → All IsLegal (spelled ps)
spelled-IsLegal [] h = (inr (omega arith), tt)
spelled-IsLegal (p ∷ ps) h = slashed-IsLegal (p ∷ ps) h

has_hidden-names : (ps : List Bytes) → All IsName ps → has_hidden ps ≡ false
unfolding has_hidden is_hidden
has_hidden-names [] h = refl
has_hidden-names ([] ∷ ps) (h, hs) = absurd (h.not_empty refl)
has_hidden-names ((c ∷ p) ∷ ps) (h, hs) =
    let later = has_hidden-names ps hs in let shown = h.shown in ground arith

pub normalize_decoded-spelled :
    (ps : List Bytes) → All IsName ps → normalize_decoded (spelled ps) ≡ spelled ps
unfolding normalize_decoded
normalize_decoded-spelled ps h =
    rw
      (
        normalize_decoded,
        has_illegal-legal (spelled ps) (spelled-IsLegal ps h),
        resolve-spelled ps h,
      )
      (rw (reverse-reverse ps, has_hidden-names ps h) (rebuild-spelled ps))
