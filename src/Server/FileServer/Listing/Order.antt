-- ===== src/Server/FileServer/Listing/Order.antt =====
-- The order of a listing.
use file_web_server.Base.{
  Bool, true, false, ◌≡◌, refl, ap, List, [], ◌∷◌, ◌++◌, inl, inr, Bool-cases, All, arith, less,
}
use mathlib.Core.List.{Perm}
use file_web_server.Base.Order.{less_asym, less_cotrans}
use file_web_server.Server.FileServer.Listing.{DirEntry, Sort, entry_before, sort_entries}

-- No entry comes before one that stands in front of it.
abbrev pub InOrder : (DirEntry → DirEntry → Bool) → List DirEntry → Type 0
InOrder before [] = Unit {0}
InOrder before (e ∷ es) = All (λ x. before x e ≡ false) es × InOrder before es

-- A strict weak ordering, as std::sort asks for.
pub record IsStrict (before : DirEntry → DirEntry → Bool) : Type 0 where
  pub asym : (a b : DirEntry) → before a b ≡ true → before b a ≡ false
  pub cotrans : (a b c : DirEntry) → before a b ≡ false → before b c ≡ false → before a c ≡ false

-- What std::sort is relied on for: it keeps the elements, and brings them in order.
pub record Sorts (sort : Sort) : Type 0 where
  pub keeps :
      (before : DirEntry → DirEntry → Bool)
      → IsStrict before
      → (es : List DirEntry) → Perm (sort before es) es
  pub orders :
      (before : DirEntry → DirEntry → Bool)
      → IsStrict before
      → (es : List DirEntry) → InOrder before (sort before es)

entry_before-IsStrict : IsStrict entry_before
unfolding entry_before
entry_before-IsStrict = record {
  asym = λ a b h. let later = less_asym a.name b.name in ground arith;
  cotrans = λ a b c h k. let later = less_cotrans a.name b.name c.name in ground arith;
}

-- The names ascend.
abbrev pub ByName : List DirEntry → Type 0
ByName [] = Unit {0}
ByName (e ∷ es) = All (λ x. less x.name e.name ≡ false) es × ByName es

-- Directories by name, and then the rest by name.
pub record IsListing (out : List DirEntry) : Type 0 where
  pub dirs : List DirEntry
  pub files : List DirEntry
  pub parts : out ≡ dirs ++ files
  pub are_dirs : All (λ x. x.is_dir ≡ true) dirs
  pub are_files : All (λ x. x.is_dir ≡ false) files
  pub dirs_by_name : ByName dirs
  pub files_by_name : ByName files

behind_file :
    (e : DirEntry) (xs : List DirEntry)
    → e.is_dir ≡ false
    → All (λ x. entry_before x e ≡ false) xs
    → All (λ x. (x.is_dir ≡ false) × (less x.name e.name ≡ false)) xs
unfolding entry_before
behind_file e [] f h = record {}
behind_file e (x ∷ xs) f (h, hs) = elim (Bool-cases x.is_dir) [
  | inl d ↦ absurd (ground arith)
  | inr d ↦ ((d, ground arith), behind_file e xs f hs)
]

behind_dir :
    (e : DirEntry) (ds fs : List DirEntry)
    → e.is_dir ≡ true
    → All (λ x. x.is_dir ≡ true) ds
    → All (λ x. entry_before x e ≡ false) (ds ++ fs)
    → All (λ x. less x.name e.name ≡ false) ds
unfolding entry_before
behind_dir e [] fs d a h = record {}
behind_dir e (x ∷ ds) fs d (a, ds_are) (h, hs) = (ground arith, behind_dir e ds fs d ds_are hs)

all_first : (A B : DirEntry → Type 0) (xs : List DirEntry) → All (λ x. A x × B x) xs → All A xs
all_first A B [] h = record {}
all_first A B (x ∷ xs) (h, hs) = (h.0, all_first A B xs hs)

all_second : (A B : DirEntry → Type 0) (xs : List DirEntry) → All (λ x. A x × B x) xs → All B xs
all_second A B [] h = record {}
all_second A B (x ∷ xs) (h, hs) = (h.1, all_second A B xs hs)

only_files :
    (es : List DirEntry) → All (λ x. x.is_dir ≡ false) es → InOrder entry_before es → ByName es
only_files [] f h = record {}
only_files (e ∷ es) (f, fs) (h, hs) =
    (all_second _ _ es (behind_file e es f h), only_files es fs hs)

InOrder-IsListing : (out : List DirEntry) → InOrder entry_before out → IsListing out
InOrder-IsListing [] h = record {
  dirs = [];
  files = [];
  parts = refl;
  are_dirs = record {};
  are_files = record {};
  dirs_by_name = record {};
  files_by_name = record {};
}
InOrder-IsListing (e ∷ es) (h, hs) = elim (Bool-cases e.is_dir) [
  | inl d ↦
      let r = InOrder-IsListing es hs in
      record {
        dirs = e ∷ r.dirs;
        files = r.files;
        parts = ap (λ z. e ∷ z) r.parts;
        are_dirs = (d, r.are_dirs);
        are_files = r.are_files;
        dirs_by_name = (behind_dir e r.dirs r.files d r.are_dirs (rw r.parts at h), r.dirs_by_name);
        files_by_name = r.files_by_name;
      }
  | inr f ↦
      let only = all_first _ _ es (behind_file e es f h) in
      record {
        dirs = [];
        files = e ∷ es;
        parts = refl;
        are_dirs = record {};
        are_files = (f, only);
        dirs_by_name = record {};
        files_by_name = only_files (e ∷ es) (f, only) (h, hs);
      }
]

-- For any sort that, where its comparison is a strict weak ordering, keeps all elements, each as
-- often as before, and leaves none behind an element that it comes before, as std::sort promises:
-- the sorted entries of a listing are the same entries, each as often as before, the directories
-- first, ordered by name, and then the others, ordered by name.
pub sort_entries-IsListing :
    (sort : Sort) (es : List DirEntry)
    → Sorts sort
    → IsListing (sort_entries sort es) × Perm (sort_entries sort es) es
unfolding sort_entries
sort_entries-IsListing sort es s = (
  InOrder-IsListing (sort_entries sort es) (s.orders entry_before entry_before-IsStrict es),
  s.keeps entry_before entry_before-IsStrict es,
)
