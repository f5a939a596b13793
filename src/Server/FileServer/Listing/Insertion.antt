-- ===== src/Server/FileServer/Listing/Insertion.antt =====
-- A sort for the tests, which has what is relied on of std::sort.
use file_web_server.Base.{Bool, false, ◌≡◌, List, [], ◌∷◌, inl, inr, Bool-cases, All, if◌then◌else◌}
use mathlib.Core.List.{Perm}
use mathlib.Core.List.Perm
use file_web_server.Server.FileServer.Listing.Order.{InOrder, IsStrict, Sorts}
use file_web_server.Server.FileServer.Listing.{DirEntry}

abbrev pub insert : (DirEntry → DirEntry → Bool) → DirEntry → List DirEntry → List DirEntry
insert before e [] = e ∷ []
insert before e (x ∷ xs) = if before x e then x ∷ insert before e xs else e ∷ x ∷ xs

abbrev pub insertion_sort : (DirEntry → DirEntry → Bool) → List DirEntry → List DirEntry
insertion_sort before [] = []
insertion_sort before (e ∷ es) = insert before e (insertion_sort before es)

insert-Perm :
    (before : DirEntry → DirEntry → Bool) (e : DirEntry) (xs : List DirEntry)
    → Perm (insert before e xs) (e ∷ xs)
insert-Perm before e [] = Perm.refl (e ∷ [])
insert-Perm before e (x ∷ xs) = elim (Bool-cases (before x e)) [
  | inl b ↦ rw b (Perm.trans (Perm.cons x (insert-Perm before e xs)) (Perm.swap e x xs))
  | inr b ↦ rw b (Perm.refl (e ∷ x ∷ xs))
]

insertion_sort-Perm :
    (before : DirEntry → DirEntry → Bool) (es : List DirEntry) → Perm (insertion_sort before es) es
insertion_sort-Perm before [] = Perm.refl []
insertion_sort-Perm before (e ∷ es) =
    Perm.trans (insert-Perm before e (insertion_sort before es))
      (Perm.cons e (insertion_sort-Perm before es))

module _ (before : DirEntry → DirEntry → Bool) (strict : IsStrict before) where
  behind :
      (e x : DirEntry) (xs : List DirEntry)
      → before x e ≡ false
      → All (λ y. before y x ≡ false) xs
      → All (λ y. before y e ≡ false) xs
  behind e x [] h k = record {}
  behind e x (y ∷ ys) h (k, ks) = (strict.cotrans y x e k h, behind e x ys h ks)

  insert_behind :
      (e x : DirEntry) (xs : List DirEntry)
      → before e x ≡ false
      → All (λ y. before y x ≡ false) xs
      → All (λ y. before y x ≡ false) (insert before e xs)
  insert_behind e x [] h k = (h, record {})
  insert_behind e x (y ∷ ys) h (k, ks) = elim (Bool-cases (before y e)) [
    | inl b ↦ rw b (k, insert_behind e x ys h ks)
    | inr b ↦ rw b (h, (k, ks))
  ]

  insert-InOrder :
      (e : DirEntry) (xs : List DirEntry) → InOrder before xs → InOrder before (insert before e xs)
  insert-InOrder e [] h = (record {}, record {})
  insert-InOrder e (x ∷ xs) (h, hs) = elim (Bool-cases (before x e)) [
    | inl b ↦ rw b (insert_behind e x xs (strict.asym x e b) h, insert-InOrder e xs hs)
    | inr b ↦ rw b ((b, behind e x xs b h), (h, hs))
  ]

  insertion_sort-InOrder : (es : List DirEntry) → InOrder before (insertion_sort before es)
  insertion_sort-InOrder [] = record {}
  insertion_sort-InOrder (e ∷ es) =
      insert-InOrder e (insertion_sort before es) (insertion_sort-InOrder es)

pub insertion_sort-Sorts : Sorts insertion_sort
insertion_sort-Sorts = record {
  keeps = λ before strict. insertion_sort-Perm before;
  orders = λ before strict. insertion_sort-InOrder before strict;
}
