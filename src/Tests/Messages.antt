-- ===== src/Tests/Messages.antt =====
-- A stand-in for prost: the metadata message as bytes.
use yeet_yoink.Common.{
  ℕ, String, List, [], ◌∷◌, ◌++◌, none, some, Option-cases, Result, ok, err, ◌≡◌, refl, ap, sym,
  ◌∙◌, inl, inr, arith, length, take, drop,
}
use yeet_yoink.Distribution.Metadata.{ItemMetadata}

-- A message without a name as its three lists of bytes, the first two after their lengths.
abbrev pub print : ItemMetadata → Result String (List ℕ)
print m = elim m.file_name [
  | some name ↦ err "named"
  | none ↦ elim m.hashes [
    | none ↦ err "no hashes"
    | some h ↦ ok (length m.id ∷ m.id ++ (length h.md5 ∷ h.md5 ++ h.sha256))
  ]
]

-- The list of so many bytes at the front.
abbrev split : List ℕ → List ℕ × List ℕ
split [] = ([], [])
split (n ∷ bytes) = (take n bytes, drop n bytes)

abbrev pub parse : List ℕ → ItemMetadata
parse bytes =
    let (id, rest) = split bytes in
    let (md5, sha256) = split rest in
    record { id = id; file_name = none; hashes = some (record { md5 = md5; sha256 = sha256 }) }

take-append : (xs ys : List ℕ) → take (length xs) (xs ++ ys) ≡ xs
take-append [] ys = refl
take-append (x ∷ xs) ys = ap (◌∷◌ x) (take-append xs ys)

drop-append : (xs ys : List ℕ) → drop (length xs) (xs ++ ys) ≡ ys
drop-append [] ys = refl
drop-append (x ∷ xs) ys = drop-append xs ys

parse-parts :
    (id md5 sha256 : List ℕ)
    → parse (length id ∷ id ++ (length md5 ∷ md5 ++ sha256))
      ≡ record { id = id; file_name = none; hashes = some (record { md5 = md5; sha256 = sha256 }) }
parse-parts id md5 sha256 =
    rw
      (
        take-append id (length md5 ∷ md5 ++ sha256),
        drop-append id (length md5 ∷ md5 ++ sha256),
        take-append md5 sha256,
        drop-append md5 sha256,
      )
      refl

pub parse-print :
    (m : ItemMetadata) (bytes : List ℕ) → print m ≡ ok bytes → some (parse bytes) ≡ some m
parse-print m bytes e = elim (Option-cases m.file_name) [
  | inr (name, x) ↦ absurd (ground arith)
  | inl x ↦ elim (Option-cases m.hashes) [
    | inl y ↦ absurd (ground arith)
    | inr (h, y) ↦
        let same : length m.id ∷ m.id ++ (length h.md5 ∷ h.md5 ++ h.sha256) ≡ bytes =
          ground arith in
        ap (λ b. some (parse b)) (sym same)
        ∙ ap some (parse-parts m.id h.md5 h.sha256)
        ∙ ap (λ o. some (record { id = m.id; file_name = o; hashes = some h })) (sym x)
        ∙ ap (λ o. some (record { id = m.id; file_name = m.file_name; hashes = o })) (sym y)
  ]
]
