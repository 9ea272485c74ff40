-- ===== src/SharePoint/Listing/Files.antt =====
-- The files of a folder.
use community_integrations.Base.{
  ◌≡◌, ◌↔◌, inl, inr, refl, sym, subst, ap, ◌∙◌, arith, String, true, Bool-cases, ◌&&◌, List, [],
  ◌∷◌, Option, none, some,
}
use community_integrations.Base.Members.{In}
use community_integrations.SharePoint.Listing.{Item, FileInfo, Drive, passes, files_of}

-- What is told of an item that is a file, in the folder with the path.
abbrev pub told_of : String → Item → FileInfo
told_of path item = record {
  id = item.id;
  name = item.name;
  created_datetime = item.created_datetime;
  parent_path = some path;
}

-- Whether a file passes: it has the extension, if one is given.
abbrev pub HasExtension : Drive → Option String → Item → Type 0
HasExtension drive extension item =
    (wanted : String) → extension ≡ some wanted → drive.has_extension item.name wanted ≡ true

-- What is told of some item that is a file and passes.
abbrev pub IsFileAt : Drive → String → Option String → List Item → FileInfo → Type 0
IsFileAt drive path extension items x =
    (item : Item) × In item items
    × (item.is_file ≡ true)
    × HasExtension drive extension item
    × (x ≡ told_of path item)

passes-HasExtension :
    (drive : Drive) (extension : Option String) (item : Item)
    → (passes drive extension item.name ≡ true) ↔ HasExtension drive extension item
passes-HasExtension drive none item = (λ h wanted e. cc, λ h. refl)
passes-HasExtension drive (some given) item = (λ h wanted e. cc, λ h. h given refl)

pub In-files_of :
    (drive : Drive) (path : String) (extension : Option String) (items : List Item) (x : FileInfo)
    → In x (files_of drive (some path) extension items) ↔ IsFileAt drive path extension items x
unfolding files_of
In-files_of drive path extension [] x = (λ i. absurd i, λ (item, i, _, _, _). absurd i)
In-files_of drive path extension (item ∷ items) x =
    let (from, to) = In-files_of drive path extension items x in
    let (allows, allowed) = passes-HasExtension drive extension item in
    elim (Bool-cases (item.is_file && passes drive extension item.name)) [
      | inl listed ↦ rw listed (
        λ i. elim i [
          | inl e ↦ (item, inl refl, ground arith, allows (ground arith), e)
          | inr j ↦ let (other, k, file, passed, e) = from j in (other, inr k, file, passed, e)
        ],
        λ (other, i, file, passed, e). elim i [
          | inl same ↦ inl (e ∙ ap (told_of path) same)
          | inr k ↦ inr (to (other, k, file, passed, e))
        ],
      )
      | inr left_out ↦ rw left_out (
        λ i. let (other, k, file, passed, e) = from i in (other, inr k, file, passed, e),
        λ (other, i, file, passed, e). elim i [
          | inl same ↦
              let is_file : item.is_file ≡ true = ap (λ (y : Item). y.is_file) (sym same) ∙ file in
              let given : passes drive extension item.name ≡ true =
                allowed (subst (HasExtension drive extension) same passed) in
              absurd (ground arith)
          | inr k ↦ to (other, k, file, passed, e)
        ],
      )
    ]
