-- ===== src/SharePoint/Listing/Laws.antt =====
-- What a listing finds.
use community_integrations.Base.{
  ℕ, zero, suc, ◌≤◌, ◌<◌, ◌≡◌, ◌↔◌, ◌⊎◌, inl, inr, refl, subst, ap, ◌∙◌, arith, String, true, List,
  [], ◌∷◌, ◌++◌, Option, none, some, Result, ok,
}
use community_integrations.Base.Members.{In, In-append, In-append_left, In-append_right}
use community_integrations.Base.Lists.{length}
use community_integrations.SharePoint.{Error}
use community_integrations.SharePoint.Listing.{
  Item, Page, FolderInfo, FileInfo, Drive, gather, folders_of, files_of, path_in, pages, parent_id,
  children, cons_folder, list_folders_in_path, list_files_in_folder, list_folders, list_files,
}
use community_integrations.SharePoint.Listing.Files.{IsFileAt, In-files_of}

In-gathered :
    {A B : Type 0} (Q : A → B → Type 0) (x : A) (xs : List A) (y : B) (ys zs : List B)
    → In y ys ↔ Q x y
    → In y zs ↔ ((w : A) × In w xs × Q w y)
    → (w : A) × In w (x ∷ xs) × Q w y
    → In y (ys ++ zs)
In-gathered Q x xs y ys zs here there (w, inl e, q) =
    In-append_left y ys zs (here.1 (subst (λ v. Q v y) e q))
In-gathered Q x xs y ys zs here there (w, inr i, q) = In-append_right y ys zs (there.1 (w, i, q))

gather_found :
    {A B : Type 0} (f : A → Result Error (List B)) (Q : A → B → Type 0) (xs : List A)
    → ((x : A) → In x xs → (ys : List B) × (f x ≡ ok ys) × ((y : B) → In y ys ↔ Q x y))
    → (zs : List B) × (gather f xs ≡ ok zs) × ((y : B) → In y zs ↔ ((x : A) × In x xs × Q x y))
unfolding gather
gather_found f Q [] finds = ([], refl, λ y. (λ i. absurd i, λ (x, i, q). absurd i))
gather_found f Q (x ∷ xs) finds =
    let (ys, made, here) = finds x (inl refl) in
    let (zs, others, there) = gather_found f Q xs (λ w i. finds w (inr i)) in
    (
      ys ++ zs,
      rw made (rw others refl),
      λ y. (
        λ i. elim (In-append y ys zs i) [
          | inl j ↦ (x, inl refl, (here y).0 j)
          | inr j ↦ let (w, k, q) = (there y).0 j in (w, inr k, q)
        ],
        λ p. In-gathered Q x xs y ys zs (here y) (there y) p,
      ),
    )

-- The pages that are linked from a URL.
abbrev pub AreLinked : Drive → Option String → List Page → Type 0
AreLinked drive none [] = Unit
AreLinked drive none (p ∷ ps) = ⊥
AreLinked drive (some url) [] = ⊥
AreLinked drive (some url) (p ∷ ps) = (drive.page url ≡ ok p) × AreLinked drive p.next_link ps

abbrev pub items_on : List Page → List Item
items_on [] = []
items_on (p ∷ ps) = p.value ++ items_on ps

pages-AreLinked :
    (drive : Drive) (n : ℕ) (url : Option String) (ps : List Page)
    → AreLinked drive url ps
    → length ps ≤ n
    → pages drive n url ≡ ok (items_on ps)
unfolding pages
pages-AreLinked drive n none [] linked few = refl
pages-AreLinked drive n none (p ∷ ps) linked few = absurd linked
pages-AreLinked drive n (some url) [] linked few = absurd linked
pages-AreLinked drive zero (some url) (p ∷ ps) linked few = absurd (omega arith)
pages-AreLinked drive (suc n) (some url) (p ∷ ps) (here, linked) few =
    rw here (rw (pages-AreLinked drive n p.next_link ps linked (omega arith)) refl)

-- A folder that stands below a path, at any depth.
pub data Below (items : String → List Item) (f : FolderInfo) : String → Type 0 where
  here : (path : String) → In f (folders_of path (items path)) → Below items f path
  there :
      (path : String) (g : FolderInfo)
      → In g (folders_of path (items path))
      → Below items f (path_in path g.name)
      → Below items f path

-- A drive that answers for the folders that are there: each has its items on linked pages, no more than
-- so many, and is higher than the folders in it.
pub record IsDrive (drive : Drive) (most_pages : ℕ) (present : String → Type 0)
    (items : String → List Item) (height : String → ℕ) : Type 0 where
  pub paged :
      (path : String)
      → present path
      → (id : String) × (ps : List Page) × (parent_id drive path ≡ ok id)
        × AreLinked drive (some (drive.children_url id)) ps
        × (length ps ≤ most_pages)
        × (items_on ps ≡ items path)
  pub within :
      (path : String) (f : FolderInfo)
      → present path
      → In f (folders_of path (items path))
      → present (path_in path f.name) × (height (path_in path f.name) < height path)

cons_folder-parent :
    (path : String) (item : Item) (o : Option ℕ) (folders : List FolderInfo) (f : FolderInfo)
    → (In f folders → f.parent_path ≡ path)
    → In f (cons_folder path item o folders)
    → f.parent_path ≡ path
cons_folder-parent path item none folders f others i = others i
cons_folder-parent path item (some count) folders f others (inl e) =
    ap (λ (g : FolderInfo). g.parent_path) e
cons_folder-parent path item (some count) folders f others (inr i) = others i

folders_of-parent :
    (path : String) (items : List Item) (f : FolderInfo)
    → In f (folders_of path items)
    → f.parent_path ≡ path
unfolding folders_of
folders_of-parent path [] f i = absurd i
folders_of-parent path (item ∷ items) f i =
    cons_folder-parent path item item.folder (folders_of path items) f
      (folders_of-parent path items f) i

Below-found :
    (items : String → List Item) (f : FolderInfo) (path : String) (below : List FolderInfo)
    → Below items f path
    → ((g : FolderInfo) × In g (folders_of path (items path)) × Below items f (path_in path g.name)
        → In f below)
    → In f (folders_of path (items path) ++ below)
Below-found items f path below (here _ i) found =
    In-append_left f (folders_of path (items path)) below i
Below-found items f path below (there _ g i b) found =
    In-append_right f (folders_of path (items path)) below (found (g, i, b))

module _ {drive : Drive} {most_pages : ℕ} {present : String → Type 0} {items : String → List Item}
    {height : String → ℕ} (law : IsDrive drive most_pages present items height) where
  children-items : (path : String) → present path → children drive most_pages path ≡ ok (items path)
  unfolding children
  children-items path p =
      let (id, ps, known, linked, few, all) = law.paged path p in
      rw known
        (pages-AreLinked drive most_pages (some (drive.children_url id)) ps linked few ∙ ap ok all)

  in_path :
      (path : String)
      → present path
      → list_folders_in_path drive most_pages path ≡ ok (folders_of path (items path))
  unfolding list_folders_in_path
  in_path path p = rw (children-items path p) refl

  in_folder :
      (path : String) (extension : Option String)
      → present path
      → list_files_in_folder drive most_pages path extension
        ≡ ok (files_of drive (some path) extension (items path))
  unfolding list_files_in_folder
  in_folder path extension p = rw (children-items path p) refl

  list_folders_found :
      (n : ℕ) (path : String)
      → present path
      → height path < n
      → (fs : List FolderInfo) × (list_folders drive most_pages n path true ≡ ok fs)
        × ((f : FolderInfo) → In f fs ↔ Below items f path)
  unfolding list_folders
  list_folders_found zero path p h = absurd (omega arith)
  list_folders_found (suc n) path p h =
      let top = folders_of path (items path) in
      let (below, made, found) =
        gather_found (λ g. list_folders drive most_pages n (path_in path g.name) true)
          (λ g f. Below items f (path_in path g.name)) top
          (λ g i.
            let (q, lower) = law.within path g p i in
            list_folders_found n (path_in path g.name) q (omega arith)) in
      (
        top ++ below,
        rw (in_path path p) (rw made refl),
        λ f. (
          λ i. elim (In-append f top below i) [
            | inl j ↦ here path j
            | inr j ↦ let (g, k, q) = (found f).0 j in there path g k q
          ],
          λ b. Below-found items f path below b (found f).1,
        ),
      )

  -- What is below a path is there.
  Below-present :
      (f : FolderInfo) (path : String)
      → Below items f path
      → present path
      → present (path_in f.parent_path f.name)
  Below-present f path (here _ i) p =
      rw (folders_of-parent path (items path) f i) (law.within path f p i).0
  Below-present f path (there _ g i b) p =
      Below-present f (path_in path g.name) b (law.within path g p i).0

  list_files_gathered :
      (n : ℕ) (path : String) (extension : Option String)
      → present path
      → height path < n
      → (files : List FileInfo) × (list_files drive most_pages n path extension true ≡ ok files)
        × ((x : FileInfo)
            → In x files ↔ (
                In x (files_of drive (some path) extension (items path))
                ⊎ ((f : FolderInfo) × Below items f path
                    × (let p = path_in f.parent_path f.name in
                        In x (files_of drive (some p) extension (items p))))))
  unfolding list_files
  list_files_gathered n path extension p h =
      let top = files_of drive (some path) extension (items path) in
      let (folders, listed, found) = list_folders_found n path p h in
      let (below, made, in_below) =
        gather_found
          (λ f. list_files_in_folder drive most_pages (path_in f.parent_path f.name) extension)
          (λ f x.
            let q = path_in f.parent_path f.name in
            In x (files_of drive (some q) extension (items q)))
          folders
          (λ f i.
            let q = path_in f.parent_path f.name in
            (
              files_of drive (some q) extension (items q),
              in_folder q extension (Below-present f path ((found f).0 i) p),
              λ x. (λ j. j, λ j. j),
            )) in
      (
        top ++ below,
        rw (in_folder path extension p) (rw listed (rw made refl)),
        λ x. (
          λ i. elim (In-append x top below i) [
            | inl j ↦ inl j
            | inr j ↦ let (f, k, q) = (in_below x).0 j in inr (f, (found f).0 k, q)
          ],
          λ c. elim c [
            | inl j ↦ In-append_left x top below j
            | inr (f, b, q) ↦ In-append_right x top below ((in_below x).1 (f, (found f).1 b, q))
          ],
        ),
      )

  pub list_files_found :
      (n : ℕ) (path : String) (extension : Option String)
      → present path
      → height path < n
      → (files : List FileInfo) × (list_files drive most_pages n path extension true ≡ ok files)
        × ((x : FileInfo)
            → In x files ↔ (
                IsFileAt drive path extension (items path) x
                ⊎ ((f : FolderInfo) × Below items f path
                    × (let p = path_in f.parent_path f.name in
                        IsFileAt drive p extension (items p) x))))
  list_files_found n path extension p h =
      let (files, listed, found) = list_files_gathered n path extension p h in
      (
        files,
        listed,
        λ x. (
          λ i. elim ((found x).0 i) [
            | inl j ↦ inl ((In-files_of drive path extension (items path) x).0 j)
            | inr (f, b, j) ↦
                let q = path_in f.parent_path f.name in
                inr (f, b, (In-files_of drive q extension (items q) x).0 j)
          ],
          λ c. elim c [
            | inl j ↦ (found x).1 (inl ((In-files_of drive path extension (items path) x).1 j))
            | inr (f, b, j) ↦
                let q = path_in f.parent_path f.name in
                (found x).1 (inr (f, b, (In-files_of drive q extension (items q) x).1 j))
          ],
        ),
      )
