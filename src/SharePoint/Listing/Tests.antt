-- ===== src/SharePoint/Listing/Tests.antt =====
-- A drive with a file and a folder on two pages, and a file in the folder.
use community_integrations.Base.{
  ℕ, ◌≡◌, ◌≤◌, ◌<◌, ◌↔◌, ◌⊎◌, inl, inr, refl, sym, subst, arith, String, true, false, List, [], ◌∷◌,
  none, some, Result, ok, err, ◌==◌, string_eq, if◌then◌else◌,
}
use community_integrations.Base.Members.{In}
use community_integrations.Base.Lists.{length, take}
use community_integrations.SharePoint.{Error, http_error}
use community_integrations.SharePoint.Listing.{
  Item, Page, FolderInfo, FileInfo, Drive, gather, folders_of, files_of, path_in, pages, parent_id,
  children, list_folders_in_path, list_files_in_folder, list_folders, list_files,
  list_newly_created_files, search_files,
}
use community_integrations.SharePoint.Listing.Files.{IsFileAt}
use community_integrations.SharePoint.Listing.Newest.{
  IsNewestFirst, MatchesPattern, list_newly_created_files_found,
}
use community_integrations.SharePoint.Listing.Search.{search_files_found}
use community_integrations.SharePoint.Listing.Laws.{
  AreLinked, items_on, Below, IsDrive, list_files_found,
}

abbrev report : Item
report = record {
  id = "1";
  name = "report.csv";
  folder = none;
  is_file = true;
  created_datetime = 5;
}

abbrev archive : Item
archive = record {
  id = "2";
  name = "archive";
  folder = some 1;
  is_file = false;
  created_datetime = 3;
}

abbrev old : Item
old = record { id = "3"; name = "old.csv"; folder = none; is_file = true; created_datetime = 1 }

abbrev first_page : Page
first_page = record { value = report ∷ []; next_link = some "more" }

abbrev second_page : Page
second_page = record { value = archive ∷ []; next_link = none }

abbrev third_page : Page
third_page = record { value = old ∷ []; next_link = none }

unfoldable page : String → Result Error Page
page url =
    if url == "root"
    then ok first_page
    else if url == "more"
    then ok second_page
    else if url == "2"
    then ok third_page
    else err (http_error 404)

unfoldable item_id : String → Result Error String
item_id path = if path == "archive" then ok "2" else err (http_error 404)

abbrev drive : Drive
drive = record {
  item_id = item_id;
  children_url = λ id. id;
  search_url = λ query. "root";
  page = page;
  has_extension = λ name extension. true;
  matches = λ name pattern. true;
}

unfoldable items : String → List Item
items path = if path == "" then report ∷ archive ∷ [] else old ∷ []

unfoldable height : String → ℕ
height path = if path == "" then 1 else 0

abbrev Present : String → Type 0
Present path = (path ≡ "") ⊎ (path ≡ "archive")

abbrev Paged : String → Type 0
Paged path =
    (id : String) × (ps : List Page) × (parent_id drive path ≡ ok id)
    × AreLinked drive (some id) ps
    × (length ps ≤ 2)
    × (items_on ps ≡ items path)

root-Paged : Paged ""
unfolding page item_id items parent_id string_eq
root-Paged = ("root", first_page ∷ second_page ∷ [], refl, (refl, (refl, tt)), omega arith, refl)

archive-Paged : Paged "archive"
unfolding page item_id items parent_id string_eq
archive-Paged = ("2", third_page ∷ [], refl, (refl, tt), omega arith, refl)

paged : (path : String) → Present path → Paged path
paged path (inl e) = subst Paged (sym e) root-Paged
paged path (inr e) = subst Paged (sym e) archive-Paged

abbrev Within : String → Type 0
Within path =
    (f : FolderInfo)
    → In f (folders_of path (items path))
    → Present (path_in path f.name) × (height (path_in path f.name) < height path)

root-Within : Within ""
unfolding items folders_of height string_eq
root-Within f (inl e) =
    subst
      (λ (g : FolderInfo). Present (path_in "" g.name) × (height (path_in "" g.name) < height ""))
      (sym e) (inr refl, omega arith)
root-Within f (inr i) = absurd i

archive-Within : Within "archive"
unfolding items folders_of string_eq
archive-Within f i = absurd i

within :
    (path : String) (f : FolderInfo)
    → Present path
    → In f (folders_of path (items path))
    → Present (path_in path f.name) × (height (path_in path f.name) < height path)
within path f (inl e) = subst Within (sym e) root-Within f
within path f (inr e) = subst Within (sym e) archive-Within f

drive-IsDrive : IsDrive drive 2 Present items height
drive-IsDrive = record { paged = paged; within = within }

deep_enough : height "" < 2
unfolding height string_eq
deep_enough = omega arith

list_files_found_example :
    (files : List FileInfo) × (list_files drive 2 2 "" none true ≡ ok files)
    × ((x : FileInfo)
        → In x files ↔ (
            IsFileAt drive "" none (items "") x
            ⊎ ((f : FolderInfo) × Below items f ""
                × (let p = path_in f.parent_path f.name in IsFileAt drive p none (items p) x))))
list_files_found_example = list_files_found drive-IsDrive 2 "" none (inl refl) deep_enough

abbrev all_files : List FileInfo
all_files =
    record { id = "1"; name = "report.csv"; created_datetime = 5; parent_path = some "" }
    ∷ record { id = "3"; name = "old.csv"; created_datetime = 1; parent_path = some "archive" }
    ∷ []

listed : list_files drive 2 2 "" none true ≡ ok all_files
unfolding list_files list_folders list_files_in_folder list_folders_in_path children parent_id pages
    gather folders_of files_of page item_id string_eq
listed = refl

list_newly_created_files_found_example :
    (newest : List FileInfo) × (list_newly_created_files drive 2 2 3 "" (some "*.csv") none true
      ≡ ok newest)
    × IsNewestFirst newest
    × ((x : FileInfo)
        → In x newest
          ↔ (In x all_files × MatchesPattern drive (some "*.csv") x × (3 ≤ x.created_datetime)))
list_newly_created_files_found_example =
    list_newly_created_files_found drive 2 2 3 "" (some "*.csv") none true all_files listed

found_pages : AreLinked drive (some "root") (first_page ∷ second_page ∷ [])
unfolding page string_eq
found_pages = (refl, (refl, tt))

search_files_found_example :
    search_files drive 2 "csv" none 100
    ≡ ok (take 100 (files_of drive none none (items_on (first_page ∷ second_page ∷ []))))
search_files_found_example =
    search_files_found drive none 100 2 "csv" (first_page ∷ second_page ∷ []) found_pages
      (omega arith)
