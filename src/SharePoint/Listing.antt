-- ===== src/SharePoint/Listing.antt =====
-- The files and folders of a drive (`list_folders`, `list_files`, `list_newly_created_files`,
-- `search_files`), while nobody changes it: what the Graph API answers is a function of what it is asked.
pub mod Files
pub mod Laws
pub mod Newest
pub mod Search
mod Tests
use community_integrations.Base.{
  ℕ, zero, suc, ◌+◌, String, Bool, true, false, List, [], ◌∷◌, ◌++◌, Option, none, some,
  if◌then◌else◌, Result, ok, err, ◌>>=◌, ◌==◌, string_eq, ◌&&◌,
}
use community_integrations.Base.Lists.{keep, leb, ltb, take}
use community_integrations.Base.Sorting.{sort}
use community_integrations.Base.Text.{◌<>◌}
use community_integrations.SharePoint.{Error, out_of_fuel}

-- A child of a folder. Of its fields, the URLs, the size, the time of modification and the users are left
-- out: the code copies them as it copies the time of creation. It is one with "folder", with its number
-- of children (0 if it has none), or with "file".
pub record Item : Type 0 where
  pub id : String
  pub name : String
  pub folder : Option ℕ
  pub is_file : Bool
  pub created_datetime : ℕ

-- An answer, with its "@odata.nextLink".
pub record Page : Type 0 where
  pub value : List Item
  pub next_link : Option String

pub record FolderInfo : Type 0 where
  pub id : String
  pub name : String
  pub child_count : ℕ
  pub parent_path : String

pub record FileInfo : Type 0 where
  pub id : String
  pub name : String
  pub created_datetime : ℕ
  pub parent_path : Option String

-- What the API answers: the id of the item at a path, the URL of a folder's children, and a page of
-- them. `has_extension` is `name.lower().endswith(extension.lower())`, and
-- `matches` is `fnmatch.fnmatch(name.lower(), pattern.lower())`.
pub record Drive : Type 0 where
  pub item_id : String → Result Error String
  pub children_url : String → String
  pub search_url : String → String
  pub page : String → Result Error Page
  pub has_extension : String → String → Bool
  pub matches : String → String → Bool

-- `for x in xs: ys.extend(f(x))`
unfoldable pub gather :
    {A B : Type 0} → (A → Result Error (List B)) → List A → Result Error (List B)
gather f [] = ok []
gather f (x ∷ xs) = do first ← f x; rest ← gather f xs; ok (first ++ rest)

abbrev pub cons_folder : String → Item → Option ℕ → List FolderInfo → List FolderInfo
cons_folder path item none folders = folders
cons_folder path item (some count) folders =
    record { id = item.id; name = item.name; child_count = count; parent_path = path } ∷ folders

unfoldable pub folders_of : String → List Item → List FolderInfo
folders_of path [] = []
folders_of path (item ∷ items) = cons_folder path item item.folder (folders_of path items)

-- The path of what is in a folder.
abbrev pub path_in : String → String → String
path_in path name = if path == "" then name else path <> "/" <> name

-- `key=lambda f: f.created_datetime, reverse=True`
abbrev pub newest_first : FileInfo → FileInfo → Bool
newest_first f g = leb g.created_datetime f.created_datetime

module _ (drive : Drive) where
  abbrev pub passes : Option String → String → Bool
  passes none name = true
  passes (some extension) name = drive.has_extension name extension

  unfoldable pub files_of : Option String → Option String → List Item → List FileInfo
  files_of path extension [] = []
  files_of path extension (item ∷ items) =
      let rest = files_of path extension items in
      if item.is_file && passes extension item.name
      then record {
        id = item.id;
        name = item.name;
        created_datetime = item.created_datetime;
        parent_path = path;
      }
        ∷ rest
      else rest

  -- `while url:`, over so many pages at most.
  unfoldable pub pages : ℕ → Option String → Result Error (List Item)
  pages n none = ok []
  pages zero (some url) = err out_of_fuel
  pages (suc n) (some url) = do
    page ← drive.page url
    rest ← pages n page.next_link
    ok (page.value ++ rest)

  unfoldable pub parent_id : String → Result Error String
  parent_id path = if path == "" then ok "root" else drive.item_id path

  module _ (most_pages : ℕ) where
    unfoldable pub children : String → Result Error (List Item)
    children path = do id ← parent_id path; pages most_pages (some (drive.children_url id))

    -- `_list_folders_in_path`
    unfoldable pub list_folders_in_path : String → Result Error (List FolderInfo)
    list_folders_in_path path = do items ← children path; ok (folders_of path items)

    -- `_list_files_in_folder`
    unfoldable pub list_files_in_folder : String → Option String → Result Error (List FileInfo)
    list_files_in_folder path extension = do
      items ← children path
      ok (files_of (some path) extension items)

    -- `list_folders`, so many levels deep at most.
    unfoldable pub list_folders : ℕ → String → Bool → Result Error (List FolderInfo)
    list_folders zero path recursive = err out_of_fuel
    list_folders (suc n) path recursive = do
      folders ← list_folders_in_path path
      elim recursive [
        | false ↦ ok folders
        | true ↦ do
          below ← gather (λ folder. list_folders n (path_in path folder.name) true) folders
          ok (folders ++ below)
      ]

    -- `list_files`
    unfoldable pub list_files : ℕ → String → Option String → Bool → Result Error (List FileInfo)
    list_files n path extension recursive = do
      files ← list_files_in_folder path extension
      elim recursive [
        | false ↦ ok files
        | true ↦ do
          folders ← list_folders n path true
          below ←
              gather
                (λ folder. list_files_in_folder (path_in folder.parent_path folder.name) extension)
                folders
          ok (files ++ below)
      ]

    abbrev pub passes_pattern : Option String → FileInfo → Bool
    passes_pattern none file = true
    passes_pattern (some pattern) file =
        if pattern == "" then true else drive.matches file.name pattern

    -- `list_newly_created_files`
    unfoldable pub list_newly_created_files :
        ℕ → ℕ → String → Option String → Option String → Bool → Result Error (List FileInfo)
    list_newly_created_files n since path pattern extension recursive = do
      files ← list_files n path extension recursive
      ok (
          sort newest_first (
            keep (λ (file : FileInfo). leb since file.created_datetime)
              (keep (passes_pattern pattern) files)))

  -- A file that is found is counted, and the page is left once the count is the limit.
  abbrev pub search_stop : Bool → FileInfo → ℕ → (ℕ → List FileInfo × ℕ) → List FileInfo × ℕ
  search_stop true file count rest = (file ∷ [], count)
  search_stop false file count rest = let (files, end) = rest count in (file ∷ files, end)

  abbrev pub search_item : Bool → FileInfo → ℕ → ℕ → (ℕ → List FileInfo × ℕ) → List FileInfo × ℕ
  search_item false file limit count rest = rest count
  search_item true file limit count rest = search_stop (leb limit (count + 1)) file (count + 1) rest

  abbrev pub file_of : Option String → Item → FileInfo
  file_of path item = record {
    id = item.id;
    name = item.name;
    created_datetime = item.created_datetime;
    parent_path = path;
  }

  -- The files of one page of a search, and the count.
  unfoldable pub search_page : Option String → ℕ → List Item → ℕ → List FileInfo × ℕ
  search_page extension limit [] count = ([], count)
  search_page extension limit (item ∷ items) count =
      search_item (item.is_file && passes extension item.name) (file_of none item) limit count
        (search_page extension limit items)

  -- `while url and count < limit:`, over so many pages at most.
  unfoldable pub search : ℕ → Option String → ℕ → ℕ → Option String → Result Error (List FileInfo)
  search n extension limit count none = ok []
  search zero extension limit count (some url) = if ltb count limit then err out_of_fuel else ok []
  search (suc n) extension limit count (some url) = elim (ltb count limit) [
    | false ↦ ok []
    | true ↦ do
      page ← drive.page url
      let (files, end) = search_page extension limit page.value count
      rest ← search n extension limit end page.next_link
      ok (files ++ rest)
  ]

  -- `search_files`
  unfoldable pub search_files : ℕ → String → Option String → ℕ → Result Error (List FileInfo)
  search_files n query extension limit = do
    files ← search n extension limit 0 (some (drive.search_url query))
    ok (take limit files)
