-- ===== src/SharePoint/Listing/Search.antt =====
-- What a search returns of the files that are found.
use community_integrations.Base.{
  ℕ, zero, suc, ◌+◌, ◌-◌, ◌≤◌, ◌<◌, ◌≡◌, inl, inr, refl, sym, ap, ◌∙◌, arith, String, Bool, true,
  false, List, [], ◌∷◌, ◌++◌, Option, none, some, ok, Bool-cases, ◌&&◌,
}
use community_integrations.Base.Lists.{length, take, leb, ltb}
use community_integrations.SharePoint.Listing.{
  Item, Page, FileInfo, Drive, files_of, passes, search_stop, search_page, search, search_files,
}
use community_integrations.SharePoint.Listing.Laws.{AreLinked, items_on}

take-append :
    {A : Type 0} (k : ℕ) (xs ys : List A)
    → take k (xs ++ ys) ≡ take k xs ++ take (k - length (take k xs)) ys
take-append zero xs ys = refl
take-append (suc k) [] ys = let whole : suc k - 0 ≡ suc k = omega arith in rw whole refl
take-append (suc k) (x ∷ xs) ys =
    let less : suc k - suc (length (take k xs)) ≡ k - length (take k xs) = omega arith in
    rw less (ap (λ zs. x ∷ zs) (take-append k xs ys))

take-take : {A : Type 0} (k : ℕ) (xs : List A) → take k (take k xs) ≡ take k xs
take-take zero xs = refl
take-take (suc k) [] = refl
take-take (suc k) (x ∷ xs) = ap (λ zs. x ∷ zs) (take-take k xs)

take_nil : {A : Type 0} (k : ℕ) → take {A = A} k [] ≡ []
take_nil zero = refl
take_nil (suc k) = refl

take_none : {A : Type 0} (k : ℕ) (xs : List A) → k ≡ 0 → take k xs ≡ []
take_none zero xs h = refl
take_none (suc k) xs h = absurd (omega arith)

module _ (drive : Drive) (extension : Option String) (limit : ℕ) where
  abbrev matching : List Item → List FileInfo
  matching = files_of drive none extension

  files_of-append : (xs ys : List Item) → matching (xs ++ ys) ≡ matching xs ++ matching ys
  unfolding files_of
  files_of-append [] ys = refl
  files_of-append (x ∷ xs) ys = elim (Bool-cases (x.is_file && passes drive extension x.name)) [
    | inl yes_file ↦ rw (yes_file, files_of-append xs ys) refl
    | inr no_file ↦ rw (no_file, files_of-append xs ys) refl
  ]

  -- A page gives what is left of the limit, and counts it.
  Taken : List FileInfo → ℕ → List FileInfo × ℕ → Type 0
  Taken found count (files, end) =
      (files ≡ take (limit - count) found) × (end ≡ count + length files)

  search_stop-Taken :
      (file : FileInfo) (found : List FileInfo) (count : ℕ) (rest : ℕ → List FileInfo × ℕ)
      → count < limit
      → (count + 1 < limit → Taken found (count + 1) (rest (count + 1)))
      → (b : Bool) → leb limit (count + 1) ≡ b
      → Taken (file ∷ found) count (search_stop drive b file (count + 1) rest)
  unfolding Taken
  search_stop-Taken file found count rest h later true e =
      let one : limit - count ≡ suc 0 = ground arith in (rw one refl, omega arith)
  search_stop-Taken file found count rest h later false e =
      let more : limit - count ≡ suc (limit - (count + 1)) = ground arith in
      let (files, end) = later (ground arith) in (rw more (ap (λ fs. file ∷ fs) files), omega arith)

  search_page-Taken :
      (items : List Item) (count : ℕ)
      → count < limit
      → Taken (matching items) count (search_page drive extension limit items count)
  unfolding search_page files_of Taken
  search_page-Taken [] count h = (sym (take_nil (limit - count)), omega arith)
  search_page-Taken (item ∷ items) count h =
      elim (Bool-cases (item.is_file && passes drive extension item.name)) [
        | inr no_file ↦ rw no_file (search_page-Taken items count h)
        | inl yes_file ↦ rw yes_file (
            search_stop-Taken _ (matching items) count (search_page drive extension limit items) h
              (λ more. search_page-Taken items (count + 1) more) (leb limit (count + 1)) refl)
      ]

  pages_taken :
      (xs ys : List Item) (count : ℕ) (page : List FileInfo × ℕ)
      → page.0 ≡ take (limit - count) (matching xs)
      → page.1 ≡ count + length page.0
      → page.0 ++ take (limit - page.1) (matching ys) ≡ take (limit - count) (matching (xs ++ ys))
  pages_taken xs ys count (files, end) taken counted =
      let left : limit - end ≡ limit - count - length files = omega arith in
      rw (left, taken)
        (sym (take-append (limit - count) (matching xs) (matching ys))
          ∙ ap (take (limit - count)) (sym (files_of-append xs ys)))

  search_found :
      (n count : ℕ) (url : Option String) (ps : List Page)
      → AreLinked drive url ps
      → length ps ≤ n
      → search drive n extension limit count url
        ≡ ok (take (limit - count) (matching (items_on ps)))
  unfolding search files_of Taken
  search_found n count none [] linked few = ap ok (sym (take_nil (limit - count)))
  search_found n count none (p ∷ ps) linked few = absurd linked
  search_found n count (some url) [] linked few = absurd linked
  search_found zero count (some url) (p ∷ ps) linked few = absurd (omega arith)
  search_found (suc n) count (some url) (p ∷ ps) (here, linked) few =
      elim (Bool-cases (ltb count limit)) [
        | inr over ↦ rw (over, search) (ap ok (sym (take_none (limit - count) _ (ground arith))))
        | inl under ↦
            let (files, end) = search_page-Taken p.value count (ground arith) in
            rw (under, here, search)
              (rw
                (search_found n (search_page drive extension limit p.value count).1 p.next_link ps
                  linked (omega arith))
                (ap ok (pages_taken p.value (items_on ps) count _ files end)))
      ]

  -- A search whose answer is on linked pages, no more than so many, returns the first files that pass
  -- the filter, in the order of the pages, up to the limit.
  pub search_files_found :
      (n : ℕ) (query : String) (ps : List Page)
      → AreLinked drive (some (drive.search_url query)) ps
      → length ps ≤ n
      → search_files drive n query extension limit
        ≡ ok (take limit (files_of drive none extension (items_on ps)))
  unfolding search_files
  search_files_found n query ps linked few =
      let whole : limit - 0 ≡ limit = omega arith in
      rw (search_found n 0 (some (drive.search_url query)) ps linked few)
        (rw whole (ap ok (take-take limit _)))
