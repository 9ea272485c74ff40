-- ===== src/SharePoint/Listing/Newest.antt =====
-- What `list_newly_created_files` returns.
use mathlib.Core.Option.{some-injective}
use community_integrations.Base.{
  ◌≢◌, string_eq, ℕ, ◌≤◌, ◌≡◌, ◌↔◌, ◌⊎◌, inl, inr, refl, sym, ◌∙◌, subst, arith, String, Bool, true,
  false, List, [], ◌∷◌, Option, none, some, ok, Bool-cases,
}
use community_integrations.Base.Members.{In, In-keep, In-keep_intro}
use community_integrations.Base.Lists.{keep, leb}
use community_integrations.Base.Sorting.{sort, insert}
use community_integrations.SharePoint.Listing.{
  FileInfo, Drive, passes_pattern, newest_first, list_files, list_newly_created_files,
}

module _ {A : Type 0} (le : A → A → Bool) where
  In-insert : (a x : A) (xs : List A) → In a (insert le x xs) ↔ ((a ≡ x) ⊎ In a xs)
  unfolding insert
  In-insert a x [] = (λ i. i, λ i. i)
  In-insert a x (y ∷ ys) =
      let (found, put_in) = In-insert a x ys in
      elim (Bool-cases (le x y)) [
        | inl first ↦ rw first (λ i. i, λ i. i)
        | inr later ↦ rw later (
          λ i. elim i [
            | inl e ↦ inr (inl e)
            | inr j ↦ elim (found j) [ inl e ↦ inl e | inr k ↦ inr (inr k) ]
          ],
          λ i. elim i [
            | inl e ↦ inr (put_in (inl e))
            | inr (inl e) ↦ inl e
            | inr (inr j) ↦ inr (put_in (inr j))
          ],
        )
      ]

  In-sort : (a : A) (xs : List A) → In a (sort le xs) ↔ In a xs
  unfolding sort
  In-sort a [] = (λ i. i, λ i. i)
  In-sort a (x ∷ xs) =
      let (found, put_in) = In-insert a x (sort le xs) in
      let (from, to) = In-sort a xs in
      (
        λ i. elim (found i) [ inl e ↦ inl e | inr j ↦ inr (from j) ],
        λ i. put_in (elim i [ inl e ↦ inl e | inr j ↦ inr (to j) ]),
      )

  abbrev IsSorted : List A → Type 0
  IsSorted [] = Unit
  IsSorted (x ∷ xs) = ((y : A) → In y xs → le x y ≡ true) × IsSorted xs

  module _ (total : (a b : A) → le a b ≡ false → le b a ≡ true)
      (trans : (a b c : A) → le a b ≡ true → le b c ≡ true → le a c ≡ true) where
    insert-IsSorted : (x : A) (xs : List A) → IsSorted xs → IsSorted (insert le x xs)
    unfolding insert
    insert-IsSorted x [] h = (λ y i. absurd i, tt)
    insert-IsSorted x (y ∷ ys) (first, rest) = elim (Bool-cases (le x y)) [
      | inl before ↦ rw before (
        λ z i. elim i [
          | inl e ↦ subst (λ w. le x w ≡ true) (sym e) before
          | inr j ↦ trans x y z before (first z j)
        ],
        (first, rest),
      )
      | inr behind ↦ rw behind (
        λ z i. elim ((In-insert z x ys).0 i) [
          | inl e ↦ subst (λ w. le y w ≡ true) (sym e) (total x y behind)
          | inr j ↦ first z j
        ],
        insert-IsSorted x ys rest,
      )
    ]

    sort-IsSorted : (xs : List A) → IsSorted (sort le xs)
    unfolding sort
    sort-IsSorted [] = tt
    sort-IsSorted (x ∷ xs) = insert-IsSorted x (sort le xs) (sort-IsSorted xs)

newest_first_total : (f g : FileInfo) → newest_first f g ≡ false → newest_first g f ≡ true
newest_first_total f g h = ground arith

newest_first_trans :
    (f g k : FileInfo) → newest_first f g ≡ true → newest_first g k ≡ true → newest_first f k ≡ true
newest_first_trans f g k h₁ h₂ = ground arith

-- No file was created after one that stands before it.
abbrev pub IsNewestFirst : List FileInfo → Type 0
IsNewestFirst [] = Unit
IsNewestFirst (x ∷ xs) =
    ((y : FileInfo) → In y xs → y.created_datetime ≤ x.created_datetime) × IsNewestFirst xs

IsSorted-IsNewestFirst : (xs : List FileInfo) → IsSorted newest_first xs → IsNewestFirst xs
IsSorted-IsNewestFirst [] h = tt
IsSorted-IsNewestFirst (x ∷ xs) (first, rest) = (
  λ y i. let before : leb y.created_datetime x.created_datetime ≡ true = first y i in ground arith,
  IsSorted-IsNewestFirst xs rest,
)

-- Whether the name of a file matches the pattern, if one is given that is not empty.
abbrev pub MatchesPattern : Drive → Option String → FileInfo → Type 0
MatchesPattern drive pattern x =
    (wanted : String) → pattern ≡ some wanted → wanted ≢ "" → drive.matches x.name wanted ≡ true

passes_pattern-MatchesPattern :
    (drive : Drive) (most_pages : ℕ) (pattern : Option String) (x : FileInfo)
    → (passes_pattern drive most_pages pattern x ≡ true) ↔ MatchesPattern drive pattern x
passes_pattern-MatchesPattern drive most_pages none x = (λ h wanted e filled. cc, λ h. refl)
passes_pattern-MatchesPattern drive most_pages (some given) x = elim (string_eq.dec given "") [
  | yes empty ↦ (
    λ h wanted e filled. absurd (filled (sym (some-injective given wanted e) ∙ empty)),
    λ h. ground (arith, empty),
  )
  | no filled ↦ (
    λ h wanted e other.
        subst (λ w. drive.matches x.name w ≡ true) (some-injective given wanted e)
          (ground (arith, filled)),
    λ h. let met = h given refl filled in ground (arith, filled),
  )
]

-- Of the files that a listing has, those whose name matches the pattern, if one is given that is not
-- empty, and that were created at the time or later are returned, the last created first.
pub list_newly_created_files_found :
    (drive : Drive) (most_pages n since : ℕ) (path : String) (pattern extension : Option String)
    (recursive : Bool) (files : List FileInfo)
    → list_files drive most_pages n path extension recursive ≡ ok files
    → (newest : List FileInfo) × (list_newly_created_files drive most_pages n since path pattern
          extension recursive
        ≡ ok newest)
      × IsNewestFirst newest
      × ((x : FileInfo)
          → In x newest
            ↔ (In x files × MatchesPattern drive pattern x × (since ≤ x.created_datetime)))
unfolding list_newly_created_files
list_newly_created_files_found drive most_pages n since path pattern extension recursive files h =
    let since_then = λ (x : FileInfo). leb since x.created_datetime in
    let named = passes_pattern drive most_pages pattern in
    let kept = keep since_then (keep named files) in
    (
      sort newest_first kept,
      rw h refl,
      IsSorted-IsNewestFirst (sort newest_first kept)
          (sort-IsSorted newest_first newest_first_total newest_first_trans kept),
      λ x. (
        λ i.
            let (j, late) =
              In-keep since_then x (keep named files) ((In-sort newest_first x kept).0 i) in
            let (k, named_so) = In-keep named x files j in
            (
              k,
              (passes_pattern-MatchesPattern drive most_pages pattern x).0 named_so,
              ground arith,
            ),
        λ (k, matching, late). (In-sort newest_first x kept).1 (
            let named_so = (passes_pattern-MatchesPattern drive most_pages pattern x).1 matching in
            In-keep_intro since_then x (keep named files) (In-keep_intro named x files k named_so)
              (ground arith)),
      ),
    )
