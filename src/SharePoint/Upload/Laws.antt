-- ===== src/SharePoint/Upload/Laws.antt =====
-- What the chunks are of a file, and what a session has received.
use mathlib.Core.List.{append-nil, append_assoc}
use community_integrations.Base.{
  ℕ, zero, suc, ◌+◌, ◌-◌, ◌*◌, ◌≤◌, ◌<◌, ◌≡◌, refl, sym, ap, subst, ◌∙◌, arith, String, List, [],
  ◌∷◌, ◌++◌, map, Option, none, some, ok, Bool-cases, inl, inr,
}
use community_integrations.Base.Call.{Call, pure, follow, follow_returned, ◌>>=◌}
use community_integrations.Base.Lists.{ltb, length, length-append, take, drop}
use community_integrations.SharePoint.{Error}
use community_integrations.SharePoint.Upload.{
  Bytes, range_from, min, Put, chunk_at, chunks, Session, put_all, final, upload_in_chunks,
  upload_large_file,
}

-- Puts that follow each other from a position to the end, each of at least one and at most
-- `chunk_size` bytes, with the headers that are theirs.
abbrev pub Follow : ℕ → ℕ → ℕ → List Put → Type 0
Follow chunk_size total i [] = i ≡ total
Follow chunk_size total i (p ∷ ps) =
    (p.first ≡ i)
    × (p.total ≡ total)
    × (p.content_length ≡ length p.body)
    × (1 ≤ length p.body)
    × (length p.body ≤ chunk_size)
    × (p.last + 1 ≡ i + length p.body)
    × Follow chunk_size total (i + length p.body) ps

abbrev pub bodies : List Put → Bytes
bodies [] = []
bodies (p ∷ ps) = p.body ++ bodies ps

length-drop : (n : ℕ) (xs : Bytes) → length (drop n xs) ≡ length xs - n
length-drop zero xs = omega arith
length-drop (suc n) [] = omega arith
length-drop (suc n) (x ∷ xs) = omega (arith, length-drop n xs)

length-take : (n : ℕ) (xs : Bytes) → n ≤ length xs → length (take n xs) ≡ n
length-take zero xs h = refl
length-take (suc n) [] h = absurd (omega arith)
length-take (suc n) (x ∷ xs) h = omega (arith, length-take n xs (omega arith))

take-append-drop : (n : ℕ) (xs : Bytes) → take n xs ++ drop n xs ≡ xs
take-append-drop zero xs = refl
take-append-drop (suc n) [] = refl
take-append-drop (suc n) (x ∷ xs) = ap (λ t. x ∷ t) (take-append-drop n xs)

drop_nil : (n : ℕ) → drop {A = ℕ} n [] ≡ []
drop_nil zero = refl
drop_nil (suc n) = refl

drop-drop : (m n : ℕ) (xs : Bytes) → drop m (drop n xs) ≡ drop (n + m) xs
drop-drop m zero xs = let same : zero + m ≡ m = omega arith in rw same refl
drop-drop m (suc n) [] = drop_nil m ∙ sym (drop_nil (suc n + m))
drop-drop m (suc n) (x ∷ xs) =
    let moved : suc n + m ≡ suc (n + m) = omega arith in rw moved (drop-drop m n xs)

drop_all : (n : ℕ) (xs : Bytes) → length xs ≤ n → drop n xs ≡ []
drop_all zero [] h = refl
drop_all zero (x ∷ xs) h = absurd (omega arith)
drop_all (suc n) [] h = refl
drop_all (suc n) (x ∷ xs) h = drop_all n xs (omega arith)

range_from_over : (n stop step i : ℕ) → stop ≤ i → range_from n stop step i ≡ []
unfolding range_from
range_from_over zero stop step i h = refl
range_from_over (suc n) stop step i h = ground arith

module _ (chunk_size : ℕ) (positive : 1 ≤ chunk_size) (content : Bytes) where
  abbrev size : ℕ
  size = length content

  abbrev chunk : ℕ → Put
  chunk = chunk_at chunk_size content

  abbrev Chunked : ℕ → List ℕ → Type 0
  Chunked i is = Follow chunk_size size i (map chunk is) × (bodies (map chunk is) ≡ drop i content)

  length-chunk : (i : ℕ) → i < size → length (chunk i).body ≡ min (i + chunk_size) size - i
  unfolding chunk_at
  length-chunk i h =
      length-take (min (i + chunk_size) size - i) (drop i content)
        (ground (arith, length-drop i content))

  -- A chunk, and those from where it ends.
  Chunked-cons :
      (i : ℕ) (is : List ℕ) → i < size → Chunked (i + length (chunk i).body) is → Chunked i (i ∷ is)
  unfolding chunk_at
  Chunked-cons i is h (follow, rest) =
      let len = length-chunk i h in
      let n = min (i + chunk_size) size - i in
      (
        (refl, refl, refl, ground arith, ground arith, ground arith, follow),
        rw rest (
            ap (λ t. (chunk i).body ++ t)
              (ap (λ k. drop (i + k) content) len ∙ sym (drop-drop n i content))
            ∙ take-append-drop n (drop i content)),
      )

  Chunked-range : (n i : ℕ) → size ≤ i + n → i ≤ size → Chunked i (range_from n size chunk_size i)
  unfolding range_from
  Chunked-range zero i enough inside = (omega arith, sym (drop_all i content (omega arith)))
  Chunked-range (suc n) i enough inside = elim (Bool-cases (ltb i size)) [
    | inr over ↦
        let ends : i ≡ size = ground arith in
        rw over (ends, sym (drop_all i content (ground arith)))
    | inl more ↦
        let here : i < size = ground arith in
        rw more (
          Chunked-cons i (range_from n size chunk_size (i + chunk_size)) here
            (elim (Bool-cases (ltb size (i + chunk_size))) [
              | inl last ↦
                  let ends : i + length (chunk i).body ≡ size =
                    ground (arith, length-chunk i here) in
                  let no_more = range_from_over n size chunk_size (i + chunk_size) (ground arith) in
                  rw (no_more, ends) (refl, sym (drop_all size content (omega arith)))
              | inr full ↦
                  let next : i + length (chunk i).body ≡ i + chunk_size =
                    ground (arith, length-chunk i here) in
                  rw next (Chunked-range n (i + chunk_size) (omega arith) (ground arith))
            ]))
  ]

  -- The chunks of a file, for a size of at least one byte, follow each other from the first byte to
  -- the last: each has at least one byte and at most the size, its headers say where it stands and
  -- how many bytes the file has, and together they are the file.
  pub chunks-Follow :
      Follow chunk_size (length content) 0 (chunks chunk_size content)
      × (bodies (chunks chunk_size content) ≡ content)
  unfolding chunks
  chunks-Follow = Chunked-range size 0 (omega arith) (omega arith)

-- What the Graph API documents: a session that is made has received nothing, and a put that it takes,
-- where it begins with the byte that the session expects, adds its bytes.
pub record IsSession {W Item : Type 0} (web : Session W Item) (received : W → String → Bytes)
    : Type 0 where
  pub created :
      (drive path : String) (s : W) {url : String}
      → (web.create_upload_session drive path s).0 ≡ ok url
      → received (web.create_upload_session drive path s).1 url ≡ []
  pub taken :
      (url : String) (p : Put) (s : W) {item : Item}
      → (web.put url p s).0 ≡ ok item
      → p.first ≡ length (received s url)
      → received (web.put url p s).1 url ≡ received s url ++ p.body

module _ {W Item : Type 0} {web : Session W Item} {received : W → String → Bytes}
    (law : IsSession web received) where
  received-put_all :
      (chunk_size total : ℕ) (url : String) (ps : List Put) (response : Option Item) (s : W)
      {end : Option Item}
      → Follow chunk_size total (length (received s url)) ps
      → (put_all web url response ps s).0 ≡ ok end
      → received (put_all web url response ps s).1 url ≡ received s url ++ bodies ps
  unfolding put_all
  received-put_all chunk_size total url [] response s follows h = sym (append-nil (received s url))
  received-put_all chunk_size total url (p ∷ ps) response s (first, _, _, _, _, _, others) h =
      let (item, put, goes_on) =
        follow_returned (λ item. put_all web url (some item) ps) (web.put url p s) h in
      let adds = law.taken url p s put first in
      let more : length (received (web.put url p s).1 url)
          ≡ length (received s url) + length p.body =
        ap length adds ∙ length-append (received s url) p.body in
      let rest =
        received-put_all chunk_size total url ps (some item) (web.put url p s).1
          (subst (λ i. Follow chunk_size total i ps) (sym more) others)
          (ap (λ r. r.0) (sym goes_on) ∙ h) in
      ap (λ r. received r.1 url) goes_on
      ∙ rest
      ∙ ap (λ t. t ++ bodies ps) adds
      ∙ append_assoc (received s url) p.body (bodies ps)

  upload_in_chunks-received :
      (chunk_size : ℕ) (path : String) (content : Bytes) (drive : String) (s : W) (item : Item)
      → 1 ≤ chunk_size
      → (upload_in_chunks web chunk_size path content drive s).0 ≡ ok item
      → (url : String) × (received (upload_in_chunks web chunk_size path content drive s).1 url
          ≡ content)
  unfolding upload_in_chunks
  upload_in_chunks-received chunk_size path content drive s item positive h =
      let after_session : String → Call Error W Item = λ url.
        put_all web url none (chunks chunk_size content) >>= λ response.
        pure (final web path response) in
      let (url, made, goes_on) =
        follow_returned after_session (web.create_upload_session drive path s) h in
      let t = (web.create_upload_session drive path s).1 in
      let (response, put, ends) =
        follow_returned (λ response. pure (final web path response))
          (put_all web url none (chunks chunk_size content) t) (ap (λ r. r.0) (sym goes_on) ∙ h) in
      let (follows, whole) = chunks-Follow chunk_size positive content in
      let nothing = law.created drive path s made in
      let all =
        received-put_all chunk_size (length content) url (chunks chunk_size content) none t
          (subst (λ i. Follow chunk_size (length content) i (chunks chunk_size content))
            (sym (ap length nothing)) follows)
          put in
      (
        url,
        ap (λ r. received r.1 url) (goes_on ∙ ends)
            ∙ all
            ∙ ap (λ t. t ++ bodies (chunks chunk_size content)) nothing
            ∙ whole,
      )

  -- An upload that raises nothing has made a session that has received the file, byte for byte, if
  -- the session takes no put for another than the bytes that it expects next.
  pub upload_large_file-received :
      (path : String) (content : Bytes) (drive : String) (s : W) (item : Item)
      → (upload_large_file web path content drive s).0 ≡ ok item
      → (url : String) × (received (upload_large_file web path content drive s).1 url ≡ content)
  unfolding upload_large_file
  upload_large_file-received path content drive s item =
      upload_in_chunks-received (10 * 1024 * 1024) path content drive s item (omega arith)
