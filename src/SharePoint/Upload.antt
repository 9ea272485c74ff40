-- ===== src/SharePoint/Upload.antt =====
-- The upload of a large file, in chunks (`_upload_large_file`).
pub mod Laws
mod Tests
use community_integrations.Base.{
  ℕ, zero, suc, ◌+◌, ◌-◌, ◌*◌, String, List, [], ◌∷◌, map, Option, none, some, if◌then◌else◌,
}
use community_integrations.Base.Call.{Call, pure, ◌>>=◌}
use community_integrations.Base.Lists.{ltb, length, take, drop}
use community_integrations.SharePoint.{Error}

abbrev pub Bytes : Type 0
Bytes = List ℕ

-- `range(start, stop, step)`. A step of at least one leaves no more numbers than `stop`.
unfoldable pub range_from : ℕ → ℕ → ℕ → ℕ → List ℕ
range_from zero stop step i = []
range_from (suc n) stop step i =
    let rest = range_from n stop step (i + step) in if ltb i stop then i ∷ rest else []

abbrev pub min : ℕ → ℕ → ℕ
min a b = if ltb b a then b else a

-- A request that puts a chunk, with its headers: `Content-Length` and the numbers of `Content-Range`.
pub record Put : Type 0 where
  pub content_length : ℕ
  pub first : ℕ
  pub last : ℕ
  pub total : ℕ
  pub body : Bytes

unfoldable pub chunk_at : ℕ → Bytes → ℕ → Put
chunk_at chunk_size content i =
    let file_size = length content in
    let chunk_end = min (i + chunk_size) file_size in
    let chunk = take (chunk_end - i) (drop i content) in
    record {
      content_length = length chunk;
      first = i;
      last = chunk_end - 1;
      total = file_size;
      body = chunk;
    }

unfoldable pub chunks : ℕ → Bytes → List Put
chunks chunk_size content =
    map (chunk_at chunk_size content) (range_from (length content) (length content) chunk_size 0)

-- The web, as this code uses it: the session that is made, at a URL, and the puts to that, with
-- `raise_for_status()`. A response is what its JSON is.
pub record Session (W Item : Type 0) : Type 0 where
  pub create_upload_session : String → String → Call Error W String
  pub put : String → Put → Call Error W Item
  -- The item that the code makes up for a file without bytes.
  pub empty_item : String → Item

module _ {W Item : Type 0} (web : Session W Item) where
  -- The loop, with the last response.
  unfoldable pub put_all : String → Option Item → List Put → Call Error W (Option Item)
  put_all url response [] = pure response
  put_all url response (p ∷ ps) = web.put url p >>= λ item. put_all url (some item) ps

  abbrev pub final : String → Option Item → Item
  final path none = web.empty_item path
  final path (some item) = item

  unfoldable pub upload_in_chunks : ℕ → String → Bytes → String → Call Error W Item
  upload_in_chunks chunk_size path content drive_id = do
    upload_url ← web.create_upload_session drive_id path
    response ← put_all upload_url none (chunks chunk_size content)
    pure (final path response)

  -- `_upload_large_file`: chunks of ten megabytes.
  unfoldable pub upload_large_file : String → Bytes → String → Call Error W Item
  upload_large_file = upload_in_chunks (10 * 1024 * 1024)
