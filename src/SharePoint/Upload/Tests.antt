-- ===== src/SharePoint/Upload/Tests.antt =====
-- A file of a few bytes, and a session that takes the bytes that it expects.
use community_integrations.Base.{
  ◌≡◌, refl, arith, String, [], ◌∷◌, ◌++◌, Bool, true, false, ◌==◌, nat_eq, Result, ok, err,
}
use community_integrations.Base.Lists.{length}
use community_integrations.SharePoint.{Error, other}
use community_integrations.SharePoint.Upload.{
  Bytes, Put, range_from, chunk_at, chunks, Session, put_all, upload_in_chunks, upload_large_file,
}
use community_integrations.SharePoint.Upload.Laws.{
  Follow, bodies, IsSession, chunks-Follow, upload_large_file-received,
}

abbrev content : Bytes
content = 104 ∷ 101 ∷ 108 ∷ 108 ∷ 111 ∷ []

two_two_one : bodies (chunks 2 content) ≡ content
unfolding chunks chunk_at range_from
two_two_one = refl

chunks-Follow_example :
    Follow 2 (length content) 0 (chunks 2 content) × (bodies (chunks 2 content) ≡ content)
chunks-Follow_example = chunks-Follow 2 (omega arith) content

abbrev take_put : Bytes → Put → Bool → Result Error (Unit {0}) × Bytes
take_put so_far p true = (ok tt, so_far ++ p.body)
take_put so_far p false = (err (other "416"), so_far)

-- The state is what the one session has received.
abbrev session : Session Bytes (Unit {0})
session = record {
  create_upload_session = λ path drive so_far. (ok "session", []);
  put = λ url p so_far. take_put so_far p (p.first == length so_far);
  empty_item = λ path. tt;
}

abbrev received : Bytes → String → Bytes
received so_far url = so_far

taken :
    (p : Put) (so_far : Bytes) (b : Bool)
    → (p.first == length so_far) ≡ b
    → p.first ≡ length so_far
    → (take_put so_far p b).1 ≡ so_far ++ p.body
taken p so_far true h e = refl
taken p so_far false h e = absurd (ground arith)

session-IsSession : IsSession session received
session-IsSession = record {
  created = λ drive path s h. refl;
  taken = λ url p s h e. taken p s (p.first == length s) refl e;
}

sent : (upload_large_file session "a.txt" content "drive" []).0 ≡ ok tt
unfolding upload_large_file upload_in_chunks put_all chunks chunk_at range_from nat_eq
sent = refl

upload_large_file-received_example :
    (url : String) × (received (upload_large_file session "a.txt" content "drive" []).1 url
      ≡ content)
upload_large_file-received_example =
    upload_large_file-received session-IsSession "a.txt" content "drive" [] tt sent
