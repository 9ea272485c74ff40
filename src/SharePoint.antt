-- ===== src/SharePoint.antt =====
-- The dagster-sharepoint library: files and folders of a SharePoint site, through Microsoft's Graph API
-- (libraries/dagster-sharepoint/dagster_sharepoint/resource.py).
pub mod Upload
pub mod Token
pub mod Request
pub mod Listing
use community_integrations.Base.{ℕ, String}

-- The exceptions of the code, by class; an `HTTPError` with the status of its response.
pub data Error : Type 0 where
  http_error : ℕ → Error
  max_retries_exceeded : Error
  -- of the models: a loop or a recursion that was not given enough
  out_of_fuel : Error
  value_error other : String → Error
