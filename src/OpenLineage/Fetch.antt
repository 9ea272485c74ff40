-- ===== src/OpenLineage/Fetch.antt =====
-- `get_event_log_records` of utils.py. The query is the instance's, and a parameter.
use community_integrations.Base.{ℕ, zero, suc, Bool, List, [], ◌∷◌, ◌++◌}
use community_integrations.Base.Lists.{leb, take}
use community_integrations.Base.Sorting.{sort}
use community_integrations.OpenLineage.Event.{EventType, Record}

-- `instance.get_event_records(EventRecordsFilter(event_type=…, after_cursor=…), limit=…)`
abbrev pub Query : Type 0
Query = EventType → ℕ → ℕ → List Record

abbrev pub by_storage_id : Record → Record → Bool
by_storage_id a b = leb a.storage_id b.storage_id

module _ (get_event_records : Query) where
  unfoldable pub gather : List EventType → ℕ → ℕ → List Record
  gather [] after limit = []
  gather (type ∷ types) after limit = get_event_records type after limit ++ gather types after limit

  -- `merged[:limit] if limit else merged`
  abbrev pub cap : ℕ → List Record → List Record
  cap zero records = records
  cap (suc n) records = take (suc n) records

  unfoldable pub get_event_log_records : List EventType → ℕ → ℕ → List Record
  unfolding gather
  get_event_log_records types last_storage_id record_filter_limit =
      cap record_filter_limit
        (sort by_storage_id (gather types last_storage_id record_filter_limit))
