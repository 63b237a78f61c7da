-- ===== src/Tests/TableRuns.antt =====
-- Pages of the two stores of the events, over the same log.
use telebook_server.Prelude.{◌≡◌, refl, []}
use telebook_server.Store.Events
use telebook_server.Store.Events.{EventTables}
use telebook_server.Store.Events.Agreement.{pages_agree}
use telebook_server.Store.Memory.Reads
use telebook_server.Tests.Sample.{Doc}
use telebook_server.Tests.StoreRuns.{late_store}

abbrev late_tables : EventTables Doc
late_tables = record { sync_events = late_store.events; sync_cursors = [] }

pages_agree_example :
    Events.list_after_cursor 0 1 late_tables ≡ Reads.list_after_cursor 0 1 late_store
pages_agree_example = pages_agree 0 1 late_tables late_store refl
