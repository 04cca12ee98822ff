-- ===== src/Cli/Session/Roundtrip.antt =====
-- A client that puts a key, and then gets it.
use falcon_cache.Base.{List}
use falcon_cache.Base.Text.{Text}
use falcon_cache.Base.Equality.{byte_string_eq}
use falcon_cache.Storage.Table.{get as find}
use falcon_cache.Core.Keyspace.{Keyspace}
use falcon_cache.Storage.Table.{put as replace}
