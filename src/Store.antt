-- ===== src/Store.antt =====
-- `FlagStore` of core/src/store.rs: the flags in memory, by key. The `Arc`s share one map between
-- clones; here each write returns the new contents, which every clone then reads.
pub mod Laws
mod Tests
use checkgate.Common.{String, Option, List, map}
use checkgate.External.{External, DashMap}
use checkgate.Types.{Flag}

module _ (ext : External) where
  abbrev flags : DashMap (Flag ext.Value)
  flags = ext.dash_map (Flag ext.Value)

  abbrev pub FlagStore : Type 0
  FlagStore = (ext.dash_map (Flag ext.Value)).Map

  unfoldable pub new : FlagStore
  new = flags.new

  unfoldable pub upsert_flag : FlagStore → Flag ext.Value → FlagStore
  upsert_flag store flag = flags.insert store flag.key flag

  unfoldable pub get_flag : FlagStore → String → Option (Flag ext.Value)
  get_flag store key = flags.get store key

  unfoldable pub delete_flag : FlagStore → String → FlagStore
  delete_flag store key = flags.remove store key

  unfoldable pub list_flags : FlagStore → List (Flag ext.Value)
  list_flags store = map (λ e. e.1) (flags.iter store)

  unfoldable pub clear : FlagStore → FlagStore
  clear store = flags.clear store
