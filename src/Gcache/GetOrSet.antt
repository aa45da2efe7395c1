-- ===== src/Gcache/GetOrSet.antt =====
-- utils/tools/gcache/gcache_adapter_memory.go: what GetOrSet returns, and what Get finds after it.
use go_zero_admin_pkg.Gcache.Data.{Given, set_given, set_with_lock_found}
use go_zero_admin_pkg.Gcache.Data
