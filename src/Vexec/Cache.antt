-- ===== src/Vexec/Cache.antt =====
-- The cache of loaded binaries in src/vexec.rs, by canonical path. A handle of the dynamic linker is a
-- number, 0 where it is null; the handles that a function closes are returned beside the cache.
pub mod Users
use vproc.Prelude.{
  ℕ, ◌+◌, ◌-◌, ◌%◌, ◌^◌, List, [], ◌∷◌, ◌++◌, Bool, true, false, Option, none, some, length, ◌==◌,
  if◌then◌else◌,
}
use vproc.Prelude.Assoc.{modify}
use vproc.Prelude.Named.{Name, Named, find, delete, adjust}
use vproc.Coroutine.{VPid, Coroutine}
use vproc.Executor.{Executor}
use vproc.Vexec.Segments.{WritableSegment}

pub record BinaryCacheEntry : Type 0 where
  pub main_addr : ℕ
  pub handle : ℕ
  pub saved_writable : List WritableSegment
  pub active_users : ℕ

abbrev pub Cache : Type 0
Cache = Named BinaryCacheEntry

-- `std::fs::canonicalize` and `to_str`.
pub data Canonical : Type 0 where
  resolved : Name → Canonical
  not_utf8 fails : Canonical

-- `dlclose` of a handle that is not null.
abbrev pub closing : ℕ → List ℕ
closing handle = if handle == 0 then [] else handle ∷ []

unfoldable pub unload_key : Name → Canonical → Option Name
unload_key path (resolved real_path) = some real_path
unload_key path not_utf8 = none
unload_key path fails = some path

unfoldable pub unload_binary : Name → Canonical → Cache → Bool × Cache × List ℕ
unfolding unload_key
unload_binary path canonical cache = elim (unload_key path canonical) [
  | none ↦ (false, cache, [])
  | some real_path ↦ elim (find real_path cache) [
    | none ↦ (false, cache, [])
    | some entry ↦ (true, delete real_path cache, closing entry.handle)
  ]
]

unfoldable pub unload_all_binaries : Cache → Cache × List ℕ
unload_all_binaries [] = ([], [])
unload_all_binaries ((path, entry) ∷ cache) =
    let (rest, closed) = unload_all_binaries cache in (rest, closing entry.handle ++ closed)

unfoldable pub cached_binary_count : Cache → ℕ
cached_binary_count cache = length cache

-- `fetch_sub(1)` and `fetch_add(1)`
abbrev pub one_less : BinaryCacheEntry → BinaryCacheEntry
one_less entry = record entry { active_users = (entry.active_users + (2 ^ 32 - 1)) % 2 ^ 32 }

abbrev pub one_more : BinaryCacheEntry → BinaryCacheEntry
one_more entry = record entry { active_users = (entry.active_users + 1) % 2 ^ 32 }

unfoldable pub release_binaries : List Name → Cache → Cache
release_binaries [] cache = cache
release_binaries (path ∷ paths) cache = release_binaries paths (adjust path one_less cache)

unfoldable pub track_binary_user : VPid → Name → Executor → Cache → Executor × Cache
track_binary_user vpid path ex cache = (
  record ex { vprocs = modify vpid (λ c. record c { binary_path = some path }) ex.vprocs },
  adjust path one_more cache,
)
