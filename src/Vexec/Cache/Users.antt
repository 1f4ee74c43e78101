-- ===== src/Vexec/Cache/Users.antt =====
-- How the cache of binaries counts users, and what unloading removes.
use vproc.Prelude.{
  ℕ, ◌+◌, ◌-◌, ◌^◌, ◌≤◌, ◌<◌, ◌≡◌, List, [], ◌∷◌, none, some, arith, is_some, if◌then◌else◌,
  Bool-cases, Option-cases, inl, inr,
}
use vproc.Prelude.Named.{Name, ◌==ˢ◌, ==ˢ→eq, find, adjust, find-delete, find-adjust}
use vproc.Coroutine.{VPid}
use vproc.Executor.{Executor}
use vproc.Vexec.Cache.{
  BinaryCacheEntry, Cache, Canonical, closing, unload_key, unload_binary, one_less, one_more,
  release_binaries, track_binary_user,
}

-- How often a path is in the list.
abbrev pub count : Name → List Name → ℕ
count name [] = 0
count name (path ∷ paths) = (if path ==ˢ name then 1 else 0) + count name paths

-- Releasing a list of paths takes from the count of a binary as many users as the list names it, where
-- it has that many, and leaves the rest of its entry as it is.
pub find-release_binaries :
    (paths : List Name) (name : Name) (cache : Cache) (entry : BinaryCacheEntry)
    → find name cache ≡ some entry
    → count name paths ≤ entry.active_users
    → entry.active_users < 2 ^ 32
    → find name (release_binaries paths cache)
      ≡ some (record entry { active_users = entry.active_users - count name paths })
unfolding release_binaries
find-release_binaries [] name cache entry found enough small = ground (arith, found)
find-release_binaries (path ∷ paths) name cache entry found enough small =
    elim (Bool-cases (path ==ˢ name)) [
      | inl this ↦
          let less : find name (adjust path one_less cache) ≡ some (one_less entry) =
            ground (arith, found, this, find-adjust path name one_less cache) in
          ground (
            arith,
            this,
            find-release_binaries paths name (adjust path one_less cache) (one_less entry) less
                (ground (arith, this)) (ground arith),
          )
      | inr other ↦
          let same : find name (adjust path one_less cache) ≡ some entry =
            ground (arith, found, other, find-adjust path name one_less cache) in
          ground (
            arith,
            other,
            find-release_binaries paths name (adjust path one_less cache) entry same
                (ground (arith, other)) small,
          )
    ]

-- A binary that a new process uses is back at its old count once that process is released, and no
-- other binary is touched on the way.
pub release_binaries-track_binary_user :
    (vpid : VPid) (path name : Name) (ex : Executor) (cache : Cache) (entry : BinaryCacheEntry)
    → find name cache ≡ some entry
    → entry.active_users < 2 ^ 32 - 1
    → find name (release_binaries (path ∷ []) (track_binary_user vpid path ex cache).1) ≡ some entry
unfolding release_binaries track_binary_user
release_binaries-track_binary_user vpid path name ex cache entry found small = ground (
  arith,
  found,
  find-adjust path name one_more cache,
  find-adjust path name one_less (adjust path one_more cache),
)

-- Unloading succeeds exactly for a binary of the cache, whatever number of users it has: then it is
-- gone, its handle is closed unless it is null, and every other binary stays.
pub unload_binary_lem :
    (path real_path : Name) (canonical : Canonical) (cache : Cache)
    → unload_key path canonical ≡ some real_path
    → let (done, cache', closed) = unload_binary path canonical cache in
      (done ≡ is_some (find real_path cache))
      × ((name : Name) → find name cache' ≡ (if real_path ==ˢ name then none else find name cache))
      × ((entry : BinaryCacheEntry)
          → find real_path cache ≡ some entry
          → closed ≡ closing entry.handle)
unfolding unload_binary
unload_binary_lem path real_path canonical cache key = elim (Option-cases (find real_path cache)) [
  | inl absent ↦ (
    ground (arith, key, absent),
    λ name. ground (arith, key, absent, ==ˢ→eq real_path name),
    λ entry found. ground (arith, absent, found),
  )
  | inr (entry, held) ↦ (
    ground (arith, key, held),
    λ name. ground (arith, key, held, find-delete real_path name cache),
    λ other found. ground (arith, key, held, found),
  )
]
