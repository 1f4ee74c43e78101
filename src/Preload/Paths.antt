-- ===== src/Preload/Paths.antt =====
-- `resolve_path` of src/preload.rs. A string is the list of its bytes; `/` is 47 and `.` is 46.
pub mod Resolve
use vproc.Prelude.{ℕ, List, [], ◌∷◌, ◌++◌, Bool, true, false, ◌==◌, if◌then◌else◌, retain}

abbrev pub slash : ℕ
slash = 47

abbrev pub dot : ℕ
dot = 46

-- The byte in front of the first part.
abbrev pub push_front : ℕ → List (List ℕ) → List (List ℕ)
push_front byte [] = (byte ∷ []) ∷ []
push_front byte (part ∷ parts) = (byte ∷ part) ∷ parts

-- `str::split('/')`
unfoldable pub split : List ℕ → List (List ℕ)
split [] = [] ∷ []
split (byte ∷ bytes) =
    let parts = split bytes in if byte == slash then [] ∷ parts else push_front byte parts

-- `!s.is_empty()`
abbrev pub is_part : List ℕ → Bool
is_part [] = false
is_part (byte ∷ bytes) = true

-- `cwd.split('/').filter(|s| !s.is_empty())`
unfoldable pub components : List ℕ → List (List ℕ)
unfolding split
components path = retain is_part (split path)

-- `Vec::pop`, whose result is not used.
abbrev pub pop {ℓ} : {A : Type ℓ} → List A → List A
pop [] = []
pop (a ∷ []) = []
pop (a ∷ b ∷ list) = a ∷ pop (b ∷ list)

-- What the loop of `resolve_path` does with a component.
pub data Component : Type 0 where
  stays rises enters : Component

abbrev pub kind_of : List ℕ → Component
kind_of [] = stays
kind_of (a ∷ []) = if a == dot then stays else enters
kind_of (a ∷ b ∷ []) = if a == dot then (if b == dot then rises else enters) else enters
kind_of (a ∷ b ∷ c ∷ rest) = enters

unfoldable pub enter : List (List ℕ) → List ℕ → List (List ℕ)
enter parts component = elim (kind_of component) [
  | stays ↦ parts
  | rises ↦ pop parts
  | enters ↦ parts ++ component ∷ []
]

-- The loop over `path.split('/')`.
unfoldable pub walk : List (List ℕ) → List (List ℕ) → List (List ℕ)
unfolding enter
walk parts [] = parts
walk parts (component ∷ rest) = walk (enter parts component) rest

-- `parts.join("/")`
unfoldable pub join : List (List ℕ) → List ℕ
join [] = []
join (part ∷ []) = part
join (part ∷ next ∷ parts) = part ++ slash ∷ join (next ∷ parts)

-- `"/"`, or a `/` before the joined parts.
unfoldable pub render : List (List ℕ) → List ℕ
unfolding join
render parts = slash ∷ join parts

abbrev pub starts_with_slash : List ℕ → Bool
starts_with_slash [] = false
starts_with_slash (byte ∷ bytes) = byte == slash

unfoldable pub resolve_path : List ℕ → List ℕ → List ℕ
resolve_path cwd path =
    if starts_with_slash path then path else render (walk (components cwd) (split path))
