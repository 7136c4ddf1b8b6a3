-- ===== src/Korix/Syscall.antt =====
-- apps/korix/src/syscall/mod.rs: the paths that the system calls take, and their error numbers.
pub mod Path
pub mod Kept
mod Tests
use koros.Base.{
  ℕ, ◌==◌, Bool, true, false, ◌||◌, if◌then◌else◌, List, [], ◌∷◌, ◌++◌, Option, none, some,
}
use koros.Base.OrdMap.{Bytes, bytes_eq}
use koros.Fs.Path.{slash, dot, dot_dot, is_absolute}

unfoldable pub extend : ℕ → List Bytes → List Bytes
extend c [] = (c ∷ []) ∷ []
extend c (p ∷ ps) = (c ∷ p) ∷ ps

-- `split('/')`
unfoldable pub split : Bytes → List Bytes
split [] = [] ∷ []
split (c ∷ cs) = let rest = split cs in if c == slash then [] ∷ rest else extend c rest

-- `Vec::pop`
unfoldable pub pop : List Bytes → List Bytes
pop [] = []
pop (x ∷ []) = []
pop (x ∷ y ∷ ys) = x ∷ pop (y ∷ ys)

-- The body of the loop.
unfoldable pub settle : List Bytes → Bytes → List Bytes
settle names component =
    if bytes_eq component [] || bytes_eq component dot
    then names
    else if bytes_eq component dot_dot
    then pop names
    else names ++ component ∷ []

unfoldable pub settle_all : List Bytes → List Bytes → List Bytes
settle_all names [] = names
settle_all names (component ∷ rest) = settle_all (settle names component) rest

-- `join("/")`
unfoldable pub join : List Bytes → Bytes
join [] = []
join (n ∷ []) = n
join (n ∷ m ∷ ms) = n ++ slash ∷ join (m ∷ ms)

unfoldable pub normalize_absolute : Bytes → Option Bytes
normalize_absolute path =
    if is_absolute path then some (slash ∷ join (settle_all [] (split path))) else none
