-- ===== src/Korix/Syscall/Tests.antt =====
-- Paths of system calls.
use koros.Base.{◌⊎◌, ◌≡◌, refl, true, false, [], ◌∷◌, none, some}
use koros.Base.OrdMap.{Bytes}
use koros.Fs.Path.{slash, is_absolute}
use koros.Korix.Syscall.{join, normalize_absolute, settle, settle_all, split, pop, extend}
use koros.Korix.Syscall.Path.{AllNames, names_left, normalize_absolute_lem}

-- `/a/./../b//c`
abbrev winding : Bytes
winding = 47 ∷ 97 ∷ 47 ∷ 46 ∷ 47 ∷ 46 ∷ 46 ∷ 47 ∷ 98 ∷ 47 ∷ 47 ∷ 99 ∷ []

straight : normalize_absolute winding ≡ some (47 ∷ 98 ∷ 47 ∷ 99 ∷ [])
unfolding normalize_absolute is_absolute settle settle_all split pop extend join
straight = refl

relative : normalize_absolute (97 ∷ []) ≡ none
unfolding normalize_absolute is_absolute
relative = refl

normalize_absolute_lem_example :
    (is_absolute winding ≡ false) × (normalize_absolute winding ≡ none)
    ⊎ (is_absolute winding ≡ true)
      × AllNames (names_left winding)
      × (normalize_absolute winding ≡ some (slash ∷ join (names_left winding)))
      × (normalize_absolute (slash ∷ join (names_left winding))
          ≡ some (slash ∷ join (names_left winding)))
normalize_absolute_lem_example = normalize_absolute_lem winding
