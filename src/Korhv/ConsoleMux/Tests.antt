-- ===== src/Korhv/ConsoleMux/Tests.antt =====
-- Runs of the console.
use koros.Base.{ℕ, ◌≡◌, refl, List, [], ◌∷◌, arith}
use koros.Korhv.ConsoleMux.{
  new, attach, attach_to, guest_byte, no_action, trim, drop_spaces, drop_last_spaces, action_of,
  input, printable,
}
use koros.Korhv.ConsoleMux.Typed.{type_all, AllPrintable, input-type_all}

-- " enter 1 "
abbrev line : List ℕ
line = 32 ∷ 101 ∷ 110 ∷ 116 ∷ 101 ∷ 114 ∷ 32 ∷ 49 ∷ 32 ∷ []

attaches : action_of (trim line) ≡ attach_to 1
unfolding action_of trim drop_spaces drop_last_spaces
attaches = refl

returns_from_guest : input (attach new 1) 15 ≡ (new, no_action)
unfolding input attach new
returns_from_guest = refl

routes_to_guest : input (attach new 1) 65 ≡ (attach new 1, guest_byte 1 65)
unfolding input attach new
routes_to_guest = refl

line-AllPrintable : AllPrintable line
unfolding printable
line-AllPrintable = (refl, (refl, (refl, (refl, (refl, (refl, (refl, (refl, (refl, tt)))))))))

input-type_all_example :
    ((input (type_all new line) 13).1 ≡ action_of (trim line))
    × ((input (type_all new line) 13).0.used ≡ 0)
unfolding new
input-type_all_example = input-type_all new line refl refl refl line-AllPrintable (omega arith)
