-- ===== src/Korhv/ConsoleMux.antt =====
-- apps/korhv/src/arch/aarch64/console_mux.rs: the routing of console input to the host's command line or
-- to a guest. What is printed is left out.
pub mod Typed
mod Tests
use koros.Base.{
  ℕ, zero, suc, ◌+◌, ◌-◌, ◌==◌, Bool, true, false, ◌||◌, ◌&&◌, ltb, leb, if◌then◌else◌, List, [],
  ◌∷◌, ◌++◌, length, take, set, replicate,
}
use koros.Base.OrdMap.{Bytes, bytes_eq}

abbrev pub host_console : ℕ
host_console = 2

abbrev pub command_bytes : ℕ
command_bytes = 64

pub data InputAction : Type 0 where
  no_action : InputAction
  attach_to : ℕ → InputAction
  show_status : InputAction
  guest_byte : ℕ → ℕ → InputAction

-- `command` is the array of 64 bytes; `used` is the field `length`.
pub record ConsoleMux : Type 0 where
  pub active : ℕ
  pub command : List ℕ
  pub used : ℕ

unfoldable pub new : ConsoleMux
new = record { active = host_console; command = replicate command_bytes 0; used = 0 }

unfoldable pub drop_spaces : Bytes → Bytes
drop_spaces [] = []
drop_spaces (b ∷ bs) = if b == 32 then drop_spaces bs else b ∷ bs

-- Without the spaces at the end.
unfoldable pub drop_last_spaces : Bytes → Bytes
drop_last_spaces [] = []
drop_last_spaces (b ∷ bs) =
    let rest = drop_last_spaces bs in if length rest == 0 && b == 32 then [] else b ∷ rest

-- `trim`, of bytes that are printable ASCII, where the space is the only white space, and of which
-- `from_utf8` accepts all.
unfoldable pub trim : Bytes → Bytes
unfolding drop_spaces drop_last_spaces
trim bytes = drop_last_spaces (drop_spaces bytes)

-- "enter 0", "enter 1" and "status"; "help" and the rest only print.
unfoldable pub action_of : Bytes → InputAction
action_of command =
    if bytes_eq command (101 ∷ 110 ∷ 116 ∷ 101 ∷ 114 ∷ 32 ∷ 48 ∷ [])
    then attach_to 0
    else if bytes_eq command (101 ∷ 110 ∷ 116 ∷ 101 ∷ 114 ∷ 32 ∷ 49 ∷ [])
    then attach_to 1
    else if bytes_eq command (115 ∷ 116 ∷ 97 ∷ 116 ∷ 117 ∷ 115 ∷ [])
    then show_status
    else no_action

unfoldable pub execute_command : ConsoleMux → ConsoleMux × InputAction
unfolding trim action_of
execute_command m = (record m { used = 0 }, action_of (trim (take m.used m.command)))

unfoldable pub printable : ℕ → Bool
printable byte = leb 32 byte && leb byte 126

-- The `match` on a byte that the host console gets, in the order of its arms.
unfoldable pub host_input : ConsoleMux → ℕ → ConsoleMux × InputAction
unfolding execute_command printable
host_input m byte =
    if byte == 13 || byte == 10
    then execute_command m
    else if (byte == 8 || byte == 127) && ltb 0 m.used
    then (record m { used = m.used - 1 }, no_action)
    else if printable byte && ltb m.used (length m.command)
    then (record m { command = set m.command m.used byte; used = m.used + 1 }, no_action)
    else (m, no_action)

-- Ctrl-O is 15.
unfoldable pub input : ConsoleMux → ℕ → ConsoleMux × InputAction
unfolding host_input
input m byte =
    if ltb m.active host_console
    then (if byte == 15
        then (record m { active = host_console }, no_action)
        else (m, guest_byte m.active byte))
    else host_input m byte

unfoldable pub attach : ConsoleMux → ℕ → ConsoleMux
attach m guest = record m { active = guest }
