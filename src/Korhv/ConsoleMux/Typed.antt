-- ===== src/Korhv/ConsoleMux/Typed.antt =====
-- A command that is typed is the command that is executed.
use koros.Base.{
  ℕ, zero, suc, ◌+◌, ◌≤◌, ◌<◌, ◌≡◌, refl, sym, ◌∙◌, ap, ◌==◌, ltb, ◌||◌, ◌&&◌, true, false, [], ◌∷◌,
  ◌++◌, length, take, set, length-set, arith, Bool-cases, inl, inr,
}
use koros.Base.OrdMap.{Bytes}
use koros.Korhv.ConsoleMux.{
  ConsoleMux, no_action, host_console, command_bytes, trim, action_of, execute_command, printable,
  host_input, input,
}

-- The array has its size, and the bytes in use lie within it.
pub record IsValid (m : ConsoleMux) : Type 0 where
  pub size : length m.command ≡ command_bytes
  pub within : m.used ≤ command_bytes

-- Every byte of input keeps the invariant: no write leaves the command buffer.
pub IsValid-input : (m : ConsoleMux) (byte : ℕ) → IsValid m → IsValid (input m byte).0
unfolding input host_input execute_command
IsValid-input m byte v = elim (Bool-cases (ltb m.active host_console)) [
  | inl a ↦ elim (Bool-cases (byte == 15)) [
    | inl e ↦ rw (a, e, input) record { size = v.size; within = v.within }
    | inr e ↦ rw (a, e, input) v
  ]
  | inr a ↦ elim (Bool-cases (byte == 13 || byte == 10)) [
    | inl e ↦ rw (a, e, input) record { size = v.size; within = omega arith }
    | inr e ↦ elim (Bool-cases ((byte == 8 || byte == 127) && ltb 0 m.used)) [
      | inl f ↦
          rw (a, e, f, input)
            record { size = v.size; within = let w = v.within in omega (arith, w) }
      | inr f ↦ elim (Bool-cases (printable byte && ltb m.used (length m.command))) [
        | inl p ↦
            rw (a, e, f, p, input)
              record {
                size = length-set m.command m.used byte ∙ v.size;
                within = let w = v.within in let z = v.size in ground arith;
              }
        | inr p ↦ rw (a, e, f, p, input) v
      ]
    ]
  ]
]

abbrev pub AllPrintable : Bytes → Type 0
AllPrintable [] = Unit {0}
AllPrintable (b ∷ bs) = (printable b ≡ true) × AllPrintable bs

-- The bytes one after the other.
abbrev pub type_all : ConsoleMux → Bytes → ConsoleMux
type_all m [] = m
type_all m (b ∷ bs) = type_all (input m b).0 bs

take-set : (xs : Bytes) (n b : ℕ) → n < length xs → take (n + 1) (set xs n b) ≡ take n xs ++ b ∷ []
take-set [] n b h = absurd (omega arith)
take-set (x ∷ xs) zero b h = refl
take-set (x ∷ xs) (suc n) b h =
    let e : suc n + 1 ≡ suc (n + 1) = omega arith in
    rw e (ap (λ l. x ∷ l) (take-set xs n b (omega arith)))

-- A printable byte is appended.
typed :
    (m : ConsoleMux) (b : ℕ)
    → ltb m.active host_console ≡ false
    → printable b ≡ true
    → m.used < length m.command
    → input m b ≡ (record m { command = set m.command m.used b; used = m.used + 1 }, no_action)
unfolding input host_input printable
typed m b a p h =
    let not_return : (b == 13 || b == 10) ≡ false = ground arith in
    let not_delete : ((b == 8 || b == 127) && ltb 0 m.used) ≡ false = ground arith in
    let room : (printable b && ltb m.used (length m.command)) ≡ true = ground arith in
    rw (a, not_return, not_delete, room, input) refl

append_assoc : (xs ys zs : Bytes) → (xs ++ ys) ++ zs ≡ xs ++ (ys ++ zs)
append_assoc [] ys zs = refl
append_assoc (x ∷ xs) ys zs = ap (λ l. x ∷ l) (append_assoc xs ys zs)

append_nil : (xs : Bytes) → xs ++ [] ≡ xs
append_nil [] = refl
append_nil (x ∷ xs) = ap (λ l. x ∷ l) (append_nil xs)

type_all_lem :
    (m : ConsoleMux) (bs : Bytes)
    → ltb m.active host_console ≡ false
    → AllPrintable bs
    → m.used + length bs ≤ length m.command
    → (take (type_all m bs).used (type_all m bs).command ≡ take m.used m.command ++ bs)
      × ((type_all m bs).active ≡ m.active)
type_all_lem m [] a p h = (sym (append_nil (take m.used m.command)), refl)
type_all_lem m (b ∷ bs) a p h =
    let m' : ConsoleMux = record m { command = set m.command m.used b; used = m.used + 1 } in
    let step = typed m b a p.0 (omega arith) in
    let rest =
      type_all_lem m' bs a p.1 (let l = length-set m.command m.used b in omega (arith, l)) in
    let one : take (m.used + 1) (set m.command m.used b) ≡ take m.used m.command ++ b ∷ [] =
      take-set m.command m.used b (omega arith) in
    let same : type_all m (b ∷ bs) ≡ type_all m' bs = ap (λ o. type_all o.0 bs) step in
    (
      ap (λ k. take k.used k.command) same
          ∙ rest.0
          ∙ ap (λ l. l ++ bs) one
          ∙ append_assoc (take m.used m.command) (b ∷ []) bs,
      ap (λ k. k.active) same ∙ rest.1,
    )

executed : (m : ConsoleMux) → ltb m.active host_console ≡ false → input m 13 ≡ execute_command m
unfolding input host_input
executed m a = rw (a, input) refl

-- A line of at most 64 printable bytes that is typed at the empty host console, and the return key
-- after it, do what the trimmed line says, and leave the console empty.
pub input-type_all :
    (m : ConsoleMux) (bs : Bytes)
    → m.active ≡ host_console
    → m.used ≡ 0
    → length m.command ≡ command_bytes
    → AllPrintable bs
    → length bs ≤ command_bytes
    → ((input (type_all m bs) 13).1 ≡ action_of (trim bs)) × ((input (type_all m bs) 13).0.used ≡ 0)
unfolding execute_command
input-type_all m bs host empty size p l =
    let here : ltb m.active host_console ≡ false = ground arith in
    let (line, still) = type_all_lem m bs here p (omega (arith, size)) in
    let there : ltb (type_all m bs).active host_console ≡ false = ground (arith, still) in
    let whole : take (type_all m bs).used (type_all m bs).command ≡ bs =
      line ∙ ap (λ n. take n m.command ++ bs) empty in
    (
      ap (λ o. o.1) (executed (type_all m bs) there) ∙ ap (λ c. action_of (trim c)) whole,
      ap (λ o. o.0.used) (executed (type_all m bs) there),
    )
