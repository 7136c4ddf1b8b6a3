-- ===== src/Korix/Mm.antt =====
-- apps/korix/src/mm/mod.rs, `AddressSpace`: the map of a process's pages. Frames, page tables and
-- physical memory are behind `Machine`, whose page table is that of the space, as under `with_active`.
-- Addresses below the limit, 2^48 at most, leave room for the sums of the loops.
pub mod Range
pub mod Valid
pub mod Unmap
mod Tests
use Prim.Native.Nat.{bit_and}
use koros.Base.{
  ℕ, zero, suc, ◌+◌, ◌-◌, ◌*◌, ◌/◌, ◌%◌, ◌^◌, ◌==◌, min, Bool, true, false, not, ◌||◌, ◌&&◌, ltb,
  leb, if◌then◌else◌, List, [], ◌∷◌, ◌++◌, Option, none, some, length, take, drop,
}
use koros.Base.OrdMap.{Bytes, get, insert, remove, nat_key}
use koros.Base.Result.{Result, ok, err}

abbrev pub page_size : ℕ
page_size = 4096

pub data MapError : Type 0 where
  out_of_memory blocked_by_existing_mapping unsupported : MapError

-- `MappingFlags`: R, W, X and U are the bits 0 to 3.
abbrev pub writable : ℕ
writable = 2

abbrev pub user : ℕ
user = 8

unfoldable pub contains : ℕ → ℕ → Bool
contains flags other = bit_and flags other == other

pub record VmPage : Type 0 where
  pub phys : ℕ
  pub flags : ℕ

pub record Machine : Type 1 where
  pub State : Type 0
  pub alloc_frame : State → Option ℕ × State
  pub free_frame : ℕ → State → State
  pub map_page : ℕ → ℕ → ℕ → State → Result MapError (Unit {0}) × State
  pub unmap_page : ℕ → State → Result MapError (Unit {0}) × State
  pub zero_page : ℕ → State → State
  pub write_bytes : ℕ → Bytes → State → State

abbrev pub Pages : Type 0
Pages = List (ℕ × VmPage)

-- `vaddr & !(PAGE_SIZE - 1)`
abbrev pub page_of : ℕ → ℕ
page_of vaddr = vaddr - vaddr % page_size

-- `(start..end).step_by(PAGE_SIZE)` with `count` steps.
unfoldable pub steps : ℕ → ℕ → List ℕ
steps start zero = []
steps start (suc count) = start ∷ steps (start + page_size) count

unfoldable pub translate : Pages → ℕ → Option ℕ
translate pages vaddr = elim (get (page_of vaddr) pages) [
  | none ↦ none
  | some mapping ↦ some (mapping.phys + vaddr % page_size)
]

unfoldable pub is_some : {A : Type 0} → Option A → Bool
is_some none = false
is_some (some a) = true

unfoldable pub is_mapped : Pages → ℕ → Bool
unfolding is_some
is_mapped pages vaddr = is_some (get (page_of vaddr) pages)

-- A page that is mapped, and writable where that is asked for.
unfoldable pub permits : Option VmPage → Bool → Bool
unfolding contains
permits none write = false
permits (some mapping) write = not write || contains mapping.flags writable

-- The loop of `validate_range` from `page` to `last`, with fuel for the pages in between.
unfoldable pub validate_from : ℕ → Pages → Bool → ℕ → ℕ → Bool
unfolding permits
validate_from zero pages write page last = false
validate_from (suc fuel) pages write page last =
    let rest = validate_from fuel pages write (page + page_size) last in
    permits (get page pages) write && (page == last || rest)

unfoldable pub unaligned : ℕ → Bool
unaligned address = not (address % page_size == 0)

-- `checked_add`
unfoldable pub overflows : ℕ → ℕ → Bool
overflows start length = leb (2 ^ 64) (start + length)

unfoldable pub all_free : Pages → List ℕ → Bool
unfolding is_some
all_free pages [] = true
all_free pages (vaddr ∷ vaddrs) = not (is_some (get vaddr pages)) && all_free pages vaddrs

-- `USER_ADDRESS_LIMIT` depends on the architecture.
module _ (limit : ℕ) where
  unfoldable pub validate_range : Pages → ℕ → ℕ → Bool → Bool
  unfolding validate_from overflows
  validate_range pages address length write =
      if length == 0
      then ltb address limit
      else if overflows address length
      then false
      else if leb limit address || ltb limit (address + length)
      then false
      else validate_from (suc length) pages write (page_of address) (page_of (address + length - 1))

  unfoldable pub range_is_free : Pages → ℕ → ℕ → Bool
  unfolding unaligned overflows all_free steps
  range_is_free pages start length =
      if unaligned start || length == 0 || unaligned length
      then false
      else if overflows start length
      then false
      else leb (start + length) limit && all_free pages (steps start (length / page_size))

-- `self.pages.insert` for each page of a range.
unfoldable pub insert_all : List (ℕ × VmPage) → Pages → Pages
insert_all [] pages = pages
insert_all ((vaddr, page) ∷ rest) pages = insert_all rest (insert vaddr page pages)

unfoldable pub remove_all : List (ℕ × VmPage) → Pages → Pages
remove_all [] pages = pages
remove_all ((vaddr, page) ∷ rest) pages = remove_all rest (remove vaddr pages)

-- The pages of a range that are mapped.
unfoldable pub mapped_in : Pages → List ℕ → List (ℕ × VmPage)
mapped_in pages [] = []
mapped_in pages (vaddr ∷ vaddrs) =
    let rest = mapped_in pages vaddrs in
    elim (get vaddr pages) [ none ↦ rest | some page ↦ (vaddr, page) ∷ rest ]

-- `collect::<Result<_, _>>` of the pages of a range: `none` if one is not mapped.
unfoldable pub all_mapped : Pages → List ℕ → Option (List (ℕ × VmPage))
all_mapped pages [] = some []
all_mapped pages (vaddr ∷ vaddrs) = elim (get vaddr pages) [
  | none ↦ none
  | some page ↦ elim (all_mapped pages vaddrs) [
    | none ↦ none
    | some rest ↦ some ((vaddr, page) ∷ rest)
  ]
]

unfoldable pub with_flags : ℕ → List (ℕ × VmPage) → List (ℕ × VmPage)
with_flags flags [] = []
with_flags flags ((vaddr, page) ∷ rest) =
    (vaddr, record page { flags = flags }) ∷ with_flags flags rest

unfoldable pub fresh_pages : List ℕ → List ℕ → ℕ → List (ℕ × VmPage)
fresh_pages [] frames flags = []
fresh_pages (vaddr ∷ vaddrs) [] flags = []
fresh_pages (vaddr ∷ vaddrs) (phys ∷ frames) flags =
    (vaddr, record { phys = phys; flags = flags }) ∷ fresh_pages vaddrs frames flags

module _ (M : Machine) where
  open M use {State, alloc_frame, free_frame, map_page, unmap_page, zero_page, write_bytes}

  abbrev pub Io : Type 0
  Io = Result MapError (Unit {0}) × State

  -- The closure of `map_zeroed`.
  pub map_fresh : ℕ → ℕ → State → Result MapError ℕ × State
  map_fresh vaddr flags s =
      let (frame, s') = alloc_frame s in
      elim frame [
        | none ↦ (err out_of_memory, s')
        | some paddr ↦
            let (r, s'') = map_page vaddr paddr flags s' in
            elim r [
              | ok _ ↦ (ok paddr, zero_page paddr s'')
              | err x ↦ (err x, free_frame paddr s'')
            ]
      ]

  pub map_zeroed : ℕ → Pages → ℕ → ℕ → State → Result MapError ℕ × (Pages × State)
  unfolding map_fresh
  map_zeroed limit pages vaddr flags s =
      if unaligned vaddr || leb limit vaddr || not (contains flags user)
      then (err blocked_by_existing_mapping, (pages, s))
      else if is_some (get vaddr pages)
      then (err blocked_by_existing_mapping, (pages, s))
      else (let (r, s') = map_fresh vaddr flags s in
          elim r [
            | ok phys ↦ (ok phys, (insert vaddr (record { phys = phys; flags = flags }) pages, s'))
            | err x ↦ (err x, (pages, s'))
          ])

  pub free_all : List ℕ → State → State
  free_all [] s = s
  free_all (phys ∷ frames) s = free_all frames (free_frame phys s)

  -- The loop that allocates the fresh frames: `none` where one is missing, with the others freed.
  pub alloc_fresh : ℕ → List ℕ → State → Option (List ℕ) × State
  unfolding free_all
  alloc_fresh zero fresh s = (some fresh, s)
  alloc_fresh (suc count) fresh s =
      let (frame, s') = alloc_frame s in
      elim frame [
        | none ↦ (none, free_all fresh s')
        | some phys ↦ alloc_fresh count (fresh ++ phys ∷ []) s'
      ]

  -- `unmap(vaddr)?` for each page.
  pub unmap_each : List (ℕ × VmPage) → State → Io
  unmap_each [] s = (ok tt, s)
  unmap_each ((vaddr, page) ∷ rest) s =
      let (r, s') = unmap_page vaddr s in
      let more = unmap_each rest s' in elim r [ ok _ ↦ more | err x ↦ (err x, s') ]

  -- The rollback: `let _ = unmap(...)`, then `let _ = map(...)` of the old pages.
  pub unmap_quietly : List ℕ → State → State
  unmap_quietly [] s = s
  unmap_quietly (vaddr ∷ rest) s = unmap_quietly rest (unmap_page vaddr s).1

  pub map_quietly : List (ℕ × VmPage) → State → State
  map_quietly [] s = s
  map_quietly ((vaddr, page) ∷ rest) s = map_quietly rest (map_page vaddr page.phys page.flags s).1

  pub roll_back : List ℕ → List (ℕ × VmPage) → State → State
  unfolding unmap_quietly map_quietly
  roll_back done old s = map_quietly old (unmap_quietly done s)

  -- The mapping of new pages, of which those before are `done`; `zeroed` for the fresh ones of
  -- `replace_zeroed`.
  pub map_each : Bool → List (ℕ × VmPage) → List ℕ → List (ℕ × VmPage) → State → Io
  unfolding roll_back
  map_each zeroed [] done old s = (ok tt, s)
  map_each zeroed ((vaddr, page) ∷ rest) done old s =
      let (r, s') = map_page vaddr page.phys page.flags s in
      let s'' = if zeroed then zero_page page.phys s' else s' in
      let more = map_each zeroed rest (done ++ vaddr ∷ []) old s'' in
      elim r [ ok _ ↦ more | err x ↦ (err x, roll_back done old s') ]

  pub free_pages : List (ℕ × VmPage) → State → State
  free_pages [] s = s
  free_pages ((vaddr, page) ∷ rest) s = free_pages rest (free_frame page.phys s)

  -- Both replacements under `with_active`: the old pages go, and the new ones come.
  pub exchange : Bool → List (ℕ × VmPage) → List (ℕ × VmPage) → State → Io
  unfolding unmap_each map_each
  exchange zeroed new old s =
      let (r, s') = unmap_each old s in
      let mapped = map_each zeroed new [] old s' in elim r [ err x ↦ (err x, s') | ok _ ↦ mapped ]

  abbrev pub Call : Type 0
  Call = Result MapError (Unit {0}) × (Pages × State)

  pub replace_zeroed : ℕ → Pages → ℕ → ℕ → ℕ → State → Call
  unfolding alloc_fresh exchange free_pages
  replace_zeroed limit pages start length flags s =
      if (unaligned start || length == 0 || unaligned length)
        || (overflows start length || ltb limit (start + length) || not (contains flags user))
      then (err blocked_by_existing_mapping, (pages, s))
      else (let (frames, s') = alloc_fresh (length / page_size) [] s in
          elim frames [
            | none ↦ (err out_of_memory, (pages, s'))
            | some fresh ↦
                let range = steps start (length / page_size) in
                let new = fresh_pages range fresh flags in
                let old = mapped_in pages range in
                let (r, s'') = exchange true new old s' in
                elim r [
                  | err x ↦ (err x, (pages, s''))
                  | ok _ ↦ (ok tt, (insert_all new pages, free_pages old s''))
                ]
          ])

  pub protect_range : ℕ → Pages → ℕ → ℕ → ℕ → State → Call
  unfolding exchange
  protect_range limit pages start length flags s =
      if (unaligned start || length == 0 || unaligned length || not (contains flags user))
        || (overflows start length || ltb limit (start + length))
      then (err blocked_by_existing_mapping, (pages, s))
      else (elim (all_mapped pages (steps start (length / page_size))) [
        | none ↦ (err blocked_by_existing_mapping, (pages, s))
        | some old ↦
            let new = with_flags flags old in
            let (r, s') = exchange false new old s in
            elim r [ err x ↦ (err x, (pages, s')) | ok _ ↦ (ok tt, (insert_all new pages, s')) ]
      ])

  -- The number of steps is rounded up, since the length need not be aligned.
  pub unmap_range : Pages → ℕ → ℕ → State → Call
  unfolding unmap_each free_pages
  unmap_range pages start length s =
      if unaligned start || overflows start length
      then (err blocked_by_existing_mapping, (pages, s))
      else (let old = mapped_in pages (steps start ((length + page_size - 1) / page_size)) in
          let (r, s') = unmap_each old s in
          elim r [
            | err x ↦ (err x, (pages, s'))
            | ok _ ↦ (ok tt, (remove_all old pages, free_pages old s'))
          ])

  -- The loop of `populate` and of `write`, over the bytes that are left.
  pub store_from : ℕ → Pages → ℕ → Bytes → State → Io
  store_from zero pages address bytes s = (ok tt, s)
  store_from (suc fuel) pages address bytes s =
      if length bytes == 0 then (ok tt, s) else (elim (translate pages address) [
        | none ↦ (err blocked_by_existing_mapping, s)
        | some paddr ↦
            let chunk = min (page_size - address % page_size) (length bytes) in
            store_from fuel pages (address + chunk) (drop chunk bytes)
              (write_bytes paddr (take chunk bytes) s)
      ])

  -- The fuel is the number of bytes: each turn writes one at least.
  pub populate : ℕ → Pages → ℕ → Bytes → State → Io
  unfolding store_from
  populate limit pages vaddr bytes s =
      if not (validate_range limit pages vaddr (length bytes) false)
      then (err blocked_by_existing_mapping, s)
      else store_from (length bytes) pages vaddr bytes s

  pub write : ℕ → Pages → ℕ → Bytes → State → Io
  unfolding store_from
  write limit pages vaddr bytes s =
      if not (validate_range limit pages vaddr (length bytes) true)
      then (err blocked_by_existing_mapping, s)
      else store_from (length bytes) pages vaddr bytes s
