-- ===== src/Fifos/Named.antt =====
-- src/ipc/fifos/fifos.c: fifos with a name. A name is the list of its characters up to the
-- terminating zero.
pub mod Lookup
use rtai.Base.{
  ℕ, zero, suc, ◌+◌, ◌==◌, ltb, length, take, List, [], ◌∷◌, Bool, true, false, not, ◌&&◌,
  if◌then◌else◌, Option, none, some,
}
use rtai.Base.Int.{ℤ, pos, ltb_ℤ}
use rtai.Fifos.State.{Fifo, Fifos, set_fifo, max_fifos}
use rtai.Fifos.Service.{einval, enodev, ebusy}
use rtai.Fifos.Lifetime.{rtf_create}

abbrev pub rtf_namelen : ℕ
rtf_namelen = 15

-- !strncmp(a, b, n)
unfoldable pub same_name : ℕ → List ℕ → List ℕ → Bool
same_name zero a b = true
same_name (suc n) [] [] = true
same_name (suc n) [] (y ∷ b) = false
same_name (suc n) (x ∷ a) [] = false
same_name (suc n) (x ∷ a) (y ∷ b) = (x == y) && same_name n a b

abbrev pub set_name : ℕ → List ℕ → Fifos → Fifos
set_name i name s = set_fifo i (record (s.fifo i) { name = name }) s

-- !fifo[minor].opncnt && !fifo[minor].name[0]
unfoldable pub unused : Fifo → Bool
unused x = (x.opncnt == 0) && elim x.name [ [] ↦ true | c ∷ name ↦ false ]

-- The loop of rtf_named_create, with `left` fifos to look at: the one to be created.
unfoldable pub find_unused : ℕ → ℕ → List ℕ → Fifos → Option ℕ
find_unused zero minor name s = none
find_unused (suc left) minor name s = elim (same_name rtf_namelen name (s.fifo minor).name) [
  | true ↦ none
  | false ↦ elim (unused (s.fifo minor)) [
    | true ↦ some minor
    | false ↦ find_unused left (minor + 1) name s
  ]
]

-- The loop of rtf_getfifobyname.
pub find_name : ℕ → ℕ → List ℕ → Fifos → Option ℕ
find_name zero minor name s = none
find_name (suc left) minor name s =
    let x = s.fifo minor in
    elim (not (x.opncnt == 0) && same_name rtf_namelen name x.name) [
      | true ↦ some minor
      | false ↦ find_name left (minor + 1) name s
    ]

pub rtf_getfifobyname : List ℕ → Fifos → ℤ
rtf_getfifobyname name s =
    if ltb rtf_namelen (length name)
    then einval
    else elim (find_name max_fifos 0 name s) [ none ↦ enodev | some minor ↦ pos minor ]

module _ (schedule : Fifos → Bool × Fifos) (schedule_timeout : ℕ → Fifos → Bool × Fifos)
    (kmalloc vmalloc : ℕ → Option (List ℕ)) where
  -- what follows when a fifo to be created has been found
  pub create_as : ℕ → ℕ → List ℕ → ℕ → Fifos → Option (ℤ × Fifos)
  create_as fuel minor name size s =
      elim (rtf_create schedule schedule_timeout kmalloc vmalloc fuel minor size
        (set_name minor (take (rtf_namelen + 1) name) s)) [
          | none ↦ none
          | some r ↦
              if ltb_ℤ r.0 (pos 0) then some (r.0, set_name minor [] r.1) else some (pos minor, r.1)
        ]

  pub rtf_named_create : ℕ → List ℕ → ℕ → Fifos → Option (ℤ × Fifos)
  rtf_named_create fuel name size s = elim (ltb rtf_namelen (length name)) [
    | true ↦ some (einval, s)
    | false ↦ elim (find_unused max_fifos 0 name s) [
      | none ↦ some (ebusy, s)
      | some minor ↦ create_as fuel minor name size s
    ]
  ]

  -- DEFAULT_SIZE is 1000.
  pub rtf_create_named : ℕ → List ℕ → Fifos → Option (ℤ × Fifos)
  rtf_create_named fuel name s = rtf_named_create fuel name 1000 s
