-- ===== src/Fifos/Named/Lookup.antt =====
-- A fifo that has been created by name is found by it.
use rtai.Base.{
  ℕ, zero, suc, ◌+◌, ◌≤◌, ◌<◌, ◌≡◌, refl, ap, sym, ◌∙◌, List, [], ◌∷◌, arith, length, take,
  take-nil, Bool, true, false, Bool-cases, inl, inr, not, ◌&&◌, ◌==◌, ltb, Option, none, some,
  ==_self,
}
use rtai.Base.Int.{pos}
use rtai.Fifos.State.{Fifo, Fifos, max_fifos}
use rtai.Fifos.State.Frames.{field-set_fifo}
use rtai.Fifos.Lifetime.{set_up, set_opncnt, new_buffer}
use rtai.Fifos.Lifetime.Created.{label, label-set_up, rtf_create-new}
use rtai.Fifos.Named.{
  same_name, set_name, unused, find_unused, find_name, rtf_getfifobyname, rtf_namelen, create_as,
  rtf_named_create,
}

and_false : (b : Bool) → (b && false) ≡ false
and_false true = refl
and_false false = refl

and_left : (a b : Bool) → (a && b) ≡ true → a ≡ true
and_left true b h = refl
and_left false b h = h

same_name_self : (n : ℕ) (a : List ℕ) → same_name n a a ≡ true
unfolding same_name
same_name_self zero a = refl
same_name_self (suc n) [] = refl
same_name_self (suc n) (x ∷ a) = rw (==_self x) (same_name_self n a)

-- The first fifo that is unused; those before it have other names.
record First (m left : ℕ) (name : List ℕ) (s : Fifos) (i : ℕ) : Type 0 where
  at_least : m ≤ i
  below : i < m + left
  is_unused : unused (s.fifo i) ≡ true
  others : (j : ℕ) → m ≤ j → j < i → same_name rtf_namelen name (s.fifo j).name ≡ false

find_unused-First :
    (left m : ℕ) (name : List ℕ) (s : Fifos) (i : ℕ)
    → find_unused left m name s ≡ some i
    → First m left name s i
unfolding find_unused
find_unused-First zero m name s i h = cc
find_unused-First (suc left) m name s i h =
    let x = s.fifo m in
    elim (Bool-cases (same_name rtf_namelen name x.name)) [
      | inl same ↦
          let e : find_unused (suc left) m name s ≡ none = rw (same, find_unused) refl in
          absurd (cc)
      | inr differ ↦ elim (Bool-cases (unused x)) [
        | inl here ↦
            let e : find_unused (suc left) m name s ≡ some m =
              rw (differ, here, find_unused) refl in
            let same : m ≡ i = cc in
            record {
              at_least = omega arith;
              below = omega arith;
              is_unused = ap (λ k. unused (s.fifo k)) (sym same) ∙ here;
              others = λ j a b. absurd (omega arith);
            }
        | inr used ↦
            let e : find_unused (suc left) m name s ≡ find_unused left (m + 1) name s =
              rw (differ, used, find_unused) refl in
            let rest = find_unused-First left (m + 1) name s i (sym e ∙ h) in
            record {
              at_least = omega (arith, rest.at_least);
              below = omega (arith, rest.below);
              is_unused = rest.is_unused;
              others = λ j a b. elim (Bool-cases (m == j)) [
                | inl e ↦
                    let same : m ≡ j = ground arith in
                    ap (λ k. same_name rtf_namelen name (s.fifo k).name) (sym same) ∙ differ
                | inr ne ↦ rest.others j (ground arith) b
              ];
            }
      ]
    ]

find_name-first :
    (left m : ℕ) (name : List ℕ) (s : Fifos) (i : ℕ)
    → m ≤ i
    → i < m + left
    → (not ((s.fifo i).opncnt == 0) && same_name rtf_namelen name (s.fifo i).name) ≡ true
    → ((j : ℕ) → m ≤ j → j < i → same_name rtf_namelen name (s.fifo j).name ≡ false)
    → find_name left m name s ≡ some i
unfolding find_name
find_name-first zero m name s i h k found others = absurd (omega arith)
find_name-first (suc left) m name s i h k found others = elim (Bool-cases (m == i)) [
  | inl e ↦
      let same : m ≡ i = ground arith in
      let here =
        ap (λ k. not ((s.fifo k).opncnt == 0) && same_name rtf_namelen name (s.fifo k).name) same
        ∙ found in
      rw (here, find_name) (ap some same)
  | inr ne ↦
      let later : m < i = ground arith in
      let differ = others m (omega arith) later in
      rw (skip (s.fifo m) differ, find_name)
        (find_name-first left (m + 1) name s i (omega arith) (omega arith) found
          (λ j a b. others j (omega arith) b))
]
  where
    skip :
        (x : Fifo)
        → same_name rtf_namelen name x.name ≡ false
        → (not (x.opncnt == 0) && same_name rtf_namelen name x.name) ≡ false
    skip x d = rw d (and_false (not (x.opncnt == 0)))

unused-closed : (x : Fifo) → unused x ≡ true → x.opncnt ≡ 0
unfolding unused
unused-closed x h = let closed : (x.opncnt == 0) ≡ true = and_left _ _ h in ground arith

take-short : (n : ℕ) (xs : List ℕ) → length xs ≤ n → take n xs ≡ xs
take-short n [] h = take-nil n
take-short zero (x ∷ xs) h = absurd (omega arith)
take-short (suc n) (x ∷ xs) h = ap (◌∷◌ x) (take-short n xs (omega arith))

-- the states between the choice of a fifo and its set-up
abbrev labelled : ℕ → List ℕ → Fifos → Fifos
labelled i name s = set_opncnt i 1 (set_name i name s)

label-labelled_self :
    (i : ℕ) (name : List ℕ) (s : Fifos) → label ((labelled i name s).fifo i) ≡ (name, 1)
label-labelled_self i name s = rw (==_self i) refl

label-labelled_ne :
    (i j : ℕ) (name : List ℕ) (s : Fifos)
    → j < i
    → label ((labelled i name s).fifo j) ≡ label (s.fifo j)
label-labelled_ne i j name s h = let ne : (i == j) ≡ false = ground arith in rw ne refl

module _ (schedule : Fifos → Bool × Fifos) (schedule_timeout : ℕ → Fifos → Bool × Fifos)
    (kmalloc vmalloc : ℕ → Option (List ℕ)) where
  -- rtf_named_create with a name of at most RTF_NAMELEN characters, when there is an unused fifo before
  -- any of that name, and memory for the buffer: it returns the number of the fifo, and then
  -- rtf_getfifobyname of the name returns the same number.
  pub rtf_getfifobyname-rtf_named_create :
      (fuel i size : ℕ) (name buf : List ℕ) (s : Fifos)
      → length name ≤ rtf_namelen
      → find_unused max_fifos 0 name s ≡ some i
      → new_buffer kmalloc vmalloc size ≡ some buf
      → (t : Fifos) × (rtf_named_create schedule schedule_timeout kmalloc vmalloc fuel name size s
          ≡ some (pos i, t))
        × (rtf_getfifobyname name t ≡ pos i)
  unfolding rtf_named_create create_as rtf_getfifobyname
  rtf_getfifobyname-rtf_named_create fuel i size name buf s short free memory =
      let f = find_unused-First max_fifos 0 name s i free in
      let stored = take (rtf_namelen + 1) name in
      let a = set_name i stored s in
      let t = set_up i size buf (labelled i stored s) in
      let same : stored ≡ name = take-short (rtf_namelen + 1) name (omega arith) in
      let closed =
        field-set_fifo (λ x. x.opncnt) (record (s.fifo i) { name = stored }) s i i refl
        ∙ unused-closed (s.fifo i) f.is_unused in
      let made =
        rtf_create-new schedule schedule_timeout kmalloc vmalloc fuel i size buf a
          (omega (arith, f.below)) closed memory in
      let here = label-set_up i size buf (labelled i stored s) i ∙ label-labelled_self i stored s in
      let found =
        ap (λ l. not (l.1 == 0) && same_name rtf_namelen name l.0) here
        ∙ ap (same_name rtf_namelen name) same
        ∙ same_name_self rtf_namelen name in
      let others = λ (j : ℕ) (p : 0 ≤ j) (q : j < i).
        ap (λ l. same_name rtf_namelen name l.0)
          (label-set_up i size buf (labelled i stored s) j ∙ label-labelled_ne i j stored s q)
        ∙ f.others j p q in
      let fits : ltb rtf_namelen (length name) ≡ false = ground arith in
      let first = find_name-first max_fifos 0 name t i f.at_least f.below found others in
      (
        t,
        rw (fits, free, made, rtf_named_create, create_as) refl,
        rw (fits, first, rtf_getfifobyname) refl,
      )
