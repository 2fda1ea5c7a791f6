-- ===== src/Fifos/Lifetime/Created.antt =====
-- What rtf_create leaves of names and of the other fifos.
use rtai.Base.{
  ℕ, ◌+◌, ◌<◌, ◌≡◌, refl, ◌∙◌, List, arith, Bool, true, false, Option, none, some, ◌==◌, leb,
}
use rtai.Base.Int.{pos}
use rtai.Fifos.State.{Fifo, Fifos, SemOf, set_fifo, max_fifos, snd_of, rcv_of, sem_of}
use rtai.Fifos.State.Frames.{field-set_fifo}
use rtai.Fifos.Block.{mbx_sem_init, set_waiting}
use rtai.Fifos.Block.Frames.{field-mbx_sem_init}
use rtai.Fifos.Lifetime.{set_up, mbx_init, malloc_type_of, rtf_create, new_buffer, set_opncnt}

-- what a name is looked up by
abbrev pub label : Fifo → List ℕ × ℕ
label x = (x.name, x.opncnt)

label-mbx_sem_init :
    (at : SemOf) (value : ℕ) (s : Fifos) (i : ℕ)
    → label ((mbx_sem_init at value s).fifo i) ≡ label (s.fifo i)
label-mbx_sem_init at value s i =
    field-mbx_sem_init label (λ x y. refl) (λ x y. refl) (λ x y. refl) at value s i

label-mbx_init :
    (j size : ℕ) (buf : List ℕ) (s : Fifos) (i : ℕ)
    → label ((mbx_init j size buf s).fifo i) ≡ label (s.fifo i)
unfolding mbx_init
label-mbx_init j size buf s i =
    let a = mbx_sem_init (snd_of j) 1 s in
    let b = mbx_sem_init (rcv_of j) 1 a in
    let c = set_waiting j none b in
    field-set_fifo label _ c j i refl
    ∙ field-set_fifo label _ b j i refl
    ∙ label-mbx_sem_init (rcv_of j) 1 a i
    ∙ label-mbx_sem_init (snd_of j) 1 s i

pub label-set_up :
    (j size : ℕ) (buf : List ℕ) (s : Fifos) (i : ℕ)
    → label ((set_up j size buf s).fifo i) ≡ label (s.fifo i)
unfolding set_up
label-set_up j size buf s i =
    let x : Fifo = record (s.fifo j) { malloc_type = malloc_type_of size; handler = 1 } in
    let a : Fifos = set_fifo j x s in
    let b = mbx_init j size buf a in
    let c = mbx_sem_init (sem_of j) 0 b in
    field-set_fifo label _ (record c { live = c.live + 1 }) j i refl
    ∙ label-mbx_sem_init (sem_of j) 0 b i
    ∙ label-mbx_init j size buf a i
    ∙ field-set_fifo label x s j i refl

module _ (schedule : Fifos → Bool × Fifos) (schedule_timeout : ℕ → Fifos → Bool × Fifos)
    (kmalloc vmalloc : ℕ → Option (List ℕ)) where
  -- A fifo that is not open is set up.
  pub rtf_create-new :
      (fuel i size : ℕ) (buf : List ℕ) (s : Fifos)
      → i < max_fifos
      → (s.fifo i).opncnt ≡ 0
      → new_buffer kmalloc vmalloc size ≡ some buf
      → rtf_create schedule schedule_timeout kmalloc vmalloc fuel i size s
        ≡ some (pos 0, set_up i size buf (set_opncnt i 1 s))
  unfolding rtf_create
  rtf_create-new fuel i size buf s valid closed memory =
      let in_range : leb max_fifos i ≡ false = ground arith in
      let first : ((s.fifo i).opncnt == 0) ≡ true = ground arith in
      rw (in_range, first, memory, rtf_create) refl
