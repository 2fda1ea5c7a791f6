-- ===== src/Fifos/State/Queue.antt =====
-- The arrays taskq and pol_asyn_q as queues of what is to be woken: at most 63 entries find a place.
use rtai.Base.{
  ℕ, zero, suc, ◌+◌, ◌-◌, ◌%◌, ◌≤◌, ◌<◌, ◌≡◌, ◌≢◌, refl, ap, ap₂, ◌∙◌, List, [], ◌∷◌, ◌++◌, arith,
  length, length-set, get_or, set, get_or-set_self, get_or-set_ne,
}
use rtai.Fifos.State.{Pending, push, head_of, advance}

pub record InBounds (q : Pending) : Type 0 where
  pub first : q.out_at < 64
  pub next : q.in_at < 64
  pub places : length q.entries ≡ 64

pub distance : ℕ → ℕ → ℕ
distance out in_at = (in_at + 64 - out) % 64

pub count : Pending → ℕ
count q = distance q.out_at q.in_at

-- n entries from a place on
pub run : List ℕ → ℕ → ℕ → List ℕ
run e out zero = []
run e out (suc n) = get_or e out 0 ∷ run e ((out + 1) % 64) n

pub to_wake : Pending → List ℕ
to_wake q = run q.entries q.out_at (count q)

distance-bound : (out i : ℕ) → distance out i < 64
unfolding distance
distance-bound out i = omega arith

distance-next :
    (out i : ℕ)
    → out < 64
    → i < 64
    → 0 < distance out i
    → distance ((out + 1) % 64) i + 1 ≡ distance out i
unfolding distance
distance-next out i ho hi h = omega arith

distance_ne : (out i : ℕ) → 0 < distance out i → i < 64 → i ≢ out
unfolding distance
distance_ne out i h hi e = absurd (omega arith)

run-set :
    (e : List ℕ) (x out i n : ℕ)
    → out < 64
    → i < 64
    → n ≤ distance out i
    → run (set e i x) out n ≡ run e out n
unfolding run
run-set e x out i zero ho hi h = refl
run-set e x out i (suc n) ho hi h =
    ap₂ (◌∷◌) (get_or-set_ne e x 0 (distance_ne out i (omega arith) hi)) (
      run-set e x ((out + 1) % 64) i n (omega arith) hi
        (omega (arith, distance-next out i ho hi (omega arith))))

run-snoc :
    (e : List ℕ) (out n : ℕ)
    → out < 64
    → run e out (suc n) ≡ run e out n ++ (get_or e ((out + n) % 64) 0 ∷ [])
unfolding run
run-snoc e out zero h = ap (λ k. get_or e k 0 ∷ []) (omega arith)
run-snoc e out (suc n) h = ap (◌∷◌ (get_or e out 0)) (
    run-snoc e ((out + 1) % 64) n (omega arith)
    ∙ ap (λ k. run e ((out + 1) % 64) n ++ (get_or e k 0 ∷ [])) (omega arith))

distance-last : (out i : ℕ) → out < 64 → i < 64 → (out + distance out i) % 64 ≡ i
unfolding distance
distance-last out i ho hi = omega arith

distance-push :
    (out i : ℕ)
    → out < 64
    → i < 64
    → distance out i < 63
    → distance out ((i + 1) % 64) ≡ suc (distance out i)
unfolding distance
distance-push out i ho hi h = omega arith

distance-full :
    (out i : ℕ) → out < 64 → i < 64 → distance out i ≡ 63 → distance out ((i + 1) % 64) ≡ 0
unfolding distance
distance-full out i ho hi h = omega arith

pub push-InBounds : (x : ℕ) (q : Pending) → InBounds q → InBounds (push x q)
unfolding push
push-InBounds x q b = record {
  first = b.first;
  next = omega arith;
  places = length-set q.entries q.in_at x ∙ b.places;
}

-- What becomes of the processes to be woken when one more is entered. With less than 63 of them the
-- new one is the last; with 63 the array is empty afterwards, and all are lost.
pub to_wake-push :
    (x : ℕ) (q : Pending)
    → InBounds q
    → (count q < 63 → to_wake (push x q) ≡ to_wake q ++ (x ∷ []))
      × (count q ≡ 63 → to_wake (push x q) ≡ [])
unfolding push to_wake count run
to_wake-push x q b =
    let e = set q.entries q.in_at x in
    (
      λ room.
          ap (run e q.out_at) (distance-push q.out_at q.in_at b.first b.next room)
          ∙ run-snoc e q.out_at (count q) b.first
          ∙ ap₂ (λ l v. l ++ (v ∷ []))
              (run-set q.entries x q.out_at q.in_at (count q) b.first b.next (omega arith))
              (ap (λ k. get_or e k 0) (distance-last q.out_at q.in_at b.first b.next)
                ∙ get_or-set_self q.entries q.in_at x 0 (omega (arith, b.places))),
      λ full. ap (run e q.out_at) (distance-full q.out_at q.in_at b.first b.next full),
    )

-- the two ends of a queue
pub count-none : (q : Pending) → InBounds q → q.out_at ≡ q.in_at → count q ≡ 0
unfolding count distance
count-none q b e = omega arith

count-some : (q : Pending) → InBounds q → q.out_at ≢ q.in_at → 0 < count q
unfolding count distance
count-some q b e = omega arith

pub record Advanced (q : Pending) : Type 0 where
  pub bounds : InBounds (advance q)
  pub shorter : count (advance q) + 1 ≡ count q
  pub first : to_wake q ≡ head_of q ∷ to_wake (advance q)

pub advance-Advanced : (q : Pending) → InBounds q → q.out_at ≢ q.in_at → Advanced q
unfolding advance head_of to_wake count run
advance-Advanced q b e =
    let next = distance-next q.out_at q.in_at b.first b.next (count-some q b e) in
    record {
      bounds = record { first = omega arith; next = b.next; places = b.places };
      shorter = next;
      first =
          ap (run q.entries q.out_at) {y = suc (distance ((q.out_at + 1) % 64) q.in_at)}
            (omega (arith, next));
    }

pub count-bound : (q : Pending) → count q < 64
unfolding count
count-bound q = distance-bound q.out_at q.in_at

pub to_wake-none : (q : Pending) → InBounds q → q.out_at ≡ q.in_at → to_wake q ≡ []
unfolding to_wake run
to_wake-none q b e = ap (run q.entries q.out_at) (count-none q b e)
