-- ===== src/Plugins/Sequence.antt =====
-- The sequence numbers of ForwadHttp of pkg/hot/plugins/plugins.go, where the goroutines of a connection
-- take turns between the two atomic operations on the counter.
use tcp_gateway.Prelude.{
  ℕ, zero, suc, ◌+◌, ◌-◌, ◌%◌, ◌^◌, ◌≤◌, ◌<◌, ◌==◌, ◌≡◌, refl, ap, ◌∙◌, List, [], ◌∷◌, length,
  arith, if◌then◌else◌,
}
use tcp_gateway.Plugins.{next_sequence}

-- The counter, how many goroutines are between the operations, and the numbers that were given, the
-- latest first.
pub record Counter : Type 0 where
  pub value : ℕ
  pub waiting : ℕ
  pub given : List ℕ

abbrev pub start : Counter
start = record { value = 0; waiting = 0; given = [] }

abbrev pub sequence_limit : ℕ
sequence_limit = 2 ^ 31 - 1 - 10000

-- CompareAndSwap and Add of a goroutine; there is no Add where none is waiting.
pub data Op : Type 0 where
  compare_and_swap : Op
  add : Op

abbrev pub add_one : ℕ → Counter → Counter
add_one zero c = c
add_one (suc k) c =
    let n = (c.value + 1) % 2 ^ 32 in record c { value = n; waiting = k; given = n ∷ c.given }

unfoldable pub perform : Op → Counter → Counter
perform compare_and_swap c = record c {
  value = if c.value == sequence_limit then 0 else c.value;
  waiting = suc c.waiting;
}
perform add c = add_one c.waiting c

unfoldable pub run : List Op → Counter → Counter
run [] c = c
run (o ∷ os) c = run os (perform o c)

-- The two operations at once are those of the model of ForwadHttp.
next_sequence-eq :
    (n : ℕ) (given : List ℕ)
    → (run (compare_and_swap ∷ add ∷ []) (record { value = n; waiting = 0; given = given })).given
      ≡ next_sequence n ∷ given
unfolding run perform next_sequence
next_sequence-eq n given = refl

-- The operations of n requests, one after the other.
abbrev pub in_turn : ℕ → List Op
in_turn zero = []
in_turn (suc n) = compare_and_swap ∷ add ∷ in_turn n

-- The numbers of n requests, the latest first: from 1 to the limit, and then from 1 again.
abbrev pub cyclic : ℕ → List ℕ
cyclic zero = []
cyclic (suc n) = (n % sequence_limit + 1) ∷ cyclic n

-- The last number that was given.
abbrev last : ℕ → ℕ
last zero = 0
last (suc n) = n % sequence_limit + 1

after : ℕ → Counter
after n = record { value = last n; waiting = 0; given = cyclic n }

one_more : (n : ℕ) → ((if last n == sequence_limit then 0 else last n) + 1) % 2 ^ 32 ≡ last (suc n)
one_more zero = refl
one_more (suc n) = ground arith

turn-after : (n : ℕ) → perform add (perform compare_and_swap (after n)) ≡ after (suc n)
unfolding perform after
turn-after n = ap (λ x. record { value = x; waiting = 0; given = x ∷ cyclic n }) (one_more n)

run-in_turn : (n m : ℕ) → run (in_turn n) (after m) ≡ after (n + m)
unfolding run
run-in_turn zero m = ap after (omega arith)
run-in_turn (suc n) m =
    ap (run (in_turn n)) (turn-after m) ∙ run-in_turn n (suc m) ∙ ap after (omega arith)

-- To any number of requests of a connection, each of which ends its two operations before the next one
-- begins, are given the numbers from 1 to the limit, then from 1 on again, and so on.
pub run-cyclic : (n : ℕ) → (run (in_turn n) start).given ≡ cyclic n
unfolding after
run-cyclic n = ap (λ c. c.given) (run-in_turn n 0) ∙ ap cyclic (omega arith)

add_one_escaped :
    (w : ℕ) (c : Counter)
    → sequence_limit < c.value
    → c.value + 1 < 2 ^ 32
    → (sequence_limit < (add_one w c).value) × ((add_one w c).value ≤ c.value + 1)
add_one_escaped zero c h k = (h, omega arith)
add_one_escaped (suc w) c h k = (omega arith, omega arith)

perform-escaped :
    (o : Op) (c : Counter)
    → sequence_limit < c.value
    → c.value + 1 < 2 ^ 32
    → (sequence_limit < (perform o c).value) × ((perform o c).value ≤ c.value + 1)
unfolding perform
perform-escaped compare_and_swap c h k = (ground arith, ground arith)
perform-escaped add c h k = add_one_escaped c.waiting c h k

-- A counter that has passed its limit is not reset any more: it stays above the limit until it has run
-- through all of uint32.
pub run-escaped :
    (os : List Op) (c : Counter)
    → sequence_limit < c.value
    → c.value + length os < 2 ^ 32
    → sequence_limit < (run os c).value
unfolding run
run-escaped [] c h k = h
run-escaped (o ∷ os) c h k =
    let (a, b) = perform-escaped o c h (omega arith) in
    run-escaped os (perform o c) a (omega (arith, b))
