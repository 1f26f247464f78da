-- ===== src/Registry/Subscribers.antt =====
-- What the channel loops of internal/registry/registry.go do, by counts of each channel.
use tripflare.Base.{
  ltb, ◌==◌, if◌then◌else◌, Bool-cases, Option-cases, length, Outcome, ret, then_do_of_ret, ℕ, ◌+◌,
  ◌≤◌, ◌≡◌, refl, ◌∙◌, inl, inr, Bool, true, false, none, some, List, [], ◌∷◌, ◌++◌, arith,
}
use tripflare.Registry.Types.{Event, Chans}
use tripflare.Registry.Channels.{
  subscriber_capacity, set_chan, close_chan, try_send, close_all, send_all, remove_subscriber,
}

abbrev pub count : ℕ → List ℕ → ℕ
count c [] = 0
count c (d ∷ ds) = (if d == c then 1 else 0) + count c ds

abbrev pub flag : Bool → ℕ
flag true = 1
flag false = 0

-- c is closed
abbrev pub closed_at : Chans → ℕ → ℕ
closed_at chans c = flag (chans c).closed

pub count-append : (c : ℕ) (xs ys : List ℕ) → count c (xs ++ ys) ≡ count c xs + count c ys
count-append c [] ys = omega arith
count-append c (d ∷ ds) ys = omega (arith, count-append c ds ys)

-- Every channel of `cs` is open and stands in it once.
abbrev pub Open : List ℕ → Chans → Type 0
Open cs chans = (c : ℕ) → count c cs + closed_at chans c ≤ 1

Open-head : (c : ℕ) (cs : List ℕ) (chans : Chans) → Open (c ∷ cs) chans → (chans c).closed ≡ false
Open-head c cs chans h = ground (arith, h c)

-- what closing the channels of `cs` leaves
pub record IsClosed (cs : List ℕ) (chans : Chans) (r : Outcome (Unit {0}) × Chans) : Type 0 where
  pub returns : r.0 ≡ ret tt
  pub closes : (c : ℕ) → closed_at r.1 c ≡ closed_at chans c + count c cs
  pub keeps : (c : ℕ) → (r.1 c).buffer ≡ (chans c).buffer

-- Closing open channels does not panic: it closes them, and no other.
pub close_all-IsClosed :
    (cs : List ℕ) (chans : Chans) → Open cs chans → IsClosed cs chans (close_all cs chans)
unfolding close_all close_chan set_chan
close_all-IsClosed [] chans h = record {
  returns = refl;
  closes = λ c. omega arith;
  keeps = λ c. refl;
}
close_all-IsClosed (c ∷ cs) chans h =
    let chans' = set_chan chans c (record (chans c) { closed = true }) in
    let free = Open-head c cs chans h in
    let h' : Open cs chans' = λ d. ground (arith, h d) in
    let ih = close_all-IsClosed cs chans' h' in
    rw free (record {
      returns = ih.returns;
      closes = λ d. ground (arith, ih.closes d);
      keeps = λ d. ih.keeps d ∙ ground arith;
    })

-- what an open channel does with an event: it drops it if its buffer is full
abbrev pub offer : Event → List Event → List Event
offer ev buffer = if ltb (length buffer) subscriber_capacity then buffer ++ ev ∷ [] else buffer

pub record IsSent (cs : List ℕ) (ev : Event) (chans : Chans) (r : Outcome (Unit {0}) × Chans)
    : Type 0 where
  pub returns : r.0 ≡ ret tt
  pub closes : (c : ℕ) → (r.1 c).closed ≡ (chans c).closed
  pub offers :
      (c : ℕ)
      → (r.1 c).buffer
        ≡ (if ltb 0 (count c cs) then offer ev (chans c).buffer else (chans c).buffer)

record IsOffered (c : ℕ) (ev : Event) (chans : Chans) (r : Outcome (Unit {0}) × Chans)
    : Type 0 where
  returns : r.0 ≡ ret tt
  closes : (d : ℕ) → (r.1 d).closed ≡ (chans d).closed
  offers :
      (d : ℕ) → (r.1 d).buffer ≡ (if c == d then offer ev (chans d).buffer else (chans d).buffer)

try_send-IsOffered :
    (c : ℕ) (ev : Event) (chans : Chans)
    → (chans c).closed ≡ false
    → IsOffered c ev chans (try_send c ev chans)
unfolding try_send set_chan
try_send-IsOffered c ev chans free =
    rw free
      (record { returns = ground arith; closes = λ d. ground arith; offers = λ d. ground arith })

-- Sending to open channels does not panic: each is offered the event once, and no other changes.
pub send_all-IsSent :
    (cs : List ℕ) (ev : Event) (chans : Chans)
    → Open cs chans
    → IsSent cs ev chans (send_all cs ev chans)
unfolding send_all
send_all-IsSent [] ev chans h = record { returns = refl; closes = λ c. refl; offers = λ c. refl }
send_all-IsSent (c ∷ cs) ev chans h =
    let step = try_send-IsOffered c ev chans (Open-head c cs chans h) in
    let chans' = (try_send c ev chans).1 in
    let h' : Open cs chans' = λ d. ground (arith, h d, step.closes d) in
    let ih = send_all-IsSent cs ev chans' h' in
    rw (then_do_of_ret (try_send c ev chans) tt _ step.returns) (record {
      returns = ih.returns;
      closes = λ d. ih.closes d ∙ step.closes d;
      offers = λ d. ground (arith, h d, ih.offers d, step.offers d);
    })

pub record IsRemoved (sub : ℕ) (cs rest : List ℕ) : Type 0 where
  pub counts : (c : ℕ) → count c cs ≡ (if sub == c then 1 else 0) + count c rest

pub remove_subscriber-some :
    (sub : ℕ) (cs rest : List ℕ) → remove_subscriber sub cs ≡ some rest → IsRemoved sub cs rest
unfolding remove_subscriber
remove_subscriber-some sub [] rest h = cc
remove_subscriber-some sub (c ∷ cs) rest h = elim (Bool-cases (c == sub)) [
  | inl here ↦ record { counts = λ d. ground arith }
  | inr there ↦ elim (Option-cases (remove_subscriber sub cs)) [
    | inl absent ↦ ground arith
    | inr (rest', found) ↦
        let ih = remove_subscriber-some sub cs rest' found in
        record { counts = λ d. ground (arith, ih.counts d) }
  ]
]

pub remove_subscriber-none :
    (sub : ℕ) (cs : List ℕ) → remove_subscriber sub cs ≡ none → count sub cs ≡ 0
unfolding remove_subscriber
remove_subscriber-none sub [] h = refl
remove_subscriber-none sub (c ∷ cs) h = ground (arith, remove_subscriber-none sub cs)
