-- ===== src/Sender/Cuts.antt =====
-- sender.rs: the messages that the loop of `Sender::do_send` makes of data.
use remoc.Base.{
  ℕ, zero, suc, ◌+◌, ◌-◌, ◌%◌, ◌^◌, ◌≤◌, ◌<◌, ◌≡◌, refl, ap, min, max, Bool, false, Option, none,
  some, List, [], ◌∷◌, ◌++◌, length, take, take-append-drop, length-append, All, arith,
}
use remoc.Msg.Types.{DataCredits}
use remoc.Credit.Assigned.{AssignedCredits, available, take_mixed, take_loop, add_global, add_port}
use remoc.Credit.Spend.{held_port, held_global, take_mixed-Spent}
use remoc.Sender.Data.{
  SendData, Sending, all_sent, waits, panicked, out_of_fuel, is_nil, before, cut, send_chunk,
  after_chunk, send_loop,
}

-- Assigned credits as a request gives them: at least one, none of them empty, a 32-bit sum.
abbrev pub IsFull : List AssignedCredits → Type 0
IsFull q = All (λ ac. 1 ≤ ac.credits) q × (held_port q + held_global q < 2 ^ 32)

abbrev pub IsGrant : List AssignedCredits → Type 0
IsGrant q = IsFull q × (1 ≤ held_port q + held_global q)

abbrev LeftFull : Option (List AssignedCredits × ℕ × ℕ) → Type 0
LeftFull none = Unit {0}
LeftFull (some (q, global, port)) = All (λ ac. 1 ≤ ac.credits) q

take_loop-LeftFull :
    (q : List AssignedCredits) (credits global port : ℕ)
    → All (λ ac. 1 ≤ ac.credits) q
    → LeftFull (take_loop q credits global port)
unfolding take_loop
take_loop-LeftFull [] credits global port h = ground arith
take_loop-LeftFull (ac ∷ q) credits global port h =
    let n = min ac.credits credits in
    ground (
      arith,
      take_loop-LeftFull q (credits - n) (add_global ac.pool n global) (add_port ac.pool n port)
          h.1,
    )

available_lem :
    (q : List AssignedCredits)
    → held_port q + held_global q < 2 ^ 32
    → available q ≡ held_port q + held_global q
available_lem [] h = omega arith
available_lem (ac ∷ q) h = ground (arith, available_lem q)

-- Taking no more than there is: the rest of the credits is full again, and smaller by that.
abbrev pub TakenFull :
    List AssignedCredits → ℕ → Option (List AssignedCredits × DataCredits) → Type 0
TakenFull q n none = ⊥
TakenFull q n (some (q', credits)) = IsFull q'

pub take_mixed-TakenFull :
    (q : List AssignedCredits) (n : ℕ)
    → IsFull q
    → 1 ≤ n
    → n ≤ held_port q + held_global q
    → TakenFull q n (take_mixed q n)
unfolding take_mixed
take_mixed-TakenFull q n h k l =
    let e : max n 1 ≡ n = omega arith in
    ground (arith, take_loop-LeftFull q n 0 0 h.0, rw e at (take_mixed-Spent q n))

pub full-IsGrant :
    (ac : AssignedCredits) (q : List AssignedCredits) → IsFull (ac ∷ q) → IsGrant (ac ∷ q)
full-IsGrant ac q h = ground (arith, h)

module _ {ℓ} {A : Type ℓ} where
  abbrev pub bytes_of : List (SendData A) → List A
  bytes_of [] = []
  bytes_of (msg ∷ msgs) = msg.bytes ++ bytes_of msgs

  -- One message to the receiver: the flags at its start and end, and chunks within a size.
  abbrev pub IsCut : ℕ → Bool → List (SendData A) → Type 0
  IsCut chunk_size first [] = Unit {0}
  IsCut chunk_size first (msg ∷ msgs) =
      (msg.first ≡ first)
      × (msg.last ≡ is_nil msgs)
      × (length msg.bytes ≤ chunk_size)
      × IsCut chunk_size false msgs

  abbrev pub Sends : ℕ → Bool → List A → Sending A → Type ℓ
  Sends chunk_size first data' (all_sent msgs) =
      (bytes_of msgs ≡ data') × IsCut chunk_size first msgs × All (λ msg. 1 ≤ length msg.bytes) msgs
  Sends chunk_size first data' (waits msgs) = ⊥ × Unit {ℓ}
  Sends chunk_size first data' panicked = ⊥ × Unit {ℓ}
  Sends chunk_size first data' out_of_fuel = ⊥ × Unit {ℓ}

  pub length-take : (n : ℕ) (xs : List A) → n ≤ length xs → length (take n xs) ≡ n
  length-take zero xs h = refl
  length-take (suc n) [] h = absurd (omega (arith, h))
  length-take (suc n) (x ∷ xs) h = omega (arith, length-take n xs (omega (arith, h)))

  -- What a round gives: a chunk that is not empty, and the rest of the data and of the credits.
  abbrev pub Chunk :
      ℕ → Bool → List A → Option (SendData A × List A × List AssignedCredits) → Type ℓ
  Chunk chunk_size first data' none = ⊥ × Unit {ℓ}
  Chunk chunk_size first data' (some (msg, rest, credits)) =
      (msg.bytes ++ rest ≡ data')
      × (msg.first ≡ first)
      × (msg.last ≡ is_nil rest)
      × (1 ≤ length msg.bytes)
      × (length msg.bytes ≤ chunk_size)
      × IsFull credits

  cut-Chunk :
      (chunk_size at : ℕ) (first : Bool) (data' : List A) (q : List AssignedCredits)
      (taken : Option (List AssignedCredits × DataCredits))
      → 1 ≤ at
      → at ≤ chunk_size
      → at ≤ length data'
      → TakenFull q at taken
      → Chunk chunk_size first data' (cut at data' first taken)
  cut-Chunk chunk_size at first data' q none h k l t = (t, tt)
  cut-Chunk chunk_size at first data' q (some (q', taken)) h k l t =
      ground (arith, take-append-drop at data', length-take at data' l, t)

  pub send_chunk-Chunk :
      (chunk_size : ℕ) (first : Bool) (data' : List A) (q : List AssignedCredits)
      → 1 ≤ chunk_size
      → 1 ≤ length data'
      → IsGrant q
      → Chunk chunk_size first data' (send_chunk chunk_size data' q first)
  send_chunk-Chunk chunk_size first data' q h k g =
      let sum = held_port q + held_global q in
      let at = min (min (length data') chunk_size) sum in
      let same : length (take at data') % 2 ^ 32 ≡ at =
        omega (arith, length-take at data' (omega arith)) in
      rw (available_lem q g.0.1, same)
        (cut-Chunk chunk_size at first data' q (take_mixed q at) (omega arith) (omega arith)
          (omega arith) (take_mixed-TakenFull q at g.0 (omega arith) (omega arith)))

  -- Messages after a first one, where the rest of the data has been sent.
  pub before-Sends :
      (chunk_size : ℕ) (first : Bool) (data' rest : List A) (msg : SendData A) (r : Sending A)
      → msg.bytes ++ rest ≡ data'
      → msg.first ≡ first
      → msg.last ≡ is_nil rest
      → 1 ≤ length msg.bytes
      → length msg.bytes ≤ chunk_size
      → Sends chunk_size false rest r
      → Sends chunk_size first data' (before msg r)
  before-Sends chunk_size first data' rest msg (all_sent []) e f l k c s =
      ground (arith, e, f, l, s)
  before-Sends chunk_size first data' [] msg (all_sent (m ∷ msgs)) e f l k c s =
      absurd (omega (arith, ap length s.0, length-append m.bytes (bytes_of msgs), s.2.0))
  before-Sends chunk_size first data' (y ∷ rest) msg (all_sent (m ∷ msgs)) e f l k c s =
      ground (arith, e, f, l, s)
  before-Sends chunk_size first data' rest msg (waits msgs) e f l k c s = s
  before-Sends chunk_size first data' rest msg panicked e f l k c s = s
  before-Sends chunk_size first data' rest msg out_of_fuel e f l k c s = s

  after_chunk-Sends :
      (chunk_size : ℕ) (first : Bool) (data' : List A)
      (chunk : Option (SendData A × List A × List AssignedCredits))
      (again : List A → List AssignedCredits → Sending A)
      → Chunk chunk_size first data' chunk
      → ((rest : List A) (q : List AssignedCredits)
          → length rest < length data'
          → IsFull q
          → Sends chunk_size false rest (again rest q))
      → Sends chunk_size first data' (after_chunk chunk again)
  after_chunk-Sends chunk_size first data' none again c go = c
  after_chunk-Sends chunk_size first data' (some (msg, rest, q)) again (e, f, l, k, m, full) go =
      before-Sends chunk_size first data' rest msg (again rest q) e f l k m
        (go rest q (omega (arith, ap length e, length-append msg.bytes rest)) full)

  pub send_loop-Sends :
      (fuel chunk_size : ℕ) (grants : List (List AssignedCredits)) (data' : List A)
      (credits : List AssignedCredits) (first : Bool)
      → 1 ≤ chunk_size
      → length data' ≤ fuel
      → length data' ≤ length grants
      → All IsGrant grants
      → IsFull credits
      → Sends chunk_size first data' (send_loop fuel chunk_size grants data' credits first)
  unfolding send_loop
  send_loop-Sends fuel chunk_size grants [] credits first h f n g c = (refl, tt, tt)
  send_loop-Sends zero chunk_size grants (x ∷ data') credits first h f n g c =
      absurd (omega (arith, f))
  send_loop-Sends (suc fuel) chunk_size [] (x ∷ data') [] first h f n g c =
      absurd (omega (arith, n))
  send_loop-Sends (suc fuel) chunk_size (granted ∷ grants) (x ∷ data') [] first h f n g c =
      after_chunk-Sends chunk_size first (x ∷ data')
        (send_chunk chunk_size (x ∷ data') granted first)
        (λ rest q. send_loop fuel chunk_size grants rest q false)
        (send_chunk-Chunk chunk_size first (x ∷ data') granted h (omega arith) g.0)
        (λ rest q l full.
          send_loop-Sends fuel chunk_size grants rest q false h (omega (arith, f, l))
            (omega (arith, n, l)) g.1 full)
  send_loop-Sends (suc fuel) chunk_size grants (x ∷ data') (ac ∷ credits) first h f n g c =
      after_chunk-Sends chunk_size first (x ∷ data')
        (send_chunk chunk_size (x ∷ data') (ac ∷ credits) first)
        (λ rest q. send_loop fuel chunk_size grants rest q false)
        (send_chunk-Chunk chunk_size first (x ∷ data') (ac ∷ credits) h (omega arith)
          (full-IsGrant ac credits c))
        (λ rest q l full.
          send_loop-Sends fuel chunk_size grants rest q false h (omega (arith, f, l))
            (omega (arith, n, l)) g full)
