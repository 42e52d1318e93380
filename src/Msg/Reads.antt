-- ===== src/Msg/Reads.antt =====
-- What a read of the slice comes to on any bytes, with one rule for each way to build a reader.
use remoc.Base.{
  ℕ, ◌≤◌, if◌then◌else◌, Bool, true, false, Option, none, some, List, [], ◌∷◌, All, length, arith,
}
use remoc.Io.{
  Result, ok, err, stuck, Reader, ◌>>=◌, pure, read_u8, read_u8_or_default, IsByte, IsU32,
}
use remoc.Varint.Bounds.{Outcome}
use remoc.Msg.Types.{DataCredits, port_only, global_only, global_and_port}

-- A read ends; a value has the property `P`, and no more bytes are left than there were.
abbrev pub Gives {ℓ} : {A : Type ℓ} → (A → Type 0) → List ℕ → Result (A × List ℕ) → Type 0
Gives P bs (ok (a, rest)) = P a × (length rest ≤ length bs) × All IsByte rest
Gives P bs (err e) = Unit {0}
Gives P bs stuck = ⊥

-- That holds of the reader on all bytes.
pub record Reads {ℓ} {A : Type ℓ} (P : A → Type 0) (m : Reader A) : Type 0 where
  pub gives : (bs : List ℕ) → All IsByte bs → Gives P bs (m bs)

pub Gives-weaken {ℓ} :
    {A : Type ℓ} (P : A → Type 0) (bs rest : List ℕ) (r : Result (A × List ℕ))
    → length rest ≤ length bs
    → Gives P rest r
    → Gives P bs r
Gives-weaken P bs rest (ok (a, r)) h g = (g.0, omega arith, g.2)
Gives-weaken P bs rest (err e) h g = tt
Gives-weaken P bs rest stuck h g = g

-- The continuation may use that it reads a rest of `bs`.
pub >>=-Gives {ℓ κ} :
    {A : Type ℓ} {B : Type κ} (P : A → Type 0) (Q : B → Type 0) (bs : List ℕ) (m : Reader A)
    (f : A → Reader B)
    → Gives P bs (m bs)
    → ((a : A)
        → P a
        → (rest : List ℕ) → length rest ≤ length bs
        → All IsByte rest
        → Gives Q rest (f a rest))
    → Gives Q bs ((m >>= f) bs)
unfolding ◌>>=◌
>>=-Gives {A} {B} P Q bs m f = go (m bs)
  where
    go :
        (r : Result (A × List ℕ))
        → Gives P bs r
        → ((a : A)
            → P a
            → (rest : List ℕ) → length rest ≤ length bs
            → All IsByte rest
            → Gives Q rest (f a rest))
        → Gives Q bs (elim r [ ok (a, rest) ↦ f a rest | err e ↦ err e | stuck ↦ stuck ])
    go (ok (a, rest)) g h = Gives-weaken Q bs rest (f a rest) g.1 (h a g.0 rest g.1 g.2)
    go (err e) g h = tt
    go stuck g h = g

pub >>=-Reads {ℓ κ} :
    {A : Type ℓ} {B : Type κ} (P : A → Type 0) (Q : B → Type 0) (m : Reader A) (f : A → Reader B)
    → Reads P m
    → ((a : A) → P a → Reads Q (f a))
    → Reads Q (m >>= f)
>>=-Reads P Q m f g h = record {
  gives = λ bs b. >>=-Gives P Q bs m f (g.gives bs b) (λ a p rest _ c. (h a p).gives rest c);
}

pub pure-Reads {ℓ} : {A : Type ℓ} (P : A → Type 0) (a : A) → P a → Reads P (pure a)
unfolding pure
pure-Reads P a h = record { gives = λ bs b. (h, omega arith, b) }

pub read_u8-Gives : (bs : List ℕ) → All IsByte bs → Gives IsByte bs (read_u8 bs)
read_u8-Gives [] b = tt
read_u8-Gives (x ∷ bs) b = (b.0, omega arith, b.1)

pub read_u8_or_default-Gives :
    (bs : List ℕ) → All IsByte bs → Gives IsByte bs (read_u8_or_default bs)
read_u8_or_default-Gives [] b = (omega arith, omega arith, b)
read_u8_or_default-Gives (x ∷ bs) b = (b.0, omega arith, b.1)

pub read_u8-Reads : Reads IsByte read_u8
read_u8-Reads = record { gives = read_u8-Gives }

pub read_u8_or_default-Reads : Reads IsByte read_u8_or_default
read_u8_or_default-Reads = record { gives = read_u8_or_default-Gives }

pub Outcome-Gives : (bs : List ℕ) (r : Result (ℕ × List ℕ)) → Outcome 0 bs r → Gives IsU32 bs r
Outcome-Gives bs (ok (n, rest)) h = (h.0, omega arith, h.3)
Outcome-Gives bs (err e) h = tt
Outcome-Gives bs stuck h = h

pub if-Reads {ℓ} :
    {A : Type ℓ} {P : A → Type 0} (test : Bool) {m n : Reader A}
    → Reads P m
    → Reads P n
    → Reads P (if test then m else n)
if-Reads true g h = g
if-Reads false g h = h

-- The same of the value alone, for the last step of a read.
abbrev pub EndsIn {ℓ} : {A : Type ℓ} → (A → Type 0) → Result (A × List ℕ) → Type 0
EndsIn P (ok (a, rest)) = P a
EndsIn P (err e) = Unit {0}
EndsIn P stuck = ⊥

pub record Ends {ℓ} {A : Type ℓ} (P : A → Type 0) (m : Reader A) : Type 0 where
  pub ends : (bs : List ℕ) → All IsByte bs → EndsIn P (m bs)

pub Gives-EndsIn {ℓ} :
    {A : Type ℓ} (P : A → Type 0) (bs : List ℕ) (r : Result (A × List ℕ))
    → Gives P bs r
    → EndsIn P r
Gives-EndsIn P bs (ok (a, rest)) g = g.0
Gives-EndsIn P bs (err e) g = tt
Gives-EndsIn P bs stuck g = g

pub Reads-Ends {ℓ} : {A : Type ℓ} {P : A → Type 0} {m : Reader A} → Reads P m → Ends P m
Reads-Ends {P} {m} g = record { ends = λ bs b. Gives-EndsIn P bs (m bs) (g.gives bs b) }

pub >>=-Ends {ℓ κ} :
    {A : Type ℓ} {B : Type κ} (P : A → Type 0) (Q : B → Type 0) (m : Reader A) (f : A → Reader B)
    → Reads P m
    → ((a : A) → P a → Ends Q (f a))
    → Ends Q (m >>= f)
unfolding ◌>>=◌
>>=-Ends {A} P Q m f g h = record { ends = λ bs b. go bs (m bs) (g.gives bs b) }
  where
    go :
        (bs : List ℕ) (r : Result (A × List ℕ))
        → Gives P bs r
        → EndsIn Q (elim r [ ok (a, rest) ↦ f a rest | err e ↦ err e | stuck ↦ stuck ])
    go bs (ok (a, rest)) k = (h a k.0).ends rest k.2
    go bs (err e) k = tt
    go bs stuck k = k

pub if-Ends {ℓ} :
    {A : Type ℓ} {P : A → Type 0} (test : Bool) {m n : Reader A}
    → Ends P m
    → Ends P n
    → Ends P (if test then m else n)
if-Ends true g h = g
if-Ends false g h = h

abbrev pub Anything {ℓ} : {A : Type ℓ} → A → Type 0
Anything a = Unit {0}

abbrev pub IsU32Option : Option ℕ → Type 0
IsU32Option none = Unit {0}
IsU32Option (some n) = IsU32 n

abbrev pub CreditsInRange : DataCredits → Type 0
CreditsInRange port_only = Unit {0}
CreditsInRange global_only = Unit {0}
CreditsInRange (global_and_port n) = IsU32 n
