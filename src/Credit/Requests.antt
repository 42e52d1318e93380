-- ===== src/Credit/Requests.antt =====
-- credit.rs, `MixedCreditUser::try_request`: credits are neither lost nor made.
use remoc.Base.{
  ℕ, ◌+◌, ◌-◌, ◌^◌, ◌≤◌, ◌<◌, ◌≡◌, refl, Option, none, some, List, [], ◌∷◌, ◌++◌, arith, Bool, true,
  false, ◌&&◌, ◌==◌, if◌then◌else◌,
}
use remoc.Credit.Assigned.{CreditPool, port_pool, global_pool, AssignedCredits, add}
use remoc.Credit.Spend.{held_port, held_global}
use remoc.Credit.Store.{SendError, SendableCreditStore, try_take_credits}
use remoc.Credit.User.{
  Request, granted, refused, panicked, MixedCreditUser, CreditUser, Stores, Mixed,
  user_check_sendable, remote_allows_global_credits, drop_mixed, drop_in, finish, after_global,
  try_request, fill_from, fill_global, after_check, try_request_mixed, after_port,
}

abbrev pub credits_of : Option SendableCreditStore → ℕ
credits_of none = 0
credits_of (some store) = store.credits

-- The store of a pool, with a 32-bit counter.
abbrev pub IsStoreOf : CreditPool → Option SendableCreditStore → Type 0
IsStoreOf pool none = Unit {0}
IsStoreOf pool (some store) = (store.pool ≡ pool) × (store.credits < 2 ^ 32)

-- Credits that can go back to their store.
abbrev pub Fits : Option SendableCreditStore → ℕ → Type 0
Fits none n = n ≡ 0
Fits (some store) n = store.credits + n < 2 ^ 32

-- What a request leaves in the stores and hands out.
abbrev pub Handed : Stores → ℕ → ℕ → Mixed → Type 0
Handed st req min_req (st', panicked) = ⊥
Handed st req min_req (st', refused e) =
    (credits_of st'.port_store ≡ credits_of st.port_store)
    × (credits_of st'.global_store ≡ credits_of st.global_store)
Handed st req min_req (st', granted none) =
    (credits_of st'.port_store ≡ credits_of st.port_store)
    × (credits_of st'.global_store ≡ credits_of st.global_store)
Handed st req min_req (st', granted (some mixed)) =
    (credits_of st.port_store ≡ credits_of st'.port_store + held_port mixed)
    × (credits_of st.global_store ≡ credits_of st'.global_store + held_global mixed)
    × (min_req ≤ held_port mixed + held_global mixed)
    × (held_port mixed + held_global mixed ≤ req)
    × Fits st'.port_store (held_port mixed)
    × Fits st'.global_store (held_global mixed)

-- A request to one pool.
abbrev HandedOne :
    CreditPool
    → Option SendableCreditStore
    → ℕ
    → ℕ
    → Option SendableCreditStore × Request (Option AssignedCredits)
    → Type 0
HandedOne pool s req min_req (s', panicked) = ⊥
HandedOne pool s req min_req (s', refused e) = s' ≡ s
HandedOne pool s req min_req (s', granted none) = s' ≡ s
HandedOne pool s req min_req (s', granted (some ac)) =
    Fits s' ac.credits
    × (ac.pool ≡ pool)
    × (credits_of s ≡ credits_of s' + ac.credits)
    × (1 ≤ ac.credits)
    × (min_req ≤ ac.credits)
    × (ac.credits ≤ req)

try_request-Handed :
    (user : CreditUser) (pool : CreditPool) (s : Option SendableCreditStore) (req min_req : ℕ)
    → min_req ≤ req
    → IsStoreOf pool s
    → HandedOne pool s req min_req (try_request user s req min_req)
unfolding try_take_credits
try_request-Handed user pool none req min_req h w = refl
try_request-Handed user pool (some store) req min_req h w = ground arith

pub drop_mixed-returns :
    (mixed : List AssignedCredits) (st : Stores)
    → Fits st.port_store (held_port mixed)
    → Fits st.global_store (held_global mixed)
    → (credits_of (drop_mixed mixed st).port_store ≡ credits_of st.port_store + held_port mixed)
      × (credits_of (drop_mixed mixed st).global_store
          ≡ credits_of st.global_store + held_global mixed)
unfolding drop_mixed
drop_mixed-returns [] st hp hg = ground arith
drop_mixed-returns (ac ∷ mixed) st hp hg =
    ground (arith, drop_mixed-returns mixed (drop_in ac.pool ac st))

-- Credits that have been taken from the stores on the way.
abbrev Holding : Stores → Stores → List AssignedCredits → Type 0
Holding st0 st mixed =
    (credits_of st0.port_store ≡ credits_of st.port_store + held_port mixed)
    × (credits_of st0.global_store ≡ credits_of st.global_store + held_global mixed)
    × Fits st.port_store (held_port mixed)
    × Fits st.global_store (held_global mixed)

finish-Handed :
    (st0 st : Stores) (mixed : List AssignedCredits) (req min_req missing : ℕ)
    → Holding st0 st mixed
    → min_req ≤ held_port mixed + held_global mixed + missing
    → held_port mixed + held_global mixed ≤ req
    → Handed st0 req min_req (finish st mixed missing)
finish-Handed st0 st mixed req min_req missing h enough few =
    ground (arith, drop_mixed-returns mixed st)

held-append :
    (mixed : List AssignedCredits) (ac : AssignedCredits)
    → (held_port (mixed ++ (ac ∷ [])) ≡ held_port mixed + held_port (ac ∷ []))
      × (held_global (mixed ++ (ac ∷ [])) ≡ held_global mixed + held_global (ac ∷ []))
held-append [] ac = ground arith
held-append (a ∷ mixed) ac = ground (arith, held-append mixed ac)

add-some :
    (mixed : List AssignedCredits) (ac : AssignedCredits)
    → 1 ≤ ac.credits
    → add mixed ac ≡ some (mixed ++ (ac ∷ []))
add-some mixed ac h = ground arith

after_global-Handed :
    (st0 st : Stores) (mixed : List AssignedCredits) (req min_req left missing : ℕ)
    (answer : Option SendableCreditStore × Request (Option AssignedCredits))
    → Holding st0 st mixed
    → HandedOne global_pool st.global_store left missing answer
    → min_req ≤ held_port mixed + held_global mixed + missing
    → held_port mixed + held_global mixed + left ≤ req
    → Handed st0 req min_req (after_global st mixed missing answer)
after_global-Handed st0 st mixed req min_req left missing (s, panicked) h one enough few =
    elim one [ ]
after_global-Handed st0 st mixed req min_req left missing (s, refused e) h one enough few =
    ground (arith, drop_mixed-returns mixed (record st { global_store = s }))
after_global-Handed st0 st mixed req min_req left missing (s, granted none) h one enough few =
    finish-Handed st0 (record st { global_store = s }) mixed req min_req missing (ground arith)
      enough (omega arith)
after_global-Handed st0 st mixed req min_req left missing (s, granted (some ac)) h one enough few =
    let (w, own, lost, some_credits, least, most) = one in
    rw (add-some mixed ac some_credits) (
      finish-Handed st0 (record st { global_store = s }) (mixed ++ (ac ∷ [])) req min_req
        (missing - ac.credits) (ground (arith, held-append mixed ac))
        (ground (arith, held-append mixed ac)) (ground (arith, held-append mixed ac)))

fill_from-Handed :
    (user : Option CreditUser) (st0 st : Stores) (mixed : List AssignedCredits)
    (req min_req left missing : ℕ)
    → IsStoreOf global_pool st.global_store
    → Holding st0 st mixed
    → missing ≤ left
    → min_req ≤ held_port mixed + held_global mixed + missing
    → held_port mixed + held_global mixed + left ≤ req
    → Handed st0 req min_req (fill_from user st mixed left missing)
fill_from-Handed none st0 st mixed req min_req left missing w h less enough few =
    finish-Handed st0 st mixed req min_req missing h enough (omega arith)
fill_from-Handed (some global) st0 st mixed req min_req left missing w h less enough few =
    after_global-Handed st0 st mixed req min_req left missing
      (try_request global st.global_store left missing) h
      (try_request-Handed global global_pool st.global_store left missing less w) enough few

if-Handed :
    (b : Bool) (st0 : Stores) (req min_req : ℕ) (x y : Mixed)
    → Handed st0 req min_req x
    → Handed st0 req min_req y
    → Handed st0 req min_req (if b then x else y)
if-Handed true st0 req min_req x y hx hy = hx
if-Handed false st0 req min_req x y hx hy = hy

fill_global-Handed :
    (user : MixedCreditUser) (st0 st : Stores) (mixed : List AssignedCredits)
    (req min_req left missing : ℕ)
    → IsStoreOf global_pool st.global_store
    → Holding st0 st mixed
    → missing ≤ left
    → min_req ≤ held_port mixed + held_global mixed + missing
    → held_port mixed + held_global mixed + left ≤ req
    → Handed st0 req min_req (fill_global user st mixed left missing)
fill_global-Handed user st0 st mixed req min_req left missing w h less enough few =
    let done = finish-Handed st0 st mixed req min_req missing h enough (omega arith) in
    if-Handed (left == 0) st0 req min_req _ _ done (
      if-Handed (user.global_enabled && remote_allows_global_credits st.port_store) st0 req min_req
        _ _
        (fill_from-Handed user.global_user st0 st mixed req min_req left missing w h less enough
          few)
        done)

after_port-Handed :
    (user : MixedCreditUser) (st : Stores) (req min_req : ℕ)
    (answer : Option SendableCreditStore × Request (Option AssignedCredits))
    → min_req ≤ req
    → IsStoreOf port_pool st.port_store
    → IsStoreOf global_pool st.global_store
    → HandedOne port_pool st.port_store req min_req answer
    → Handed st req min_req (after_port user st req min_req answer)
after_port-Handed user st req min_req (s, panicked) less wp wg one = elim one [ ]
after_port-Handed user st req min_req (s, refused e) less wp wg one = ground arith
after_port-Handed user st req min_req (s, granted none) less wp wg one =
    fill_global-Handed user st (record st { port_store = s }) [] req min_req req min_req wg
      (ground arith) less (omega arith) (omega arith)
after_port-Handed user st req min_req (s, granted (some ac)) less wp wg one =
    let (w, own, lost, some_credits, least, most) = one in
    rw (add-some [] ac some_credits) (
      fill_global-Handed user st (record st { port_store = s }) (ac ∷ []) req min_req
        (req - ac.credits) (min_req - ac.credits) wg (ground arith) (omega arith) (ground arith)
        (ground arith))

after_check-Handed :
    (e : Option SendError) (user : MixedCreditUser) (st : Stores) (req min_req : ℕ)
    → min_req ≤ req
    → IsStoreOf port_pool st.port_store
    → IsStoreOf global_pool st.global_store
    → Handed st req min_req (after_check e user st req min_req)
after_check-Handed (some e) user st req min_req less wp wg = (refl, refl)
after_check-Handed none user st req min_req less wp wg =
    after_port-Handed user st req min_req (try_request user.port_user st.port_store req min_req)
      less wp wg (try_request-Handed user.port_user port_pool st.port_store req min_req less wp)

-- A request of both pools that does not wait: it never panics; refused or not served, it leaves the
-- credits of both stores as they were, also where it had taken some of one pool already; served, it
-- hands out between the minimum and the request, each store has lost what was handed out of its pool,
-- and can take it back.
pub try_request_mixed-Handed :
    (user : MixedCreditUser) (st : Stores) (req min_req : ℕ)
    → min_req ≤ req
    → IsStoreOf port_pool st.port_store
    → IsStoreOf global_pool st.global_store
    → Handed st req min_req (try_request_mixed user st req min_req)
unfolding try_request_mixed
try_request_mixed-Handed user st req min_req less wp wg =
    after_check-Handed (user_check_sendable user.port_user st.port_store) user st req min_req less
      wp wg
