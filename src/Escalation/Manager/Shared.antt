-- ===== src/Escalation/Manager/Shared.antt =====
-- src/review-loop/manager.ts: there is one polling loop for an escalation at a time.
use coreax.Prelude.{
  ℕ, ◌+◌, ◌≤◌, ◌<◌, String, Option, none, some, List, [], ◌∷◌, ◌==◌, ◌≡◌, refl, arith, eq_iff,
  eq_refl, ap, ◌∙◌, inl, inr, num_eq, Bool-cases,
}
use coreax.Text.{trim}
use coreax.Escalation.Manager.{
  Waits, lookup, delete, begin, wait_for, id_of, without, finish, settle, Event, call, settled,
  react, run,
}

-- No id and no promise stands twice, and the promises are below a bound.
abbrev pub IsDistinct : ℕ → List (String × ℕ) → Type 0
IsDistinct n [] = Unit {0}
IsDistinct n ((id, h) ∷ m) = (lookup id m ≡ none) × (id_of h m ≡ none) × (h < n) × IsDistinct n m

pub record IsShared (s : Waits) : Type 0 where
  pub same : s.in_flight ≡ s.running
  pub distinct : IsDistinct s.next s.running

IsDistinct-mono : (n : ℕ) (m : List (String × ℕ)) → IsDistinct n m → IsDistinct (n + 1) m
IsDistinct-mono n [] d = tt
IsDistinct-mono n ((id, h) ∷ m) d = (d.0, d.1, omega arith, IsDistinct-mono n m d.3)

id_of-bound : (n h : ℕ) (m : List (String × ℕ)) → IsDistinct n m → n ≤ h → id_of h m ≡ none
id_of-bound n h [] d l = refl
id_of-bound n h ((id, v) ∷ m) d l = ground (arith, d.2, id_of-bound n h m d.3 l)

delete-absent : (id : String) (m : List (String × ℕ)) → lookup id m ≡ none → delete id m ≡ m
delete-absent id [] h = refl
delete-absent id ((k, v) ∷ m) h = ground (arith, delete-absent id m)

without-absent : (h : ℕ) (m : List (String × ℕ)) → id_of h m ≡ none → without h m ≡ m
without-absent h [] e = refl
without-absent h ((k, v) ∷ m) e = ground (arith, without-absent h m)

lookup-absent :
    (n h : ℕ) (id : String) (m : List (String × ℕ)) → lookup id m ≡ none → id_of h m ≡ some id → ⊥
lookup-absent n h id [] a e = cc
lookup-absent n h id ((k, v) ∷ m) a e = ground (arith, eq_iff k id, lookup-absent n h id m)

-- To delete an id is to drop its loop.
delete-without :
    (n h : ℕ) (id : String) (m : List (String × ℕ))
    → IsDistinct n m
    → id_of h m ≡ some id
    → delete id m ≡ without h m
delete-without n h id [] d e = refl
delete-without n h id ((k, v) ∷ m) d e = ground (
  arith,
  d.0,
  d.1,
  eq_iff k id,
  delete-without n h id m d.3,
  delete-absent id m,
  without-absent h m,
  lookup-absent n h id m,
)

lookup-without :
    (h : ℕ) (id : String) (m : List (String × ℕ))
    → lookup id m ≡ none
    → lookup id (without h m) ≡ none
lookup-without h id [] e = refl
lookup-without h id ((k, v) ∷ m) e = ground (arith, lookup-without h id m)

id_of-without : (h g : ℕ) (m : List (String × ℕ)) → id_of g m ≡ none → id_of g (without h m) ≡ none
id_of-without h g [] e = refl
id_of-without h g ((k, v) ∷ m) e = ground (arith, id_of-without h g m)

IsDistinct-without : (n h : ℕ) (m : List (String × ℕ)) → IsDistinct n m → IsDistinct n (without h m)
IsDistinct-without n h [] d = tt
IsDistinct-without n h ((k, v) ∷ m) d = elim (Bool-cases (num_eq v h)) [
  | inl it ↦ rw it (IsDistinct-without n h m d.3)
  | inr other ↦
      rw other
        (lookup-without h k m d.0, id_of-without h v m d.1, d.2, IsDistinct-without n h m d.3)
]

begin-IsShared :
    (id : String) (found : Option ℕ) (s : Waits)
    → lookup id s.in_flight ≡ found
    → IsShared s
    → IsShared (begin id found s).1
unfolding begin
begin-IsShared id (some existing) s e v = v
begin-IsShared id none s e v = record {
  same = ap (λ m. (id, s.next) ∷ m) v.same;
  distinct = (
    rw (← v.same) e,
    id_of-bound s.next s.next s.running v.distinct (omega arith),
    omega arith,
    IsDistinct-mono s.next s.running v.distinct,
  );
}

wait_for-IsShared : (id : String) (s : Waits) → IsShared s → IsShared (wait_for id s).1
unfolding wait_for
wait_for-IsShared id s v = elim (Bool-cases (trim id == "")) [
  | inl blank ↦ rw blank v
  | inr full ↦ rw full (begin-IsShared (trim id) _ s refl v)
]

finish-IsShared :
    (h : ℕ) (found : Option String) (s : Waits)
    → id_of h s.running ≡ found
    → IsShared s
    → IsShared (finish h found s)
unfolding finish
finish-IsShared h none s e v = v
finish-IsShared h (some id) s e v = record {
  same = ap (delete id) v.same ∙ delete-without s.next h id s.running v.distinct e;
  distinct = IsDistinct-without s.next h s.running v.distinct;
}

react-IsShared : (e : Event) (s : Waits) → IsShared s → IsShared (react e s)
unfolding react settle
react-IsShared (call id) s v = wait_for-IsShared id s v
react-IsShared (settled h) s v = finish-IsShared h _ s refl v

-- Whatever calls were made and whatever waits have settled, the map of waits in flight holds exactly
-- the running loops, and no escalation has two of them.
pub run-IsShared : (es : List Event) (s : Waits) → IsShared s → IsShared (run es s)
unfolding run
run-IsShared [] s v = v
run-IsShared (e ∷ es) s v = run-IsShared es (react e s) (react-IsShared e s v)

begin-begin :
    (id : String) (found : Option ℕ) (s : Waits)
    → lookup id s.in_flight ≡ found
    → begin id (lookup id (begin id found s).1.in_flight) (begin id found s).1 ≡ begin id found s
unfolding begin
begin-begin id (some existing) s e = rw e
begin-begin id none s e = rw eq_refl

-- A second call for the same escalation, with no wait settled in between, gives the promise that the
-- first one gave, and starts nothing.
pub wait_for-wait_for : (id : String) (s : Waits) → wait_for id (wait_for id s).1 ≡ wait_for id s
unfolding wait_for
wait_for-wait_for id s = elim (Bool-cases (trim id == "")) [
  | inl blank ↦ rw blank
  | inr full ↦ rw full (begin-begin (trim id) _ s refl)
]
