-- ===== src/Registry/Stats/Window.antt =====
-- src/middleware/registryState.ts: what the window of a tool holds, and its percentile.
use coreax.Prelude.{
  ℕ, zero, suc, num_eq, true, false, ap, ◌∙◌, sym, ◌+◌, ◌-◌, ◌*◌, ◌/◌, ◌≤◌, ◌<◌, String, List, [],
  ◌∷◌, ◌++◌, map, ◌==◌, ltb, leb, if◌then◌else◌, get_or, length, length-append,
  map_get-map_set_same, map_get-map_set_other, sort_numbers, sort_numbers-Ascending, Ascending,
  AtLeast, count_of, count_of-sort_by, length-sort_by, ◌≡◌, refl, arith, Bool-cases, inl, inr,
  eq_iff,
}
use coreax.Registry.Stats.{
  Stat, Stats, entries_of, shift, push_entry, push_stat, nth, p95_index, calc_p95, get_sample_count,
}

-- Calls of tools in the order of their ends.
abbrev pub pushed : (window_size : ℕ) → List (String × Stat) → Stats → Stats
pushed window_size [] m = m
pushed window_size ((tool_key, e) ∷ es) m =
    pushed window_size es (push_stat window_size tool_key e m)

abbrev pub of_tool : String → List (String × Stat) → List Stat
of_tool tool_key [] = []
of_tool tool_key ((k, e) ∷ es) =
    if k == tool_key then e ∷ of_tool tool_key es else of_tool tool_key es

abbrev pub drop : ℕ → List Stat → List Stat
drop zero xs = xs
drop (suc n) [] = []
drop (suc n) (x ∷ xs) = drop n xs

-- The last so many elements.
abbrev pub latest : ℕ → List Stat → List Stat
latest n xs = drop (length xs - n) xs

drop-length : (n : ℕ) (xs : List Stat) → length (drop n xs) ≡ length xs - n
drop-length zero xs = omega arith
drop-length (suc n) [] = omega arith
drop-length (suc n) (x ∷ xs) = omega (arith, drop-length n xs)

drop-append : (n : ℕ) (xs ys : List Stat) → n ≤ length xs → drop n (xs ++ ys) ≡ drop n xs ++ ys
drop-append zero xs ys h = refl
drop-append (suc n) [] ys h = absurd (omega arith)
drop-append (suc n) (x ∷ xs) ys h = drop-append n xs ys (omega arith)

shift-drop : (n : ℕ) (xs : List Stat) → shift (drop n xs) ≡ drop (suc n) xs
unfolding shift
shift-drop zero [] = refl
shift-drop zero (x ∷ xs) = refl
shift-drop (suc n) [] = refl
shift-drop (suc n) (x ∷ xs) = shift-drop n xs

push_entry-latest :
    (n : ℕ) (e : Stat) (xs : List Stat) → push_entry n e (latest n xs) ≡ latest n (xs ++ (e ∷ []))
unfolding push_entry
push_entry-latest n e xs =
    let l = length-append xs (e ∷ []) in
    let whole : latest n xs ++ (e ∷ []) ≡ drop (length xs - n) (xs ++ (e ∷ [])) =
      sym (drop-append (length xs - n) xs (e ∷ []) (omega arith)) in
    let size : length (latest n xs ++ (e ∷ [])) ≡ length xs - (length xs - n) + 1 =
      omega (arith, length-append (latest n xs) (e ∷ []), drop-length (length xs - n) xs) in
    elim (Bool-cases (leb n (length xs))) [
      | inl full ↦
          let over : ltb n (length (latest n xs ++ (e ∷ []))) ≡ true = ground (arith, size) in
          rw over (
            ap shift whole
            ∙ shift-drop (length xs - n) (xs ++ (e ∷ []))
            ∙ ap (λ k. drop k (xs ++ (e ∷ []))) {x = suc (length xs - n)} (ground (arith, l)))
      | inr short ↦
          let within : ltb n (length (latest n xs ++ (e ∷ []))) ≡ false = ground (arith, size) in
          rw within
            (whole ∙ ap (λ k. drop k (xs ++ (e ∷ []))) {x = length xs - n} (ground (arith, l)))
    ]

entries_of-push_stat_same :
    (n : ℕ) (tool_key : String) (e : Stat) (m : Stats)
    → entries_of tool_key (push_stat n tool_key e m) ≡ push_entry n e (entries_of tool_key m)
unfolding entries_of push_stat
entries_of-push_stat_same n tool_key e m =
    ap (λ o. get_or o []) (map_get-map_set_same tool_key (push_entry n e (entries_of tool_key m)) m)

entries_of-push_stat_other :
    (n : ℕ) (tool_key other : String) (e : Stat) (m : Stats)
    → (other == tool_key) ≡ false
    → entries_of tool_key (push_stat n other e m) ≡ entries_of tool_key m
unfolding entries_of push_stat
entries_of-push_stat_other n tool_key other e m differs =
    ap (λ o. get_or o [])
      (map_get-map_set_other tool_key other (push_entry n e (entries_of other m)) m differs)

append_one : (xs ys : List Stat) (e : Stat) → (xs ++ (e ∷ [])) ++ ys ≡ xs ++ (e ∷ ys)
append_one [] ys e = refl
append_one (x ∷ xs) ys e = ap (λ t. x ∷ t) (append_one xs ys e)

pushed-latest_from :
    (n : ℕ) (tool_key : String) (es : List (String × Stat)) (m : Stats) (xs : List Stat)
    → entries_of tool_key m ≡ latest n xs
    → entries_of tool_key (pushed n es m) ≡ latest n (xs ++ of_tool tool_key es)
pushed-latest_from n tool_key [] m xs h = h ∙ ap (latest n) (sym (append_nil xs))
  where
    append_nil : (xs : List Stat) → xs ++ [] ≡ xs
    append_nil [] = refl
    append_nil (x ∷ xs) = ap (λ t. x ∷ t) (append_nil xs)
pushed-latest_from n tool_key ((k, e) ∷ es) m xs h = elim (Bool-cases (k == tool_key)) [
  | inl here ↦
      let same : k ≡ tool_key = ground (arith, eq_iff k tool_key) in
      let now : entries_of tool_key (push_stat n k e m) ≡ latest n (xs ++ (e ∷ [])) = rw same (
        entries_of-push_stat_same n tool_key e m
        ∙ ap (push_entry n e) h
        ∙ push_entry-latest n e xs) in
      rw here (
        pushed-latest_from n tool_key es (push_stat n k e m) (xs ++ (e ∷ [])) now
        ∙ ap (latest n) (append_one xs (of_tool tool_key es) e))
  | inr differs ↦ rw differs (
      pushed-latest_from n tool_key es (push_stat n k e m) xs
        (entries_of-push_stat_other n tool_key k e m differs ∙ h))
]

-- After any calls of any tools, what is kept of a tool are the last calls of that tool, as many as
-- the window holds, in their order.
pub pushed-latest :
    (window_size : ℕ) (tool_key : String) (es : List (String × Stat))
    → entries_of tool_key (pushed window_size es []) ≡ latest window_size (of_tool tool_key es)
unfolding entries_of
pushed-latest window_size tool_key es =
    pushed-latest_from window_size tool_key es [] [] (sym (drop_nil (0 - window_size)))
  where
    drop_nil : (n : ℕ) → drop n [] ≡ []
    drop_nil zero = refl
    drop_nil (suc n) = refl

AtLeast-nth : (x i : ℕ) (ys : List ℕ) → AtLeast x ys → i < length ys → x ≤ nth i ys
unfolding nth
AtLeast-nth x i [] a h = absurd (omega arith)
AtLeast-nth x zero (y ∷ ys) (l, a) h = l
AtLeast-nth x (suc i) (y ∷ ys) (l, a) h = AtLeast-nth x i ys a (omega arith)

nth-rank :
    (i : ℕ) (xs : List ℕ)
    → Ascending xs
    → i < length xs
    → suc i ≤ count_of (λ y. leb y (nth i xs)) xs
unfolding nth
nth-rank i [] a h = absurd (omega arith)
nth-rank zero (x ∷ xs) a h = ground arith
nth-rank (suc i) (x ∷ xs) (least, a) h =
    ground (arith, nth-rank i xs a (omega arith), AtLeast-nth x i xs least (omega arith))

nth-occurs : (i : ℕ) (xs : List ℕ) → i < length xs → 1 ≤ count_of (λ y. num_eq y (nth i xs)) xs
unfolding nth
nth-occurs i [] h = absurd (omega arith)
nth-occurs zero (x ∷ xs) h = ground arith
nth-occurs (suc i) (x ∷ xs) h = ground (arith, nth-occurs i xs (omega arith))

p95_index-bounds : (n : ℕ) → 0 < n → (p95_index n < n) × (n * 95 / 100 ≤ suc (p95_index n))
unfolding p95_index
p95_index-bounds n h = (omega arith, omega arith)

abbrev pub latencies : String → Stats → List ℕ
latencies tool_key m = map (λ e. e.latency) (entries_of tool_key m)

-- Of a tool with calls on record, the percentile is the latency of one of them, and at least 95 in
-- a hundred of them, rounded down, took no longer.
pub calc_p95-rank :
    (tool_key : String) (m : Stats)
    → 0 < get_sample_count tool_key m
    → (1 ≤ count_of (λ y. num_eq y (calc_p95 tool_key m)) (latencies tool_key m))
      × (get_sample_count tool_key m * 95 / 100
          ≤ count_of (λ y. leb y (calc_p95 tool_key m)) (latencies tool_key m))
unfolding get_sample_count calc_p95
calc_p95-rank tool_key m h =
    let xs = latencies tool_key m in
    let size : length (sort_numbers xs) ≡ length (entries_of tool_key m) =
      length-sort_by ltb xs ∙ length-map (entries_of tool_key m) in
    let (inside, most) = p95_index-bounds (length (sort_numbers xs)) (omega (arith, size, h)) in
    let i = p95_index (length (sort_numbers xs)) in
    let p = nth i (sort_numbers xs) in
    (
      omega
          (arith, count_of-sort_by ltb (λ y. num_eq y p) xs, nth-occurs i (sort_numbers xs) inside),
      omega (
        arith,
        size,
        most,
        count_of-sort_by ltb (λ y. leb y p) xs,
        nth-rank i (sort_numbers xs) (sort_numbers-Ascending xs) inside,
      ),
    )
  where
    length-map : (es : List Stat) → length (map (λ e. e.latency) es) ≡ length es
    length-map [] = refl
    length-map (e ∷ es) = ap suc (length-map es)
