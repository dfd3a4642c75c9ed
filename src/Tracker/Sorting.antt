-- ===== src/Tracker/Sorting.antt =====
-- What `sorted` does to the stuck requests, prism_serve/scheduler/sequence_state.py.
use prism_serve.Base.{
  ℕ, ◌≤◌, ◌≡◌, ◌↔◌, inl, inr, Bool, true, List, [], ◌∷◌, arith, leb, leb→le, Bool-cases, nat_key,
  text_key, pair_key, triple_key, filter, All, Among, Among-filter, filter-Among,
}
use prism_serve.Tracker.State.{RequestInfo}
use prism_serve.Tracker.Stuck.{insert_by, sort_by}

-- Each entry is no later than all that follow it.
abbrev pub IsAscending : (RequestInfo → ℕ) → List RequestInfo → Type 0
IsAscending key [] = Unit
IsAscending key (x ∷ xs) = All (λ y. key x ≤ key y) xs × IsAscending key xs

All-insert_by :
    (key : RequestInfo → ℕ) (b : ℕ) (x : RequestInfo) (xs : List RequestInfo)
    → b ≤ key x
    → All (λ y. b ≤ key y) xs
    → All (λ y. b ≤ key y) (insert_by key x xs)
unfolding insert_by
All-insert_by key b x [] h a = (h, tt)
All-insert_by key b x (y ∷ ys) h a = ground (arith, All-insert_by key b x ys h a.1)

All-mono :
    (key : RequestInfo → ℕ) (b c : ℕ) (xs : List RequestInfo)
    → b ≤ c
    → All (λ y. c ≤ key y) xs
    → All (λ y. b ≤ key y) xs
All-mono key b c [] h a = tt
All-mono key b c (x ∷ xs) h a = (omega (arith, a.0), All-mono key b c xs h a.1)

insert_by-IsAscending :
    (key : RequestInfo → ℕ) (x : RequestInfo) (xs : List RequestInfo)
    → IsAscending key xs
    → IsAscending key (insert_by key x xs)
unfolding insert_by
insert_by-IsAscending key x [] a = (tt, tt)
insert_by-IsAscending key x (y ∷ ys) a = elim (Bool-cases (leb (key x) (key y))) [
  | inl before ↦
      rw before (
        (leb→le (key x) (key y) before, All-mono key (key x) (key y) ys (leb→le _ _ before) a.0),
        a,
      )
  | inr after ↦
      rw after
        (All-insert_by key (key y) x ys (ground arith) a.0, insert_by-IsAscending key x ys a.1)
]

pub sort_by-IsAscending :
    (key : RequestInfo → ℕ) (xs : List RequestInfo) → IsAscending key (sort_by key xs)
unfolding sort_by
sort_by-IsAscending key [] = tt
sort_by-IsAscending key (x ∷ xs) =
    insert_by-IsAscending key x (sort_by key xs) (sort_by-IsAscending key xs)

Among-insert_by :
    (key : RequestInfo → ℕ) (r x : RequestInfo) (xs : List RequestInfo)
    → Among r (insert_by key x xs) ↔ Among r (x ∷ xs)
unfolding insert_by
Among-insert_by key r x [] = (λ m. m, λ m. m)
Among-insert_by key r x (y ∷ ys) = elim (Bool-cases (leb (key x) (key y))) [
  | inl before ↦ rw before (λ m. m, λ m. m)
  | inr after ↦
      let (f, g) = Among-insert_by key r x ys in
      rw after (
        λ m. elim m [
          | inl e ↦ inr (inl e)
          | inr n ↦ elim (f n) [ inl e ↦ inl e | inr k ↦ inr (inr k) ]
        ],
        λ m. elim m [
          | inl e ↦ inr (g (inl e))
          | inr (inl e) ↦ inl e
          | inr (inr k) ↦ inr (g (inr k))
        ],
      )
]

Among-sort_by :
    (key : RequestInfo → ℕ) (r : RequestInfo) (xs : List RequestInfo)
    → Among r (sort_by key xs) ↔ Among r xs
unfolding sort_by
Among-sort_by key r [] = (λ m. m, λ m. m)
Among-sort_by key r (x ∷ xs) =
    let (f, g) = Among-insert_by key r x (sort_by key xs) in
    let (f', g') = Among-sort_by key r xs in
    (
      λ m. elim (f m) [ inl e ↦ inl e | inr n ↦ inr (f' n) ],
      λ m. g (elim m [ inl e ↦ inl e | inr n ↦ inr (g' n) ]),
    )

pub Among-report :
    (key : RequestInfo → ℕ) (test : RequestInfo → Bool) (r : RequestInfo) (xs : List RequestInfo)
    → Among r (sort_by key (filter test xs)) ↔ (Among r xs × (test r ≡ true))
Among-report key test r xs =
    let (f, g) = Among-sort_by key r (filter test xs) in
    (λ m. Among-filter test r xs (f m), λ (m, e). g (filter-Among test r xs e m))
