-- ===== src/Store/Loadable.antt =====
-- The payloads that a restart accepts: prism_serve/scheduler/replacement_store.py.
use prism_serve.Base.{
  ℕ, ◌≤◌, ◌<◌, String, ◌≡◌, refl, sym, ap, subst, ◌∙◌, Bool, true, false, not, ◌&&◌, ◌||◌, Option,
  none, some, List, [], ◌∷◌, ◌++◌, map, arith, ltb, leb, is_some, Key, ◌==◌, nat_key, text_key,
  pair_key, triple_key, triple_beq_iff, pair_beq_iff, length, any, All, Pairwise, All-map, ok, err,
  modify, ◌>>◌, append_nil, append_step, length-map, pass,
}
use prism_serve.Base.Dict.{Dict, values, lookup, insert, lookup-insert}
use prism_serve.Base.Order.{distinct_count}
use prism_serve.Store.Records.{
  ReplacementReleaseRecord, RecordKey, key_of, lease_of, ReplacementRunSeal, ActiveRun, Payload,
  empty,
}
use prism_serve.Store.State.{Store}
use prism_serve.Store.Load.{
  complete_record, complete_seal, load_records, falls, last_sequence, mixes_runs, mixes_decisions,
  check_payload, adopt, load_payload,
}

-- Two records with different keys that decide on different leases.
abbrev pub Apart : ReplacementReleaseRecord → ReplacementReleaseRecord → Type 0
Apart a b = ((key_of a == key_of b) ≡ false) × ((lease_of a == lease_of b) ≡ false)

abbrev pub OneRun : Option ActiveRun → List ReplacementReleaseRecord → Type 0
OneRun none rs = length rs ≡ 0
OneRun (some a) rs =
    (empty a.decision_digest ≡ false)
    × All
        (λ r.
          ((r.restart_run_id == a.restart_run_id) ≡ true)
          × ((r.decision_digest == a.decision_digest) ≡ true))
        rs

pub record IsLoadable (max_records retention : ℕ) (active : Option ActiveRun)
    (rs : List ReplacementReleaseRecord) (seals : List ReplacementRunSeal) (n : ℕ) : Type 0 where
  pub complete : All (λ r. complete_record r ≡ true) rs
  pub apart : Pairwise Apart rs
  pub within : length rs ≤ max_records
  pub one_run : OneRun active rs
  pub sealed : All (λ x. complete_seal x ≡ true) seals
  pub kept : length seals ≤ retention
  pub rising : Pairwise (λ x y. x.seal_sequence < y.seal_sequence) seals
  pub below : All (λ x. x.seal_sequence < n) seals
  pub runs_apart : Pairwise (λ x y. (x.restart_run_id == y.restart_run_id) ≡ false) seals
  pub positive : 0 < n

abbrev pub keyed : ReplacementReleaseRecord → RecordKey × ReplacementReleaseRecord
keyed r = (key_of r, r)

pub keyed-values : (rs : List ReplacementReleaseRecord) → values (map keyed rs) ≡ rs
keyed-values [] = refl
keyed-values (r ∷ rs) = ap (λ xs. r ∷ xs) (keyed-values rs)

pub insert_new {ℓ κ} :
    {K : Type ℓ} {V : Type κ} ⦃key : Key K⦄ (k : K) (v : V) (d : Dict K V)
    → lookup k d ≡ none
    → insert k v d ≡ d ++ (k, v) ∷ []
unfolding lookup insert
insert_new k v [] h = refl
insert_new k v ((j, w) ∷ d) h = ground (arith, insert_new k v d)

-- The records that may still be read, with these read already.
abbrev Unread :
    Dict RecordKey ReplacementReleaseRecord
    → List (String × String)
    → ReplacementReleaseRecord
    → Type 0
Unread d ls r = (lookup (key_of r) d ≡ none) × (any (λ l. lease_of r == l) ls ≡ false)

Unread-on :
    (d : Dict RecordKey ReplacementReleaseRecord) (ls : List (String × String))
    (r : ReplacementReleaseRecord) (rs : List ReplacementReleaseRecord)
    → All (Apart r) rs
    → All (Unread d ls) rs
    → All (Unread (insert (key_of r) r d) (lease_of r ∷ ls)) rs
Unread-on d ls r [] a h = tt
Unread-on d ls r (x ∷ xs) a h = (
  ground (
    arith,
    a.0,
    h.0,
    lookup-insert (key_of x) (key_of r) r d,
    triple_beq_iff (key_of r) (key_of x),
    triple_beq_iff (key_of x) (key_of r),
    pair_beq_iff (lease_of r) (lease_of x),
    pair_beq_iff (lease_of x) (lease_of r),
  ),
  Unread-on d ls r xs a.1 h.1,
)

load_records-All :
    (rs : List ReplacementReleaseRecord) (d : Dict RecordKey ReplacementReleaseRecord)
    (ls : List (String × String))
    → All (λ r. complete_record r ≡ true) rs
    → Pairwise Apart rs
    → All (Unread d ls) rs
    → load_records rs d ls ≡ ok (d ++ map keyed rs)
unfolding load_records
load_records-All [] d ls c a h = ap ok (sym (append_nil d))
load_records-All (r ∷ rs) d ls c a h =
    rw (c.0, h.0.0, h.0.1)
      (load_records-All rs (insert (key_of r) r d) (lease_of r ∷ ls) c.1 a.1
          (Unread-on d ls r rs a.0 h.1)
        ∙ ap ok (
            ap (λ e. e ++ map keyed rs) (insert_new (key_of r) r d h.0.0)
            ∙ append_step d (keyed r) (map keyed rs)))

pub any_none {ℓ} :
    {A : Type ℓ} (p : A → Bool) (xs : List A) → All (λ x. p x ≡ false) xs → any p xs ≡ false
any_none p [] h = refl
any_none p (x ∷ xs) h = rw h.0 (any_none p xs h.1)

falls-rising :
    (xs : List ReplacementRunSeal)
    → Pairwise (λ x y. x.seal_sequence < y.seal_sequence) xs
    → falls xs ≡ false
unfolding falls
falls-rising [] h = refl
falls-rising (x ∷ []) h = refl
falls-rising (x ∷ y ∷ zs) h = ground (arith, h.0.0, falls-rising (y ∷ zs) h.1)

last-below :
    (n : ℕ) (xs : List ReplacementRunSeal)
    → All (λ x. x.seal_sequence < n) xs
    → 0 < n
    → last_sequence xs < n
last-below n [] h p = p
last-below n (x ∷ []) h p = h.0
last-below n (x ∷ y ∷ zs) h p = last-below n (y ∷ zs) h.1 p

distinct-runs :
    (xs : List ReplacementRunSeal)
    → Pairwise (λ x y. (x.restart_run_id == y.restart_run_id) ≡ false) xs
    → distinct_count (map (λ x. x.restart_run_id) xs) ≡ length xs
unfolding distinct_count
distinct-runs [] h = refl
distinct-runs (x ∷ xs) h = rw (any_map x xs h.0, distinct-runs xs h.1) (omega arith)
  where
    any_map :
        (x : ReplacementRunSeal) (xs : List ReplacementRunSeal)
        → All (λ y. (x.restart_run_id == y.restart_run_id) ≡ false) xs
        → any (λ r. x.restart_run_id == r) (map (λ x. x.restart_run_id) xs) ≡ false
    any_map x [] h = refl
    any_map x (y ∷ ys) h = rw h.0 (any_map x ys h.1)

OneRun-mixes :
    (a : Option ActiveRun) (rs : List ReplacementReleaseRecord)
    → OneRun a rs
    → (mixes_runs a rs ≡ false) × (mixes_decisions a rs ≡ false)
unfolding mixes_runs mixes_decisions
OneRun-mixes none rs h = (refl, refl)
OneRun-mixes (some a) rs h = (
  any_none (λ r. not (r.restart_run_id == a.restart_run_id)) rs
      (All-map _ _ (λ r e. rw e.0 refl) rs h.1),
  rw h.0 (
      any_none (λ r. not (r.decision_digest == a.decision_digest)) rs
        (All-map _ _ (λ r e. rw e.1 refl) rs h.1)),
)

closed-OneRun :
    (a : Option ActiveRun) (d : Dict RecordKey ReplacementReleaseRecord)
    → OneRun a (values d)
    → (not (length d == 0) && not (is_some a)) ≡ false
closed-OneRun none d h = ground (arith, h, length-map (λ e. e.1) d)
closed-OneRun (some a) d h = ground arith

pub check_loadable :
    (p : Payload) (d : Dict RecordKey ReplacementReleaseRecord) (s : Store)
    → IsLoadable s.max_records_per_run s.seal_retention p.active_run
        (values d)
        p.seals
        p.next_seal_sequence
    → check_payload p d s ≡ (ok tt, s)
unfolding check_payload
check_loadable p d s h =
    let cap : ltb s.max_records_per_run (length d) ≡ false =
      ground (arith, h.within, length-map (λ (e : RecordKey × ReplacementReleaseRecord). e.1) d) in
    let seals : any (λ x. not (complete_seal x)) p.seals ≡ false =
      any_none (λ x. not (complete_seal x)) p.seals
        (All-map _ _ (λ x e. rw e refl) p.seals h.sealed) in
    let few : ltb s.seal_retention (length p.seals) ≡ false = ground (arith, h.kept) in
    let once : not (distinct_count (map (λ x. x.restart_run_id) p.seals) == length p.seals)
        ≡ false =
      ground (arith, distinct-runs p.seals h.runs_apart) in
    let next : (p.next_seal_sequence == 0
          || (not (length p.seals == 0) && leb p.next_seal_sequence (last_sequence p.seals)))
        ≡ false =
      ground (arith, h.positive, last-below p.next_seal_sequence p.seals h.below h.positive) in
    rw
      (
        cap,
        closed-OneRun p.active_run d h.one_run,
        (OneRun-mixes p.active_run (values d) h.one_run).0,
        (OneRun-mixes p.active_run (values d) h.one_run).1,
        seals,
        few,
        falls-rising p.seals h.rising,
        once,
        next,
      )
      refl

-- A payload whose parts are in order is loaded as it stands.
pub load_payload-loadable :
    (p : Payload) (s : Store)
    → IsLoadable s.max_records_per_run s.seal_retention p.active_run p.records p.seals
        p.next_seal_sequence
    → load_payload p s ≡ (ok tt, adopt p (map keyed p.records) s)
unfolding load_payload lookup
load_payload-loadable p s h =
    ap (λ r. elim r [ err e ↦ (err e, s) | ok d ↦ (check_payload p d >> modify (adopt p d)) s ])
      (load_records-All p.records [] [] h.complete h.apart
        (All-map _ _ (λ r e. (refl, refl)) p.records h.complete))
    ∙ pass (check_payload p (map keyed p.records)) (modify (adopt p (map keyed p.records))) s
        (check_loadable p (map keyed p.records) s (
          subst
            (λ rs.
              IsLoadable s.max_records_per_run s.seal_retention p.active_run rs p.seals
                p.next_seal_sequence)
            (sym (keyed-values p.records)) h))
        refl
