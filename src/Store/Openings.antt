-- ===== src/Store/Openings.antt =====
-- Keys that are free and leases without a decision: prism_serve/scheduler/replacement_store.py.
use prism_serve.Base.{
  ◌≡◌, refl, sym, ap, subst, ◌∙◌, inl, inr, Bool, false, not, ◌&&◌, none, some, List, [], ◌∷◌, ◌++◌,
  arith, if◌then◌else◌, Bool-cases, ◌==◌, nat_key, text_key, pair_key, triple_key, triple_beq_iff,
  any, All,
}
use prism_serve.Base.Dict.{lookup, values, insert, lookup-insert}
use prism_serve.Store.Records.{ReplacementReleaseRecord, RecordKey, key_of, lease_of}
use prism_serve.Store.Decisions.{other_decides}
use prism_serve.Store.Loadable.{Apart, insert_new}
use prism_serve.Store.Durable.{Table}

-- The key of the record is free, and no record decides on its lease.
abbrev pub IsOpen : Table → ReplacementReleaseRecord → Type 0
IsOpen d r = (lookup (key_of r) d ≡ none) × (other_decides r (values d) ≡ false)

any-last :
    (p : ReplacementReleaseRecord → Bool) (d : Table) (k : RecordKey) (r : ReplacementReleaseRecord)
    → any p (values d) ≡ false
    → p r ≡ false
    → any p (values (d ++ (k, r) ∷ [])) ≡ false
any-last p [] k r a b = ground (arith, b)
any-last p ((j, x) ∷ d) k r a b = ground (arith, a, any-last p d k r (ground (arith, a)) b)

still-IsOpen :
    (d : Table) (r x : ReplacementReleaseRecord)
    → lookup (key_of r) d ≡ none
    → Apart r x
    → IsOpen d x
    → IsOpen (insert (key_of r) r d) x
unfolding other_decides
still-IsOpen d r x f a (k, o) = (
  ground (
    arith,
    lookup-insert (key_of x) (key_of r) r d,
    k,
    a.0,
    triple_beq_iff (key_of x) (key_of r),
    triple_beq_iff (key_of r) (key_of x),
  ),
  subst
      (λ t. any (λ o. (lease_of o == lease_of x) && not (key_of o == key_of x)) (values t) ≡ false)
      (sym (insert_new (key_of r) r d f))
      (any-last (λ o. (lease_of o == lease_of x) && not (key_of o == key_of x)) d (key_of r) r o
        (ground (arith, a.1))),
)

pub All-still-IsOpen :
    (d : Table) (r : ReplacementReleaseRecord) (rs : List ReplacementReleaseRecord)
    → lookup (key_of r) d ≡ none
    → All (Apart r) rs
    → All (IsOpen d) rs
    → All (IsOpen (insert (key_of r) r d)) rs
All-still-IsOpen d r [] f a o = tt
All-still-IsOpen d r (x ∷ rs) f a o =
    (still-IsOpen d r x f a.0 o.0, All-still-IsOpen d r rs f a.1 o.1)

-- What is under another key stays.
pub stays_under :
    (d : Table) (r x : ReplacementReleaseRecord) (k : RecordKey)
    → lookup (key_of r) d ≡ none
    → lookup k d ≡ some x
    → lookup k (insert (key_of r) r d) ≡ some x
stays_under d r x k f e = elim (Bool-cases (k == key_of r)) [
  | inl same ↦ absurd (
      ground (arith, sym f ∙ ap (λ j. lookup j d) (sym ((triple_beq_iff k (key_of r)).0 same)) ∙ e))
  | inr other ↦
      lookup-insert k (key_of r) r d ∙ ap (λ (b : Bool). if b then some r else lookup k d) other ∙ e
]

pub All-IsOpen : (rs : List ReplacementReleaseRecord) → All (IsOpen []) rs
unfolding lookup other_decides
All-IsOpen [] = tt
All-IsOpen (r ∷ rs) = ((refl, refl), All-IsOpen rs)
