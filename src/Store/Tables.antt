-- ===== src/Store/Tables.antt =====
-- Tables of records that a segment may hold: prism_serve/scheduler/replacement_store.py.
use prism_serve.Base.{
  ◌≡◌, refl, sym, ap, subst, true, false, none, some, [], ◌∷◌, ◌++◌, arith, ◌==◌, nat_key, text_key,
  pair_key, triple_key, triple_beq_iff, All, Pairwise, All-append, Pairwise-last, length, suc, ◌∙◌,
  length-append,
}
use prism_serve.Base.Dict.{values, lookup, insert}
use prism_serve.Store.Records.{ReplacementReleaseRecord, key_of, lease_of, ActiveRun}
use prism_serve.Store.Load.{complete_record}
use prism_serve.Store.Loadable.{Apart, OneRun, keyed, insert_new}
use prism_serve.Store.Durable.{Table}

-- The records of one run, each under its key, with different keys and leases.
pub record IsSegment (a : ActiveRun) (t : Table) : Type 0 where
  pub complete : All (λ r. complete_record r ≡ true) (values t)
  pub apart : Pairwise Apart (values t)
  pub named : All (λ e. e.0 ≡ key_of e.1) t
  pub one_run : OneRun (some a) (values t)

-- A record of the run `a`, with its fields.
pub record IsRecordOf (a : ActiveRun) (r : ReplacementReleaseRecord) : Type 0 where
  pub complete : complete_record r ≡ true
  pub run : (r.restart_run_id == a.restart_run_id) ≡ true
  pub decision : (r.decision_digest == a.decision_digest) ≡ true

pub values-append : (t u : Table) → values (t ++ u) ≡ values t ++ values u
values-append [] u = refl
values-append ((k, r) ∷ t) u = ap (λ xs. r ∷ xs) (values-append t u)

-- A record under a key that is free, on a lease that no record decides on, stands apart.
new-Apart :
    (r : ReplacementReleaseRecord) (t : Table)
    → All (λ e. e.0 ≡ key_of e.1) t
    → lookup (key_of r) t ≡ none
    → All (λ o. (lease_of o == lease_of r) ≡ false) (values t)
    → All (λ o. Apart o r) (values t)
unfolding lookup
new-Apart r [] n f l = tt
new-Apart r ((k, o) ∷ t) n f l = (
  (ground (arith, n.0, f, triple_beq_iff (key_of r) k, triple_beq_iff (key_of o) (key_of r)), l.0),
  new-Apart r t n.1 (ground (arith, f)) l.1,
)

pub length-insert_new :
    (r : ReplacementReleaseRecord) (t : Table)
    → lookup (key_of r) t ≡ none
    → length (insert (key_of r) r t) ≡ suc (length t)
length-insert_new r t f =
    ap length (insert_new (key_of r) r t f) ∙ omega (arith, length-append t (keyed r ∷ []))

pub insert-IsSegment :
    (a : ActiveRun) (r : ReplacementReleaseRecord) (t : Table)
    → IsSegment a t
    → IsRecordOf a r
    → lookup (key_of r) t ≡ none
    → All (λ o. (lease_of o == lease_of r) ≡ false) (values t)
    → IsSegment a (insert (key_of r) r t)
insert-IsSegment a r t s m f l = subst (IsSegment a) (sym (insert_new (key_of r) r t f)) (record {
  complete = over (λ x. complete_record x ≡ true) s.complete m.complete;
  apart =
      subst (Pairwise Apart) (sym (values-append t (keyed r ∷ [])))
        (Pairwise-last Apart (values t) r s.apart (new-Apart r t s.named f l));
  named = All-append _ t (keyed r ∷ []) s.named (refl, tt);
  one_run = (s.one_run.0, over _ s.one_run.1 (m.run, m.decision));
})
  where
    over :
        (P : ReplacementReleaseRecord → Type 0)
        → All P (values t)
        → P r
        → All P (values (t ++ keyed r ∷ []))
    over P h p =
        subst (All P) (sym (values-append t (keyed r ∷ [])))
          (All-append P (values t) (r ∷ []) h (p, tt))
