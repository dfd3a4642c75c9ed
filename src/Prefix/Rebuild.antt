-- ===== src/Prefix/Rebuild.antt =====
-- Any row of calls on a PrefixIndex: prism_serve/router/prefix_index.py.
use prism_serve.Base.{
  ℕ, ◌+◌, String, ◌≡◌, sym, subst, inl, inr, Bool, true, false, not, none, some, List, [], ◌∷◌, leb,
  if◌then◌else◌, Bool-cases, get_or, ◌==◌, nat_key, text_key, pair_key, pair_beq_iff, value_error,
  Result, ok, err, Action, ◌>>=◌, Among,
}
use prism_serve.Base.Dict.{lookup, contains}
use prism_serve.Prefix.Index.{
  Owner, CacheLocation, hash_added, evicted, other_kind, EventKind, PrefixEvent, PrefixIndex, init,
  owner_of, key_of, keys_of, add_location, is_owned, remove_block, remove_owner, remove_owners,
  remove_instance, clear, apply_event, apply_from, cursor_of, set_cursor, apply_events, add_report,
  install_full_report, WorldReport, touch_owner, stage, same_owners, publish,
  install_world_full_reports,
}
use prism_serve.Prefix.Entries.{look_same, look_other}
use prism_serve.Prefix.Backed.{touch_owner-IsBacked}
use prism_serve.Prefix.Consistent.{Consistent, add_location-Consistent}
use prism_serve.Prefix.Removal.{remove_owner-Consistent, remove_block-Consistent}

pub init-Consistent : (max_age : ℕ) → Consistent (init max_age)
unfolding lookup
init-Consistent max_age = record {
  keyed = λ k l n. absurd n;
  listed = λ k l n. absurd n;
  filled = λ k h. absurd (no_entry h);
  backed = λ o k n. absurd n;
}
  where
    no_entry : {A : Type 0} {a : A} → none ≡ some a → ⊥
    no_entry h = cc

set_cursor-Consistent :
    (o : Owner) (c : ℕ) (p : PrefixIndex) → Consistent p → Consistent (set_cursor o c p).1
unfolding set_cursor
set_cursor-Consistent o c p v = record {
  keyed = v.keyed;
  listed = v.listed;
  filled = v.filled;
  backed = v.backed;
}

apply_event-Consistent :
    (o : Owner) (e : PrefixEvent) (p : PrefixIndex)
    → Consistent p
    → Consistent (apply_event o e p).1
unfolding apply_event
apply_event-Consistent o e p v = by_kind e.kind
  where
    by_kind :
        (k : EventKind)
        → Consistent (
            (λ (x : Result (Unit {0}) × PrefixIndex). x.1)
              (elim k [
                | hash_added ↦ (ok tt, add_location e.location p)
                | evicted ↦ (ok tt, remove_block (key_of e.location) o e.location.block_id p)
                | other_kind ↦ (err (value_error "unsupported prefix event"), p)
              ]))
    by_kind hash_added = add_location-Consistent e.location p v
    by_kind evicted = remove_block-Consistent (key_of e.location) o e.location.block_id p v
    by_kind other_kind = v

-- A call that goes on after another, where both keep the invariant.
then-Consistent :
    {A B : Type 0} (m : Action PrefixIndex A) (k : A → Action PrefixIndex B) (p : PrefixIndex)
    → Consistent (m p).1
    → ((a : A) (q : PrefixIndex) → Consistent q → Consistent (k a q).1)
    → Consistent ((m >>= k) p).1
then-Consistent m k p v w = result (m p).0
  where
    result : (r : Result _) → Consistent (((λ (_ : PrefixIndex). (r, (m p).1)) >>= k) p).1
    result (ok a) = w a (m p).1 v
    result (err e) = v

pick-Consistent :
    {A : Type 0} (b : Bool) (x y : A × PrefixIndex)
    → Consistent x.1
    → Consistent y.1
    → Consistent (if b then x else y).1
pick-Consistent true x y v w = v
pick-Consistent false x y v w = w

apply_from-Consistent :
    (o : Owner) (c : ℕ) (es : List PrefixEvent) (p : PrefixIndex)
    → Consistent p
    → Consistent (apply_from o c es p).1
unfolding apply_from
apply_from-Consistent o c [] p v = v
apply_from-Consistent o c (e ∷ es) p v = pick-Consistent (not (is_owned o e.location)) _ _ v (
    pick-Consistent (leb e.seq_no c) _ _ (apply_from-Consistent o c es p v) (
      pick-Consistent (not (e.seq_no == c + 1)) _ _ v (
        then-Consistent (apply_event o e) (λ _. apply_from o e.seq_no es) p
          (apply_event-Consistent o e p v) (λ _ q w. apply_from-Consistent o e.seq_no es q w))))

apply_events-Consistent :
    (o : Owner) (es : List PrefixEvent) (p : PrefixIndex)
    → Consistent p
    → Consistent (apply_events o es p).1
unfolding apply_events
apply_events-Consistent o es p v =
    then-Consistent (apply_from o (cursor_of o p) es) (set_cursor o) p
      (apply_from-Consistent o (cursor_of o p) es p v) (λ c q w. set_cursor-Consistent o c q w)

add_report-Consistent :
    (o : Owner) (ls : List CacheLocation) (p : PrefixIndex)
    → Consistent p
    → Consistent (add_report o ls p).1
unfolding add_report
add_report-Consistent o [] p v = v
add_report-Consistent o (l ∷ ls) p v =
    pick-Consistent (is_owned o l) _ _
      (add_report-Consistent o ls (add_location l p) (add_location-Consistent l p v)) v

install_full_report-Consistent :
    (o : Owner) (c : ℕ) (ls : List CacheLocation) (p : PrefixIndex)
    → Consistent p
    → Consistent (install_full_report o c ls p).1
unfolding install_full_report
install_full_report-Consistent o c ls p v =
    then-Consistent (add_report o ls) (λ _. set_cursor o c) (remove_owner o p)
      (add_report-Consistent o ls (remove_owner o p) (remove_owner-Consistent o p v))
      (λ _ q w. set_cursor-Consistent o c q w)

remove_owners-Consistent :
    (os : List Owner) (p : PrefixIndex) → Consistent p → Consistent (remove_owners os p)
unfolding remove_owners
remove_owners-Consistent [] p v = v
remove_owners-Consistent (o ∷ os) p v =
    remove_owners-Consistent os (remove_owner o p) (remove_owner-Consistent o p v)

touch_owner-Consistent : (o : Owner) (p : PrefixIndex) → Consistent p → Consistent (touch_owner o p)
unfolding touch_owner
touch_owner-Consistent o p v = record {
  keyed = v.keyed;
  listed = λ k l n. elim (Bool-cases (owner_of l == o)) [
    | inl same ↦
        subst (λ d. Among k (get_or d []))
          (sym (look_same (owner_of l) o (keys_of o p) p.forward same))
          (subst (λ x. Among k (keys_of x p)) ((pair_beq_iff (owner_of l) o).0 same)
            (v.listed k l n))
    | inr other ↦
        subst (λ d. Among k (get_or d []))
          (sym (look_other (owner_of l) o (keys_of o p) p.forward other)) (v.listed k l n)
  ];
  filled = v.filled;
  backed = touch_owner-IsBacked o p v.backed;
}

stage-Consistent :
    (rs : List WorldReport) (p : PrefixIndex) → Consistent p → Consistent (stage rs p).1
unfolding stage
stage-Consistent [] p v = v
stage-Consistent ((o, c, ls) ∷ rs) p v = pick-Consistent (contains o p.last_seq) _ _ v (
    then-Consistent (add_report o ls) (λ _. set_cursor o c >>= λ _. stage rs) (touch_owner o p)
      (add_report-Consistent o ls (touch_owner o p) (touch_owner-Consistent o p v))
      (λ _ q w.
        then-Consistent (set_cursor o c) (λ _. stage rs) q (set_cursor-Consistent o c q w)
          (λ _ q' w'. stage-Consistent rs q' w')))

publish-Consistent :
    (expected : List Owner) (x : Result (Unit {0}) × PrefixIndex) (p : PrefixIndex)
    → Consistent x.1
    → Consistent p
    → Consistent (publish expected x p).1
unfolding publish
publish-Consistent expected (err e, q) p w v = v
publish-Consistent expected (ok u, q) p w v =
    pick-Consistent (same_owners q.last_seq expected) _ _ w v

pub data Call : Type 0 where
  applies : Owner → List PrefixEvent → Call
  installs : Owner → ℕ → List CacheLocation → Call
  installs_world : List WorldReport → List Owner → Call
  removes : String → Call
  removes_owner : Owner → Call
  clears : Call

-- The index after a row of calls, the last one first, raised or not.
unfoldable pub run : List Call → ℕ → PrefixIndex
run [] max_age = init max_age
run (applies o es ∷ calls) max_age = (apply_events o es (run calls max_age)).1
run (installs o c ls ∷ calls) max_age = (install_full_report o c ls (run calls max_age)).1
run (installs_world rs os ∷ calls) max_age =
    (install_world_full_reports rs os (run calls max_age)).1
run (removes i ∷ calls) max_age = remove_instance i (run calls max_age)
run (removes_owner o ∷ calls) max_age = remove_owner o (run calls max_age)
run (clears ∷ calls) max_age = clear (run calls max_age)

-- After any row of calls, those that raise half-way included, the index and the entries of the owners
-- agree in both directions: every location stands under its key, and the entry of its owner lists the
-- key, as `assert_consistent` asserts; and under every key that the entry of an owner lists there is a
-- location of that owner. No key has an empty entry.
pub run-Consistent : (calls : List Call) (max_age : ℕ) → Consistent (run calls max_age)
unfolding run install_world_full_reports remove_instance
run-Consistent [] max_age = init-Consistent max_age
run-Consistent (applies o es ∷ calls) max_age =
    apply_events-Consistent o es (run calls max_age) (run-Consistent calls max_age)
run-Consistent (installs o c ls ∷ calls) max_age =
    install_full_report-Consistent o c ls (run calls max_age) (run-Consistent calls max_age)
run-Consistent (installs_world rs os ∷ calls) max_age =
    let p = run calls max_age in
    publish-Consistent os (stage rs (init p.max_age)) p
      (stage-Consistent rs (init p.max_age) (init-Consistent p.max_age))
      (run-Consistent calls max_age)
run-Consistent (removes i ∷ calls) max_age =
    remove_owners-Consistent _ (run calls max_age) (run-Consistent calls max_age)
run-Consistent (removes_owner o ∷ calls) max_age =
    remove_owner-Consistent o (run calls max_age) (run-Consistent calls max_age)
run-Consistent (clears ∷ calls) max_age = init-Consistent (run calls max_age).max_age
