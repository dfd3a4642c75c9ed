-- ===== src/Store/Restart.antt =====
-- What a restart reads back: prism_serve/scheduler/replacement_store.py.
use prism_serve.Base.{
  ℕ, ◌≡◌, refl, sym, ap, subst, ◌∙◌, false, Option, none, some, List, [], ◌∷◌, map, arith,
  if◌then◌else◌, nat_key, text_key, pair_key, triple_key, triple_beq_iff, pair_beq_iff, str_eq_refl,
  All, ok, err, true,
}
use prism_serve.Base.Dict.{values}
use prism_serve.Base.Order.{
  sorted, sorted_again, tuple_before_asym, length-sorted, All-sorted, Pairwise-sorted,
}
use prism_serve.Store.Records.{
  ReplacementReleaseRecord, key_of, lease_of, ReplacementRunSeal, ActiveRun, Hashes, prefixed,
  record_before,
}
use prism_serve.Store.State.{image, Disk, Store, payload_of, envelope_of}
use prism_serve.Store.Load.{adopt, load_envelope, load_file, orphan_error, load, blank}
use prism_serve.Store.Loadable.{
  Apart, OneRun, IsLoadable, keyed, keyed-values, load_payload-loadable,
}
use prism_serve.Store.Durable.{Table, Unsealed, held, IsDurable}

-- The records in the order of the file.
abbrev pub in_order : List ReplacementReleaseRecord → List ReplacementReleaseRecord
in_order = sorted record_before

pub in_order_again : (rs : List ReplacementReleaseRecord) → in_order (in_order rs) ≡ in_order rs
in_order_again = sorted_again record_before (λ a b. tuple_before_asym (key_of a) (key_of b))

abbrev pub reread : Table → Table
reread t = map keyed (in_order (values t))

pub reread-values : (t : Table) → values (reread t) ≡ in_order (values t)
reread-values t = keyed-values (in_order (values t))

in_order-OneRun :
    (a : Option ActiveRun) (rs : List ReplacementReleaseRecord)
    → OneRun a rs
    → OneRun a (in_order rs)
in_order-OneRun none rs h = length-sorted record_before rs ∙ h
in_order-OneRun (some a) rs h = (h.0, All-sorted record_before _ rs h.1)

Apart-swap : (a b : ReplacementReleaseRecord) → Apart a b → Apart b a
Apart-swap a b h = (
  ground (arith, h.0, triple_beq_iff (key_of a) (key_of b), triple_beq_iff (key_of b) (key_of a)),
  ground
      (arith, h.1, pair_beq_iff (lease_of a) (lease_of b), pair_beq_iff (lease_of b) (lease_of a)),
)

pub in_order-IsLoadable :
    (m r : ℕ) (a : Option ActiveRun) (rs : List ReplacementReleaseRecord)
    (ss : List ReplacementRunSeal) (n : ℕ)
    → IsLoadable m r a rs ss n
    → IsLoadable m r a (in_order rs) ss n
in_order-IsLoadable m r a rs ss n h = record {
  complete = All-sorted record_before _ rs h.complete;
  apart = Pairwise-sorted record_before Apart Apart-swap rs h.apart;
  within = omega (arith, h.within, length-sorted record_before rs);
  one_run = in_order-OneRun a rs h.one_run;
  sealed = h.sealed;
  kept = h.kept;
  rising = h.rising;
  below = h.below;
  runs_apart = h.runs_apart;
  positive = h.positive;
}

pub load-clean :
    (h : Hashes) (m r : ℕ) (d : Disk)
    → d.orphan ≡ false
    → load h (blank m r d) ≡ load_file h d.contents (blank m r d)
unfolding load
load-clean h m r d o =
    ap (λ b. if b then (err orphan_error, blank m r d) else load_file h d.contents (blank m r d)) o

pub load-orphan :
    (h : Hashes) (m r : ℕ) (d : Disk)
    → d.orphan ≡ true
    → load h (blank m r d) ≡ (err orphan_error, blank m r d)
unfolding load
load-orphan h m r d o =
    ap (λ b. if b then (err orphan_error, blank m r d) else load_file h d.contents (blank m r d)) o

module _ (h : Hashes) (m r : ℕ) (d : Disk) (clean : d.orphan ≡ false) (a : Option ActiveRun)
    (t : Table) (ss : List ReplacementRunSeal) (n : ℕ) where
  -- What is in memory after a file with these parts is read.
  abbrev pub loaded : Store
  loaded = adopt (payload_of a t ss n) (reread t) (blank m r d)

  load_envelope-own :
      IsLoadable m r a (values t) ss n
      → load_envelope h (envelope_of h (payload_of a t ss n)) (blank m r d) ≡ (ok tt, loaded)
  unfolding load_envelope envelope_of payload_of
  load_envelope-own l = rw (str_eq_refl (prefixed (h.payload_hash (payload_of a t ss n)))) (
      load_payload-loadable (payload_of a t ss n) (blank m r d)
        (in_order-IsLoadable m r a (values t) ss n l))

  pub load-image :
      d.contents ≡ image (envelope_of h (payload_of a t ss n))
      → IsLoadable m r a (values t) ss n
      → load h (blank m r d) ≡ (ok tt, loaded)
  unfolding load_file
  load-image e l =
      load-clean h m r d clean ∙ ap (λ c. load_file h c (blank m r d)) e ∙ load_envelope-own l

  same_payload : payload_of a (reread t) ss n ≡ payload_of a t ss n
  unfolding payload_of
  same_payload = λ i. record {
    active_run = a;
    records = (ap in_order (reread-values t) ∙ in_order_again (values t)) i;
    seals = ss;
    next_seal_sequence = n;
  }

  named-reread : (rs : List ReplacementReleaseRecord) → All (λ e. e.0 ≡ key_of e.1) (map keyed rs)
  named-reread [] = tt
  named-reread (x ∷ xs) = (refl, named-reread xs)

  pub loaded-IsDurable :
      d.contents ≡ image (envelope_of h (payload_of a t ss n))
      → IsLoadable m r a (values t) ss n
      → Unsealed a ss
      → IsDurable h loaded
  unfolding adopt payload_of
  loaded-IsDurable e l u = record {
    loadable =
        subst (λ rs. IsLoadable m r a rs ss n) (sym (reread-values t))
          (in_order-IsLoadable m r a (values t) ss n l);
    named = named-reread (in_order (values t));
    unsealed = u;
    clean = clean;
    holds = held (e ∙ ap (λ p. image (envelope_of h p)) (sym same_payload));
  }
