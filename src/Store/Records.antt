-- ===== src/Store/Records.antt =====
-- Records, seals and digests: prism_serve/scheduler/replacement_store.py.
use prism_serve.Base.{
  ℕ, String, ◌≡◌, ap, ◌∙◌, ◌↔◌, Bool, true, false, ◌&&◌, Option, List, [], ◌∷◌, arith, ◌==◌,
  nat_key, text_key, pair_key, str_eq_iff, triple_key,
}
use prism_serve.Base.Order.{tuple_before, sorted}
use Prim.Native.Char.{Char}
use Prim.Native.String.{◌++◌ as append, ◌∷◌ as cons}
use Prim.Native.String.compare
use text.Mathlib.Text.{is_eq}
use Prim.Native.String.append

pub record ReplacementReleaseRecord : Type 0 where
  pub cleanup_id : String
  pub restart_run_id : String
  pub old_operation_digest : String
  pub operation_id : String
  pub lease_id : String
  pub old_resource_kinds : List String
  pub decision_digest : String

abbrev pub RecordKey : Type 0
RecordKey = String × String × String

-- `record.key`
abbrev pub key_of : ReplacementReleaseRecord → RecordKey
key_of r = (r.cleanup_id, r.restart_run_id, r.old_operation_digest)

-- `(record.operation_id, record.lease_id)`
abbrev pub lease_of : ReplacementReleaseRecord → String × String
lease_of r = (r.operation_id, r.lease_id)

pub record ReplacementRunSeal : Type 0 where
  pub seal_sequence : ℕ
  pub restart_run_id : String
  pub old_topology_generation_digest : String
  pub new_topology_generation : String
  pub decision_digest : String
  pub record_root_digest : String
  pub record_count : ℕ

-- The dict `_active_run`.
pub record ActiveRun : Type 0 where
  pub restart_run_id : String
  pub old_topology_generation_digest : String
  pub decision_digest : String

pub record Payload : Type 0 where
  pub active_run : Option ActiveRun
  pub records : List ReplacementReleaseRecord
  pub seals : List ReplacementRunSeal
  pub next_seal_sequence : ℕ

-- The hexadecimal SHA-256 of the canonical JSON of a text, of a list of records, and of a payload.
pub record Hashes : Type 0 where
  pub text_hash : String → String
  pub records_hash : List ReplacementReleaseRecord → String
  pub payload_hash : Payload → String

-- `"sha256:" + ...`
unfoldable pub prefixed : String → String
prefixed h = append "sha256:" h

-- `_digest` of a text.
unfoldable pub digest : Hashes → String → String
digest h s = prefixed (h.text_hash s)

abbrev pub record_before : ReplacementReleaseRecord → ReplacementReleaseRecord → Bool
record_before a b = tuple_before (key_of a) (key_of b)

-- `_record_root`
unfoldable pub record_root : Hashes → List ReplacementReleaseRecord → String
record_root h rs = prefixed (h.records_hash (sorted record_before rs))

abbrev pub list_beq : List String → List String → Bool
list_beq [] [] = true
list_beq [] (y ∷ ys) = false
list_beq (x ∷ xs) [] = false
list_beq (x ∷ xs) (y ∷ ys) = (x == y) && list_beq xs ys

-- `existing == record`
unfoldable pub same_record : ReplacementReleaseRecord → ReplacementReleaseRecord → Bool
same_record a b =
    (key_of a == key_of b)
    && (lease_of a == lease_of b)
    && list_beq a.old_resource_kinds b.old_resource_kinds
    && (a.decision_digest == b.decision_digest)

-- `not text`
abbrev pub empty : String → Bool
empty s = s == ""

cons_full : (c : Char) (s t : String) → empty (append (cons c s) t) ≡ false
cons_full c s t = ap empty (append.cons c s t) ∙ ap is_eq (compare.cons-nil c (append s t))

pub prefixed_full : (s : String) → empty (prefixed s) ≡ false
unfolding prefixed
prefixed_full s = cons_full _ _ s

list_beq_iff : (xs ys : List String) → (list_beq xs ys ≡ true) ↔ (xs ≡ ys)
list_beq_iff [] [] = ground arith
list_beq_iff [] (y ∷ ys) = ground arith
list_beq_iff (x ∷ xs) [] = ground arith
list_beq_iff (x ∷ xs) (y ∷ ys) = ground (arith, str_eq_iff x y, list_beq_iff xs ys)

pub same_record_iff : (a b : ReplacementReleaseRecord) → (same_record a b ≡ true) ↔ (a ≡ b)
unfolding same_record
same_record_iff a b = ground (
  arith,
  str_eq_iff a.cleanup_id b.cleanup_id,
  str_eq_iff a.restart_run_id b.restart_run_id,
  str_eq_iff a.old_operation_digest b.old_operation_digest,
  str_eq_iff a.operation_id b.operation_id,
  str_eq_iff a.lease_id b.lease_id,
  str_eq_iff a.decision_digest b.decision_digest,
  list_beq_iff a.old_resource_kinds b.old_resource_kinds,
)
