-- ===== src/Prefix/Index.antt =====
-- The index and its operations: prism_serve/router/prefix_index.py. A Python set is a list without
-- repeated entries, whose order no operation reads.
use prism_serve.Base.{
  ℕ, ◌+◌, String, Bool, not, ◌&&◌, ◌||◌, List, [], ◌∷◌, leb, if◌then◌else◌, get_or, ◌==◌, nat_key,
  text_key, pair_key, filter, any, all, value_error, runtime_error, Result, ok, err, Action, ◌>>=◌,
  ◌>>◌,
}
use prism_serve.Base.Dict.{Dict, keys, lookup, contains, insert, erase}

-- `Key` and `Owner`
abbrev pub IndexKey : Type 0
IndexKey = String × (String × (String × ℕ))

abbrev pub Owner : Type 0
Owner = String × String

pub record CacheLocation : Type 0 where
  pub instance_id : String
  pub instance_epoch : String
  pub namespace : String
  pub kv_compatibility_id : String
  pub request_context_digest : String
  pub chain_hash : ℕ
  pub block_index : ℕ
  pub block_id : ℕ
  pub prefix_tokens : ℕ
  pub last_updated : ℕ

pub data EventKind : Type 0 where
  hash_added evicted other_kind : EventKind

pub record PrefixEvent : Type 0 where
  pub kind : EventKind
  pub location : CacheLocation
  pub seq_no : ℕ

pub record PrefixIndex : Type 0 where
  pub max_age : ℕ
  pub index : Dict IndexKey (List CacheLocation)
  pub forward : Dict Owner (List IndexKey)
  pub last_seq : Dict Owner ℕ

abbrev pub init : ℕ → PrefixIndex
init max_age = record { max_age = max_age; index = []; forward = []; last_seq = [] }

-- `_key`
abbrev pub key_of : CacheLocation → IndexKey
key_of l = (l.namespace, (l.kv_compatibility_id, (l.request_context_digest, l.chain_hash)))

-- `(location.instance_id, location.instance_epoch)`
abbrev pub owner_of : CacheLocation → Owner
owner_of l = (l.instance_id, l.instance_epoch)

-- `==` of two locations
unfoldable pub same_location : CacheLocation → CacheLocation → Bool
same_location l m =
    owner_of l == owner_of m
    && key_of l == key_of m
    && l.block_index == m.block_index
    && l.block_id == m.block_id
    && l.prefix_tokens == m.prefix_tokens
    && l.last_updated == m.last_updated

-- `s.add(x)`
unfoldable pub set_add : {A : Type 0} → (A → A → Bool) → A → List A → List A
set_add same x xs = if any (same x) xs then xs else x ∷ xs

-- `d.get(k, set())`
abbrev pub locations_at : IndexKey → PrefixIndex → List CacheLocation
locations_at k p = get_or (lookup k p.index) []

abbrev pub keys_of : Owner → PrefixIndex → List IndexKey
keys_of o p = get_or (lookup o p.forward) []

-- `_add`
unfoldable pub add_location : CacheLocation → PrefixIndex → PrefixIndex
add_location l p = record p {
  index = insert (key_of l) (set_add same_location l (locations_at (key_of l) p)) p.index;
  forward =
      insert (owner_of l) (set_add (λ j k. j == k) (key_of l) (keys_of (owner_of l) p)) p.forward;
}

-- `index[key] = locations`, and an empty entry is removed.
unfoldable pub set_or_pop :
    IndexKey
    → List CacheLocation
    → Dict IndexKey (List CacheLocation)
    → Dict IndexKey (List CacheLocation)
set_or_pop k [] index = erase k index
set_or_pop k (l ∷ ls) index = insert k (l ∷ ls) index

unfoldable pub is_owned : Owner → CacheLocation → Bool
is_owned o l = owner_of l == o

unfoldable pub discard_key : IndexKey → Owner → PrefixIndex → PrefixIndex
discard_key k o p = record p {
  forward = insert o (filter (λ j. not (j == k)) (keys_of o p)) p.forward;
}

-- `_remove_block`
unfoldable pub remove_block : IndexKey → Owner → ℕ → PrefixIndex → PrefixIndex
remove_block k o block_id p =
    let left =
      filter (λ l. not (is_owned o l) || not (l.block_id == block_id)) (locations_at k p) in
    let p' = record p { index = set_or_pop k left p.index } in
    if any (is_owned o) left then p' else discard_key k o p'

-- `_remove_owner`
unfoldable pub remove_owner_at : Owner → IndexKey → PrefixIndex → PrefixIndex
remove_owner_at o k p = record p {
  index = set_or_pop k (filter (λ l. not (is_owned o l)) (locations_at k p)) p.index;
}

unfoldable pub remove_keys : Owner → List IndexKey → PrefixIndex → PrefixIndex
remove_keys o [] p = p
remove_keys o (k ∷ ks) p = remove_keys o ks (remove_owner_at o k p)

unfoldable pub forget_owner : Owner → PrefixIndex → PrefixIndex
forget_owner o p = record p { forward = erase o p.forward; last_seq = erase o p.last_seq }

unfoldable pub remove_owner : Owner → PrefixIndex → PrefixIndex
remove_owner o p = forget_owner o (remove_keys o (keys_of o p) p)

unfoldable pub remove_owners : List Owner → PrefixIndex → PrefixIndex
remove_owners [] p = p
remove_owners (o ∷ os) p = remove_owners os (remove_owner o p)

unfoldable pub remove_instance : String → PrefixIndex → PrefixIndex
remove_instance instance_id p = remove_owners (filter (λ o. o.0 == instance_id) (keys p.forward)) p

abbrev pub clear : PrefixIndex → PrefixIndex
clear p = record p { index = []; forward = []; last_seq = [] }

-- What an event does to the index.
unfoldable pub apply_event : Owner → PrefixEvent → Action PrefixIndex (Unit {0})
apply_event o e p = elim e.kind [
  | hash_added ↦ (ok tt, add_location e.location p)
  | evicted ↦ (ok tt, remove_block (key_of e.location) o e.location.block_id p)
  | other_kind ↦ (err (value_error "unsupported prefix event"), p)
]

-- The loop of `apply_events`, from the cursor.
unfoldable pub apply_from : Owner → ℕ → List PrefixEvent → Action PrefixIndex ℕ
apply_from o cursor [] p = (ok cursor, p)
apply_from o cursor (e ∷ es) p =
    let skipped = apply_from o cursor es p in
    let applied = (apply_event o e >> apply_from o e.seq_no es) p in
    if not (is_owned o e.location)
    then (err (value_error "prefix event owner mismatch"), p)
    else if leb e.seq_no cursor
    then skipped
    else if not (e.seq_no == cursor + 1)
    then (err (runtime_error "event gap"), p)
    else applied

abbrev pub cursor_of : Owner → PrefixIndex → ℕ
cursor_of o p = get_or (lookup o p.last_seq) 0

unfoldable pub set_cursor : Owner → ℕ → Action PrefixIndex ℕ
set_cursor o cursor p = (ok cursor, record p { last_seq = insert o cursor p.last_seq })

unfoldable pub apply_events : Owner → List PrefixEvent → Action PrefixIndex ℕ
apply_events o events p = (apply_from o (cursor_of o p) events >>= set_cursor o) p

-- The loop of `install_full_report`.
unfoldable pub add_report : Owner → List CacheLocation → Action PrefixIndex (Unit {0})
add_report o [] p = (ok tt, p)
add_report o (l ∷ ls) p =
    let rest = add_report o ls (add_location l p) in
    if is_owned o l then rest else (err (value_error "full report owner mismatch"), p)

unfoldable pub install_full_report : Owner → ℕ → List CacheLocation → Action PrefixIndex ℕ
install_full_report o snapshot_seq_no locations p =
    (add_report o locations >> set_cursor o snapshot_seq_no) (remove_owner o p)

-- One report of `install_world_full_reports`, staged: the owner, the sequence number, the locations.
abbrev pub WorldReport : Type 0
WorldReport = Owner × ℕ × List CacheLocation

unfoldable pub touch_owner : Owner → PrefixIndex → PrefixIndex
touch_owner o p = record p { forward = insert o (keys_of o p) p.forward }

unfoldable pub stage : List WorldReport → Action PrefixIndex (Unit {0})
stage [] p = (ok tt, p)
stage ((o, snapshot_seq_no, locations) ∷ reports) p =
    let rest =
      (add_report o locations >> (set_cursor o snapshot_seq_no >>= λ _. stage reports))
        (touch_owner o p) in
    if contains o p.last_seq then (err (value_error "duplicate full report owner"), p) else rest

-- `set(staged) == expected`
unfoldable pub same_owners : Dict Owner ℕ → List Owner → Bool
same_owners staged expected =
    all (λ o. any (λ x. o == x) expected) (keys staged) && all (λ o. contains o staged) expected

-- What is staged replaces the index, or nothing does.
unfoldable pub publish :
    List Owner → Result (Unit {0}) × PrefixIndex → Action PrefixIndex (Unit {0})
publish expected (err e, staged) p = (err e, p)
publish expected (ok _, staged) p =
    if same_owners staged.last_seq expected
    then (ok tt, staged)
    else (err (value_error "full report world does not match expected owners"), p)

unfoldable pub install_world_full_reports :
    List WorldReport → List Owner → Action PrefixIndex (Unit {0})
install_world_full_reports reports expected p = publish expected (stage reports (init p.max_age)) p
