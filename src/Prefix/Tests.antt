-- ===== src/Prefix/Tests.antt =====
-- Runs of the prefix index, and instances of its theorems.
use prism_serve.Prefix.Consistent.{Consistent}
use prism_serve.Prefix.Rebuild.{Call, applies, installs, removes, run, run-Consistent}
use prism_serve.Base.{ℕ, ◌≡◌, refl, List, [], ◌∷◌, nat_key, text_key, pair_key, ok}
use prism_serve.Base.Dict.{lookup, insert, erase}
use prism_serve.Prefix.Index.{
  Owner, CacheLocation, PrefixEvent, hash_added, evicted, init, is_owned, set_add, same_location,
  add_location, remove_block, set_or_pop, discard_key, apply_event, apply_from, set_cursor,
  apply_events,
}
use prism_serve.Prefix.Events.{apply_events_again}

abbrev d0 : Owner
d0 = ("d0", "e0")

abbrev block : ℕ → CacheLocation
block id = record {
  instance_id = "d0";
  instance_epoch = "e0";
  namespace = "n";
  kv_compatibility_id = "k";
  request_context_digest = "c";
  chain_hash = id;
  block_index = 0;
  block_id = id;
  prefix_tokens = 16;
  last_updated = 1;
}

abbrev batch : List PrefixEvent
batch =
    record { kind = hash_added; location = block 7; seq_no = 1 }
    ∷ record { kind = hash_added; location = block 8; seq_no = 2 }
    ∷ record { kind = evicted; location = block 7; seq_no = 3 }
    ∷ []

accepted : (apply_events d0 batch (init 600)).0 ≡ ok 3
unfolding apply_events apply_from apply_event add_location remove_block set_or_pop discard_key
    set_add same_location is_owned set_cursor insert lookup erase
accepted = refl

apply_events_again_example :
    let p' = (apply_events d0 batch (init 600)).1 in apply_events d0 batch p' ≡ (ok 3, p')
apply_events_again_example = apply_events_again d0 batch (init 600) 3 accepted

abbrev calls : List Call
calls = applies d0 batch ∷ installs d0 0 (block 5 ∷ block 6 ∷ []) ∷ removes "d1" ∷ []

run-Consistent_example : Consistent (run calls 600)
run-Consistent_example = run-Consistent calls 600
