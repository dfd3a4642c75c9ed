-- ===== src/Tracker/Tests.antt =====
-- Runs of the tracker at concrete inputs, and instances of its theorems.
use prism_serve.Base.{
  ◌-◌, ◌<◌, String, ◌≡◌, refl, ◌↔◌, ◌⊎◌, true, false, none, some, List, [], ◌∷◌, map, arith,
  nat_key, text_key, pair_key, triple_key, any, assertion_error, ok, err, Among,
}
use prism_serve.Base.Dict.{lookup, insert}
use prism_serve.Base.Int.{pos}
use prism_serve.Tracker.State.{
  prefilling, kv_pending, decoding, finished, aborted, ordinal, same_state, RequestInfo,
  new_request, Tracker,
}
use prism_serve.Tracker.Operations.{
  successors, allowed, enter, transition, add, remove, get, record_first_token, put, all_requests,
}
use prism_serve.Tracker.Stuck.{is_stuck, insert_by, sort_by, get_stuck_requests}
use prism_serve.Tracker.Moves.{add-remove}
use prism_serve.Tracker.Stamps.{Stamp, decode_begin, read, Move, moved, followed, moved_stamped}
use prism_serve.Tracker.Sorting.{IsAscending}
use prism_serve.Tracker.Deadlines.{entry, stuck_in, get_stuck_lem}
use prism_serve.Tracker.Lifecycle.{
  is_terminal, Life, begin, then_enter, Life-terminal, Life-finished,
}
use prism_serve.Tracker.FirstToken.{record_first_token_once}

abbrev as_it_is : RequestInfo → RequestInfo
as_it_is r = r

abbrev fresh : RequestInfo
fresh = new_request "r1" 3

abbrev first : RequestInfo
first = record (new_request "r1" 3) { state = kv_pending; kv_sent_at = 9 }

abbrev table : Tracker
table = record {
  requests =
      ("r1", first)
      ∷ ("r2", record (new_request "r2" 4) { state = kv_pending; kv_sent_at = 7 })
      ∷ ("r3", record (new_request "r3" 5) { state = decoding })
      ∷ [];
  cleanup_tasks = [];
  ttfts = [];
  stage_latencies = [];
}

-- The request that waits longer comes first, and the one that decodes is not listed.
table_stuck : map (λ r. r.req_id) (get_stuck_requests 50 30 table) ≡ "r2" ∷ "r1" ∷ []
unfolding get_stuck_requests sort_by insert_by is_stuck ordinal
table_stuck = refl

abbrev decoded : Tracker
decoded = put (enter decoding as_it_is 60 first) "r1" table

decoded_lem : transition "r1" decoding as_it_is 60 table ≡ (ok tt, decoded)
unfolding transition allowed successors ordinal lookup
decoded_lem = refl

get_stuck_lem_example :
    (r : RequestInfo) × (get "r1" decoded ≡ some r)
    × (Among r (stuck_in decoding 100 30 decoded) ↔ (30 < 100 - 60))
    × ((x : RequestInfo)
        → Among x (stuck_in decoding 100 30 decoded) ↔ (
            Among x (all_requests decoded)
            × (x.state ≡ decoding)
            × (30 < 100 - read (entry decoding) x)))
    × IsAscending (read (entry decoding)) (stuck_in decoding 100 30 decoded)
get_stuck_lem_example =
    get_stuck_lem decoding "r1" as_it_is 60 100 30 table decoded refl (λ s r. refl) decoded_lem

-- A transition, one that is refused, and one of another request.
abbrev steps : List Move
steps =
    record { req_id = "r1"; new_state = decoding; update = as_it_is; now = 60 }
    ∷ record { req_id = "r1"; new_state = prefilling; update = as_it_is; now = 61 }
    ∷ record { req_id = "r2"; new_state = decoding; update = as_it_is; now = 62 }
    ∷ []

steps-followed : followed "r1" decode_begin steps (kv_pending, 0) ≡ (decoding, 60)
unfolding allowed successors ordinal
steps-followed = refl

first_there : get "r1" table ≡ some first
unfolding lookup
first_there = refl

moved_stamped_example :
    (r' : RequestInfo) × (get "r1" (moved steps table) ≡ some r')
    × ((s : Stamp) → (r'.state, read s r') ≡ followed "r1" s steps (kv_pending, read s first))
moved_stamped_example =
    moved_stamped steps "r1" table first ((λ s r. refl), ((λ s r. refl), ((λ s r. refl), tt)))
      first_there

-- A request that waits may not decode at once.
skipped :
    (transition "r1" decoding as_it_is 60 (record table { requests = ("r1", fresh) ∷ [] })).0
    ≡ err (assertion_error "illegal transition")
unfolding transition allowed successors ordinal lookup
skipped = refl

table_added :
    add (new_request "r4" 8) table
    ≡ (ok tt, record table { requests = insert "r4" (new_request "r4" 8) table.requests })
unfolding add lookup
table_added = refl

add-remove_example :
    let t' = record table { requests = insert "r4" (new_request "r4" 8) table.requests } in
    (get "r4" t' ≡ some (new_request "r4" 8))
    × ((remove "r4" t').0 ≡ some (new_request "r4" 8))
    × (get "r4" (remove "r4" t').1 ≡ none)
    × (add (new_request "r4" 8) t' ≡ (err (assertion_error "duplicate request id"), t'))
add-remove_example =
    add-remove (new_request "r4" 8) table
      (record table { requests = insert "r4" (new_request "r4" 8) table.requests }) table_added

abbrev served : RequestInfo
served =
    enter finished as_it_is 9
      (enter decoding as_it_is 8 (enter kv_pending as_it_is 7 (enter prefilling as_it_is 6 fresh)))

served-Life : Life fresh (finished ∷ decoding ∷ kv_pending ∷ prefilling ∷ []) served
unfolding allowed successors ordinal enter
served-Life =
    then_enter finished as_it_is 9
      (then_enter decoding as_it_is 8
        (then_enter kv_pending as_it_is 7 (then_enter prefilling as_it_is 6 begin refl) refl) refl)
      refl

abbrev failed : RequestInfo
failed = enter aborted as_it_is 10 served

failed-Life : Life served (aborted ∷ []) failed
unfolding allowed successors ordinal enter
failed-Life = then_enter aborted as_it_is 10 begin refl

Life-terminal_example : is_terminal failed.state ≡ true
unfolding enter
Life-terminal_example = Life-terminal failed-Life refl

Life-finished_example :
    any (same_state decoding) (finished ∷ decoding ∷ kv_pending ∷ prefilling ∷ []) ≡ true
unfolding enter
Life-finished_example = Life-finished served-Life refl refl

abbrev third : RequestInfo
third = record (new_request "r3" 5) { state = decoding }

third_there : get "r3" table ≡ some third
unfolding lookup
third_there = refl

record_first_token_once_example :
    let (b, t') = record_first_token "r3" 20 table in
    (b ≡ true)
    × (t'.ttfts ≡ pos 15000 ∷ [])
    × ((path : String) × (t'.stage_latencies ≡ (path, pos 15000) ∷ [])
        × (((path ≡ "affinity") × (0 < third.cached_prefix_tokens))
            ⊎ ((path ≡ "cold") × (third.cached_prefix_tokens ≡ 0))))
    × (record_first_token "r3" 21 t' ≡ (false, t'))
record_first_token_once_example =
    record_first_token_once "r3" 20 21 table third third_there refl refl (omega arith) (omega arith)
