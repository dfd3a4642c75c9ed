-- ===== src/Governor/Retry.antt =====
-- The retry budget and the end of a request, prism_serve/scheduler/transfer_governor.py.
use prism_serve.Base.{◌+◌, String, none, leb, if◌then◌else◌, get_or, nat_key, text_key, pair_key}
use prism_serve.Base.Dict.{lookup, insert, erase}
use prism_serve.Governor.State.{Governor}
use prism_serve.Governor.Transfers.{cancel}

pub data Decision : Type 0 where
  recompute abort : Decision

unfoldable pub on_transfer_failure : String → Governor → Decision × Governor
on_transfer_failure req_id g =
    let count = get_or (lookup req_id g.recompute_counts) 0 in
    if leb g.max_recompute count
    then (abort, record g { recompute_counts = erase req_id g.recompute_counts })
    else (recompute, record g { recompute_counts = insert req_id (count + 1) g.recompute_counts })

unfoldable pub finish_request : String → Governor → Governor
finish_request req_id g =
    let g' = (cancel req_id none g).1 in
    record g' { recompute_counts = erase req_id g'.recompute_counts }
