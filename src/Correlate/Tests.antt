-- ===== src/Correlate/Tests.antt =====
-- The theorems on requests at concrete runs of the bus.
use rsbtd.Base.{ℕ, ◌≡◌, refl, true, false, List, [], ◌∷◌, some}
use rsbtd.Events.{Event, EventKind}
use rsbtd.Errors.{ok, err, timeout}
use rsbtd.Correlate.{
  event, lagged, elapsed, Matcher, request, request_serialized, is_torrent, dropped, held,
}
use rsbtd.Engine.Queries.{of_torrent, move_answer}
use rsbtd.Correlate.Answer.{Requested, request-Waited}
use rsbtd.Correlate.Lock.{answer_releases, lost_answer-held}

-- The matcher of a move of the torrent 1.
abbrev moved : Matcher (List ℕ)
moved = of_torrent 1 move_answer

abbrev other_torrent : Event
other_torrent = record { torrent = some 2; kind = EventKind.storage_moved (8 ∷ []) }

abbrev reply : Event
reply = record { torrent = some 1; kind = EventKind.storage_moved (9 ∷ []) }

request-Waited_example :
    Requested false
      (ok tt)
      (event other_torrent ∷ event reply ∷ elapsed ∷ [])
      moved
      (request false (ok tt) (event other_torrent ∷ []) (event reply ∷ elapsed ∷ []) moved)
request-Waited_example =
    request-Waited false (ok tt) (event other_torrent ∷ []) (event reply ∷ elapsed ∷ []) moved

-- The request times out, and its late answer releases the lock.
answer_releases_example :
    request_serialized false 1
      (ok tt)
      (event other_torrent ∷ [])
      (elapsed ∷ event reply ∷ event other_torrent ∷ [])
      moved
    ≡ (true, (some (err timeout), dropped (event other_torrent ∷ [])))
unfolding is_torrent
answer_releases_example =
    answer_releases moved 1 (event other_torrent ∷ [])
      (elapsed ∷ event reply ∷ event other_torrent ∷ []) (event other_torrent ∷ elapsed ∷ [])
      (event other_torrent ∷ []) reply (ok (9 ∷ [])) refl ((refl, refl), (tt, tt)) refl

lost_answer-held_example :
    request_serialized false 1
      (ok tt)
      (lagged 5 ∷ [])
      (event other_torrent ∷ elapsed ∷ event other_torrent ∷ [])
      moved
    ≡ (true, (some (err timeout), held))
unfolding is_torrent
lost_answer-held_example =
    lost_answer-held moved 1 (lagged 5 ∷ [])
      (event other_torrent ∷ elapsed ∷ event other_torrent ∷ [])
      (lagged 5 ∷ event other_torrent ∷ []) (event other_torrent ∷ []) refl (tt, (refl, tt))
      ((refl, refl), tt)
