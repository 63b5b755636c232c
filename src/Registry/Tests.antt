-- ===== src/Registry/Tests.antt =====
-- Runs of the registry of registry.rs, and its theorems at them.
use rsbtd.Base.{◌≡◌, refl, true, some}
use rsbtd.Base.Map.{get, insert, remove}
use rsbtd.Registry.{
  Registry, TorrentEntry, new, resolve, get_id, find, find_by_token, register, upsert,
  remove_by_token, remove_uuid, len, is_empty,
}
use rsbtd.Registry.Invariant.{Inv, new-Inv, upsert-Inv}
use rsbtd.Registry.Removal.{Without, remove_by_token-Without}

abbrev entry_one : TorrentEntry
entry_one = record { id = 7; token = 100; uuid = 1; added_at = 0 }

abbrev one : Registry
one = (upsert new 7 100 1 0).0

-- The run of the source's own test: the same id again, with other parameters.
same_id_wins : (upsert one 7 999 2 5).1 ≡ entry_one
unfolding upsert new get_id resolve get register insert
same_id_wins = refl

removed_is_gone : is_empty (remove_by_token one 100).0 ≡ true
unfolding upsert new get_id resolve get register insert remove_by_token remove_uuid remove is_empty
    len
removed_is_gone = refl

one-Inv : Inv one
one-Inv =
    upsert-Inv new 7 100 1 0
      (λ h. (unfold find new get in refl, unfold find_by_token resolve new get in refl)) new-Inv

upsert-Inv_example : Inv (upsert one 8 101 3 1).0
upsert-Inv_example =
    upsert-Inv one 8 101 3 1
      (λ h. (
        unfold find new get get_id resolve upsert register insert in refl,
        unfold find_by_token find new get get_id resolve upsert register insert in refl,
      ))
      one-Inv

one-find : get_id one 7 ≡ some entry_one
unfolding upsert new get_id resolve get register insert
one-find = refl

one-find_token : find_by_token one 100 ≡ some entry_one
unfolding upsert new get_id resolve get register insert find_by_token
one-find_token = refl

remove_by_token-Without_example :
    ((remove_by_token one 100).1 ≡ some entry_one)
    × Without one entry_one (remove_by_token one 100).0
remove_by_token-Without_example = remove_by_token-Without one entry_one 100 one-Inv one-find_token
