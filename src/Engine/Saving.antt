-- ===== src/Engine/Saving.antt =====
-- `save_resume_data`, `checkpoint` and the ticks of `run_sweep` of rsbtd/src/engine/mod.rs: saves that
-- the engine posts itself, and their count.
use rsbtd.Base.{
  ℕ, suc, ◌+◌, ◌≡◌, refl, ap, ◌∙◌, Bool, true, false, ◌&&◌, ◌||◌, List, [], ◌∷◌, ◌++◌, Option, some,
  arith, if◌then◌else◌,
}
use rsbtd.Base.Set
use rsbtd.Alerts.{Session, resume_save_info_dict, resume_flush_disk_cache, resume_only_if_modified}
use rsbtd.Errors.{Result, Done, ok, err, not_found}
use rsbtd.Inflight.{Process, alive, ◌>>=◌, inc, dec}
use rsbtd.Registry.{TorrentEntry}
use rsbtd.Correlate.{Wait, returned, Post, request}
use rsbtd.Engine.{live_handle, session}
use rsbtd.Events.{Bytes}
use rsbtd.Persist.{Persister}
use rsbtd.Engine.Settings.{Scheduled, persist_session_state}
use rsbtd.Engine.Queries.{Call, of_torrent, save_answer}

-- The post of a save: counted before, and undone where the handle refuses it.
unfoldable pub post_save : Session → TorrentEntry → ℕ → Process (ℕ × Post)
post_save s entry inflight =
    let n = inc inflight in
    if s.saves entry.token resume_save_info_dict
    then alive (n, ok tt)
    else (do k ← dec n; alive (k, err not_found))

unfoldable pub save_resume_data :
    Option Session → TorrentEntry → Call → ℕ → Process (ℕ × (Bool × Wait Done))
save_resume_data running entry c inflight = elim (live_handle running entry) [
  | err e ↦ alive (inflight, (false, returned (err e) (c.during ++ c.later)))
  | ok s ↦
      if c.cancelled
      then alive
          (inflight, request true (ok tt) c.during c.later (of_torrent entry.uuid save_answer))
      else (do
        r ← post_save s entry inflight
        alive (r.0, request false r.1 c.during c.later (of_torrent entry.uuid save_answer)))
]

-- One turn of the loops of `checkpoint` and `run_sweep`, which post a save of a torrent that is in the
-- session and `wanted`.
unfoldable pub save_one : Session → ℕ → Bool → TorrentEntry → ℕ → Process ℕ
save_one s flags wanted entry inflight =
    if s.has_token entry.token
    then if wanted
      then if s.saves entry.token flags then alive (inc inflight) else dec (inc inflight)
      else alive inflight
    else alive inflight

unfoldable pub save_all : Session → ℕ → (TorrentEntry → Bool) → List TorrentEntry → ℕ → Process ℕ
save_all s flags wanted [] inflight = alive inflight
save_all s flags wanted (entry ∷ entries) inflight = do
  n ← save_one s flags (wanted entry) entry inflight
  save_all s flags wanted entries n

-- `needs` is `need_save_resume_data` by token.
abbrev pub wants_flush : (ℕ → Bool) → List ℕ → TorrentEntry → Bool
wants_flush needs dirty entry = needs entry.token || Set.contains entry.uuid dirty

abbrev pub wants_sweep : (ℕ → Bool) → TorrentEntry → Bool
wants_sweep needs entry = needs entry.token

abbrev pub flush_flags : ℕ
flush_flags = resume_save_info_dict + resume_flush_disk_cache

abbrev pub sweep_flags : ℕ
sweep_flags = resume_only_if_modified + resume_save_info_dict

unfoldable pub flush : Session → (ℕ → Bool) → List ℕ → List TorrentEntry → ℕ → Process ℕ
flush s needs dirty entries inflight =
    save_all s flush_flags (wants_flush needs dirty) entries inflight

-- One tick of the sweep.
unfoldable pub sweep : Session → (ℕ → Bool) → List TorrentEntry → ℕ → Process ℕ
sweep s needs entries inflight = save_all s sweep_flags (wants_sweep needs) entries inflight

-- The write of the session state that ends a checkpoint. `locks` says whether `session_state_lock` is
-- had in time; each failure is only logged. A write that outlasts the deadline goes on by itself.
unfoldable pub checkpoint_state :
    Bool → Bool → Result Bytes → ℕ → Scheduled → Persister → Process Persister
checkpoint_state true true (ok bytes) k how p = do
  r ← persist_session_state k bytes how p
  alive (r.0)
checkpoint_state true true (err e) k how p = alive p
checkpoint_state true false saved k how p = alive p
checkpoint_state false locks saved k how p = alive p

-- How many torrents have a save under way behind such a loop.
abbrev pub count_saved : Session → ℕ → (TorrentEntry → Bool) → List TorrentEntry → ℕ
count_saved s flags wanted [] = 0
count_saved s flags wanted (entry ∷ entries) =
    let rest = count_saved s flags wanted entries in
    if s.has_token entry.token && wanted entry && s.saves entry.token flags then suc rest else rest

save_one_lem :
    (s : Session) (flags : ℕ) (wanted : Bool) (entry : TorrentEntry) (n : ℕ)
    → save_one s flags wanted entry n
      ≡ alive (if s.has_token entry.token && wanted && s.saves entry.token flags then suc n else n)
unfolding save_one inc dec
save_one_lem s flags wanted entry n = ground arith

save_all-counts :
    (s : Session) (flags : ℕ) (wanted : TorrentEntry → Bool) (entries : List TorrentEntry) (n : ℕ)
    → save_all s flags wanted entries n ≡ alive (count_saved s flags wanted entries + n)
unfolding save_all
save_all-counts s flags wanted [] n = ap alive (omega arith)
save_all-counts s flags wanted (entry ∷ entries) n =
    let taken = s.has_token entry.token && wanted entry && s.saves entry.token flags in
    ap (λ m. m >>= (λ k. save_all s flags wanted entries k))
      (save_one_lem s flags (wanted entry) entry n)
    ∙ save_all-counts s flags wanted entries (if taken then suc n else n)
    ∙ ap alive (ground arith)

-- How many entries have the property.
abbrev pub count_where : (TorrentEntry → Bool) → List TorrentEntry → ℕ
count_where p [] = 0
count_where p (entry ∷ entries) =
    let rest = count_where p entries in if p entry then suc rest else rest

count_saved-where :
    (s : Session) (flags : ℕ) (wanted : TorrentEntry → Bool) (entries : List TorrentEntry)
    → count_saved s flags wanted entries
      ≡ count_where (λ e. s.has_token e.token && wanted e && s.saves e.token flags) entries
count_saved-where s flags wanted [] = refl
count_saved-where s flags wanted (entry ∷ entries) =
    ground (arith, count_saved-where s flags wanted entries)

-- The flush of a checkpoint and a tick of the sweep never abort the process, and raise the count of
-- saves in flight by exactly the torrents in the session whose handle took the save. The flush asks
-- with the flags for the metadata and for a flush of the disk cache (3) those that changed or are in
-- the dirty set, since their last write failed. The sweep asks with the metadata flag and the five
-- flags for a change (250) those that changed.
pub flush-counts :
    (s : Session) (needs : ℕ → Bool) (dirty : List ℕ) (entries : List TorrentEntry) (n : ℕ)
    → (flush s needs dirty entries n
        ≡ alive (
            count_where
              (λ e.
                s.has_token e.token
                && (needs e.token || Set.contains e.uuid dirty)
                && s.saves e.token 3)
              entries
            + n))
      × (sweep s needs entries n
          ≡ alive (
              count_where (λ e. s.has_token e.token && needs e.token && s.saves e.token 250) entries
              + n))
unfolding flush sweep
flush-counts s needs dirty entries n = (
  save_all-counts s flush_flags (wants_flush needs dirty) entries n
      ∙ ap (λ k. alive (k + n)) (count_saved-where s flush_flags (wants_flush needs dirty) entries),
  save_all-counts s sweep_flags (wants_sweep needs) entries n
      ∙ ap (λ k. alive (k + n)) (count_saved-where s sweep_flags (wants_sweep needs) entries),
)

-- A save that is asked for never aborts the process, and counts exactly if it has been posted and the
-- handle took it. A refused one is undone and answers `not_found`.
pub save_resume_data-counts :
    (running : Option Session) (entry : TorrentEntry) (c : Call) (n : ℕ) (s : Session)
    → running ≡ some s
    → s.has_token entry.token ≡ true
    → c.cancelled ≡ false
    → save_resume_data running entry c n ≡ (
        if s.saves entry.token resume_save_info_dict
        then alive
            (suc n, request false (ok tt) c.during c.later (of_torrent entry.uuid save_answer))
        else alive (n, (true, returned (err not_found) (c.during ++ c.later))))
unfolding save_resume_data post_save live_handle session inc dec request
save_resume_data-counts running entry c n s r h k = ground arith
