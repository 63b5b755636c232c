-- ===== src/Engine/Rollback.antt =====
-- A change of the session is durable or undone (rsbtd/src/engine/mod.rs).
use rsbtd.Base.{
  inl, inr, ◌⊎◌, if◌then◌else◌, Option, is_some, ℕ, ◌≡◌, refl, ◌∙◌, ap, sym, subst, Bool, true,
  false, List, [], ◌∷◌, ◌++◌, none, some, arith, ==_refl,
}
use rsbtd.Events.{Bytes}
use rsbtd.Errors.{Done, Result, ok, err, EngineError}
use rsbtd.Inflight.{alive, Alive, Alive-map, >>=-Alive}
use rsbtd.Persist.{
  session_state, resume_file, Persister, Blocking, returned, panicked, blocking_write, send_ack,
  process,
}
use rsbtd.Persist.Atomic.{write_atomic_result}
use rsbtd.Persist.Operation.{blocking_write-Kept}
use rsbtd.Engine.Settings.{
  override, SettingsPack, ack_of, durable, Scheduled, closed, lost, taken, persist_session_state,
  keep_own, change_session, change_from, conclude, save_and_persist, rolled_back, apply_settings,
  set_ip_filter,
}

blocking_write-session :
    (b : Bytes) (bl : Blocking) (s : Persister)
    → (blocking_write session_state b bl s).1 ≡ true
    → (blocking_write session_state b bl s).0.disk session_state ≡ some b
unfolding blocking_write
blocking_write-session b (panicked d) s h = cc
blocking_write-session b (returned f) s h = ground (
  arith,
  write_atomic_result session_state s.pid s.tmp_seq b f s.disk (resume_file 0) (λ e. cc) (λ e. cc),
)

-- The first message in a channel that was empty.
ack_of-sent :
    (k : ℕ) (result : Bool) (acks : List (ℕ × Bool))
    → ack_of k acks ≡ none
    → ack_of k (acks ++ ((k, result) ∷ [])) ≡ some result
ack_of-sent k result [] h = ground (arith, ==_refl k)
ack_of-sent k result ((j, r) ∷ acks) h = ground (arith, ack_of-sent k result acks)

-- An acknowledged write of the session state is on disk.
abbrev Written : Bytes → Persister × Result Done → Type 0
Written bytes (q, ok u) = q.disk session_state ≡ some bytes
Written bytes (q, err e) = Unit

durable-Written :
    (bytes : Bytes) (q : Persister) (result : Bool)
    → (result ≡ true → q.disk session_state ≡ some bytes)
    → Written bytes (q, durable (some result))
durable-Written bytes q true h = h refl
durable-Written bytes q false h = tt

persist_session_state-Written :
    (k : ℕ) (bytes : Bytes) (how : Scheduled) (p : Persister)
    → ack_of k p.acks ≡ none
    → Alive (Written bytes) (persist_session_state k bytes how p)
unfolding persist_session_state process send_ack
persist_session_state-Written k bytes closed p h = tt
persist_session_state-Written k bytes lost p h = tt
persist_session_state-Written k bytes (taken b) p h =
    let (s, result) = blocking_write session_state bytes b p in
    let kept = blocking_write-Kept session_state bytes b p in
    let q : Persister = record s { acks = s.acks ++ ((k, result) ∷ []) } in
    subst (λ a. Written bytes (q, durable a))
      (sym (ack_of-sent k result s.acks (ap (ack_of k) kept.acks ∙ h)))
      (durable-Written bytes q result (blocking_write-session bytes b p))

module _ {S C : Type 0} (apply : C → S → Result S) (current : S → Result C)
    (save_state : S → Result Bytes) where
  -- The session reads as before, or it refused to take the previous values back.
  abbrev pub Undone : C → S → S → Type 0
  Undone change s t =
      (current t ≡ current s)
      ⊎ ((previous : C) × (refusal : EngineError) × (current s ≡ ok previous)
          × (apply change s ≡ ok t)
          × (apply previous t ≡ err refusal))

  -- Success: the change holds, and the session state with it is on disk. Failure: it is undone.
  abbrev pub DurableOrUndone : C → S → S × Persister × Result Done → Type 0
  DurableOrUndone change s (t, q, ok u) =
      (apply change s ≡ ok t)
      × ((bytes : Bytes) × (save_state t ≡ ok bytes) × (q.disk session_state ≡ some bytes))
  DurableOrUndone change s (t, q, err e) = Undone change s t

  abbrev pub SavedState : S → Persister × Result Done → Type 0
  SavedState t (q, ok u) =
      (bytes : Bytes) × (save_state t ≡ ok bytes) × (q.disk session_state ≡ some bytes)
  SavedState t (q, err e) = Unit

module _ {S C : Type 0} (apply : C → S → Result S) (current : S → Result C)
    (save_state : S → Result Bytes)
    (reads_back : (s t u : S) (c : C)
      → current s ≡ ok c
      → apply c t ≡ ok u
      → current u ≡ ok c) where
  rolled_back-Undone :
      (change previous : C) (s t : S) (r : Result S)
      → current s ≡ ok previous
      → apply change s ≡ ok t
      → apply previous t ≡ r
      → Undone apply current save_state change s (rolled_back apply current save_state t r)
  rolled_back-Undone change previous s t (ok u) c a h = inl (reads_back s t u previous c h ∙ sym c)
  rolled_back-Undone change previous s t (err e) c a h = inr (previous, e, c, a, h)

  conclude-DurableOrUndone :
      (change previous : C) (s t : S) (r : Persister × Result Done)
      → current s ≡ ok previous
      → apply change s ≡ ok t
      → SavedState apply current save_state t r
      → DurableOrUndone apply current save_state change s
          (conclude apply current save_state previous t r)
  conclude-DurableOrUndone change previous s t (q, ok u) c a w = (a, w)
  conclude-DurableOrUndone change previous s t (q, err e) c a w =
      rolled_back-Undone change previous s t (apply previous t) c a refl

  Written-SavedState :
      (t : S) (bytes : Bytes) (r : Persister × Result Done)
      → save_state t ≡ ok bytes
      → Written bytes r
      → SavedState apply current save_state t r
  Written-SavedState t bytes (q, ok u) h w = (bytes, h, w)
  Written-SavedState t bytes (q, err e) h w = tt

  save_and_persist-SavedState :
      (k : ℕ) (how : Scheduled) (t : S) (b : Result Bytes) (p : Persister)
      → save_state t ≡ b
      → ack_of k p.acks ≡ none
      → Alive
          (SavedState apply current save_state t)
          (save_and_persist apply current save_state k how b p)
  save_and_persist-SavedState k how t (ok bytes) p h a =
      Alive-map (Written bytes) (SavedState apply current save_state t)
        (persist_session_state k bytes how p) (persist_session_state-Written k bytes how p a)
        (λ r w. Written-SavedState t bytes r h w)
  save_and_persist-SavedState k how t (err e) p h a = tt

  change_from-DurableOrUndone :
      (k : ℕ) (how : Scheduled) (change : C) (s : S) (p : Persister) (c : Result C) (t : Result S)
      → current s ≡ c
      → apply change s ≡ t
      → ack_of k p.acks ≡ none
      → Alive
          (DurableOrUndone apply current save_state change s)
          (change_from apply current save_state k how s p c t)
  change_from-DurableOrUndone k how change s p (err e) t c a h = inl refl
  change_from-DurableOrUndone k how change s p (ok v) (err e) c a h = inl refl
  change_from-DurableOrUndone k how change s p (ok v) (ok t) c a h =
      >>=-Alive (SavedState apply current save_state t)
        (DurableOrUndone apply current save_state change s)
        (save_and_persist apply current save_state k how (save_state t) p)
        (λ r. alive (conclude apply current save_state v t r))
        (save_and_persist-SavedState k how t (save_state t) p refl h)
        (λ r w. conclude-DurableOrUndone change v s t r c a w)

  change_session-DurableOrUndone :
      (k : ℕ) (how : Scheduled) (change : C) (running : Bool) (s : S) (p : Persister)
      → ack_of k p.acks ≡ none
      → Alive
          (DurableOrUndone apply current save_state change s)
          (change_session apply current save_state k how change running s p)
  unfolding change_session
  change_session-DurableOrUndone k how change true s p h =
      change_from-DurableOrUndone k how change s p (current s) (apply change s) refl refl h
  change_session-DurableOrUndone k how change false s p h = inl refl

-- The pack with the daemon's alert mask and queue size wherever it names one of its own.
abbrev pub with_own : ℕ → SettingsPack → SettingsPack
with_own mask pack = record {
  alert_mask = if is_some pack.alert_mask then some mask else none;
  alert_queue_size = if is_some pack.alert_queue_size then some 2147483647 else none;
  others = pack.others;
}

own_if : (o : Option ℕ) (v : ℕ) → override o v ≡ (if is_some o then some v else none)
own_if none v = refl
own_if (some x) v = refl

keep_own-with_own : (mask : ℕ) (pack : SettingsPack) → keep_own mask pack ≡ with_own mask pack
unfolding keep_own
keep_own-with_own mask pack = λ i. record {
  alert_mask = own_if pack.alert_mask mask i;
  alert_queue_size = own_if pack.alert_queue_size 2147483647 i;
  others = pack.others;
}

-- A settings change that is acknowledged is in effect, with the daemon's alert mask and queue size in
-- place of those that it names, and the session state with it is on disk. Behind any failure, of the
-- session, of the serialization or of the write, the settings read as before, unless the session took
-- the change and then refuses the previous settings: then the change stays. This is if a session that
-- takes a full pack that was read from it then reads as that pack, and the oneshot channel `k` is new.
pub apply_settings-DurableOrUndone :
    {S : Type 0} (apply : SettingsPack → S → Result S) (settings : S → Result SettingsPack)
    (save_state : S → Result Bytes)
    (reads_back : (s t u : S) (c : SettingsPack)
      → settings s ≡ ok c
      → apply c t ≡ ok u
      → settings u ≡ ok c)
    (mask k : ℕ) (how : Scheduled) (pack : SettingsPack) (running : Bool) (s : S) (p : Persister)
    → ack_of k p.acks ≡ none
    → Alive
        (DurableOrUndone apply settings save_state (with_own mask pack) s)
        (apply_settings apply settings save_state mask k how pack running s p)
unfolding apply_settings
apply_settings-DurableOrUndone apply settings save_state reads_back mask k how pack running s p h =
    subst
      (λ change.
        Alive (DurableOrUndone apply settings save_state change s)
          (change_session apply settings save_state k how (keep_own mask pack) running s p))
      (keep_own-with_own mask pack)
      (change_session-DurableOrUndone apply settings save_state reads_back k how
        (keep_own mask pack) running s p h)

-- A change of the IP filter that is acknowledged is in effect and on disk, and one that fails is undone in
-- the same sense, under the same conditions.
set_ip_filter-DurableOrUndone :
    {S F : Type 0} (set : F → S → Result S) (get : S → Result F) (save_state : S → Result Bytes)
    (reads_back : (s t u : S) (c : F) → get s ≡ ok c → set c t ≡ ok u → get u ≡ ok c) (k : ℕ)
    (how : Scheduled) (filter : F) (running : Bool) (s : S) (p : Persister)
    → ack_of k p.acks ≡ none
    → Alive
        (DurableOrUndone set get save_state filter s)
        (set_ip_filter set get save_state k how filter running s p)
unfolding set_ip_filter
set_ip_filter-DurableOrUndone set get save_state reads_back k how filter running s p h =
    change_session-DurableOrUndone set get save_state reads_back k how filter running s p h
