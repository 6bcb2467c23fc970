-- ===== src/Replay/Durable.antt =====
-- The durable log does what the log in memory does, and opening its database again gives it up to the order of keys.
use governed_autonomy_substr.Base.{
  All, Dict, List, Outcome, Outcome-cases, String, [], ap, arith, err, false, inl, inr, is_in, map,
  ok, refl, some, subst, sym, true, ◌++◌, ◌∙◌, ◌∷◌, ◌≡◌,
}
use governed_autonomy_substr.Platform.{Platform}
use governed_autonomy_substr.Replay.Chain.{append-verify_chain}
use governed_autonomy_substr.Replay.Frame.{ReplayFrame, create_frame, frame_body}
use governed_autonomy_substr.Replay.KeyOrder.{
  Reordered, Reordered-dict, SortsKeys, insert_field, sort_keys,
}
use governed_autonomy_substr.Replay.Log.{
  ReplayLog, append, claim_nonce, empty_log, head_hash, verify_chain, verify_frames,
}
use governed_autonomy_substr.Replay.Sqlite.{
  FrameRow, SqliteLog, append_row, claim_row, empty_database, open_log, read_row, read_rows, row_of,
}
use governed_autonomy_substr.Value.{Value, dict, end, entries-fields, object, text}

-- The calls that change a log.
pub data LogCall : Type 0 where
  appending : String → Dict Value → LogCall
  claiming_nonce : String → LogCall

abbrev pub or_kept : Outcome SqliteLog → SqliteLog → SqliteLog
or_kept (ok s') s = s'
or_kept (err e) s = s

abbrev pub or_unclaimed : Outcome ReplayLog → ReplayLog → ReplayLog
or_unclaimed (ok log') log = log'
or_unclaimed (err e) log = log

abbrev pub if_committed : LogCall → Outcome SqliteLog → List LogCall → List LogCall
if_committed c (ok s') cs = c ∷ cs
if_committed c (err e) cs = cs

module _ ⦃p : Platform⦄ where
  -- The same calls on a log in memory.
  unfoldable pub in_memory : List LogCall → ReplayLog → ReplayLog
  in_memory [] log = log
  in_memory (appending frame_id event ∷ cs) log = in_memory cs (append frame_id event log)
  in_memory (claiming_nonce nonce ∷ cs) log =
      in_memory cs (or_unclaimed (claim_nonce nonce log) log)

  in_memory-first :
      (c : LogCall) (cs : List LogCall) (log : ReplayLog)
      → in_memory (c ∷ cs) log ≡ in_memory cs (in_memory (c ∷ []) log)
  unfolding in_memory
  in_memory-first (appending frame_id event) cs log = refl
  in_memory-first (claiming_nonce nonce) cs log = refl

  module _ (dump : Value → String) where
    unfoldable pub sqlite_call : LogCall → SqliteLog → Outcome SqliteLog
    sqlite_call (appending frame_id event) s = append_row dump frame_id event s
    sqlite_call (claiming_nonce nonce) s = claim_row dump nonce s

    -- The calls, each committed or rolled back; and those of them that are committed.
    unfoldable pub sqlite_run : List LogCall → SqliteLog → SqliteLog
    unfolding sqlite_call
    sqlite_run [] s = s
    sqlite_run (c ∷ cs) s = sqlite_run cs (or_kept (sqlite_call c s) s)

    unfoldable pub committed : List LogCall → SqliteLog → List LogCall
    unfolding sqlite_call
    committed [] s = []
    committed (c ∷ cs) s =
        if_committed c (sqlite_call c s) (committed cs (or_kept (sqlite_call c s) s))

    -- What json promises of an event: `loads` of what `dumps` has written is the event, in Python's equality of
    -- dicts, which leaves the order of their keys open.
    abbrev pub ReadsBack : Dict Value → Type 0
    ReadsBack event =
        (read : Value) × (p.json_loads (dump (dict event)) ≡ some read)
        × Reordered read (dict event)

    abbrev pub CallReadsBack : LogCall → Type 0
    CallReadsBack (appending frame_id event) = ReadsBack event
    CallReadsBack (claiming_nonce nonce) = Unit

    -- The memory and the database agree, and the chain verifies.
    pub record InStep (s : SqliteLog) : Type 0 where
      pub rows_eq : s.database.replay_frames ≡ map (row_of dump) s.log.frames
      pub nonces_eq : s.database.consumed_nonces ≡ s.log.used_nonces
      pub chain : verify_chain s.log ≡ true
      pub readable : All (λ (f : ReplayFrame). ReadsBack f.event) s.log.frames

    pub map-append :
        (fs : List ReplayFrame) (f : ReplayFrame)
        → map (row_of dump) (fs ++ f ∷ []) ≡ map (row_of dump) fs ++ row_of dump f ∷ []
    map-append [] f = refl
    map-append (g ∷ fs) f = cc (map-append fs f)

    pub All-append :
        (fs : List ReplayFrame) (f : ReplayFrame)
        → All (λ (g : ReplayFrame). ReadsBack g.event) fs
        → ReadsBack f.event
        → All (λ (g : ReplayFrame). ReadsBack g.event) (fs ++ f ∷ [])
    All-append [] f h k = (k, tt)
    All-append (g ∷ fs) f h k = (h.0, All-append fs f h.1 k)

    -- A call that is committed does to the memory what the call on a log in memory does.
    sqlite_call-InStep :
        (c : LogCall) (s s' : SqliteLog)
        → CallReadsBack c
        → InStep s
        → sqlite_call c s ≡ ok s'
        → InStep s' × (s'.log ≡ in_memory (c ∷ []) s.log)
    unfolding sqlite_call in_memory append_row claim_row append claim_nonce create_frame
        verify_chain
    sqlite_call-InStep (appending frame_id event) s s' reads h e =
        let frame = create_frame frame_id (head_hash s.log) event in
        let database_eq : s'.database ≡ record (s.database) {
          replay_frames = s.database.replay_frames ++ row_of dump frame ∷ [];
        } =
          ground arith in
        let log_eq : s'.log ≡ append frame_id event s.log = ground arith in
        let rows = h.rows_eq in
        let nonces = h.nonces_eq in
        (
          record {
            rows_eq =
                rw (database_eq, log_eq, map-append s.log.frames frame)
                  (ap (λ (x : List FrameRow). x ++ row_of dump frame ∷ []) rows);
            nonces_eq = rw (database_eq, log_eq) nonces;
            chain = rw log_eq (append-verify_chain frame_id event s.log h.chain);
            readable = rw log_eq (All-append s.log.frames frame h.readable reads);
          },
          log_eq,
        )
    sqlite_call-InStep (claiming_nonce nonce) s s' reads h e =
        let nonces = h.nonces_eq in
        let database_eq : s'.database
            ≡ record (s.database) { consumed_nonces = nonce ∷ s.database.consumed_nonces } =
          ground arith in
        let log_eq : s'.log ≡ record (s.log) { used_nonces = nonce ∷ s.log.used_nonces } =
          ground arith in
        let unused : is_in nonce s.log.used_nonces ≡ false = ground arith in
        (
          record {
            rows_eq = rw (database_eq, log_eq) (h.rows_eq);
            nonces_eq = rw (database_eq, log_eq) (ap (λ (x : List String). nonce ∷ x) nonces);
            chain = rw log_eq (h.chain);
            readable = rw log_eq (h.readable);
          },
          ground arith,
        )

    -- Of the calls on a log that is in step, those that are committed do what they do in memory.
    sqlite_run-InStep :
        (cs : List LogCall) (s : SqliteLog)
        → All CallReadsBack cs
        → InStep s
        → InStep (sqlite_run cs s) × ((sqlite_run cs s).log ≡ in_memory (committed cs s) s.log)
    unfolding sqlite_run committed in_memory
    sqlite_run-InStep [] s reads h = (h, refl)
    sqlite_run-InStep (c ∷ cs) s reads h = elim (Outcome-cases (sqlite_call c s)) [
      | inr (e, rolled_back) ↦
          let run_eq : sqlite_run (c ∷ cs) s ≡ sqlite_run cs s =
            ap (λ (o : Outcome SqliteLog). sqlite_run cs (or_kept o s)) rolled_back in
          let kept_eq : committed (c ∷ cs) s ≡ committed cs s =
            ap (λ (o : Outcome SqliteLog). if_committed c o (committed cs (or_kept o s)))
              rolled_back in
          rw (run_eq, kept_eq) (sqlite_run-InStep cs s reads.1 h)
      | inl (s', done) ↦
          let run_eq : sqlite_run (c ∷ cs) s ≡ sqlite_run cs s' =
            ap (λ (o : Outcome SqliteLog). sqlite_run cs (or_kept o s)) done in
          let kept_eq : committed (c ∷ cs) s ≡ c ∷ committed cs s' =
            ap (λ (o : Outcome SqliteLog). if_committed c o (committed cs (or_kept o s))) done in
          let (h', same) = sqlite_call-InStep c s s' reads.0 h done in
          let (h'', same') = sqlite_run-InStep cs s' reads.1 h' in
          let first = in_memory-first c (committed cs s') s.log in
          rw (run_eq, kept_eq) (h'', same' ∙ ap (in_memory (committed cs s')) same ∙ sym first)
    ]

    -- A frame that is read back: the same id and hashes, and the event up to the order of keys.
    abbrev pub SameRow : ReplayFrame → ReplayFrame → Type 0
    SameRow f g =
        (f.frame_id ≡ g.frame_id)
        × (f.previous_hash ≡ g.previous_hash)
        × (f.frame_hash ≡ g.frame_hash)
        × Reordered (dict f.event) (dict g.event)

    abbrev pub SameRows : List ReplayFrame → List ReplayFrame → Type 0
    SameRows [] [] = Unit
    SameRows (f ∷ fs) (g ∷ gs) = SameRow f g × SameRows fs gs
    SameRows _ _ = ⊥

    pub read_row-SameRow :
        (f : ReplayFrame)
        → ReadsBack f.event
        → (g : ReplayFrame) × (read_row dump (row_of dump f) ≡ ok g) × SameRow g f
    unfolding read_row
    read_row-SameRow f (read, loaded, same) =
        let (event, is_event) = Reordered-dict read f.event same in
        let event_eq = entries-fields event in
        let g : ReplayFrame = record f { event = event } in
        (
          g,
          rw (loaded, is_event, event_eq) refl,
          (refl, refl, refl, subst (λ (v : Value). Reordered v (dict f.event)) is_event same),
        )

    pub read_rows-SameRows :
        (fs : List ReplayFrame)
        → All (λ (f : ReplayFrame). ReadsBack f.event) fs
        → (gs : List ReplayFrame) × (read_rows dump (map (row_of dump) fs) ≡ ok gs) × SameRows gs fs
    unfolding read_rows
    read_rows-SameRows [] h = ([], refl, tt)
    read_rows-SameRows (f ∷ fs) h =
        let (g, read, same) = read_row-SameRow f h.0 in
        let (gs, others, same') = read_rows-SameRows fs h.1 in
        (g ∷ gs, rw (read, others, read_rows) refl, (same, same'))

    module _ (sorts : SortsKeys) where
      -- The hash of a frame does not see the order of keys in its event.
      create_frame-Reordered :
          (i h : String) (e e' : Dict Value)
          → Reordered (dict e) (dict e')
          → (create_frame i h e).frame_hash ≡ (create_frame i h e').frame_hash
      unfolding create_frame sort_keys
      create_frame-Reordered i h e e' same = ap p.sha256 (
          sorts (frame_body i h e) (frame_body i h e') (
            ap
              (λ (v : Value). object (
                insert_field "frame_id" (text i)
                  (insert_field "previous_hash" (text h) (insert_field "event" v end))))
              same))

      pub verify_frames-SameRows :
          (h : String) (fs gs : List ReplayFrame)
          → SameRows gs fs
          → verify_frames h gs ≡ verify_frames h fs
      unfolding verify_frames
      verify_frames-SameRows h [] [] same = refl
      verify_frames-SameRows h [] (g ∷ gs) same = elim same [ ]
      verify_frames-SameRows h (f ∷ fs) [] same = elim same [ ]
      verify_frames-SameRows h (f ∷ fs) (g ∷ gs) ((ids, previous, hashes, reordered), rest) =
          let expected = create_frame-Reordered f.frame_id h g.event f.event reordered in
          let tails = verify_frames-SameRows f.frame_hash fs gs rest in
          rw (ids, previous, hashes, expected, tails, verify_frames) refl

      open_log-InStep :
          (s : SqliteLog)
          → InStep s
          → (frames : List ReplayFrame) × (open_log dump s.database
              ≡ ok (record {
                database = s.database;
                log = record { frames = frames; used_nonces = s.log.used_nonces };
              }))
            × SameRows frames s.log.frames
      unfolding open_log verify_chain
      open_log-InStep s h =
          let rows = h.rows_eq in
          let nonces = h.nonces_eq in
          let verifies = h.chain in
          let (frames, read, same) = read_rows-SameRows s.log.frames h.readable in
          let loaded : read_rows dump s.database.replay_frames ≡ ok frames = rw rows read in
          let kept = verify_frames-SameRows "" s.log.frames frames same in
          (frames, ground arith, same)

      -- Refinement: on a fresh database, after any calls to append frames and to claim nonces, if json reads
      -- their events back up to the order of keys and writes the same text for values that differ in that
      -- order only, the log is the one that those of the calls that are committed make in memory; its chain
      -- verifies; and opening the database again, as a restarted process does, returns a log with the same
      -- used nonces and, frame for frame, the same ids, hashes and events up to the order of keys.
      pub sqlite_run-in_memory :
          (cs : List LogCall)
          → All CallReadsBack cs
          → let fresh : SqliteLog = record { database = empty_database; log = empty_log } in
            let s = sqlite_run cs fresh in
            (s.log ≡ in_memory (committed cs fresh) empty_log)
            × (verify_chain s.log ≡ true)
            × (frames : List ReplayFrame) × (open_log dump s.database
                ≡ ok (record {
                  database = s.database;
                  log = record { frames = frames; used_nonces = s.log.used_nonces };
                }))
            × SameRows frames s.log.frames
      unfolding empty_log verify_chain verify_frames
      sqlite_run-in_memory cs reads =
          let fresh : SqliteLog = record { database = empty_database; log = empty_log } in
          let (h, same) =
            sqlite_run-InStep cs fresh reads
              (record { rows_eq = refl; nonces_eq = refl; chain = refl; readable = tt }) in
          let (frames, opened, rows) = open_log-InStep (sqlite_run cs fresh) h in
          (same, h.chain, frames, opened, rows)
