-- ===== src/Replay/Writers.antt =====
-- Two processes that have one database open: the one that is behind forks the chain.
use governed_autonomy_substr.Base.{
  Dict, List, String, String-discrete, [], arith, err, false, inl, inr, map, ok, refl, sym,
  value_error, ◌++◌, ◌∷◌, ◌≡◌, ◌⊎◌,
}
use governed_autonomy_substr.Platform.{Platform}
use governed_autonomy_substr.Replay.Chain.{verify_frames-append}
use governed_autonomy_substr.Replay.Durable.{
  All-append, InStep, ReadsBack, map-append, read_rows-SameRows, verify_frames-SameRows,
}
use governed_autonomy_substr.Replay.Frame.{ReplayFrame, create_frame}
use governed_autonomy_substr.Replay.KeyOrder.{SortsKeys}
use governed_autonomy_substr.Replay.Log.{head_hash, verify_chain, verify_frames}
use governed_autonomy_substr.Replay.Sqlite.{
  SqliteLog, append_row, has_frame_hash, has_frame_id, open_log, read_rows, row_of,
}
use governed_autonomy_substr.Value.{Value}

append-two :
    (fs : List ReplayFrame) (f g : ReplayFrame) → (fs ++ f ∷ []) ++ g ∷ [] ≡ fs ++ f ∷ g ∷ []
append-two [] f g = refl
append-two (x ∷ fs) f g = cc (append-two fs f g)

module _ ⦃p : Platform⦄ (dump : Value → String) where
  append_row-ok :
      (frame_id : String) (event : Dict Value) (s s' : SqliteLog)
      → append_row dump frame_id event s ≡ ok s'
      → s'.database.replay_frames
        ≡ s.database.replay_frames
          ++ row_of dump (create_frame frame_id (head_hash s.log) event) ∷ []
  unfolding append_row
  append_row-ok frame_id event s s' e = ground arith

  -- The chain breaks at the second frame unless the first has the hash of the head.
  verify_frames-forked :
      (h i j : String) (event event' : Dict Value)
      → (verify_frames h (create_frame i h event ∷ create_frame j h event' ∷ []) ≡ false)
        ⊎ ((create_frame i h event).frame_hash ≡ h)
  unfolding verify_frames create_frame
  verify_frames-forked h i j event event' =
      elim (String-discrete h (create_frame i h event).frame_hash) [
        | yes same ↦ inr (sym same)
        | no other ↦ inl (ground arith)
      ]

  append_row-taken :
      (frame_id : String) (event : Dict Value) (s : SqliteLog)
      → has_frame_id frame_id s.database.replay_frames ≡ false
      → has_frame_hash
          (create_frame frame_id (head_hash s.log) event).frame_hash
          s.database.replay_frames
        ≡ false
      → (s' : SqliteLog) × (append_row dump frame_id event s ≡ ok s')
  unfolding append_row
  append_row-taken frame_id event s new_id new_hash = (
    record {
      database = record (s.database) {
        replay_frames =
            s.database.replay_frames
            ++ row_of dump (create_frame frame_id (head_hash s.log) event) ∷ [];
      };
      log = record (s.log) {
        frames = s.log.frames ++ create_frame frame_id (head_hash s.log) event ∷ [];
      };
    },
    ground arith,
  )

  -- When a log that is in step with its database appends a frame, and another instance that has the log of
  -- before in memory then appends one of its own, whose id and hash are not in the table, then the database
  -- takes the second frame as well, and afterwards no process can open it: the chain is broken, unless the
  -- first frame's hash is the one that it links to. The hypotheses on json are that it reads the events back
  -- up to the order of keys and writes the same text for values that differ in that order only.
  pub stale_append :
      (i j : String) (event event' : Dict Value) (s a : SqliteLog)
      → SortsKeys
      → InStep dump s
      → ReadsBack dump event
      → ReadsBack dump event'
      → append_row dump i event s ≡ ok a
      → has_frame_id j a.database.replay_frames ≡ false
      → has_frame_hash (create_frame j (head_hash s.log) event').frame_hash a.database.replay_frames
        ≡ false
      → (b : SqliteLog) × (append_row dump j event' (record { database = a.database; log = s.log })
          ≡ ok b)
        × ((open_log dump b.database
              ≡ err (value_error "SQLite replay log contains an invalid hash chain"))
            ⊎ ((create_frame i (head_hash s.log) event).frame_hash ≡ head_hash s.log))
  unfolding open_log verify_chain create_frame
  stale_append i j event event' s a sorts h reads reads' first new_id new_hash =
      let head = head_hash s.log in
      let f = create_frame i head event in
      let g = create_frame j head event' in
      let stale : SqliteLog = record { database = a.database; log = s.log } in
      let (b, taken) = append_row-taken j event' stale new_id new_hash in
      let rows_a = append_row-ok i event s a first in
      let rows_b = append_row-ok j event' stale b taken in
      let rows_s = h.rows_eq in
      let all_frames = (s.log.frames ++ f ∷ []) ++ g ∷ [] in
      let readable =
        All-append dump (s.log.frames ++ f ∷ []) g (All-append dump s.log.frames f h.readable reads)
          reads' in
      let (frames, read, same) = read_rows-SameRows dump all_frames readable in
      let rows_eq : b.database.replay_frames ≡ map (row_of dump) all_frames =
        rw
          (
            rows_b,
            rows_a,
            rows_s,
            map-append dump (s.log.frames ++ f ∷ []) g,
            map-append dump s.log.frames f,
          )
          refl in
      let loaded : read_rows dump b.database.replay_frames ≡ ok frames = rw rows_eq read in
      let kept = verify_frames-SameRows dump sorts "" all_frames frames same in
      (
        b,
        taken,
        elim (verify_frames-forked head i j event event') [
          | inr equal ↦ inr equal
          | inl broken ↦
              let split = verify_frames-append "" s.log.frames (f ∷ g ∷ []) in
              let forked : verify_frames "" all_frames ≡ false =
                rw (append-two s.log.frames f g, split, broken) (ground arith) in
              inl (ground arith)
        ],
      )
