-- ===== src/Replay/Sqlite.antt =====
-- `SQLiteReplayLog` of replay.py. A table is a list of its rows, `replay_frames` in the order of the row ids,
-- and a commit is a new database. `dump` is `json.dumps(event, sort_keys=True, separators=(",", ":"))`.
use governed_autonomy_substr.Base.{
  Bool, Dict, List, Outcome, String, [], any, eq_text, is_in, not, ok, or_raise, raise_if,
  type_error, value_error, ◌++◌, ◌>>=◌, ◌>>◌, ◌||◌, ◌∷◌, ◌⧺◌,
}
use governed_autonomy_substr.Platform.{Platform}
use governed_autonomy_substr.Replay.Frame.{ReplayFrame, create_frame}
use governed_autonomy_substr.Replay.Log.{ReplayLog, head_hash, verify_chain}
use governed_autonomy_substr.Value.{Value, as_dict, dict}

pub record FrameRow : Type 0 where
  pub frame_id : String
  pub previous_hash : String
  pub event_json : String
  pub frame_hash : String

pub record Database : Type 0 where
  pub replay_frames : List FrameRow
  pub consumed_nonces : List String

-- An open log: its database, and what the process has of it in memory.
pub record SqliteLog : Type 0 where
  pub database : Database
  pub log : ReplayLog

abbrev pub empty_database : Database
empty_database = record { replay_frames = []; consumed_nonces = [] }

-- The keys that PRIMARY KEY and UNIQUE protect.
abbrev pub has_frame_id : String → List FrameRow → Bool
has_frame_id frame_id rows = any (λ (r : FrameRow). eq_text r.frame_id frame_id) rows

abbrev pub has_frame_hash : String → List FrameRow → Bool
has_frame_hash frame_hash rows = any (λ (r : FrameRow). eq_text r.frame_hash frame_hash) rows

module _ ⦃p : Platform⦄ (dump : Value → String) where
  abbrev pub row_of : ReplayFrame → FrameRow
  row_of f = record {
    frame_id = f.frame_id;
    previous_hash = f.previous_hash;
    event_json = dump (dict f.event);
    frame_hash = f.frame_hash;
  }

  unfoldable pub append_row : String → Dict Value → SqliteLog → Outcome SqliteLog
  append_row frame_id event s = do
    let frame = create_frame frame_id (head_hash s.log) event
    raise_if
        (has_frame_id frame_id s.database.replay_frames
          || has_frame_hash frame.frame_hash s.database.replay_frames)
        (value_error ("replay frame already exists: " ⧺ frame_id))
    ok (record {
      database = record (s.database) {
        replay_frames = s.database.replay_frames ++ row_of frame ∷ [];
      };
      log = record (s.log) { frames = s.log.frames ++ frame ∷ [] };
    })

  unfoldable pub claim_row : String → SqliteLog → Outcome SqliteLog
  claim_row nonce s = do
    raise_if (is_in nonce s.database.consumed_nonces)
        (value_error ("nonce already consumed: " ⧺ nonce))
    ok (record {
      database = record (s.database) { consumed_nonces = nonce ∷ s.database.consumed_nonces };
      log = record (s.log) { used_nonces = nonce ∷ s.log.used_nonces };
    })

  -- `json.loads` of a row's event. An event that is no object is refused here; the source fails on it when
  -- it verifies the chain.
  unfoldable pub read_row : FrameRow → Outcome ReplayFrame
  read_row r = do
    value ← or_raise (p.json_loads r.event_json) (value_error "JSONDecodeError")
    event ← or_raise (as_dict value) (type_error "event is no object")
    ok (record {
      frame_id = r.frame_id;
      previous_hash = r.previous_hash;
      event = event;
      frame_hash = r.frame_hash;
    })

  unfoldable pub read_rows : List FrameRow → Outcome (List ReplayFrame)
  read_rows [] = ok []
  read_rows (r ∷ rows) = do frame ← read_row r; frames ← read_rows rows; ok (frame ∷ frames)

  unfoldable pub open_log : Database → Outcome SqliteLog
  unfolding read_rows
  open_log d = do
    frames ← read_rows d.replay_frames
    let log : ReplayLog = record { frames = frames; used_nonces = d.consumed_nonces }
    raise_if (not (verify_chain log))
        (value_error "SQLite replay log contains an invalid hash chain")
    ok (record { database = d; log = log })
